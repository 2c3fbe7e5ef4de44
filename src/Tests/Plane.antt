-- ===== src/Tests/Plane.antt =====
-- Witnesses of the theorems on the administration plane, the public endpoints and the middleware.
use ouro_pass.Base.{
  select, Text, lit, text_eq, ℕ, ◌≡◌, refl, ◌⊎◌, true, false, Option, none, some, List, [], ◌∷◌,
}
use ouro_pass.Store.Domain.{
  confidential, nonce_admin_login, nonce_step_up, owner, operator, OAuthClient, SubscriptionSession,
  AdminUser, AdminSession, ChannelConfig, Db,
}
use ouro_pass.Store.Table.{find, count}
use ouro_pass.Store.Exec.{World}
use ouro_pass.Http.Flow.{text, Answer, Flow, go, stop}
use ouro_pass.Http.AdminLogin.{Deps, Head, StepUp}
use ouro_pass.Http.Members.{admin_revoke_member}
use ouro_pass.Http.ClientAdmin.{PushBody, admin_create_push_job, admin_regenerate_client_secret}
use ouro_pass.Http.ChannelAdmin.{admin_delete_channel}
use ouro_pass.Http.Routes.{cancel_subscription, rotate_key, min_role, admin_api}
use ouro_pass.Http.Guarded.{Session, admin_api-guarded}
use ouro_pass.Http.SteppedUp.{OnlyNonces, Signed, admin_api-stepped_up}
use ouro_pass.Http.Effects.{Removed, admin_revoke_member-Removed}
use ouro_pass.Http.Secrets.{Regenerated, regenerate-Regenerated}
use ouro_pass.Http.Cascade.{Closed, admin_delete_channel-Closed}
use ouro_pass.Http.Scheduling.{Scheduled, Routed, admin_create_push_job-Scheduled}
use ouro_pass.Http.Public.{ChallengeBody, auth_challenge}
use ouro_pass.Http.Purposes.{is_admin_nonce, auth_challenge-admin_nonces}
use ouro_pass.Admin.{at_least}
use ouro_pass.Tests.{steady, wallets, wallet_client, login_nonce, subscriber, office}
use ouro_pass.Store.Nonces

abbrev desk : Deps
desk = record {
  config = record { owner_key_hashes = lit "ab" ∷ []; pool_id = lit "pool"; session_ttl = 100 };
  pool_id = lit "pool";
  nonce_ttl = 60;
  trusted_proxy = false;
  has_admin = true;
  has_keys = true;
  has_oauth = true;
  has_wallet = true;
  has_cipher = true;
}

abbrev boss : AdminUser
boss = record {
  admin_id = lit "a";
  pool_id = lit "pool";
  owner_key_hash = lit "ab";
  role = owner;
  last_login_at = none;
  created_at = 1;
}

abbrev desk_session : AdminSession
desk_session = record {
  session_token = lit "#t";
  admin_id = lit "a";
  expires_at = 5000;
  ip = none;
  created_at = 1;
}

abbrev bot_channel : ChannelConfig
bot_channel = record {
  channel_id = lit "ch";
  pool_id = lit "pool";
  channel_type = lit "telegram";
  name = lit "news";
  config = [];
  status = lit "active";
  created_at = 1;
  updated_at = 1;
}

abbrev secret_client : OAuthClient
secret_client = record wallet_client {
  client_id = lit "d";
  client_type = confidential;
  client_secret_hash = some (lit "#old");
}

abbrev bound_session : SubscriptionSession
bound_session = record subscriber { session_id = lit "s2"; channel_id = lit "ch" }

abbrev plane : World Db
plane = record {
  db = record office {
    nonces = login_nonce nonce_step_up (lit "su") ∷ office.nonces;
    admin_users = boss ∷ [];
    admin_sessions = desk_session ∷ [];
    channels = bot_channel ∷ [];
    clients = wallet_client ∷ secret_client ∷ [];
    sessions = subscriber ∷ bound_session ∷ [];
  };
  tick = 0;
}

abbrev browser : Head
browser = record { cookie = some (lit "t"); remote = lit "1.2.3.4:5"; forwarded_for = [] }

abbrev signed : StepUp
signed = record { cose_key = lit "ab"; nonce = lit "su"; signature = lit "su" }

abbrev no_listers : Text → Option (ℕ → Text → ℕ → Option (List Text))
no_listers network = none

abbrev cancelling : Flow Answer × World Db
cancelling = admin_api steady wallets desk no_listers browser (cancel_subscription (lit "s1")) plane

admin_api-guarded_example :
    (cancelling.1.db ≡ plane.db)
    ⊎ ((user : AdminUser) × Session steady wallets desk browser user plane
        × (at_least user.role operator ≡ true))
unfolding min_role
admin_api-guarded_example =
    admin_api-guarded steady wallets desk no_listers browser (cancel_subscription (lit "s1")) plane

abbrev rotating : Flow Answer × World Db
rotating = admin_api steady wallets desk no_listers browser (rotate_key signed) plane

admin_api-stepped_up_example :
    OnlyNonces plane.db rotating.1.db
    ⊎ ((user : AdminUser) × Session steady wallets desk browser user plane
        × Signed steady wallets desk user signed 1003 plane.db rotating.1.db)
admin_api-stepped_up_example =
    admin_api-stepped_up steady wallets desk no_listers browser (rotate_key signed) signed plane
      refl

abbrev answer_of : Flow Answer → Answer
answer_of (go a) = a
answer_of (stop e) = []

abbrev removing : Flow Answer × World Db
removing = admin_revoke_member steady wallets desk boss browser (lit "ab") signed plane

removing_ok : removing ≡ (go (answer_of removing.0), removing.1)
unfolding admin_revoke_member Nonces.consume find text_eq count
removing_ok = refl

admin_revoke_member-Removed_example : Removed (lit "ab") removing.1.db
admin_revoke_member-Removed_example =
    admin_revoke_member-Removed steady wallets desk (lit "ab") boss browser signed
      (answer_of removing.0) plane removing.1 removing_ok

abbrev regenerating : Flow Answer × World Db
regenerating =
    admin_regenerate_client_secret steady wallets desk boss browser (lit "d") signed plane

regenerating_ok : regenerating ≡ (go (answer_of regenerating.0), regenerating.1)
unfolding admin_regenerate_client_secret Nonces.consume find text_eq count
regenerating_ok = refl

regenerate-Regenerated_example :
    (plain : Text) × (answer_of regenerating.0
      ≡ (lit "client_id", text (lit "d")) ∷ (lit "client_secret", text plain) ∷ [])
    × Regenerated steady wallets desk (lit "d") plane.db.clients plain regenerating.1.db
regenerate-Regenerated_example =
    regenerate-Regenerated steady wallets desk (lit "d") plane.db.clients boss browser signed
      (answer_of regenerating.0) plane regenerating.1 refl regenerating_ok

abbrev closing : Flow Answer × World Db
closing = admin_delete_channel steady wallets desk boss browser (lit "ch") plane

closing_ok : closing ≡ (go (answer_of closing.0), closing.1)
unfolding admin_delete_channel find text_eq
closing_ok = refl

admin_delete_channel-Closed_example : Closed steady wallets desk (lit "ch") closing.1.db
admin_delete_channel-Closed_example =
    admin_delete_channel-Closed steady wallets desk (lit "ch") boss browser (answer_of closing.0)
      plane closing.1 closing_ok

abbrev news : PushBody
news = record {
  title = lit "epoch";
  content = lit "rewards are in";
  channel_type = lit "telegram";
  channel_id = lit "ch";
  tier = [];
  topic = [];
  entitlement = [];
}

abbrev scheduling : Flow Answer × World Db
scheduling = admin_create_push_job steady wallets desk boss browser (some news) plane

scheduling_ok : scheduling ≡ (go (answer_of scheduling.0), scheduling.1)
unfolding admin_create_push_job text_eq find
scheduling_ok = refl

admin_create_push_job-Scheduled_example :
    (id : Text) × (answer_of scheduling.0
      ≡ (lit "job_id", text id) ∷ (lit "status", text (lit "scheduled")) ∷ [])
    × Routed steady wallets desk news scheduling.1.db
    × Scheduled steady wallets desk news id scheduling.1.db
admin_create_push_job-Scheduled_example =
    admin_create_push_job-Scheduled steady wallets desk boss browser news (answer_of scheduling.0)
      plane scheduling.1 scheduling_ok

abbrev wanted : Option ChallengeBody
wanted = some (record {
  purpose = lit "issue";
  stake_address = lit "e10a0a0a0a0a0a0a0a0a0a0a0a0a0a0a0a0a0a0a0a0a0a0a0a0a0a0a0a";
})

auth_challenge-admin_nonces_example :
    select is_admin_nonce (auth_challenge steady wallets desk wanted plane).1.db.nonces
    ≡ login_nonce nonce_step_up (lit "su") ∷ login_nonce nonce_admin_login (lit "m") ∷ []
auth_challenge-admin_nonces_example = auth_challenge-admin_nonces steady wallets desk wanted plane
