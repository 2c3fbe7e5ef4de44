-- ===== src/Http/Routes.antt =====
-- server/internal/httpapi: the calls of the resources of the administration plane (`mountAdminResources`)
-- with the roles that router.go gives them. The endpoints of the login (the challenge, the login
-- itself, the logout and `me`) are not among the calls.
use ouro_pass.Base.{Text, lit, ℕ, Option, List}
use ouro_pass.Store.Domain.{AdminRole, owner, operator, viewer, AdminUser}
use ouro_pass.Store.Exec.{Env}
use ouro_pass.Outside.{Outside}
use ouro_pass.Http.Flow.{Answer, Http, ◌>>=◌, ◌>>◌}
use ouro_pass.Http.AdminLogin.{Deps, Head, StepUp, require_session, require_role}
use ouro_pass.Http.Members.{
  admin_members, admin_get_pool, admin_set_tier_rules, admin_delegators, admin_revoke_member,
  admin_subscriptions, admin_cancel_sub,
}
use ouro_pass.Http.ClientAdmin.{
  PushBody, ClientBody, admin_list_push_jobs, admin_create_push_job, admin_list_clients,
  admin_register_client, admin_regenerate_client_secret, admin_rotate_key, admin_retire_key,
  admin_audit,
}
use ouro_pass.Http.ChannelAdmin.{
  ChannelBody, ChannelChange, admin_list_channels, admin_create_channel, admin_update_channel,
  set_channel_status, admin_delete_channel,
}
use ouro_pass.Http.AttestorAdmin.{
  AttestorBody, AttestorChange, admin_list_attestors, admin_create_attestor, admin_update_attestor,
  admin_delete_attestor,
}

pub data Call : Type 0 where
  get_members : Call
  get_delegators : Text → Call
  get_pool : Call
  post_tier_rules : Option Text → Call
  get_attestors : Call
  post_attestor : Option AttestorBody → Call
  change_attestor : Text → Option AttestorChange → Call
  delete_attestor : Text → Call
  revoke_member : Text → StepUp → Call
  get_subscriptions : Call
  cancel_subscription : Text → Call
  get_channels : Call
  post_channel : Option ChannelBody → Call
  change_channel : Text → Option ChannelChange → Call
  enable_channel : Text → Call
  disable_channel : Text → Call
  delete_channel : Text → Call
  get_push_jobs : Call
  post_push_job : Option PushBody → Call
  get_clients : Call
  post_client : Option ClientBody → Call
  regenerate_secret : Text → StepUp → Call
  rotate_key : StepUp → Call
  retire_key : Text → StepUp → Call
  get_audit : Call

unfoldable pub min_role : Call → AdminRole
min_role get_members = viewer
min_role (get_delegators _) = viewer
min_role get_pool = viewer
min_role (post_tier_rules _) = operator
min_role get_attestors = viewer
min_role (post_attestor _) = operator
min_role (change_attestor _ _) = operator
min_role (delete_attestor _) = operator
min_role (revoke_member _ _) = operator
min_role get_subscriptions = viewer
min_role (cancel_subscription _) = operator
min_role get_channels = viewer
min_role (post_channel _) = operator
min_role (change_channel _ _) = operator
min_role (enable_channel _) = operator
min_role (disable_channel _) = operator
min_role (delete_channel _) = operator
min_role get_push_jobs = operator
min_role (post_push_job _) = operator
min_role get_clients = owner
min_role (post_client _) = owner
min_role (regenerate_secret _ _) = owner
min_role (rotate_key _) = owner
min_role (retire_key _ _) = owner
min_role get_audit = owner

module _ (env : Env) (out : Outside) (deps : Deps)
    (listers : Text → Option (ℕ → Text → ℕ → Option (List Text))) where
  unfoldable pub handle : AdminUser → Head → Call → Http Answer
  handle user head get_members = admin_members env out deps
  handle user head (get_delegators page) = admin_delegators env out deps listers page
  handle user head get_pool = admin_get_pool env out deps
  handle user head (post_tier_rules body) = admin_set_tier_rules env out deps user head body
  handle user head get_attestors = admin_list_attestors env out deps
  handle user head (post_attestor body) = admin_create_attestor env out deps user head body
  handle user head (change_attestor id body) = admin_update_attestor env out deps user head id body
  handle user head (delete_attestor id) = admin_delete_attestor env out deps user head id
  handle user head (revoke_member sch su) = admin_revoke_member env out deps user head sch su
  handle user head get_subscriptions = admin_subscriptions env out deps
  handle user head (cancel_subscription id) = admin_cancel_sub env out deps user head id
  handle user head get_channels = admin_list_channels env out deps
  handle user head (post_channel body) = admin_create_channel env out deps user head body
  handle user head (change_channel id body) = admin_update_channel env out deps user head id body
  handle user head (enable_channel id) =
      set_channel_status env out deps user head (lit "active") (lit "channel.enable") id
  handle user head (disable_channel id) =
      set_channel_status env out deps user head (lit "disabled") (lit "channel.disable") id
  handle user head (delete_channel id) = admin_delete_channel env out deps user head id
  handle user head get_push_jobs = admin_list_push_jobs env out deps
  handle user head (post_push_job body) = admin_create_push_job env out deps user head body
  handle user head get_clients = admin_list_clients env out deps
  handle user head (post_client body) = admin_register_client env out deps user head body
  handle user head (regenerate_secret id su) =
      admin_regenerate_client_secret env out deps user head id su
  handle user head (rotate_key su) = admin_rotate_key env out deps user head su
  handle user head (retire_key kid su) = admin_retire_key env out deps user head kid su
  handle user head get_audit = admin_audit env out deps

  -- Behind `requireSession` and `requireRole`.
  unfoldable pub admin_api : Head → Call → Http Answer
  unfolding require_session require_role handle min_role ◌>>=◌
  admin_api head call = do
    user ← require_session env out deps head
    require_role env out deps (min_role call) user
    handle user head call
