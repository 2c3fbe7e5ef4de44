-- ===== src/Tests.antt =====
-- The data of the tests: an issuer with one public client, one member, one key, one administrator.
mod Issuance
mod Access
mod Rules
mod Workers
mod Plane
mod Middleware
mod Addresses
use ouro_pass.Base.{Text, lit, text_eq, ◌+◌, true, false, Option, none, some, [], ◌∷◌}
use ouro_pass.Store.Domain.{
  public, GrantStatus, grant_active, grant_rotated, token_active, activation_active, NoncePurpose,
  nonce_issue, nonce_admin_login, sub_active, key_active, RefreshGrant, AuthorizationCode,
  IssuedToken, ActivationCode, AuthNonce, OAuthClient, SubscriptionSession, IssuerKey, Db,
}
use ouro_pass.Store.Exec.{Env, World}
use ouro_pass.Outside.{Outside}
use ouro_pass.Attestor.{Attestation, kind_pool_stake}
use ouro_pass.Oauth.{Config}

abbrev pub steady : Env
steady = record { time = λ n. 1000 + n; fault = λ n. false; random = λ n. n ∷ [] }

abbrev member_attestation : Attestation
member_attestation = record {
  kind = kind_pool_stake;
  id = lit "a";
  held = true;
  claim = [];
  facts = (lit "pool:p.state", lit "active") ∷ [];
}

-- A wallet signs a nonce by repeating it; a token's hash is the token with a mark in front.
abbrev pub wallets : Outside
wallets = record {
  hash_token = λ t. 35 ∷ t;
  pkce_s256 = λ t. 36 ∷ t;
  thumbprint = λ t. 37 ∷ t;
  derive_sub = λ t. 38 ∷ t;
  sign_access_token = λ kid priv claims. some (lit "jwt");
  verify_token = λ n t keys. none;
  jti_unverified = λ t. none;
  stake_vkey_from_cose_key = λ t. some t;
  key_hash = λ t. t;
  cose_verify = λ key nonce signature. text_eq nonce signature;
  year_month = λ n. lit "2026-01";
  generate_key = λ n. some (1 ∷ [], 2 ∷ []);
  encrypt = λ n k. some k;
  decrypt = λ k. some k;
  unmarshal_rules = λ t. none;
  unmarshal_bot = λ t. none;
  marshal_bot = λ b. [];
  unmarshal_inbound_bot = λ t. none;
  unmarshal_pool = λ t. none;
  attestors = λ n sch. some (some member_attestation ∷ []);
}

abbrev pub short_lived : Config
short_lived = record { issuer = lit "iss"; access_ttl = 100; refresh_ttl = 1000; code_ttl = 60 }

abbrev pub wallet_client : OAuthClient
wallet_client = record {
  client_id = lit "c";
  name = lit "shop";
  client_type = public;
  client_secret_hash = none;
  redirect_uris = lit "uri" ∷ [];
  allowed_audiences = lit "aud" ∷ [];
  status = lit "active";
  created_at = 1;
}

abbrev pub grant_with : Text → GrantStatus → Option Text → RefreshGrant
grant_with id status parent = record {
  refresh_grant_id = id;
  stake_credential_hash = lit "ab";
  audience = lit "aud";
  client_type = public;
  bound_device_pubkey = [];
  client_id = some (lit "c");
  status = status;
  rotated_from = parent;
  created_at = 1;
  expires_at = some 5000;
}

-- The token `1` was rotated to the token `2`.
abbrev pub old_grant : RefreshGrant
old_grant = grant_with (lit "#1") grant_rotated none

abbrev pub new_one : RefreshGrant
new_one = grant_with (lit "#2") grant_active (some (lit "#1"))

abbrev pub stored_code : AuthorizationCode
stored_code = record {
  code = lit "#k";
  client_id = lit "c";
  stake_credential_hash = lit "ab";
  aud = lit "aud";
  scope = [];
  redirect_uri = lit "uri";
  code_challenge = some (lit "$v");
  expires_at = 5000;
  consumed_at = none;
  created_at = 1;
}

abbrev pub login_nonce : NoncePurpose → Text → AuthNonce
login_nonce purpose nonce = record {
  nonce = nonce;
  purpose = purpose;
  bound_key_hash = some (lit "ab");
  expires_at = 5000;
  consumed_at = none;
  created_at = 1;
}

abbrev pub signing_key : IssuerKey
signing_key = record {
  kid = lit "key";
  public_key = 1 ∷ [];
  encrypted_private_key = 2 ∷ [];
  status = key_active;
  valid_from = some 1;
  created_at = 1;
  retired_at = none;
}

abbrev pub known_token : IssuedToken
known_token = record {
  jti = lit "j";
  stake_credential_hash = lit "ab";
  audience = lit "aud";
  kid = lit "key";
  client_id = none;
  status = token_active;
  issued_at = 1;
  expires_at = 5000;
  revoked_at = none;
}

abbrev pub activation : ActivationCode
activation = record {
  code = lit "#s";
  stake_credential_hash = lit "ab";
  channel_id = [];
  channel_type = lit "telegram";
  status = activation_active;
  expires_at = 5000;
  consumed_at = none;
  created_at = 1;
}

abbrev pub subscriber : SubscriptionSession
subscriber = record {
  session_id = lit "s1";
  pool_id = lit "pool";
  stake_credential_hash = lit "ab";
  channel_id = [];
  channel_type = lit "telegram";
  channel_user_id = lit "u";
  status = sub_active;
  tier = [];
  topics = [];
  entitlements = [];
  created_at = 1;
  last_verified_at = 1;
  expires_at = 5000;
  grace_until = none;
  cancelled_at = none;
}

abbrev pub office : Db
office = record {
  grants = old_grant ∷ new_one ∷ [];
  auth_codes = stored_code ∷ [];
  issued_tokens = known_token ∷ [];
  activation_codes = activation ∷ [];
  nonces = login_nonce nonce_issue (lit "n") ∷ login_nonce nonce_admin_login (lit "m") ∷ [];
  clients = wallet_client ∷ [];
  sessions = subscriber ∷ [];
  keys = signing_key ∷ [];
  jobs = [];
  deliveries = [];
  admin_users = [];
  admin_sessions = [];
  blacklist = [];
  tier_rules = [];
  channels = [];
  attestors = [];
  audits = [];
  snapshots = [];
}

abbrev pub start : World Db
start = record { db = office; tick = 0 }
