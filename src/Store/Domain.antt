-- ===== src/Store/Domain.antt =====
-- server/internal/domain: the rows of the tables, and the database as its tables. Times are Unix
-- nanoseconds.
use ouro_pass.Base.{Text, lit, text_eq, ℕ, Bool, ◌||◌, Option, List, []}
use ouro_pass.Base.Int.{ℤ}

pub data ClientType : Type 0 where
  public confidential : ClientType

pub data GrantStatus : Type 0 where
  grant_active grant_rotated grant_revoked grant_expired : GrantStatus

pub data TokenStatus : Type 0 where
  token_active token_expired token_revoked : TokenStatus

pub data ActivationStatus : Type 0 where
  activation_active activation_consumed activation_expired : ActivationStatus

pub data NoncePurpose : Type 0 where
  nonce_issue nonce_activation nonce_admin_login nonce_step_up : NoncePurpose

pub data SubStatus : Type 0 where
  sub_active sub_downgraded sub_cancelled sub_expired : SubStatus

pub data KeyStatus : Type 0 where
  key_pending key_active key_rotating key_retired key_revoked : KeyStatus

pub data JobStatus : Type 0 where
  push_draft push_scheduled push_running push_done push_cancelled push_failed : JobStatus

pub data DeliveryStatus : Type 0 where
  delivery_sent delivery_failed delivery_skipped : DeliveryStatus

pub data AdminRole : Type 0 where
  owner operator viewer : AdminRole

pub record RefreshGrant : Type 0 where
  pub refresh_grant_id : Text
  pub stake_credential_hash : Text
  pub audience : Text
  pub client_type : ClientType
  pub bound_device_pubkey : List ℕ
  pub client_id : Option Text
  pub status : GrantStatus
  pub rotated_from : Option Text
  pub created_at : ℕ
  pub expires_at : Option ℕ

pub record AuthorizationCode : Type 0 where
  pub code : Text
  pub client_id : Text
  pub stake_credential_hash : Text
  pub aud : Text
  pub scope : List Text
  pub redirect_uri : Text
  pub code_challenge : Option Text
  pub expires_at : ℕ
  pub consumed_at : Option ℕ
  pub created_at : ℕ

pub record IssuedToken : Type 0 where
  pub jti : Text
  pub stake_credential_hash : Text
  pub audience : Text
  pub kid : Text
  pub client_id : Option Text
  pub status : TokenStatus
  pub issued_at : ℕ
  pub expires_at : ℕ
  pub revoked_at : Option ℕ

pub record ActivationCode : Type 0 where
  pub code : Text
  pub stake_credential_hash : Text
  pub channel_id : Text
  pub channel_type : Text
  pub status : ActivationStatus
  pub expires_at : ℕ
  pub consumed_at : Option ℕ
  pub created_at : ℕ

pub record AuthNonce : Type 0 where
  pub nonce : Text
  pub purpose : NoncePurpose
  pub bound_key_hash : Option Text
  pub expires_at : ℕ
  pub consumed_at : Option ℕ
  pub created_at : ℕ

pub record OAuthClient : Type 0 where
  pub client_id : Text
  pub name : Text
  pub client_type : ClientType
  pub client_secret_hash : Option Text
  pub redirect_uris : List Text
  pub allowed_audiences : List Text
  pub status : Text
  pub created_at : ℕ

pub record SubscriptionSession : Type 0 where
  pub session_id : Text
  pub pool_id : Text
  pub stake_credential_hash : Text
  pub channel_id : Text
  pub channel_type : Text
  pub channel_user_id : Text
  pub status : SubStatus
  pub tier : Text
  pub topics : List Text
  pub entitlements : List Text
  pub created_at : ℕ
  pub last_verified_at : ℕ
  pub expires_at : ℕ
  pub grace_until : Option ℕ
  pub cancelled_at : Option ℕ

pub record IssuerKey : Type 0 where
  pub kid : Text
  pub public_key : List ℕ
  pub encrypted_private_key : List ℕ
  pub status : KeyStatus
  pub valid_from : Option ℕ
  pub created_at : ℕ
  pub retired_at : Option ℕ

pub record PushJob : Type 0 where
  pub job_id : Text
  pub pool_id : Text
  pub title : Text
  pub content : Text
  pub channel_id : Option Text
  pub channel_type : Text
  pub target_topic : Option Text
  pub required_entitlement : Option Text
  pub target_tier : Option Text
  pub status : JobStatus
  pub scheduled_at : Option ℕ
  pub created_by : Text
  pub created_at : ℕ

pub record DeliveryLog : Type 0 where
  pub delivery_id : Text
  pub job_id : Text
  pub session_id : Text
  pub channel_user_id : Text
  pub status : DeliveryStatus
  pub retry_count : ℤ
  pub sent_at : ℕ

pub record AdminUser : Type 0 where
  pub admin_id : Text
  pub pool_id : Text
  pub owner_key_hash : Text
  pub role : AdminRole
  pub last_login_at : Option ℕ
  pub created_at : ℕ

pub record AdminSession : Type 0 where
  pub session_token : Text
  pub admin_id : Text
  pub expires_at : ℕ
  pub ip : Option Text
  pub created_at : ℕ

pub record ChannelConfig : Type 0 where
  pub channel_id : Text
  pub pool_id : Text
  pub channel_type : Text
  pub name : Text
  pub config : Text
  pub status : Text
  pub created_at : ℕ
  pub updated_at : ℕ

pub record AttestorConfig : Type 0 where
  pub id : Text
  pub kind : Text
  pub label : Text
  pub params : Text
  pub status : Text
  pub created_at : ℕ
  pub updated_at : ℕ

pub record AuditLog : Type 0 where
  pub audit_id : Text
  pub actor : Text
  pub action : Text
  pub target : Text
  pub ip : Option Text
  pub created_at : ℕ

pub record StakeSnapshotCache : Type 0 where
  pub stake_credential_hash : Text
  pub network : Text
  pub snapshot_epoch : ℕ
  pub delegated_pool_id : Option Text
  pub active_stake_lovelace : Option Text
  pub rewards_lovelace : Option Text
  pub epochs_active : ℤ
  pub source : Text
  pub fetched_at : ℕ

-- `ValidChannelType`
unfoldable pub is_channel_type : Text → Bool
is_channel_type s =
    text_eq s (lit "telegram")
    || text_eq s (lit "discord")
    || text_eq s (lit "email")
    || text_eq s (lit "webhook")

pub record Db : Type 0 where
  pub grants : List RefreshGrant
  pub auth_codes : List AuthorizationCode
  pub issued_tokens : List IssuedToken
  pub activation_codes : List ActivationCode
  pub nonces : List AuthNonce
  pub clients : List OAuthClient
  pub sessions : List SubscriptionSession
  pub keys : List IssuerKey
  pub jobs : List PushJob
  pub deliveries : List DeliveryLog
  pub admin_users : List AdminUser
  pub admin_sessions : List AdminSession
  pub blacklist : List Text
  pub tier_rules : Text
  pub channels : List ChannelConfig
  pub attestors : List AttestorConfig
  pub audits : List AuditLog
  pub snapshots : List StakeSnapshotCache

abbrev pub empty_db : Db
empty_db = record {
  grants = [];
  auth_codes = [];
  issued_tokens = [];
  activation_codes = [];
  nonces = [];
  clients = [];
  sessions = [];
  keys = [];
  jobs = [];
  deliveries = [];
  admin_users = [];
  admin_sessions = [];
  blacklist = [];
  tier_rules = [];
  channels = [];
  attestors = [];
  audits = [];
  snapshots = [];
}
