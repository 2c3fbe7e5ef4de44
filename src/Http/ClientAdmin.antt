-- ===== src/Http/ClientAdmin.antt =====
-- server/internal/httpapi/handlers_admin_resources.go: push jobs, client registrations, signing keys
-- and the audit trail.
use ouro_pass.Base.{
  if◌then◌else◌, Text, lit, is_empty, text_eq, ℕ, Bool, true, false, not, ◌&&◌, Option, none, some,
  List, [], ◌∷◌, ◌++◌, map,
}
use ouro_pass.Store.Domain.{
  ClientType, public, confidential, push_scheduled, OAuthClient, PushJob, AdminUser, ChannelConfig,
  is_channel_type,
}
use ouro_pass.Store.Exec.{Error, not_found, not_rotating, Result, ok, err, Env}
use ouro_pass.Outside.{Outside}
use ouro_pass.Http.Flow.{
  text, flag, client_rows, job_rows, audit_rows, Failure, Answer, Http, ◌>>=◌, ◌>>◌, error_reply,
  bad_request, server_error, not_implemented, answer, or_reply, tried, some_or_reply, check, clock,
  random_id,
}
use ouro_pass.Http.AdminLogin.{Deps, Head, StepUp, require_step_up, audit}
use ouro_pass.Keys
use ouro_pass.Store.Jobs
use ouro_pass.Store.Clients
use ouro_pass.Store.Channels
use ouro_pass.Store.Tokens
use ouro_pass.Store.Audit

-- `ptrIfSet`
unfoldable pub ptr_if_set : Text → Option Text
ptr_if_set [] = none
ptr_if_set (c ∷ s) = some (c ∷ s)

pub record PushBody : Type 0 where
  pub title : Text
  pub content : Text
  pub channel_type : Text
  pub channel_id : Text
  pub tier : Text
  pub topic : Text
  pub entitlement : Text

pub record ClientBody : Type 0 where
  pub name : Text
  pub client_type : Text
  pub redirect_uris : List Text
  pub audiences : List Text
  pub step_up : StepUp

-- `domain.ClientType(…)` and its `Valid`
unfoldable pub client_type_of : Text → Option ClientType
client_type_of s =
    if text_eq s (lit "public")
    then some public
    else if text_eq s (lit "confidential")
    then some confidential
    else none

-- The instance that a job names is active and of its type.
abbrev pub serves : Text → ChannelConfig → Bool
serves channel_type c = text_eq c.status (lit "active") && text_eq c.channel_type channel_type

abbrev pub usable : Text → Result ChannelConfig → Bool
usable channel_type (ok c) = serves channel_type c
usable channel_type (err e) = false

abbrev pub hide_secret : OAuthClient → OAuthClient
hide_secret c = record c { client_secret_hash = none }

-- `errors.Is(err, domain.ErrNotFound)`
unfoldable pub or_missing : Text → Error → Failure
unfolding server_error
or_missing message not_found = error_reply 404 (lit "not_found") message
or_missing message e = server_error e

unfoldable pub retire_failure : Error → Failure
unfolding server_error
retire_failure not_found = error_reply 404 (lit "not_found") (lit "no such signing key")
retire_failure not_rotating =
    error_reply 409 (lit "invalid_state") (lit "only rotating keys can be retired")
retire_failure e = server_error e

module _ (env : Env) (out : Outside) (deps : Deps) where
  -- `ListByPool` of repo_pushjob.go is the read of `adminListPushJobs`.
  unfoldable pub admin_list_push_jobs : Http Answer
  unfolding or_reply Jobs.list_by_pool server_error ◌>>=◌
  admin_list_push_jobs = do
    jobs ← or_reply server_error (Jobs.list_by_pool env deps.pool_id 100)
    answer ((lit "jobs", job_rows jobs) ∷ [])

  abbrev pub check_channel : PushBody → Http (Unit {0})
  check_channel body = if is_empty body.channel_id then answer tt else (do
    inst ← tried (Channels.get env body.channel_id)
    check (usable body.channel_type inst)
        (bad_request (lit "unknown or inactive channel instance for channel_type")))

  abbrev pub job_of_body : AdminUser → PushBody → Text → ℕ → PushJob
  job_of_body user body id t = record {
    job_id = id;
    pool_id = deps.pool_id;
    title = body.title;
    content = body.content;
    channel_id = ptr_if_set body.channel_id;
    channel_type = body.channel_type;
    target_topic = ptr_if_set body.topic;
    required_entitlement = ptr_if_set body.entitlement;
    target_tier = ptr_if_set body.tier;
    status = push_scheduled;
    scheduled_at = none;
    created_by = user.admin_id;
    created_at = t;
  }

  unfoldable pub admin_create_push_job : AdminUser → Head → Option PushBody → Http Answer
  unfolding or_reply tried Channels.get random_id clock Jobs.create audit ptr_if_set is_channel_type
      server_error ◌>>=◌
  admin_create_push_job user head decoded = do
    body ← some_or_reply decoded (bad_request (lit "title and channel_type required"))
    check (not (is_empty body.title)) (bad_request (lit "title and channel_type required"))
    check (is_channel_type body.channel_type) (bad_request (lit "unsupported channel_type"))
    check_channel body
    id ← random_id env
    t ← clock env
    or_reply server_error (Jobs.create env (job_of_body user body id t))
    audit env out deps user head (lit "push.create") id
    answer ((lit "job_id", text id) ∷ (lit "status", text (lit "scheduled")) ∷ [])

  unfoldable pub admin_list_clients : Http Answer
  unfolding or_reply Clients.list server_error ◌>>=◌
  admin_list_clients = do
    clients ← or_reply server_error (Clients.list env)
    answer ((lit "clients", client_rows (map hide_secret clients)) ∷ [])

  -- A confidential client gets a secret, which is stored as its hash.
  abbrev pub secret_for : ClientType → Http (Option Text)
  secret_for public = answer none
  secret_for confidential = do plain ← random_id env; answer (some plain)

  abbrev pub hash_of : Option Text → Option Text
  hash_of none = none
  hash_of (some plain) = some (out.hash_token plain)

  abbrev pub with_secret : Option Text → Answer → Answer
  with_secret none body = body
  with_secret (some plain) body = body ++ ((lit "client_secret", text plain) ∷ [])

  unfoldable pub admin_register_client : AdminUser → Head → Option ClientBody → Http Answer
  unfolding or_reply require_step_up random_id clock Clients.upsert audit client_type_of
      server_error ◌>>=◌
  admin_register_client user head decoded = do
    body ← some_or_reply decoded (bad_request (lit "name required"))
    check (not (is_empty body.name)) (bad_request (lit "name required"))
    ct ←
        some_or_reply (client_type_of body.client_type)
          (bad_request (lit "client_type must be public or confidential"))
    require_step_up env out deps user body.step_up
    suffix ← random_id env
    let client_id = lit "op-client-" ++ suffix
    t ← clock env
    secret ← secret_for ct
    or_reply server_error (
        Clients.upsert env (record {
          client_id = client_id;
          name = body.name;
          client_type = ct;
          client_secret_hash = hash_of secret;
          redirect_uris = body.redirect_uris;
          allowed_audiences = body.audiences;
          status = lit "active";
          created_at = t;
        }))
    audit env out deps user head (lit "oauth_client.register") client_id
    answer (with_secret secret ((lit "client_id", text client_id) ∷ []))

  abbrev pub is_confidential : OAuthClient → Bool
  is_confidential c = elim c.client_type [ confidential ↦ true | public ↦ false ]

  unfoldable pub admin_regenerate_client_secret : AdminUser → Head → Text → StepUp → Http Answer
  unfolding or_reply require_step_up random_id Tokens.get_client Clients.upsert audit or_missing
      server_error ◌>>=◌
  admin_regenerate_client_secret user head client_id su = do
    require_step_up env out deps user su
    c ← or_reply (or_missing (lit "no such client")) (Tokens.get_client env client_id)
    check (is_confidential c)
        (error_reply 409 (lit "invalid_state") (lit "public clients have no secret"))
    plain ← random_id env
    or_reply server_error
        (Clients.upsert env (record c { client_secret_hash = some (out.hash_token plain) }))
    audit env out deps user head (lit "oauth_client.secret_regenerate") client_id
    answer ((lit "client_id", text client_id) ∷ (lit "client_secret", text plain) ∷ [])

  unfoldable pub admin_rotate_key : AdminUser → Head → StepUp → Http Answer
  unfolding or_reply require_step_up Keys.rotate audit server_error ◌>>=◌
  admin_rotate_key user head su = do
    check deps.has_keys not_implemented
    require_step_up env out deps user su
    kid ← or_reply server_error (Keys.rotate env out)
    audit env out deps user head (lit "issuer_key.rotate") kid
    answer (
        (lit "new_kid", text kid)
        ∷ (lit "status", text (lit "active"))
        ∷ (lit "jwks_updated", flag true)
        ∷ [])

  unfoldable pub admin_retire_key : AdminUser → Head → Text → StepUp → Http Answer
  unfolding or_reply require_step_up Keys.retire audit retire_failure ◌>>=◌
  admin_retire_key user head kid su = do
    check deps.has_keys not_implemented
    require_step_up env out deps user su
    or_reply retire_failure (Keys.retire env out kid)
    audit env out deps user head (lit "issuer_key.retire") kid
    answer ((lit "kid", text kid) ∷ (lit "status", text (lit "retired")) ∷ [])

  unfoldable pub admin_audit : Http Answer
  unfolding or_reply Audit.recent server_error ◌>>=◌
  admin_audit = do
    entries ← or_reply server_error (Audit.recent env 200)
    answer ((lit "audit", audit_rows entries) ∷ [])
