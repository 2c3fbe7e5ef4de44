-- ===== src/Http/AttestorAdmin.antt =====
-- server/internal/httpapi/handlers_admin_attestors.go: the configured credential sources. The path
-- parameter is taken decoded, as `attestorIDParam` gives it.
use ouro_pass.Base.{
  if◌then◌else◌, Text, lit, is_empty, text_eq, Bool, true, false, not, ◌&&◌, ◌||◌, Option, none,
  some, List, [], ◌∷◌, map,
}
use ouro_pass.Go.Strings.{trim_space}
use ouro_pass.Store.Domain.{AdminUser, AttestorConfig}
use ouro_pass.Store.Exec.{Env}
use ouro_pass.Outside.{PoolParams, Outside}
use ouro_pass.Attestor.{kind_pool_stake}
use ouro_pass.Http.Flow.{
  text, objects, Answer, Http, ◌>>=◌, ◌>>◌, error_reply, bad_request, server_error, answer,
  or_reply, some_or_reply, check, clock, random_id,
}
use ouro_pass.Http.AdminLogin.{Deps, Head, audit}
use ouro_pass.Store.Attestors
use ouro_pass.Http.ClientAdmin.{or_missing}

pub record AttestorBody : Type 0 where
  pub kind : Text
  pub label : Text
  pub params : Text

pub record AttestorChange : Type 0 where
  pub label : Option Text
  pub params : Text
  pub status : Option Text

abbrev pub attestor_view : AttestorConfig → List (Text × Text)
attestor_view c =
    (lit "attestor_id", c.id)
    ∷ (lit "kind", c.kind)
    ∷ (lit "label", c.label)
    ∷ (lit "params", if is_empty c.params then lit "{}" else c.params)
    ∷ (lit "status", c.status)
    ∷ []

abbrev pub is_known_network : Text → Bool
is_known_network n =
    text_eq n (lit "mainnet") || text_eq n (lit "preprod") || text_eq n (lit "preview")

abbrev pub valid_params : Option PoolParams → Bool
valid_params none = false
valid_params (some p) = not (is_empty (trim_space p.pool_id)) && is_known_network p.network

module _ (out : Outside) where
  -- `validateAttestorInput`
  unfoldable pub validate_attestor_input : Text → Text → Bool
  unfolding trim_space
  validate_attestor_input kind params =
      text_eq kind kind_pool_stake && valid_params (out.unmarshal_pool params)

module _ (env : Env) (out : Outside) (deps : Deps) where
  unfoldable pub admin_list_attestors : Http Answer
  unfolding or_reply Attestors.list server_error ◌>>=◌
  admin_list_attestors = do
    rows ← or_reply server_error (Attestors.list env)
    answer ((lit "attestors", objects (map attestor_view rows)) ∷ [])

  -- `attestorLabelExists`, as the error it leads to.
  unfoldable pub check_label : Text → Text → Text → Http (Unit {0})
  unfolding or_reply Attestors.list server_error ◌>>=◌
  check_label kind label exclude = do
    rows ← or_reply server_error (Attestors.list env)
    check (not (Attestors.labelled kind label exclude rows)) (
        error_reply 409 (lit "conflict")
          (lit "an attestor of this kind with that label already exists"))

  unfoldable pub admin_create_attestor : AdminUser → Head → Option AttestorBody → Http Answer
  unfolding or_reply check_label clock random_id Attestors.create audit validate_attestor_input
      server_error ◌>>=◌
  admin_create_attestor user head decoded = do
    body ← some_or_reply decoded (bad_request (lit "invalid body"))
    check (not (is_empty body.label)) (bad_request (lit "label is required"))
    check (validate_attestor_input out body.kind body.params) (bad_request (lit "invalid params"))
    check_label body.kind body.label []
    t ← clock env
    id ← random_id env
    or_reply server_error (
        Attestors.create env (record {
          id = id;
          kind = body.kind;
          label = body.label;
          params = body.params;
          status = lit "active";
          created_at = t;
          updated_at = t;
        }))
    audit env out deps user head (lit "attestor.create") id
    answer ((lit "attestor_id", text id) ∷ [])

  abbrev pub label_or : Option Text → Text → Text
  label_or none old = old
  label_or (some l) old = l

  abbrev pub is_attestor_status : Option Text → Bool
  is_attestor_status none = true
  is_attestor_status (some s) = text_eq s (lit "active") || text_eq s (lit "disabled")

  abbrev pub merged : AttestorChange → AttestorConfig → AttestorConfig
  merged body cur = record cur {
    label = label_or body.label cur.label;
    params = if is_empty body.params then cur.params else body.params;
    status = label_or body.status cur.status;
  }

  unfoldable pub admin_update_attestor :
      AdminUser → Head → Text → Option AttestorChange → Http Answer
  unfolding or_reply Attestors.get check_label clock Attestors.replace audit validate_attestor_input
      or_missing server_error ◌>>=◌
  admin_update_attestor user head id decoded = do
    body ← some_or_reply decoded (bad_request (lit "invalid body"))
    cur ← or_reply (or_missing (lit "attestor not found")) (Attestors.get env id)
    check (is_attestor_status body.status) (bad_request (lit "status must be active or disabled"))
    let next = merged body cur
    check (validate_attestor_input out next.kind next.params) (bad_request (lit "invalid params"))
    check_label next.kind next.label id
    t ← clock env
    or_reply server_error (Attestors.replace env (record next { updated_at = t }))
    audit env out deps user head (lit "attestor.update") id
    answer ((lit "attestor_id", text id) ∷ [])

  unfoldable pub admin_delete_attestor : AdminUser → Head → Text → Http Answer
  unfolding or_reply Attestors.delete audit or_missing server_error ◌>>=◌
  admin_delete_attestor user head id = do
    or_reply (or_missing (lit "attestor not found")) (Attestors.delete env id)
    audit env out deps user head (lit "attestor.delete") id
    answer ((lit "deleted", text id) ∷ [])
