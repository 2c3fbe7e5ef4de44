-- ===== src/Http/AdminLogin.antt =====
-- server/internal/httpapi/handlers_admin.go: login, sessions, roles and step-up of administrators.
use ouro_pass.Base.{
  ◌==◌, if◌then◌else◌, Text, lit, is_empty, ℕ, Bool, true, not, ◌&&◌, Option, none, some, [], ◌∷◌,
  ◌++◌,
}
use ouro_pass.Go.Strings.{trim_space}
use ouro_pass.Store.Domain.{NoncePurpose, nonce_admin_login, nonce_step_up, AdminRole, AdminUser}
use ouro_pass.Store.Exec.{Error, unauthorized, forbidden, Result, ok, Env}
use ouro_pass.Outside.{Outside}
use ouro_pass.Http.Flow.{
  flag, Failure, Answer, Http, ◌>>=◌, ◌>>◌, error_reply, bad_request, not_implemented, answer,
  or_reply, tried, some_or_reply, check, clock, random_id,
}
use ouro_pass.Admin.{AdminConfig, at_least, ip_of}
use ouro_pass.Admin
use ouro_pass.WalletAuth
use ouro_pass.Store.Audit

-- What the router was given; a service that is missing answers 501.
pub record Deps : Type 0 where
  pub config : AdminConfig
  pub pool_id : Text
  pub nonce_ttl : ℕ
  pub trusted_proxy : Bool
  pub has_admin : Bool
  pub has_keys : Bool
  pub has_oauth : Bool
  pub has_wallet : Bool
  pub has_cipher : Bool

-- The parts of a request that a handler reads beside its body: the session cookie, the address of
-- the connection without its port, and the forwarding header.
pub record Head : Type 0 where
  pub cookie : Option Text
  pub remote : Text
  pub forwarded_for : Text

-- `strings.Split(xff, ",")`, its last part.
unfoldable pub last_hop : Text → Text → Text
last_hop acc [] = acc
last_hop acc (c ∷ s) = last_hop (if c == b',' then [] else acc ++ (c ∷ [])) s

unfoldable pub client_ip : Deps → Head → Text
unfolding last_hop trim_space
client_ip deps head =
    let hop = trim_space (last_hop [] head.forwarded_for) in
    if deps.trusted_proxy && not (is_empty head.forwarded_for) && not (is_empty hop)
    then hop
    else head.remote

-- `writeAdminErr`
unfoldable pub admin_failure : Error → Failure
admin_failure unauthorized =
    error_reply 401 (lit "unauthorized") (lit "signature verification failed")
admin_failure forbidden = error_reply 403 (lit "forbidden") (lit "key is not an authorized admin")
admin_failure e = error_reply 400 (lit "invalid_request") (lit "invalid request")

pub record StepUp : Type 0 where
  pub cose_key : Text
  pub nonce : Text
  pub signature : Text

module _ (env : Env) (out : Outside) (deps : Deps) where
  -- `adminChallenge` and `adminStepUpChallenge`; a body that does not decode is `none`.
  unfoldable pub challenge_for : NoncePurpose → Text → Option Text → Http (Text × ℕ)
  unfolding or_reply WalletAuth.challenge ◌>>=◌
  challenge_for purpose message body = do
    check deps.has_admin not_implemented
    address ← some_or_reply body (bad_request (lit "owner_stake_address required"))
    check (not (is_empty address)) (bad_request (lit "owner_stake_address required"))
    or_reply (λ e. bad_request message)
        (WalletAuth.challenge env out deps.nonce_ttl purpose address)

  abbrev pub admin_challenge : Option Text → Http (Text × ℕ)
  admin_challenge = challenge_for nonce_admin_login (lit "could not issue challenge")

  abbrev pub admin_step_up_challenge : Option Text → Http (Text × ℕ)
  admin_step_up_challenge = challenge_for nonce_step_up (lit "could not issue step-up challenge")

  -- `adminVerify`: the cookie's value and the role.
  unfoldable pub admin_verify : Head → Option StepUp → Http (Text × AdminRole)
  unfolding or_reply Admin.verify client_ip ◌>>=◌
  admin_verify head body = do
    check deps.has_admin not_implemented
    req ← some_or_reply body (bad_request (lit "malformed JSON body"))
    or_reply admin_failure (
        Admin.verify env out deps.config req.cose_key req.nonce req.signature (client_ip deps head))

  abbrev pub drop_session : Option Text → Http (Result (Unit {0}))
  drop_session none = answer (ok tt)
  drop_session (some c) =
      if deps.has_admin then tried (Admin.logout env out deps.config c) else answer (ok tt)

  -- `adminLogout`: the cookie is cleared whatever happens to the session.
  unfoldable pub admin_logout : Head → Http Answer
  unfolding tried Admin.logout ◌>>=◌
  admin_logout head = do drop_session head.cookie; answer ((lit "logged_out", flag true) ∷ [])

  -- `requireSession`
  unfoldable pub require_session : Head → Http AdminUser
  unfolding or_reply Admin.authenticate ◌>>=◌
  require_session head = do
    check deps.has_admin not_implemented
    c ←
        some_or_reply head.cookie
          (error_reply 401 (lit "unauthorized") (lit "admin session required"))
    or_reply (λ e. error_reply 401 (lit "unauthorized") (lit "invalid or expired session"))
        (Admin.authenticate env out deps.config c)

  -- `requireRole`
  unfoldable pub require_role : AdminRole → AdminUser → Http (Unit {0})
  unfolding at_least
  require_role min user =
      check (at_least user.role min) (error_reply 403 (lit "forbidden") (lit "insufficient role"))

  -- `requireStepUp`
  unfoldable pub require_step_up : AdminUser → StepUp → Http (Unit {0})
  unfolding or_reply Admin.verify_step_up
  require_step_up user su = or_reply admin_failure (
      Admin.verify_step_up env out deps.config su.cose_key su.nonce su.signature
        user.owner_key_hash)

  -- `audit`: a failure to write the entry is ignored.
  unfoldable pub audit : AdminUser → Head → Text → Text → Http (Unit {0})
  unfolding random_id clock tried Audit.append client_ip ◌>>=◌
  audit user head action target = do
    id ← random_id env
    t ← clock env
    tried (
        Audit.append env (record {
          audit_id = id;
          actor = user.admin_id;
          action = action;
          target = target;
          ip = ip_of (client_ip deps head);
          created_at = t;
        }))
    answer tt
