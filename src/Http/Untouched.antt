-- ===== src/Http/Untouched.antt =====
-- The statements of the administration plane (server/internal/httpapi) that leave the nonces alone.
use ouro_pass.Base.{Text, ℕ, ◌≡◌, Option, none, List, [], ◌∷◌}
use ouro_pass.Store.Domain.{
  ClientType, public, confidential, KeyStatus, key_rotating, AuthNonce, OAuthClient, IssuerKey,
  AdminUser, AuditLog, Db,
}
use ouro_pass.Store.Exec.{Env}
use ouro_pass.Store.Keeps.{Keeps, Keeps-pure, Keeps-exec, Keeps-insert, Keeps-bind, keeps_rules}
use ouro_pass.Outside.{Outside}
use ouro_pass.Http.AdminLogin.{Deps, Head, audit}
use ouro_pass.Http.ClientAdmin.{secret_for}
use ouro_pass.Http.Holds.{Holds, holds_rules}
use ouro_pass.Store.Audit
use ouro_pass.Store.Tokens
use ouro_pass.Store.Grants
use ouro_pass.Store.Sessions
use ouro_pass.Store.Clients
use ouro_pass.Store.Keys as KeyRepo
use ouro_pass.Keys

abbrev pub SameNonces : List AuthNonce → Db → Type 0
SameNonces xs db = db.nonces ≡ xs

module _ (env : Env) (xs : List AuthNonce) where
  Keeps-audit_row : (a : AuditLog) → Keeps (SameNonces xs) (Audit.append env a)
  unfolding Audit.append
  Keeps-audit_row a = Keeps-insert env _ _ (λ db _ h. h)

  pub Keeps-blacklist : (sch : Text) → Keeps (SameNonces xs) (Tokens.add_to_blacklist env sch)
  unfolding Tokens.add_to_blacklist
  Keeps-blacklist sch = Keeps-exec env _ _ (λ db h. h)

  pub Keeps-tokens :
      (sch : Text) (t : ℕ) → Keeps (SameNonces xs) (Tokens.revoke_by_stake_credential env sch t)
  unfolding Tokens.revoke_by_stake_credential
  Keeps-tokens sch t = Keeps-exec env _ _ (λ db h. h)

  pub Keeps-grants :
      (sch : Text) → Keeps (SameNonces xs) (Grants.revoke_by_stake_credential env sch)
  unfolding Grants.revoke_by_stake_credential
  Keeps-grants sch = Keeps-exec env _ _ (λ db h. h)

  pub Keeps-sessions :
      (sch : Text) → Keeps (SameNonces xs) (Sessions.cancel_by_stake_credential env sch)
  unfolding Sessions.cancel_by_stake_credential
  Keeps-sessions sch = Keeps-exec env _ _ (λ db h. h)

  pub Keeps-clients : (c : OAuthClient) → Keeps (SameNonces xs) (Clients.upsert env c)
  unfolding Clients.upsert
  Keeps-clients c = Keeps-exec env _ _ (λ db h. h)

  pub Keeps-client_row : (id : Text) → Keeps (SameNonces xs) (Tokens.get_client env id)
  unfolding Tokens.get_client
  Keeps-client_row id = search (keeps_rules) depth 8

  Keeps-key_status :
      (kid : Text) (s : KeyStatus) (t : Option ℕ)
      → Keeps (SameNonces xs) (KeyRepo.set_status env kid s t)
  unfolding KeyRepo.set_status
  Keeps-key_status kid s t = Keeps-exec env _ _ (λ db h. h)

  Keeps-key : (k : IssuerKey) → Keeps (SameNonces xs) (KeyRepo.create env k)
  unfolding KeyRepo.create
  Keeps-key k = Keeps-insert env _ _ (λ db _ h. h)

module _ (env : Env) (out : Outside) (xs : List AuthNonce) where
  Keeps-demote : (actives : List IssuerKey) → Keeps (SameNonces xs) (Keys.demote env out actives)
  unfolding Keys.demote
  Keeps-demote [] = Keeps-pure tt
  Keeps-demote (k ∷ actives) =
      Keeps-bind _ _ (Keeps-key_status env xs k.kid key_rotating none) (λ _. Keeps-demote actives)

  pub Keeps-rotate : Keeps (SameNonces xs) (Keys.rotate env out)
  unfolding Keys.rotate Keys.default_kid KeyRepo.list_by_status
  Keeps-rotate = search (keeps_rules, Keeps-demote, Keeps-key) depth 20

  pub Keeps-retire : (kid : Text) → Keeps (SameNonces xs) (Keys.retire env out kid)
  unfolding Keys.retire KeyRepo.get
  Keeps-retire kid = search (keeps_rules, Keeps-key_status) depth 20

module _ (env : Env) (out : Outside) (deps : Deps) (xs : List AuthNonce) where
  pub Holds-audit :
      (user : AdminUser) (head : Head) (action target : Text)
      → Holds (SameNonces xs) (audit env out deps user head action target)
  unfolding audit
  Holds-audit user head action target = search (holds_rules, keeps_rules, Keeps-audit_row) depth 14

  pub Holds-secret : (type : ClientType) → Holds (SameNonces xs) (secret_for env out deps type)
  Holds-secret public = search (holds_rules) depth 6
  Holds-secret confidential = search (holds_rules) depth 6

pub ruleset untouched_rules = (
  holds_rules, keeps_rules, Keeps-blacklist, Keeps-tokens, Keeps-grants, Keeps-sessions,
  Keeps-clients, Keeps-client_row, Keeps-rotate, Keeps-retire, Holds-audit, Holds-secret,
)
