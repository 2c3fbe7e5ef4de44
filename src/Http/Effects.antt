-- ===== src/Http/Effects.antt =====
-- What a call of the administration plane does to the tables when it is answered with a success:
-- server/internal/httpapi/handlers_admin_resources.go.
use ouro_pass.Base.{
  if◌then◌else◌, Bool-cases, and-false, any, Text, lit, text_eq, text_eq_refl, ℕ, ◌≡◌, inl, inr,
  Bool, true, not, ◌&&◌, List, [], ◌∷◌, ◌++◌,
}
use ouro_pass.Store.Domain.{
  grant_revoked, sub_cancelled, RefreshGrant, IssuedToken, SubscriptionSession, AdminUser, Db,
}
use ouro_pass.Store.Table.{update, count, count-update}
use ouro_pass.Store.Exec.{Env, World}
use ouro_pass.Outside.{Outside}
use ouro_pass.Http.Flow.{number, flag, Answer, go, server_error, or_reply}
use ouro_pass.Http.AdminLogin.{Deps, Head, StepUp}
use ouro_pass.Http.Members.{admin_revoke_member}
use ouro_pass.Http.Triples.{
  Triple, Triple-bind, Triple-answer, Triple-exec, Triple-audit, Triple-step_up, Triple-clock,
}
use ouro_pass.Store.Tokens
use ouro_pass.Store.Grants
use ouro_pass.Store.Sessions

-- What was active with the credential.
abbrev pub token_of_member : Text → IssuedToken → Bool
token_of_member sch t = text_eq t.stake_credential_hash sch && Tokens.is_token_active t

abbrev pub grant_of_member : Text → RefreshGrant → Bool
grant_of_member sch g = text_eq g.stake_credential_hash sch && not (Grants.is_grant_revoked g)

abbrev pub session_of_member : Text → SubscriptionSession → Bool
session_of_member sch x = text_eq x.stake_credential_hash sch && Sessions.is_sub_active x

abbrev pub Listed : Text → Db → Type 0
Listed sch db = any (λ x. text_eq x sch) db.blacklist ≡ true

-- The credential is on the black list, and it has no token, no grant and no subscription left.
abbrev pub Removed : Text → Db → Type 0
Removed sch db =
    Listed sch db
    × (count (token_of_member sch) db.issued_tokens ≡ 0)
    × (count (grant_of_member sch) db.grants ≡ 0)
    × (count (session_of_member sch) db.sessions ≡ 0)

any-append :
    (p : Text → Bool) (x : Text) (xs : List Text) → p x ≡ true → any p (xs ++ (x ∷ [])) ≡ true
any-append p x [] h = rw h
any-append p x (y ∷ xs) h = elim (Bool-cases (p y)) [
  | inl hit ↦ rw hit
  | inr miss ↦ rw miss (any-append p x xs h)
]

listed-add :
    (sch : Text) (xs : List Text)
    → any (λ x. text_eq x sch) (if any (λ x. text_eq x sch) xs then xs else xs ++ (sch ∷ [])) ≡ true
listed-add sch xs = elim (Bool-cases (any (λ x. text_eq x sch) xs)) [
  | inl known ↦ rw known known
  | inr new ↦ rw new (any-append (λ x. text_eq x sch) sch xs (text_eq_refl sch))
]

module _ (env : Env) (out : Outside) (deps : Deps) where
  module _ (sch : Text) where
    abbrev Stripped : Db → Type 0
    Stripped db = Listed sch db × (count (token_of_member sch) db.issued_tokens ≡ 0)

    abbrev Ungranted : Db → Type 0
    Ungranted db =
        Listed sch db
        × (count (token_of_member sch) db.issued_tokens ≡ 0)
        × (count (grant_of_member sch) db.grants ≡ 0)

    Triple-list :
        Triple
          (λ db. Unit {0})
          (or_reply server_error (Tokens.add_to_blacklist env sch))
          (λ _ db. Listed sch db)
    unfolding Tokens.add_to_blacklist
    Triple-list =
        Triple-exec env server_error
          (λ db. record db {
            blacklist =
                if any (λ x. text_eq x sch) db.blacklist
                then db.blacklist
                else db.blacklist ++ (sch ∷ []);
          })
          (λ db. tt) (λ db p. listed-add sch db.blacklist)

    Triple-strip :
        (t : ℕ)
        → Triple
            (Listed sch)
            (or_reply server_error (Tokens.revoke_by_stake_credential env sch t))
            (λ _ db. Stripped db)
    unfolding Tokens.revoke_by_stake_credential
    Triple-strip t =
        Triple-exec env server_error
          (λ db. record db {
            issued_tokens =
                update (token_of_member sch) (Tokens.revoke_token_at t) db.issued_tokens;
          })
          (λ db. count (token_of_member sch) db.issued_tokens)
          (λ db p. (
            p,
            count-update (token_of_member sch) (Tokens.revoke_token_at t) db.issued_tokens
                (λ r. and-false (text_eq r.stake_credential_hash sch)),
          ))

    Triple-ungrant :
        Triple Stripped
          (or_reply server_error (Grants.revoke_by_stake_credential env sch))
          (λ _ db. Ungranted db)
    unfolding Grants.revoke_by_stake_credential
    Triple-ungrant =
        Triple-exec env server_error
          (λ db. record db {
            grants = update (grant_of_member sch) (Grants.with_status grant_revoked) db.grants;
          })
          (λ db. count (grant_of_member sch) db.grants)
          (λ db p. (
            p.0,
            p.1,
            count-update (grant_of_member sch) (Grants.with_status grant_revoked) db.grants
                (λ r. and-false (text_eq r.stake_credential_hash sch)),
          ))

    Triple-cancel :
        Triple Ungranted
          (or_reply server_error (Sessions.cancel_by_stake_credential env sch))
          (λ _ db. Removed sch db)
    unfolding Sessions.cancel_by_stake_credential
    Triple-cancel =
        Triple-exec env server_error
          (λ db. record db {
            sessions =
                update (session_of_member sch) (λ x. record x { status = sub_cancelled })
                  db.sessions;
          })
          (λ db. count (session_of_member sch) db.sessions)
          (λ db p. (
            p.0,
            p.1,
            p.2,
            count-update (session_of_member sch) (λ x. record x { status = sub_cancelled })
                db.sessions (λ r. and-false (text_eq r.stake_credential_hash sch)),
          ))

    Triple-remove :
        (user : AdminUser) (head : Head) (su : StepUp)
        → Triple
            (λ db. Unit {0})
            (admin_revoke_member env out deps user head sch su)
            (λ _ db. Removed sch db)
    unfolding admin_revoke_member
    Triple-remove user head su =
        Triple-bind _ _ (Triple-step_up env out deps (λ db. Unit {0}) user su (λ db xs p. p)) λ _.
          Triple-bind _ _ (Triple-clock env out deps (λ db. Unit {0})) λ t.
            Triple-bind _ _ Triple-list λ _. Triple-bind _ _ (Triple-strip t) λ tokens.
              Triple-bind _ _ Triple-ungrant λ grants. Triple-bind _ _ Triple-cancel λ subs.
                Triple-bind _ _
                  (Triple-audit env out deps (Removed sch) user head (lit "member.revoke") sch
                    (λ db xs p. p))
                  λ _.
                    Triple-answer
                      ((lit "revoked", flag true)
                        ∷ (lit "tokens_revoked", number tokens)
                        ∷ (lit "grants_revoked", number grants)
                        ∷ (lit "sessions_cancelled", number subs)
                        ∷ [])
                      (λ db p. p)

    -- When a member is revoked with success, its credential is on the black list, and it has no active
    -- token, no refresh grant that is not revoked and no active subscription.
    pub admin_revoke_member-Removed :
        (user : AdminUser) (head : Head) (su : StepUp) (body : Answer) (w w' : World Db)
        → admin_revoke_member env out deps user head sch su w ≡ (go body, w')
        → Removed sch w'.db
    admin_revoke_member-Removed user head su body w w' h =
        (Triple-remove user head su).post w tt body w' h
