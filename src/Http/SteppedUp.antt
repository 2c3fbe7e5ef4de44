-- ===== src/Http/SteppedUp.antt =====
-- The sensitive calls of the administration plane (server/internal/httpapi) and the fresh signature
-- that they ask for.
use ouro_pass.Base.{
  some_injective, Text, is_empty, text_eq, text_eq_sound, ℕ, ◌+◌, ◌≡◌, refl, ap, ◌⊎◌, inl, inr,
  Bool, true, false, not, Option, none, some, List, arith,
}
use ouro_pass.Store.Domain.{nonce_step_up, AuthNonce, AdminUser, Db}
use ouro_pass.Store.Exec.{unauthorized, forbidden, ok, Env, World, next, or_error, require, bind-ok}
use ouro_pass.Store.Keeps.{Keeps, Keeps-exec, keeps_rules}
use ouro_pass.Outside.{Outside}
use ouro_pass.Store.Inversion.{or_error-ok, require-ok}
use ouro_pass.Http.Flow.{Failure, go, Http, ◌>>=◌, some_or_reply, check, or_reply-go}
use ouro_pass.Http.AdminLogin.{
  Deps, Head, admin_failure, StepUp, require_session, require_role, require_step_up,
}
use ouro_pass.Http.Members.{admin_revoke_member}
use ouro_pass.Http.ClientAdmin.{
  ClientBody, client_type_of, admin_register_client, admin_regenerate_client_secret,
  admin_rotate_key, admin_retire_key,
}
use ouro_pass.Http.Holds.{Holds, holds_rules, bind-cases}
use ouro_pass.Http.Routes.{
  Call, revoke_member, post_client, regenerate_secret, rotate_key, retire_key, min_role, handle,
  admin_api,
}
use ouro_pass.Http.Guarded.{Session, Holds-require_session, require_session-go}
use ouro_pass.Http.Untouched.{SameNonces, untouched_rules}
use ouro_pass.WalletAuth.Binding.{Verified, verify-Verified}
use ouro_pass.Admin.{at_least, verify_step_up}
use ouro_pass.Admin
use mathlib.Core.Path.{subst}
use ouro_pass.WalletAuth
use ouro_pass.Store.Nonces

-- The calls that carry a step-up signature.
abbrev pub step_up_of : Call → Option StepUp
step_up_of c = elim c [
  | revoke_member _ su ↦ some su
  | post_client (some body) ↦ some body.step_up
  | regenerate_secret _ su ↦ some su
  | rotate_key su ↦ some su
  | retire_key _ su ↦ some su
  | _ ↦ none
]

-- No table but that of the nonces differs.
abbrev pub OnlyNonces : Db → Db → Type 0
OnlyNonces before after = after ≡ record before { nonces = after.nonces }

spend :
    (d : Db) (xs : List AuthNonce) (db : Db)
    → OnlyNonces d db
    → OnlyNonces d (record db { nonces = xs })
spend d xs db h = ap (λ (x : Db). record x { nonces = xs }) h

module _ (env : Env) (out : Outside) (deps : Deps) where
  Keeps-mark :
      (d : Db) (nonce : Text) (t : ℕ) → Keeps (OnlyNonces d) (Nonces.mark_consumed env nonce t)
  unfolding Nonces.mark_consumed
  Keeps-mark d nonce t = Keeps-exec env _ _ (λ db h. spend d _ db h)

  Keeps-verify :
      (d : Db) (cose nonce sig : Text)
      → Keeps (OnlyNonces d) (WalletAuth.verify env out nonce_step_up cose nonce sig)
  unfolding WalletAuth.verify Nonces.consume Nonces.consume_body
  Keeps-verify d cose nonce sig = search (keeps_rules, Keeps-mark) depth 20

  Holds-step_up :
      (d : Db) (user : AdminUser) (su : StepUp)
      → Holds (OnlyNonces d) (require_step_up env out deps user su)
  unfolding require_step_up Admin.verify_step_up
  Holds-step_up d user su = search (holds_rules, keeps_rules, Keeps-verify) depth 14

  verify_step_up-Verified :
      (su : StepUp) (expected : Text) (w w' : World Db)
      → Admin.verify_step_up env out deps.config su.cose_key su.nonce su.signature expected w
        ≡ (ok tt, w')
      → Verified env out nonce_step_up su.nonce su.signature expected (env.time w.tick) w.db w'.db
  unfolding Admin.verify_step_up
  verify_step_up-Verified su expected w w' h =
      let verifying =
        or_error unauthorized
          (WalletAuth.verify env out nonce_step_up su.cose_key su.nonce su.signature) in
      let (hash, w1, passed, rest) =
        bind-ok verifying (λ hash. require (text_eq hash expected) forbidden) w tt w' h in
      let (own, same) = require-ok (text_eq hash expected) forbidden w1 w' rest in
      let verified =
        verify-Verified env out nonce_step_up su.cose_key su.nonce su.signature hash w w1 (
          or_error-ok unauthorized
            (WalletAuth.verify env out nonce_step_up su.cose_key su.nonce su.signature) w hash w1
            passed) in
      rw same (rw (text_eq_sound hash expected own) at verified)

  step_up-go :
      (user : AdminUser) (su : StepUp) (w w1 : World Db)
      → require_step_up env out deps user su w ≡ (go tt, w1)
      → Verified env out nonce_step_up su.nonce su.signature user.owner_key_hash
          (env.time w.tick)
          w.db
          w1.db
  unfolding require_step_up
  step_up-go user su w w1 h = verify_step_up-Verified su user.owner_key_hash w w1 (
      or_reply-go admin_failure
        (Admin.verify_step_up env out deps.config su.cose_key su.nonce su.signature
          user.owner_key_hash)
        w tt w1 h)

  -- The step-up signature was verified on the tables before, at the given time, and the nonces after
  -- are those that this has left, the one of the signature being spent.
  abbrev pub Signed : AdminUser → StepUp → ℕ → Db → Db → Type 0
  Signed user su t before after =
      (mid : Db) × Verified env out nonce_step_up su.nonce su.signature user.owner_key_hash t before
        mid
      × (after.nonces ≡ mid.nonces)

  abbrev Gated : {A : Type 0} → AdminUser → StepUp → Http A → World Db → Type 0
  Gated user su m w = OnlyNonces w.db (m w).1.db ⊎ Signed user su (env.time w.tick) w.db (m w).1.db

  module _ (user : AdminUser) (su : StepUp) {A : Type 0} where
    Gated-step_up :
        (rest : Unit {0} → Http A) (w : World Db)
        → ((xs : List AuthNonce) → Holds (SameNonces xs) (rest tt))
        → Gated user su (require_step_up env out deps user su >>= rest) w
    Gated-step_up rest w same = elim (bind-cases (require_step_up env out deps user su) rest w) [
      | inl (e, w1, stopped, ends) ↦
          let kept = (Holds-step_up w.db user su).held w refl in inl (rw ends (rw stopped at kept))
      | inr (_, w1, passed, goes) ↦
          inr (w1.db, step_up-go user su w w1 passed, rw goes ((same w1.db.nonces).held w1 refl))
    ]

    Gated-check :
        (b : Bool) (e : Failure) (m : Http A) (w : World Db)
        → Gated user su m w
        → Gated user su (check b e >>= λ _. m) w
    unfolding ◌>>=◌
    Gated-check true e m w g = g
    Gated-check false e m w g = inl refl

    Gated-some :
        {B : Type 0} (o : Option B) (e : Failure) (f : B → Http A) (w : World Db)
        → ((b : B) → o ≡ some b → Gated user su (f b) w)
        → Gated user su (some_or_reply o e >>= f) w
    unfolding ◌>>=◌
    Gated-some none e f w g = inl refl
    Gated-some (some b) e f w g = g b refl

  module _ (user : AdminUser) (head : Head) (w : World Db) where
    Gated-revoke_member :
        (sch : Text) (su : StepUp)
        → Gated user su (admin_revoke_member env out deps user head sch su) w
    unfolding admin_revoke_member
    Gated-revoke_member sch su = Gated-step_up user su _ w (λ xs. search (untouched_rules) depth 30)

    Gated-regenerate :
        (id : Text) (su : StepUp)
        → Gated user su (admin_regenerate_client_secret env out deps user head id su) w
    unfolding admin_regenerate_client_secret
    Gated-regenerate id su = Gated-step_up user su _ w (λ xs. search (untouched_rules) depth 30)

    Gated-rotate : (su : StepUp) → Gated user su (admin_rotate_key env out deps user head su) w
    unfolding admin_rotate_key
    Gated-rotate su =
        Gated-check user su deps.has_keys _ _ w
          (Gated-step_up user su _ w (λ xs. search (untouched_rules) depth 30))

    Gated-retire :
        (kid : Text) (su : StepUp)
        → Gated user su (admin_retire_key env out deps user head kid su) w
    unfolding admin_retire_key
    Gated-retire kid su =
        Gated-check user su deps.has_keys _ _ w
          (Gated-step_up user su _ w (λ xs. search (untouched_rules) depth 30))

    Gated-register :
        (body : ClientBody)
        → Gated user body.step_up (admin_register_client env out deps user head (some body)) w
    unfolding admin_register_client
    Gated-register body = Gated-check user body.step_up (not (is_empty body.name)) _ _ w (
        Gated-some user body.step_up (client_type_of body.client_type) _ _ w
          (λ ct e. Gated-step_up user body.step_up _ w (λ xs. search (untouched_rules) depth 30)))

    Gated-handle :
        (listers : Text → Option (ℕ → Text → ℕ → Option (List Text))) (call : Call) (su : StepUp)
        → step_up_of call ≡ some su
        → Gated user su (handle env out deps listers user head call) w
    unfolding handle
    Gated-handle listers (revoke_member sch s) su h =
        rw (← some_injective h) (Gated-revoke_member sch s)
    Gated-handle listers (post_client (some body)) su h =
        rw (← some_injective h) (Gated-register body)
    Gated-handle listers (post_client none) su h = absurd (cc)
    Gated-handle listers (regenerate_secret id s) su h =
        rw (← some_injective h) (Gated-regenerate id s)
    Gated-handle listers (rotate_key s) su h = rw (← some_injective h) (Gated-rotate s)
    Gated-handle listers (retire_key kid s) su h = rw (← some_injective h) (Gated-retire kid s)
    Gated-handle listers _ su h = absurd (cc)

  -- A call that carries a step-up signature (revoking a member, registering a client, a new client
  -- secret, rotating or retiring a signing key) changes no table but that of the nonces, whatever its
  -- outcome, unless its session is valid and the signature is that of the session's own owner key over
  -- a step-up nonce issued to it, unused and not past its expiry at the time that the call reads after
  -- the session; and then the nonce is spent in the tables that the call leaves, which have no other
  -- change in the nonces.
  pub admin_api-stepped_up :
      (listers : Text → Option (ℕ → Text → ℕ → Option (List Text))) (head : Head) (call : Call)
      (su : StepUp) (w : World Db)
      → step_up_of call ≡ some su
      → OnlyNonces w.db (admin_api env out deps listers head call w).1.db
        ⊎ ((user : AdminUser) × Session env out deps head user w
            × Signed user su
                (env.time (w.tick + 3))
                w.db
                (admin_api env out deps listers head call w).1.db)
  unfolding admin_api require_role
  admin_api-stepped_up listers head call su w h =
      let after = λ (user : AdminUser). require_role env out deps (min_role call) user >>= λ _.
      handle env out deps listers user head call in
      let same = (Holds-require_session env out deps (λ db. db ≡ w.db) head).held w refl in
      elim (bind-cases (require_session env out deps head) after w) [
        | inl (e, w1, stopped, ends) ↦ inl (rw (ends, rw stopped at same))
        | inr (user, w1, known, goes) ↦
            let (session, later) = require_session-go env out deps head user w w1 known in
            let gated : Gated user su (after user) w1 =
              Gated-check user su (at_least user.role (min_role call)) _ _ w1
                (Gated-handle user head w1 listers call su h) in
            elim (subst (Gated user su (after user)) later gated) [
              | inl kept ↦ inl (rw (goes, later) kept)
              | inr signed ↦
                  let third : w.tick + 1 + 1 + 1 ≡ w.tick + 3 = omega arith in
                  let timed =
                    subst
                      (λ (n : ℕ).
                        Signed user su (env.time n) w.db (after user (next (next (next w)))).1.db)
                      third signed in
                  inr (user, session, rw (goes, later) timed)
            ]
      ]
