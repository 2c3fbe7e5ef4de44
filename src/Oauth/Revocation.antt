-- ===== src/Oauth/Revocation.antt =====
-- A revoked access token in server/internal/core/oauth/introspect.go.
use mathlib.Core.Path.{subst}
use ouro_pass.Store.Tokens
use ouro_pass.Base.{
  Bool-cases, Text, is_empty, text_eq, text_eq_complete, ℕ, ◌≡◌, refl, sym, ap, ◌∙◌, inl, inr, true,
  false, some, [], ◌∷◌, arith,
}
use ouro_pass.Store.Table.{find, update, find-update, find-key}
use ouro_pass.Store.Domain.{IssuedToken, Db}
use ouro_pass.Store.Exec.{ok, Env, World, next, ◌>>=◌, attempt, now, query, exec}
use ouro_pass.Outside.{Outside}
use ouro_pass.Oauth.Live.{
  inactive, check_ledger, introspect_jti, introspect, is_jws, revoke_jws, revoke,
}
use ouro_pass.Go.Strings.{count_byte}

-- The row of a jti is revoked.
abbrev Revoked : Text → Db → Type 0
Revoked jti db =
    (t : IssuedToken) × (find Tokens.jti_of jti db.issued_tokens ≡ some t)
    × (Tokens.is_token_active t ≡ false)

module _ (env : Env) (out : Outside) where
  revoke_row :
      (jti : Text) (now : ℕ) (t : IssuedToken) (w w' : World Db)
      → find Tokens.jti_of jti w.db.issued_tokens ≡ some t
      → Tokens.revoke env jti now w ≡ (ok tt, w')
      → Revoked jti w'.db
  unfolding Tokens.revoke exec
  revoke_row jti now t w w' row h =
      let done : w'.db ≡ record w.db {
        issued_tokens =
            update (λ x. text_eq x.jti jti) (Tokens.revoke_token_at now) w.db.issued_tokens;
      } =
        ground arith in
      (
        Tokens.revoke_token_at now t,
        ap (λ (d : Db). find Tokens.jti_of jti d.issued_tokens) done
            ∙ find-update Tokens.jti_of jti (λ x. text_eq x.jti jti) (Tokens.revoke_token_at now)
                w.db.issued_tokens (λ r. refl)
            ∙ rw row (
                rw
                  (text_eq_complete t.jti jti (find-key Tokens.jti_of jti w.db.issued_tokens t row))
                  refl),
        refl,
      )

  check-Revoked :
      (sub tier jti : Text) (w : World Db)
      → Revoked jti w.db
      → (check_ledger env out sub tier jti w).0 ≡ ok inactive
  unfolding check_ledger attempt Tokens.get query now ◌>>=◌
  check-Revoked sub tier jti w (t, row, dead) = elim (Bool-cases (env.fault w.tick)) [
    | inl f ↦ rw f refl
    | inr f ↦ rw f (rw row (rw dead refl))
  ]

  Revoked-later :
      (token hint jti : Text) (t : IssuedToken) (w w' : World Db)
      → is_jws env out token hint ≡ true
      → is_empty jti ≡ false
      → out.jti_unverified token ≡ some jti
      → find Tokens.jti_of jti w.db.issued_tokens ≡ some t
      → revoke env out token hint w ≡ (ok tt, w')
      → Revoked jti w'.db
  unfolding revoke revoke_jws now ◌>>=◌ count_byte
  Revoked-later [] hint jti t w w' jws named known row h = absurd (cc)
  Revoked-later (c ∷ token) hint [] t w w' jws named known row h = absurd (cc)
  Revoked-later (c ∷ token) hint (j ∷ jti) t w w' jws named known row h =
      revoke_row (j ∷ jti) (env.time w.tick) t (next w) w' row (rw (jws, known) at h)

  -- After a signed token that the ledger knows is revoked, its jti is reported as inactive, at every
  -- later time and whether or not the ledger can be read, as long as the tables stay as they are.
  pub revoke-introspect :
      (token hint jti : Text) (t : IssuedToken) (w w' later : World Db)
      → is_jws env out token hint ≡ true
      → is_empty jti ≡ false
      → out.jti_unverified token ≡ some jti
      → find Tokens.jti_of jti w.db.issued_tokens ≡ some t
      → revoke env out token hint w ≡ (ok tt, w')
      → later.db ≡ w'.db
      → (introspect env out [] jti later).0 ≡ ok inactive
  unfolding introspect introspect_jti
  revoke-introspect token hint jti t w w' later jws named known row h same = rw named (
      check-Revoked [] [] jti later (
        subst (Revoked jti) (sym same) (Revoked-later token hint jti t w w' jws named known row h)))
