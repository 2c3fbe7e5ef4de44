-- ===== src/Oauth/Introspection.antt =====
-- Introspection of server/internal/core/oauth/introspect.go against the ledger.
use ouro_pass.Store.Tokens
use ouro_pass.Base.{
  lt→ltb, Option-cases, Text, is_empty, ◌+◌, ◌/◌, ◌<◌, ◌≡◌, refl, sym, ◌∙◌, ◌↔◌, inl, inr, true,
  false, some, [], arith,
}
use ouro_pass.Store.Table.{find}
use ouro_pass.Store.Domain.{IssuedToken, Db}
use ouro_pass.Store.Exec.{ok, Env, World, ◌>>=◌, attempt, now, query}
use ouro_pass.Outside.{Outside}
use ouro_pass.Oauth.Live.{IntrospectResponse, check_ledger, introspect_jti, introspect}

module _ (env : Env) (out : Outside) where
  check_ledger-live :
      (sub tier jti : Text) (r : IntrospectResponse) (w w' : World Db)
      → check_ledger env out sub tier jti w ≡ (ok r, w')
      → r.is_live ≡ true
      → (t : IssuedToken) × (find Tokens.jti_of jti w.db.issued_tokens ≡ some t)
        × (Tokens.is_token_active t ≡ true)
        × (env.time (w.tick + 1) < t.expires_at)
  unfolding check_ledger attempt Tokens.get query now ◌>>=◌
  check_ledger-live sub tier jti r w w' h live =
      elim (Option-cases (find Tokens.jti_of jti w.db.issued_tokens)) [
        | inl missing ↦ absurd (ground arith)
        | inr (t, row) ↦ (t, row, ground arith, ground arith)
      ]

  check_ledger-reports :
      (sub tier jti : Text) (t : IssuedToken) (w : World Db)
      → env.fault w.tick ≡ false
      → find Tokens.jti_of jti w.db.issued_tokens ≡ some t
      → Tokens.is_token_active t ≡ true
      → env.time (w.tick + 1) < t.expires_at
      → check_ledger env out sub tier jti w ≡ (
        ok (record { is_live = true; sub = sub; tier = tier; exp = t.expires_at / 1000000000 }),
        record w { tick = w.tick + 1 + 1 },
      )
  unfolding check_ledger attempt Tokens.get query now ◌>>=◌
  check_ledger-reports sub tier jti t w fine row live in_time =
      rw fine (rw row (rw (live, lt→ltb (env.time (w.tick + 1)) t.expires_at in_time) refl))

  -- A jti that is known to the ledger is reported as live exactly if its row is active and the time
  -- of the request is before its expiry, when the ledger can be read.
  pub introspect-live :
      (jti : Text) (t : IssuedToken) (w : World Db)
      → env.fault w.tick ≡ false
      → is_empty jti ≡ false
      → find Tokens.jti_of jti w.db.issued_tokens ≡ some t
      → ((r : IntrospectResponse) × (w' : World Db) × (introspect env out [] jti w ≡ (ok r, w'))
          × (r.is_live ≡ true))
        ↔ ((Tokens.is_token_active t ≡ true) × (env.time (w.tick + 1) < t.expires_at))
  unfolding introspect introspect_jti
  introspect-live jti t w fine named row = (
    λ (r, w', h, live).
        let (t', row', active, in_time) = check_ledger-live [] [] jti r w w' (rw named at h) live in
        let same : some t ≡ some t' = sym row ∙ row' in (ground arith, ground arith),
    λ (active, in_time).
        let done = check_ledger-reports [] [] jti t w fine row active in_time in
        (
          record { is_live = true; sub = []; tier = []; exp = t.expires_at / 1000000000 },
          record w { tick = w.tick + 1 + 1 },
          rw named done,
          refl,
        ),
  )
