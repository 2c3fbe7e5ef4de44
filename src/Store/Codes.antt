-- ===== src/Store/Codes.antt =====
-- server/internal/store/repo_authorizationcode.go: one-time authorization codes.
use ouro_pass.Base.{
  ltb, ◌==◌, Bool-cases, is_unset, Text, text_eq, text_eq_complete, ℕ, ◌≤◌, ◌≡◌, refl, sym, ap, ◌∙◌,
  inl, inr, Bool, not, ◌&&◌, none, some, [], ◌∷◌, ◌++◌, arith,
}
use ouro_pass.Store.Table.{find, update, count, find-update, find-key}
use ouro_pass.Store.Domain.{AuthorizationCode, Db}
use ouro_pass.Store.Exec.{
  Error, db_error, not_found, consumed, expired, Result, ok, err, Env, World, Exec, next, pure,
  ◌>>=◌, ◌>>◌, ok_injective, require, some_or, now, query, exec, with_tx, with_tx-cases, insert,
}

abbrev pub code_of : AuthorizationCode → Text
code_of c = c.code

-- `WHERE code = ? AND consumed_at IS NULL`
abbrev pub unconsumed_code : Text → AuthorizationCode → Bool
unconsumed_code code c = text_eq c.code code && is_unset c.consumed_at

abbrev pub consume_code_at : ℕ → AuthorizationCode → AuthorizationCode
consume_code_at now c = record c { consumed_at = some now }

module _ (env : Env) where
  unfoldable pub create : AuthorizationCode → Exec Db (Unit {0})
  unfolding insert
  create c =
      insert env (λ db. is_unset (find code_of c.code db.auth_codes))
        (λ db. record db { auth_codes = db.auth_codes ++ (c ∷ []) })

  -- The compare-and-swap; the number of rows it changed.
  unfoldable pub mark_consumed : Text → ℕ → Exec Db ℕ
  unfolding exec
  mark_consumed code now =
      exec env
        (λ db. record db {
          auth_codes = update (unconsumed_code code) (consume_code_at now) db.auth_codes;
        })
        (λ db. count (unconsumed_code code) db.auth_codes)

  unfoldable pub consume_body : Text → ℕ → Exec Db AuthorizationCode
  unfolding query mark_consumed ◌>>=◌
  consume_body code now = do
    found ← query env (λ db. find code_of code db.auth_codes)
    c ← some_or found not_found
    require (is_unset c.consumed_at) consumed
    require (not (ltb c.expires_at now)) expired
    n ← mark_consumed code now
    require (not (n == 0)) consumed
    pure c

  unfoldable pub consume : Text → ℕ → Exec Db AuthorizationCode
  unfolding with_tx consume_body
  consume code now = with_tx env (consume_body code now)

-- The row is there, unconsumed and not past its expiry, and afterwards it is consumed.
pub record Redeemed (code : Text) (now : ℕ) (c : AuthorizationCode) (before after : Db)
    : Type 0 where
  pub row : find code_of code before.auth_codes ≡ some c
  pub fresh_code : c.consumed_at ≡ none
  pub in_time : now ≤ c.expires_at
  pub after_db : after ≡ record before {
    auth_codes = update (unconsumed_code code) (consume_code_at now) before.auth_codes;
  }

module _ (env : Env) where
  consume_body-Redeemed :
      (code : Text) (now : ℕ) (w : World Db) (c : AuthorizationCode) (w' : World Db)
      → consume_body env code now w ≡ (ok c, w')
      → Redeemed code now c w.db w'.db
  unfolding consume_body
  consume_body-Redeemed code now w c w' h = ground arith

  -- A redemption that succeeds found the code stored, unused and not past its expiry, and marked
  -- it as used and changed nothing else.
  pub consume-Redeemed :
      (code : Text) (now : ℕ) (w : World Db) (c : AuthorizationCode) (w' : World Db)
      → consume env code now w ≡ (ok c, w')
      → Redeemed code now c w.db w'.db
  unfolding consume
  consume-Redeemed code now w c w' h = elim (with_tx-cases env (consume_body env code now) w) [
    | inl (a, w1, e, k) ↦
        let same_code : a ≡ c =
          ok_injective (ap (λ (x : Result AuthorizationCode × World Db). x.0) (sym k ∙ h)) in
        let same_db : w1.db ≡ w'.db =
          ap (λ (x : Result AuthorizationCode × World Db). x.1.db) (sym k ∙ h) in
        rw (← same_code, ← same_db) (consume_body-Redeemed code now (next w) a w1 e)
    | inr (e, w1, k, same) ↦ absurd (cc)
  ]

-- The code has been redeemed.
unfoldable pub IsSpent : Text → Db → Type 0
IsSpent code db =
    (c : AuthorizationCode) × (t : ℕ) × (find code_of code db.auth_codes ≡ some c)
    × (c.consumed_at ≡ some t)

Redeemed-IsSpent :
    (code : Text) (now : ℕ) (c : AuthorizationCode) (before after : Db)
    → Redeemed code now c before after
    → IsSpent code after
unfolding IsSpent
Redeemed-IsSpent code now c before after r =
    let id = find-key code_of code before.auth_codes c r.row in
    (
      consume_code_at now c,
      now,
      ap (λ (d : Db). find code_of code d.auth_codes) r.after_db
          ∙ find-update code_of code (unconsumed_code code) (consume_code_at now) before.auth_codes
              (λ x. refl)
          ∙ rw r.row (rw (text_eq_complete c.code code id, r.fresh_code)),
      refl,
    )

module _ (env : Env) where
  spent_body-fails :
      (code : Text) (now : ℕ) (w : World Db)
      → IsSpent code w.db
      → (e : Error) × (w' : World Db) × (consume_body env code now w ≡ (err e, w')) × (w'.db ≡ w.db)
  unfolding consume_body IsSpent
  spent_body-fails code now w (c, t, row, used) = elim (Bool-cases (env.fault w.tick)) [
    | inl f ↦ (db_error, next w, rw f, refl)
    | inr f ↦ (consumed, next w, rw f (rw row (rw used)), refl)
  ]

  -- A spent code is never redeemed again: every later attempt fails and leaves it spent.
  pub consume-IsSpent :
      (code : Text) (now : ℕ) (w : World Db)
      → IsSpent code w.db
      → (e : Error) × (w' : World Db) × (consume env code now w ≡ (err e, w')) × (w'.db ≡ w.db)
  unfolding consume
  consume-IsSpent code now w s = elim (with_tx-cases env (consume_body env code now) w) [
    | inl (a, w1, e, k) ↦ let (e', w2, k', _) = spent_body-fails code now (next w) s in absurd (cc)
    | inr (e, w1, k, same) ↦ (e, w1, k, same)
  ]
