-- ===== src/Store/Nonces.antt =====
-- server/internal/store/repo_authnonce.go: one-time signing nonces.
use ouro_pass.Base.{
  ltb, ◌==◌, Bool-cases, is_unset, select, Text, text_eq, text_eq_complete, ℕ, ◌≤◌, ◌≡◌, refl, sym,
  ap, ◌∙◌, inl, inr, Bool, true, false, not, ◌&&◌, none, some, [], ◌∷◌, ◌++◌, arith,
}
use ouro_pass.Store.Table.{find, update, count, find-update, find-key}
use ouro_pass.Store.Domain.{
  NoncePurpose, nonce_issue, nonce_activation, nonce_admin_login, nonce_step_up, AuthNonce, Db,
}
use ouro_pass.Store.Exec.{
  Error, db_error, not_found, consumed, expired, purpose_mismatch, Result, ok, err, Env, World,
  Exec, next, pure, ◌>>=◌, ◌>>◌, ok_injective, require, some_or, now, query, exec, with_tx,
  with_tx-cases, insert,
}
use ouro_pass.Store.Timestamp.{ts, stamp_lt}

abbrev pub nonce_of : AuthNonce → Text
nonce_of n = n.nonce

abbrev pub unconsumed_nonce : Text → AuthNonce → Bool
unconsumed_nonce nonce n = text_eq n.nonce nonce && is_unset n.consumed_at

abbrev pub consume_nonce_at : ℕ → AuthNonce → AuthNonce
consume_nonce_at now n = record n { consumed_at = some now }

abbrev pub same_purpose : NoncePurpose → NoncePurpose → Bool
same_purpose nonce_issue nonce_issue = true
same_purpose nonce_activation nonce_activation = true
same_purpose nonce_admin_login nonce_admin_login = true
same_purpose nonce_step_up nonce_step_up = true
same_purpose _ _ = false

module _ (env : Env) where
  unfoldable pub create : AuthNonce → Exec Db (Unit {0})
  unfolding insert
  create n =
      insert env (λ db. is_unset (find nonce_of n.nonce db.nonces))
        (λ db. record db { nonces = db.nonces ++ (n ∷ []) })

  -- The texts are compared, as SQL does.
  unfoldable pub delete_expired : ℕ → Exec Db ℕ
  unfolding exec
  delete_expired before =
      exec env
        (λ db. record db {
          nonces = select (λ n. not (stamp_lt (ts n.expires_at) (ts before))) db.nonces;
        })
        (λ db. count (λ n. stamp_lt (ts n.expires_at) (ts before)) db.nonces)

  unfoldable pub mark_consumed : Text → ℕ → Exec Db ℕ
  unfolding exec
  mark_consumed nonce now =
      exec env
        (λ db. record db {
          nonces = update (unconsumed_nonce nonce) (consume_nonce_at now) db.nonces;
        })
        (λ db. count (unconsumed_nonce nonce) db.nonces)

  unfoldable pub consume_body : Text → NoncePurpose → ℕ → Exec Db AuthNonce
  unfolding query mark_consumed ◌>>=◌
  consume_body nonce purpose now = do
    found ← query env (λ db. find nonce_of nonce db.nonces)
    n ← some_or found not_found
    require (is_unset n.consumed_at) consumed
    require (not (ltb n.expires_at now)) expired
    require (same_purpose n.purpose purpose) purpose_mismatch
    k ← mark_consumed nonce now
    require (not (k == 0)) consumed
    pure n

  unfoldable pub consume : Text → NoncePurpose → ℕ → Exec Db AuthNonce
  unfolding with_tx consume_body
  consume nonce purpose now = with_tx env (consume_body nonce purpose now)

-- The row is there for this purpose, unconsumed and not past its expiry, and is consumed after.
pub record Used (nonce : Text) (purpose : NoncePurpose) (now : ℕ) (n : AuthNonce)
    (before after : Db) : Type 0 where
  pub row : find nonce_of nonce before.nonces ≡ some n
  pub fresh_nonce : n.consumed_at ≡ none
  pub in_time : now ≤ n.expires_at
  pub for_purpose : n.purpose ≡ purpose
  pub after_db : after ≡ record before {
    nonces = update (unconsumed_nonce nonce) (consume_nonce_at now) before.nonces;
  }

same_purpose_sound : (p q : NoncePurpose) → same_purpose p q ≡ true → p ≡ q
same_purpose_sound p q h = ground arith

module _ (env : Env) where
  consume_body-Used :
      (nonce : Text) (purpose : NoncePurpose) (now : ℕ) (w : World Db) (n : AuthNonce)
      (w' : World Db)
      → consume_body env nonce purpose now w ≡ (ok n, w')
      → Used nonce purpose now n w.db w'.db
  unfolding consume_body
  consume_body-Used nonce purpose now w n w' h =
      ground (arith, same_purpose_sound n.purpose purpose)

  -- A nonce that is consumed was stored for the same purpose, unused and not past its expiry, and
  -- is marked as used, and nothing else changes.
  pub consume-Used :
      (nonce : Text) (purpose : NoncePurpose) (now : ℕ) (w : World Db) (n : AuthNonce)
      (w' : World Db)
      → consume env nonce purpose now w ≡ (ok n, w')
      → Used nonce purpose now n w.db w'.db
  unfolding consume
  consume-Used nonce purpose now w n w' h =
      elim (with_tx-cases env (consume_body env nonce purpose now) w) [
        | inl (a, w1, e, k) ↦
            let same_row : a ≡ n =
              ok_injective (ap (λ (x : Result AuthNonce × World Db). x.0) (sym k ∙ h)) in
            let same_db : w1.db ≡ w'.db =
              ap (λ (x : Result AuthNonce × World Db). x.1.db) (sym k ∙ h) in
            rw (← same_row, ← same_db) (consume_body-Used nonce purpose now (next w) a w1 e)
        | inr (e, w1, k, same) ↦ absurd (cc)
      ]

pub IsSpent : Text → Db → Type 0
IsSpent nonce db =
    (n : AuthNonce) × (t : ℕ) × (find nonce_of nonce db.nonces ≡ some n) × (n.consumed_at ≡ some t)

pub Used-IsSpent :
    (nonce : Text) (purpose : NoncePurpose) (now : ℕ) (n : AuthNonce) (before after : Db)
    → Used nonce purpose now n before after
    → IsSpent nonce after
unfolding IsSpent
Used-IsSpent nonce purpose now n before after r =
    let id = find-key nonce_of nonce before.nonces n r.row in
    (
      consume_nonce_at now n,
      now,
      ap (λ (d : Db). find nonce_of nonce d.nonces) r.after_db
          ∙ find-update nonce_of nonce (unconsumed_nonce nonce) (consume_nonce_at now) before.nonces
              (λ x. refl)
          ∙ rw r.row (rw (text_eq_complete n.nonce nonce id, r.fresh_nonce)),
      refl,
    )

module _ (env : Env) where
  spent_body-fails :
      (nonce : Text) (purpose : NoncePurpose) (now : ℕ) (w : World Db)
      → IsSpent nonce w.db
      → (e : Error) × (w' : World Db) × (consume_body env nonce purpose now w ≡ (err e, w'))
        × (w'.db ≡ w.db)
  unfolding consume_body IsSpent
  spent_body-fails nonce purpose now w (n, t, row, used) = elim (Bool-cases (env.fault w.tick)) [
    | inl f ↦ (db_error, next w, rw f, refl)
    | inr f ↦ (consumed, next w, rw f (rw row (rw used)), refl)
  ]

  -- A spent nonce is refused, for every purpose and at every time, and stays spent.
  pub consume-IsSpent :
      (nonce : Text) (purpose : NoncePurpose) (now : ℕ) (w : World Db)
      → IsSpent nonce w.db
      → (e : Error) × (w' : World Db) × (consume env nonce purpose now w ≡ (err e, w'))
        × (w'.db ≡ w.db)
  unfolding consume
  consume-IsSpent nonce purpose now w s =
      elim (with_tx-cases env (consume_body env nonce purpose now) w) [
        | inl (a, w1, e, k) ↦
            let (e', w2, k', _) = spent_body-fails nonce purpose now (next w) s in absurd (cc)
        | inr (e, w1, k, same) ↦ (e, w1, k, same)
      ]
