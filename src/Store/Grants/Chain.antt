-- ===== src/Store/Grants/Chain.antt =====
-- The effect of `RevokeChain` of server/internal/store/repo_refreshgrant.go.
use ouro_pass.Base.{
  Bool-cases, length, Text, ℕ, zero, suc, ◌+◌, ◌^◌, ◌≤◌, ◌≡◌, refl, sym, ap, ◌∙◌, ◌⊎◌, inl, inr,
  true, false, some, List, [], ◌∷◌, ◌++◌, arith,
}
use ouro_pass.Store.Table.{find, update}
use ouro_pass.Store.Domain.{grant_revoked, RefreshGrant, Db}
use ouro_pass.Store.Exec.{Error, db_error, Result, ok, err, Env, World, next, with_tx-cases}
use ouro_pass.Store.Grants.{
  grant_id, has_id, with_status, children, set_status, revoke_loop, revoke_chain,
}
use ouro_pass.Store.Grants.Forest.{IsForest, sizes, sizes-append, size-le, size_pos, sizes-children}
use ouro_pass.Store.Grants.Visit.{
  Descends, visit, revoke_each, children-update, visit-update, visit-Descends, find-revoke_each-In,
  find-revoke_each_out,
}

-- The database after the loop.
abbrev pub revoked_db : ℕ → List Text → Db → Db
revoked_db fuel queue db = record db { grants = revoke_each (visit fuel queue db.grants) db.grants }

abbrev revoke_one : Text → Db → Db
revoke_one cur db = record db { grants = update (has_id cur) (with_status grant_revoked) db.grants }

revoked_db-step :
    (fuel : ℕ) (cur : Text) (queue : List Text) (db : Db)
    → revoked_db fuel (queue ++ children cur db.grants) (revoke_one cur db)
      ≡ revoked_db (suc fuel) (cur ∷ queue) db
unfolding visit revoke_each
revoked_db-step fuel cur queue db =
    rw (visit-update fuel (queue ++ children cur db.grants) cur grant_revoked db.grants)

module _ (env : Env) where
  abbrev two_later : World Db → Text → World Db
  two_later w cur = record { db = revoke_one cur w.db; tick = w.tick + 1 + 1 }

  -- One round, when neither statement fails.
  revoke_loop-step :
      (fuel : ℕ) (cur : Text) (queue : List Text) (w : World Db)
      → env.fault w.tick ≡ false
      → env.fault (w.tick + 1) ≡ false
      → revoke_loop env (suc fuel) (cur ∷ queue) w
        ≡ revoke_loop env fuel (queue ++ children cur w.db.grants) (two_later w cur)
  unfolding revoke_loop set_status
  revoke_loop-step fuel cur queue w a b =
      rw (a, b) (rw (children-update cur cur grant_revoked w.db.grants))

  revoke_loop-fault :
      (fuel : ℕ) (cur : Text) (queue : List Text) (w : World Db)
      → (env.fault w.tick ≡ true) ⊎ (env.fault (w.tick + 1) ≡ true)
      → (w' : World Db) × (revoke_loop env (suc fuel) (cur ∷ queue) w ≡ (err db_error, w'))
  unfolding revoke_loop set_status
  revoke_loop-fault fuel cur queue w (inl a) = (next w, rw a)
  revoke_loop-fault fuel cur queue w (inr b) = elim (Bool-cases (env.fault w.tick)) [
    | inl a ↦ (next w, rw a)
    | inr a ↦ (two_later w cur, rw (a, b))
  ]

  -- A loop that ends well has revoked what it visited.
  revoke_loop-ok :
      (fuel : ℕ) (queue : List Text) (w w' : World Db)
      → revoke_loop env fuel queue w ≡ (ok tt, w')
      → w'.db ≡ revoked_db fuel queue w.db
  unfolding revoke_loop visit revoke_each
  revoke_loop-ok fuel [] w w' h = ap (λ (x : Result (Unit {0}) × World Db). x.1.db) (sym h)
  revoke_loop-ok zero (cur ∷ queue) w w' h = absurd (cc)
  revoke_loop-ok (suc fuel) (cur ∷ queue) w w' h = elim (Bool-cases (env.fault w.tick)) [
    | inl a ↦ absurd (cc ((revoke_loop-fault fuel cur queue w (inl a)).1))
    | inr a ↦ elim (Bool-cases (env.fault (w.tick + 1))) [
      | inl b ↦ absurd (cc ((revoke_loop-fault fuel cur queue w (inr b)).1))
      | inr b ↦
          revoke_loop-ok fuel (queue ++ children cur w.db.grants) (two_later w cur) w'
            (sym (revoke_loop-step fuel cur queue w a b) ∙ h)
          ∙ revoked_db-step fuel cur queue w.db
    ]
  ]

  -- Without database failures, and with fuel for the queue, it does end well.
  revoke_loop-runs :
      (rows : List RefreshGrant) (fuel : ℕ) (queue : List Text) (w : World Db)
      → ((n : ℕ) → env.fault n ≡ false)
      → IsForest rows
      → ((x : Text) → children x w.db.grants ≡ children x rows)
      → sizes rows queue ≤ fuel
      → (w' : World Db) × (revoke_loop env fuel queue w ≡ (ok tt, w'))
  unfolding revoke_loop sizes
  revoke_loop-runs rows fuel [] w nf f same h = (w, refl)
  revoke_loop-runs rows zero (cur ∷ queue) w nf f same h = absurd (omega (arith, size_pos rows cur))
  revoke_loop-runs rows (suc fuel) (cur ∷ queue) w nf f same h =
      let (w', e) =
        revoke_loop-runs rows fuel (queue ++ children cur w.db.grants) (two_later w cur) nf f
          (λ x. children-update x cur grant_revoked w.db.grants ∙ same x)
          (rw (same cur) (
            omega
              (arith, sizes-append rows queue (children cur rows), sizes-children rows cur f))) in
      (w', revoke_loop-step fuel cur queue w (nf w.tick) (nf (w.tick + 1)) ∙ e)

-- `after` is `before` with the grant and its descendants revoked, and nothing else changed.
pub record ChainRevoked (start : Text) (before after : Db) : Type 0 where
  pub others : after ≡ record before { grants = after.grants }
  pub revoked :
      (x : Text) (g : RefreshGrant)
      → find grant_id x before.grants ≡ some g
      → Descends before.grants start x
      → find grant_id x after.grants ≡ some (with_status grant_revoked g)
  pub kept :
      (x : Text) (g : RefreshGrant)
      → find grant_id x before.grants ≡ some g
      → ¬ Descends before.grants start x
      → find grant_id x after.grants ≡ some g

revoked_db-ChainRevoked :
    (start : Text) (db after : Db)
    → IsForest db.grants
    → after ≡ revoked_db (2 ^ length db.grants) (start ∷ []) db
    → ChainRevoked start db after
revoked_db-ChainRevoked start db after f e =
    let rows : after.grants
        ≡ revoke_each (visit (2 ^ length db.grants) (start ∷ []) db.grants) db.grants =
      ap (λ (d : Db). d.grants) e in
    record {
      others = e ∙ ap (λ (r : List RefreshGrant). record db { grants = r }) (sym rows);
      revoked = λ x g h d.
          ap (find grant_id x) rows
          ∙ find-revoke_each-In _ db.grants x g (inl ((visit-Descends db.grants start x f).1 d)) h;
      kept = λ x g h nd.
          ap (find grant_id x) rows
          ∙ find-revoke_each_out _ db.grants x g
              (λ m. nd ((visit-Descends db.grants start x f).0 m)) h;
    }

module _ (env : Env) where
  -- `RevokeChain` of a table whose rotations form a forest: without database failures it ends and
  -- revokes exactly the grant and its descendants.
  pub revoke_chain-ChainRevoked :
      (start : Text) (w : World Db)
      → ((n : ℕ) → env.fault n ≡ false)
      → IsForest w.db.grants
      → (w' : World Db) × (revoke_chain env start w ≡ (ok tt, w')) × ChainRevoked start w.db w'.db
  unfolding revoke_chain
  revoke_chain-ChainRevoked start w nf f =
      let (w', e) =
        revoke_loop-runs env w.db.grants (2 ^ length w.db.grants) (start ∷ []) (next w) nf f
          (λ x. refl) (unfold sizes in omega (arith, size-le w.db.grants start)) in
      let done = revoke_loop-ok env (2 ^ length w.db.grants) (start ∷ []) (next w) w' e in
      (
        next w',
        rw (nf w.tick, e) (rw (nf w'.tick)),
        revoked_db-ChainRevoked start w.db w'.db f done,
      )

  -- `RevokeChain` of a table whose rotations form a forest, whichever statements fail, either
  -- revokes exactly the grant and its descendants or returns an error and changes no row.
  pub revoke_chain_all_or_nothing :
      (start : Text) (w : World Db)
      → IsForest w.db.grants
      → (((revoke_chain env start w).0 ≡ ok tt)
          × ChainRevoked start w.db (revoke_chain env start w).1.db)
        ⊎ ((e : Error) × ((revoke_chain env start w).0 ≡ err e)
            × ((revoke_chain env start w).1.db ≡ w.db))
  unfolding revoke_chain
  revoke_chain_all_or_nothing start w f =
      elim (with_tx-cases env (revoke_loop env (2 ^ length w.db.grants) (start ∷ [])) w) [
        | inl (a, w1, e, h) ↦ inl (
          ap (λ (x : Result (Unit {0}) × World Db). x.0) h,
          rw h (
              revoked_db-ChainRevoked start w.db w1.db f
                (revoke_loop-ok env (2 ^ length w.db.grants) (start ∷ []) (next w) w1 e)),
        )
        | inr (e, w1, h, same) ↦ inr (e, rw h, rw h same)
      ]
