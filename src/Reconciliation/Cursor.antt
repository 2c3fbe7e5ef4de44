-- ===== src/Reconciliation/Cursor.antt =====
-- The epoch cursor of `Run` in server/internal/worker/reconciliation.
use ouro_pass.Base.{
  ltb, Bool-cases, Text, text_eq, text_eq_refl, ℕ, ◌≡◌, refl, ◌∙◌, inl, inr, Bool, true, false,
  ◌||◌, Option, none, some, List, [], ◌∷◌, arith,
}
use ouro_pass.Store.Domain.{Db}
use ouro_pass.Store.Exec.{Error, ok, err, Env, World, ◌>>=◌, attempt}
use ouro_pass.Outside.{Outside}
use ouro_pass.Reconciliation.{Counts, reconcile, last_epoch, has_advanced, commit_epochs, poll}

-- The networks of a round are different.
unfoldable pub names_net : Text → List (Text × Option ℕ) → Bool
names_net net [] = false
names_net net ((n, _) ∷ probes) = text_eq net n || names_net net probes

unfoldable pub AllDifferent : List (Text × Option ℕ) → Type 0
AllDifferent [] = Unit
AllDifferent ((n, _) ∷ probes) = (names_net n probes ≡ false) × AllDifferent probes

last_epoch-commit :
    (net : Text) (probes : List (Text × Option ℕ)) (cursor : List (Text × ℕ))
    → names_net net probes ≡ false
    → last_epoch net (commit_epochs probes cursor) ≡ last_epoch net cursor
unfolding commit_epochs names_net last_epoch
last_epoch-commit net [] cursor h = refl
last_epoch-commit net ((n, none) ∷ probes) cursor h =
    last_epoch-commit net probes cursor (ground arith)
last_epoch-commit net ((n, some e) ∷ probes) cursor h =
    let k = last_epoch-commit net probes ((n, e) ∷ cursor) (ground arith) in ground arith

own : (n : Text) (e : ℕ) (cursor : List (Text × ℕ)) → last_epoch n ((n, e) ∷ cursor) ≡ e
unfolding last_epoch
own n e cursor = rw (text_eq_refl n) refl

irreflexive : (e : ℕ) → (ltb e e || false) ≡ false
irreflexive e = ground arith

-- The same epochs do not count as an advance of the cursor that they are committed to.
commit_epochs-settled :
    (probes : List (Text × Option ℕ)) (cursor : List (Text × ℕ))
    → AllDifferent probes
    → has_advanced (commit_epochs probes cursor) probes ≡ false
unfolding commit_epochs has_advanced AllDifferent
commit_epochs-settled [] cursor d = refl
commit_epochs-settled ((n, none) ∷ probes) cursor d = commit_epochs-settled probes cursor d.1
commit_epochs-settled ((n, some e) ∷ probes) cursor d =
    let same : last_epoch n (commit_epochs probes ((n, e) ∷ cursor)) ≡ e =
      last_epoch-commit n probes ((n, e) ∷ cursor) d.0 ∙ own n e cursor in
    rw (same, commit_epochs-settled probes ((n, e) ∷ cursor) d.1) (irreflexive e)

module _ (env : Env) (out : Outside) where
  -- If the networks of a round are different: a round whose pass succeeds is settled, so that
  -- polled again with the same epochs it does nothing; a round whose pass fails keeps the cursor,
  -- so that the next round tries again.
  pub poll-settled :
      (pool_id : Text) (probes : List (Text × Option ℕ)) (cursor : List (Text × ℕ))
      (w later : World Db)
      → AllDifferent probes
      → ((c : Counts)
          → (reconcile env out pool_id w).0 ≡ ok c
          → (poll env out pool_id probes (commit_epochs probes cursor) later
              ≡ (ok (commit_epochs probes cursor), later))
            × (has_advanced cursor probes ≡ true
                → (poll env out pool_id probes cursor w).0 ≡ ok (commit_epochs probes cursor)))
        × ((e : Error)
            → (reconcile env out pool_id w).0 ≡ err e
            → (poll env out pool_id probes cursor w).0 ≡ ok cursor)
  unfolding poll attempt ◌>>=◌
  poll-settled pool_id probes cursor w later d = (
    λ c e. (rw (commit_epochs-settled probes cursor d) refl, λ adv. rw adv (rw e refl)),
    λ c e. elim (Bool-cases (has_advanced cursor probes)) [
      | inl a ↦ rw a (rw e refl)
      | inr a ↦ rw a refl
    ],
  )
