-- ===== src/Membership/Active.antt =====
-- The rows of the cache of server/internal/core/membership/cachedsource.go: only active credentials.
use ouro_pass.Base.{
  Bool-cases, is_unset, select, Text, is_empty, ℕ, ◌≡◌, refl, ◌∙◌, inl, inr, Bool, false, Option,
  none, some, List, [], ◌∷◌, ◌++◌,
}
use ouro_pass.Membership.{Snapshot}
use ouro_pass.Membership.Cache.{str_ptr_or_nil, snapshot_to_cache}
use ouro_pass.Membership.Source.{label, look_up, remember, fetch, or_fetch, snapshot}
use ouro_pass.Store.Domain.{StakeSnapshotCache, Db}
use ouro_pass.Store.Exec.{Env, World}
use ouro_pass.Store.Keeps.{Keeps, Keeps-pure, Keeps-ignore, Keeps-exec, keeps_rules}
use ouro_pass.Store.Table.{update}
use ouro_pass.Store.Snapshots.{same_cell, find_cell, upsert_rows}
use ouro_pass.Store.Snapshots

-- Every cached row is of a credential that is active in some pool.
abbrev pub OnlyActive : List StakeSnapshotCache → Type 0
OnlyActive [] = Unit
OnlyActive (c ∷ rows) = (is_unset c.delegated_pool_id ≡ false) × OnlyActive rows

OnlyActive-insert :
    (c : StakeSnapshotCache) (rows : List StakeSnapshotCache)
    → is_unset c.delegated_pool_id ≡ false
    → OnlyActive rows
    → OnlyActive (rows ++ (c ∷ []))
OnlyActive-insert c [] own h = (own, tt)
OnlyActive-insert c (x ∷ rows) own h = (h.0, OnlyActive-insert c rows own h.1)

OnlyActive-update :
    (p : StakeSnapshotCache → Bool) (c : StakeSnapshotCache) (rows : List StakeSnapshotCache)
    → is_unset c.delegated_pool_id ≡ false
    → OnlyActive rows
    → OnlyActive (update p (λ x. c) rows)
unfolding update
OnlyActive-update p c [] own h = tt
OnlyActive-update p c (x ∷ rows) own h = elim (Bool-cases (p x)) [
  | inl hit ↦ rw hit (own, OnlyActive-update p c rows own h.1)
  | inr miss ↦ rw miss (h.0, OnlyActive-update p c rows own h.1)
]

OnlyActive-select :
    (p : StakeSnapshotCache → Bool) (rows : List StakeSnapshotCache)
    → OnlyActive rows
    → OnlyActive (select p rows)
OnlyActive-select p [] h = tt
OnlyActive-select p (x ∷ rows) h = elim (Bool-cases (p x)) [
  | inl hit ↦ rw hit (h.0, OnlyActive-select p rows h.1)
  | inr miss ↦ rw miss (OnlyActive-select p rows h.1)
]

OnlyActive-upsert_rows :
    (c : StakeSnapshotCache) (rows : List StakeSnapshotCache)
    → is_unset c.delegated_pool_id ≡ false
    → OnlyActive rows
    → OnlyActive (upsert_rows c rows)
unfolding upsert_rows
OnlyActive-upsert_rows c rows own h =
    elim (Bool-cases (is_unset (find_cell c.stake_credential_hash c.network rows))) [
      | inl new ↦ rw new (OnlyActive-insert c rows own h)
      | inr old ↦
          rw old (OnlyActive-update (same_cell c.stake_credential_hash c.network) c rows own h)
    ]

ptr-is_unset : (s : Text) → is_unset (str_ptr_or_nil s) ≡ is_empty s
unfolding str_ptr_or_nil
ptr-is_unset [] = refl
ptr-is_unset (c ∷ s) = refl

module _ (env : Env) (inner : ℕ → Text → Option Snapshot) (network : Text) where
  abbrev Clean : Db → Type 0
  Clean db = OnlyActive db.snapshots

  Keeps-remember :
      (e : Option ℕ) (sch : Text) (s : Snapshot) → Keeps Clean (remember env inner network e sch s)
  unfolding remember Snapshots.upsert Snapshots.delete snapshot_to_cache
  Keeps-remember e sch s = elim (Bool-cases (is_empty s.active_stake_pool_id)) [
    | inl nowhere ↦ rw nowhere (
        Keeps-ignore (Snapshots.delete env sch network)
          (Keeps-exec env _ _ (λ db h. OnlyActive-select _ db.snapshots h)))
    | inr somewhere ↦ rw somewhere (
        Keeps-ignore (Snapshots.upsert env (snapshot_to_cache s network (label e s))) (
          Keeps-exec env _ _ (λ db h.
            OnlyActive-upsert_rows (snapshot_to_cache s network (label e s)) db.snapshots
              (ptr-is_unset s.active_stake_pool_id ∙ somewhere) h)))
  ]

  Keeps-fetch : (e : Option ℕ) (sch : Text) → Keeps Clean (fetch env inner network e sch)
  unfolding fetch
  Keeps-fetch e sch = search (keeps_rules, Keeps-remember) depth 12

  Keeps-look_up : (e : Option ℕ) (sch : Text) → Keeps Clean (look_up env inner network e sch)
  unfolding look_up Snapshots.get
  Keeps-look_up none sch = search (keeps_rules) depth 12
  Keeps-look_up (some e) sch = search (keeps_rules) depth 12

  Keeps-or_fetch :
      (e : Option ℕ) (sch : Text) (o : Option Snapshot)
      → Keeps Clean (or_fetch env inner network e sch o)
  Keeps-or_fetch e sch none = Keeps-fetch e sch
  Keeps-or_fetch e sch (some s) = Keeps-pure s

  -- Every row of the cache is of a credential that is active in some pool: a read through the cache
  -- keeps it so, whatever the wrapped source answers and whichever statements fail.
  pub snapshot-OnlyActive :
      (sch : Text) (w : World Db)
      → OnlyActive w.db.snapshots
      → OnlyActive (snapshot env inner network sch w).1.db.snapshots
  unfolding snapshot
  snapshot-OnlyActive sch w h =
      let kept : Keeps Clean (snapshot env inner network sch) =
        search (keeps_rules, Keeps-look_up, Keeps-or_fetch) depth 12 in
      kept.at w h
