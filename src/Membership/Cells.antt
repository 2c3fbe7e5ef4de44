-- ===== src/Membership/Cells.antt =====
-- The cells of the table of server/internal/store/repo_stakesnapshotcache.go.
use ouro_pass.Base.{
  Bool-cases, Option-cases, select, Text, text_eq_refl, ◌≡◌, refl, inl, inr, true, not, none, some,
  List, [], ◌∷◌, ◌++◌, arith,
}
use ouro_pass.Store.Domain.{StakeSnapshotCache}
use ouro_pass.Store.Table.{update}
use ouro_pass.Store.Snapshots.{same_cell, find_cell, upsert_rows}

same_cell_refl : (c : StakeSnapshotCache) → same_cell c.stake_credential_hash c.network c ≡ true
same_cell_refl c = rw (text_eq_refl c.stake_credential_hash, text_eq_refl c.network)

find_cell-insert :
    (sch network : Text) (c : StakeSnapshotCache) (rows : List StakeSnapshotCache)
    → find_cell sch network rows ≡ none
    → same_cell sch network c ≡ true
    → find_cell sch network (rows ++ (c ∷ [])) ≡ some c
unfolding find_cell
find_cell-insert sch network c [] h own = rw own
find_cell-insert sch network c (x ∷ rows) h own = elim (Bool-cases (same_cell sch network x)) [
  | inl hit ↦ absurd (ground (arith, hit, h))
  | inr miss ↦ rw miss (find_cell-insert sch network c rows (ground (arith, miss, h)) own)
]

find_cell-update :
    (sch network : Text) (c old : StakeSnapshotCache) (rows : List StakeSnapshotCache)
    → find_cell sch network rows ≡ some old
    → same_cell sch network c ≡ true
    → find_cell sch network (update (same_cell sch network) (λ x. c) rows) ≡ some c
unfolding find_cell update
find_cell-update sch network c old [] h own = absurd (cc)
find_cell-update sch network c old (x ∷ rows) h own = elim (Bool-cases (same_cell sch network x)) [
  | inl hit ↦ rw (hit, own)
  | inr miss ↦
      rw (miss, miss) (find_cell-update sch network c old rows (ground (arith, miss, h)) own)
]

-- After `Upsert` the cell holds the row that was written.
pub find_cell-upsert_rows :
    (c : StakeSnapshotCache) (rows : List StakeSnapshotCache)
    → find_cell c.stake_credential_hash c.network (upsert_rows c rows) ≡ some c
unfolding upsert_rows
find_cell-upsert_rows c rows =
    elim (Option-cases (find_cell c.stake_credential_hash c.network rows)) [
      | inl new ↦
          rw new (find_cell-insert c.stake_credential_hash c.network c rows new (same_cell_refl c))
      | inr (old, there) ↦
          rw there
            (find_cell-update c.stake_credential_hash c.network c old rows there (same_cell_refl c))
    ]

pub find_cell-delete :
    (sch network : Text) (rows : List StakeSnapshotCache)
    → find_cell sch network (select (λ c. not (same_cell sch network c)) rows) ≡ none
unfolding find_cell
find_cell-delete sch network [] = refl
find_cell-delete sch network (x ∷ rows) = elim (Bool-cases (same_cell sch network x)) [
  | inl hit ↦ rw hit (find_cell-delete sch network rows)
  | inr miss ↦ rw (miss, miss) (find_cell-delete sch network rows)
]
