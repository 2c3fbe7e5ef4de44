-- ===== src/Store/Snapshots.antt =====
-- server/internal/store/repo_stakesnapshotcache.go: the cached snapshots, one for each credential
-- and network.
use ouro_pass.Base.{
  if◌then◌else◌, is_unset, select, Text, text_eq, Bool, not, ◌&&◌, Option, none, some, List, [],
  ◌∷◌, ◌++◌,
}
use ouro_pass.Store.Table.{update}
use ouro_pass.Store.Domain.{StakeSnapshotCache, Db}
use ouro_pass.Store.Exec.{not_found, Env, Exec, ◌>>=◌, some_or, query, exec}

abbrev pub same_cell : Text → Text → StakeSnapshotCache → Bool
same_cell sch network c = text_eq c.stake_credential_hash sch && text_eq c.network network

unfoldable pub find_cell : Text → Text → List StakeSnapshotCache → Option StakeSnapshotCache
find_cell sch network [] = none
find_cell sch network (c ∷ rows) =
    let rest = find_cell sch network rows in if same_cell sch network c then some c else rest

unfoldable pub upsert_rows : StakeSnapshotCache → List StakeSnapshotCache → List StakeSnapshotCache
upsert_rows c rows =
    if is_unset (find_cell c.stake_credential_hash c.network rows)
    then rows ++ (c ∷ [])
    else update (same_cell c.stake_credential_hash c.network) (λ x. c) rows

module _ (env : Env) where
  unfoldable pub upsert : StakeSnapshotCache → Exec Db (Unit {0})
  unfolding exec upsert_rows
  upsert c = exec env (λ db. record db { snapshots = upsert_rows c db.snapshots }) (λ db. tt)

  unfoldable pub get : Text → Text → Exec Db StakeSnapshotCache
  unfolding query find_cell ◌>>=◌
  get sch network = do
    found ← query env (λ db. find_cell sch network db.snapshots)
    some_or found not_found

  unfoldable pub delete : Text → Text → Exec Db (Unit {0})
  unfolding exec
  delete sch network =
      exec env
        (λ db. record db { snapshots = select (λ c. not (same_cell sch network c)) db.snapshots })
        (λ db. tt)
