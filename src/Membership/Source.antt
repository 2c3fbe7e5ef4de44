-- ===== src/Membership/Source.antt =====
-- server/internal/core/membership/cachedsource.go: a chain source behind the cache of active
-- snapshots. The answers of the wrapped source depend on the number of the interaction; calls that
-- run at the same time, which share one answer, are not modelled.
use ouro_pass.Base.{◌==◌, if◌then◌else◌, Text, is_empty, ℕ, Option, none, some}
use ouro_pass.Chain.Epoch.{current_epoch}
use ouro_pass.Membership.{Snapshot}
use ouro_pass.Membership.Cache.{snapshot_to_cache, cached_to_snapshot}
use ouro_pass.Store.Domain.{StakeSnapshotCache, Db}
use ouro_pass.Store.Exec.{
  chain_error, Result, ok, err, Env, Exec, pure, ◌>>=◌, ◌>>◌, ignore, attempt, now,
}
use ouro_pass.Outside.{ask}
use ouro_pass.Store.Snapshots

-- A row answers if it is labelled with the present epoch; an error of the table is a miss.
abbrev pub hit_of : Text → ℕ → Result StakeSnapshotCache → Option Snapshot
hit_of sch e (ok row) =
    if row.snapshot_epoch == e then some (cached_to_snapshot sch e row) else none
hit_of sch e (err _) = none

-- The epoch of a stored row: the present one, where it is known.
abbrev pub label : Option ℕ → Snapshot → ℕ
label none snap = snap.epoch
label (some e) snap = e

module _ (env : Env) (inner : ℕ → Text → Option Snapshot) (network : Text) where
  unfoldable pub look_up : Option ℕ → Text → Exec Db (Option Snapshot)
  unfolding attempt Snapshots.get cached_to_snapshot ◌>>=◌
  look_up none sch = pure none
  look_up (some e) sch = do row ← attempt (Snapshots.get env sch network); pure (hit_of sch e row)

  -- An active snapshot is stored; any other removes the row. Errors are ignored.
  unfoldable pub remember : Option ℕ → Text → Snapshot → Exec Db (Unit {0})
  unfolding ignore Snapshots.upsert Snapshots.delete snapshot_to_cache
  remember e sch snap =
      if is_empty snap.active_stake_pool_id
      then ignore (Snapshots.delete env sch network)
      else ignore (Snapshots.upsert env (snapshot_to_cache snap network (label e snap)))

  unfoldable pub fetch : Option ℕ → Text → Exec Db Snapshot
  unfolding ask remember ◌>>=◌
  fetch e sch = do snap ← ask (λ n. inner n sch) chain_error; remember e sch snap; pure snap

  abbrev pub or_fetch : Option ℕ → Text → Option Snapshot → Exec Db Snapshot
  or_fetch e sch (some snap) = pure snap
  or_fetch e sch none = fetch e sch

  -- `Snapshot`
  unfoldable pub snapshot : Text → Exec Db Snapshot
  unfolding now look_up fetch current_epoch ◌>>=◌
  snapshot sch = do
    t ← now env
    found ← look_up (current_epoch network t) sch
    or_fetch (current_epoch network t) sch found
