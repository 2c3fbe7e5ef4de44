-- ===== src/Membership/Cache.antt =====
-- The rows of the snapshot cache in server/internal/core/membership/cachedsource.go: what is stored
-- of a snapshot, and what is made of it at a hit.
use ouro_pass.Base.{Text, lit, ℕ, ◌≡◌, refl, Option, none, some, [], ◌∷◌, ◌++◌, arith}
use ouro_pass.Membership.{State, outside, pending, active, Snapshot, classify, derive_state}
use ouro_pass.Store.Domain.{StakeSnapshotCache}

-- `derefStr`
unfoldable pub deref_str : Option Text → Text
deref_str none = []
deref_str (some s) = s

-- `strPtrOrNil`
unfoldable pub str_ptr_or_nil : Text → Option Text
str_ptr_or_nil [] = none
str_ptr_or_nil (c ∷ s) = some (c ∷ s)

unfoldable pub snapshot_to_cache : Snapshot → Text → ℕ → StakeSnapshotCache
unfolding str_ptr_or_nil
snapshot_to_cache snap network epoch = record {
  stake_credential_hash = snap.stake_credential_hash;
  network = network;
  snapshot_epoch = epoch;
  delegated_pool_id = str_ptr_or_nil snap.active_stake_pool_id;
  active_stake_lovelace = str_ptr_or_nil snap.active_stake_lovelace;
  rewards_lovelace = str_ptr_or_nil snap.rewards_lovelace;
  epochs_active = snap.epochs_delegated;
  source = snap.source;
  fetched_at = snap.fetched_at;
}

unfoldable pub cached_to_snapshot : Text → ℕ → StakeSnapshotCache → Snapshot
unfolding deref_str
cached_to_snapshot sch epoch row = record {
  stake_credential_hash = sch;
  epoch = epoch;
  delegated_pool_id = deref_str row.delegated_pool_id;
  active_stake_pool_id = deref_str row.delegated_pool_id;
  active_stake_lovelace = deref_str row.active_stake_lovelace;
  rewards_lovelace = deref_str row.rewards_lovelace;
  epochs_delegated = row.epochs_active;
  account_status = lit "registered";
  source = row.source ++ lit "+cache";
  fetched_at = row.fetched_at;
}

deref-ptr : (s : Text) → deref_str (str_ptr_or_nil s) ≡ s
unfolding deref_str str_ptr_or_nil
deref-ptr [] = refl
deref-ptr (c ∷ s) = refl

-- What a hit knows of a state: that of a pending credential is lost.
pub seen_at_hit : State → State
seen_at_hit active = active
seen_at_hit pending = outside
seen_at_hit outside = outside

abbrev pub at_hit : Snapshot → Text → ℕ → Snapshot
at_hit snap network epoch =
    cached_to_snapshot snap.stake_credential_hash epoch (snapshot_to_cache snap network epoch)

-- A cached snapshot gives the active pool the same state and the same stake as the snapshot it was
-- made from, and every other pool the state `outside`, also a pool that the snapshot shows as the
-- pending delegation.
pub derive_state-at_hit :
    (snap : Snapshot) (network : Text) (epoch : ℕ) (pool_id : Text)
    → (derive_state (some (at_hit snap network epoch)) pool_id
        ≡ seen_at_hit (derive_state (some snap) pool_id))
      × ((at_hit snap network epoch).active_stake_lovelace ≡ snap.active_stake_lovelace)
      × ((at_hit snap network epoch).epochs_delegated ≡ snap.epochs_delegated)
unfolding derive_state classify cached_to_snapshot snapshot_to_cache seen_at_hit
derive_state-at_hit snap network epoch pool_id = (
  rw (deref-ptr snap.active_stake_pool_id) (ground arith),
  deref-ptr snap.active_stake_lovelace,
  refl,
)
