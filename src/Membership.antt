-- ===== src/Membership.antt =====
-- server/internal/core/membership/state.go, and the snapshot of server/internal/utils/chain/chain.go.
pub mod Cache
pub mod Source
pub mod Cells
pub mod Hits
pub mod Active
use ouro_pass.Base.{
  if◌then◌else◌, Text, lit, is_empty, text_eq, ℕ, Bool, true, false, ◌&&◌, Option, none, some,
}
use ouro_pass.Base.Int.{ℤ}
use ouro_pass.Chain.PoolId.{canonical_pool_id}

-- `membership.State`; a value that is none of the three is not modelled, since none is made.
pub data State : Type 0 where
  outside pending active : State

-- `string(state)`
unfoldable pub state_text : State → Text
state_text outside = lit "none"
state_text pending = lit "pending"
state_text active = lit "active"

unfoldable pub is_outside : State → Bool
is_outside outside = true
is_outside _ = false

-- `chain.Snapshot`; the fields that nothing below reads are left out.
pub record Snapshot : Type 0 where
  pub stake_credential_hash : Text
  pub epoch : ℕ
  pub delegated_pool_id : Text
  pub active_stake_pool_id : Text
  pub active_stake_lovelace : Text
  pub rewards_lovelace : Text
  pub epochs_delegated : ℤ
  pub account_status : Text
  pub source : Text
  pub fetched_at : ℕ

unfoldable pub classify : Snapshot → Text → State
classify snap want =
    if is_empty want
    then outside
    else if text_eq (canonical_pool_id snap.active_stake_pool_id) want
    then active
    else if text_eq snap.account_status (lit "registered")
        && text_eq (canonical_pool_id snap.delegated_pool_id) want
    then pending
    else outside

unfoldable pub derive_state : Option Snapshot → Text → State
unfolding classify
derive_state none pool_id = outside
derive_state (some snap) pool_id =
    if is_empty pool_id then outside else classify snap (canonical_pool_id pool_id)
