-- ===== src/Chain.antt =====
-- server/internal/utils/chain: bech32, pool ids, reward addresses and epochs.
pub mod Bech32
pub mod Hex
pub mod PoolId
pub mod RewardAddress
pub mod RewardHex
pub mod Epoch
