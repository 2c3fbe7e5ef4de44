-- ===== src/Tests/Addresses.antt =====
-- Witnesses and runs of the theorems on reward addresses.
use ouro_pass.Base.{
  ltb, Bool-cases, lit, text_eq, ℕ, ◌≡◌, refl, inl, inr, Bool, true, ◌&&◌, none, some, List, [],
  ◌∷◌, arith,
}
use ouro_pass.Chain.Hex.{hex_encode, AreBytes}
use ouro_pass.Chain.PoolId.{stake_address_of}
use ouro_pass.Chain.RewardAddress.{stake_hash_from_reward_address}
use ouro_pass.Chain.RewardHex.{stake_hash-hex_encode}

abbrev credential : List ℕ
credential =
    10 ∷ 11 ∷ 12 ∷ 13 ∷ 14 ∷ 15 ∷ 16 ∷ 17 ∷ 18 ∷ 19 ∷ 20 ∷ 21 ∷ 22 ∷ 23 ∷ 24 ∷ 25 ∷ 26 ∷ 27 ∷ 28
    ∷ 29 ∷ 30 ∷ 31 ∷ 32 ∷ 33 ∷ 34 ∷ 35 ∷ 36 ∷ 255 ∷ []

all_bytes : List ℕ → Bool
all_bytes [] = true
all_bytes (b ∷ bytes) = ltb b 256 && all_bytes bytes

all_bytes-AreBytes : (bytes : List ℕ) → all_bytes bytes ≡ true → AreBytes bytes
unfolding all_bytes
all_bytes-AreBytes [] h = tt
all_bytes-AreBytes (b ∷ bytes) h = elim (Bool-cases (ltb b 256)) [
  | inl small ↦ (ground arith, all_bytes-AreBytes bytes (rw small at h))
  | inr large ↦ absurd (ground (arith, large, h))
]

credential-AreBytes : AreBytes credential
unfolding all_bytes
credential-AreBytes = all_bytes-AreBytes credential refl

-- The bech32 address that `stakeAddressFromCredential` gives is read back.
bech32-read :
    (elim (stake_address_of credential (lit "mainnet")) [
      | none ↦ none
      | some addr ↦ stake_hash_from_reward_address addr
    ])
    ≡ some (hex_encode credential)
unfolding stake_address_of stake_hash_from_reward_address text_eq
bech32-read = refl

stake_hash-hex_encode_example :
    (stake_hash_from_reward_address (hex_encode (0xe1 ∷ credential)) ≡ some (hex_encode credential))
    × (stake_hash_from_reward_address (hex_encode (88 ∷ 29 ∷ 0xe1 ∷ credential))
        ≡ some (hex_encode credential))
stake_hash-hex_encode_example =
    stake_hash-hex_encode 0xe1 credential (omega arith) credential-AreBytes refl refl
