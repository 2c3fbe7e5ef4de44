-- ===== src/Chain/PoolId.antt =====
-- server/internal/utils/chain/poolid.go and the address builder of stakeaddr.go.
use ouro_pass.Base.{
  ◌==◌, if◌then◌else◌, length, Text, lit, is_empty, text_eq, ℕ, true, Option, none, some, List, [],
  ◌∷◌,
}
use ouro_pass.Go.Strings.{trim_space, to_lower}
use ouro_pass.Chain.Bech32.{bech32_encode, convert_bits}
use ouro_pass.Chain.Hex.{hex_decode}

-- A decoded hash of 28 bytes in bech32; anything else is kept, in lower case.
unfoldable pub canonical_of : Option (List ℕ) → Text → Text
unfolding convert_bits bech32_encode to_lower
canonical_of none s = to_lower s
canonical_of (some hash) s =
    if length hash == 28
    then (elim (convert_bits hash 8 5 true) [
      | none ↦ to_lower s
      | some conv ↦ bech32_encode (lit "pool") conv
    ])
    else to_lower s

unfoldable pub canonical_pool_id : Text → Text
unfolding canonical_of trim_space hex_decode
canonical_pool_id s =
    let trimmed = trim_space s in
    if is_empty trimmed then [] else canonical_of (hex_decode trimmed) trimmed

-- `stakeAddressFromCredential`
unfoldable pub stake_address_of : List ℕ → Text → Option Text
unfolding convert_bits bech32_encode
stake_address_of cred network =
    let mainnet = text_eq network (lit "mainnet") in
    let payload : List ℕ = (if mainnet then 0xe1 else 0xe0) ∷ cred in
    let hrp : Text = if mainnet then lit "stake" else lit "stake_test" in
    elim (convert_bits payload 8 5 true) [ none ↦ none | some conv ↦ some (bech32_encode hrp conv) ]

unfoldable pub stake_address_from_credential : Text → Text → Option Text
unfolding stake_address_of hex_decode
stake_address_from_credential credential_hash network = elim (hex_decode credential_hash) [
  | none ↦ none
  | some cred ↦ if length cred == 28 then stake_address_of cred network else none
]
