-- ===== src/Chain/RewardAddress.antt =====
-- server/internal/utils/chain/rewardaddr.go: the stake credential of a reward address in bech32, in
-- hexadecimal, or in hexadecimal of a CBOR byte string.
use Prim.Native.Nat.{bit_or}
use ouro_pass.Base.{
  ltb, ◌==◌, if◌then◌else◌, length, Text, lit, is_empty, text_eq, ℕ, suc, ◌-◌, ◌*◌, ◌/◌, ◌%◌, ◌^◌,
  Bool, false, not, ◌&&◌, ◌||◌, Option, none, some, List, [], ◌∷◌, ◌++◌,
}
use ouro_pass.Go.Strings.{has_prefix, trim_space, to_lower, to_upper, take}
use ouro_pass.Chain.Bech32.{bech32_charset, bech32_polymod, bech32_hrp_expand, convert_bits}
use ouro_pass.Chain.Hex.{hex_decode, hex_encode}

-- `pos := strings.LastIndexByte(s, '1')`, as the texts before and after it.
unfoldable pub split_last : ℕ → Text → Option (Text × Text)
split_last stop [] = none
split_last stop (c ∷ s) = elim (split_last stop s) [
  | some (front, back) ↦ some (c ∷ front, back)
  | none ↦ if c == stop then some ([], s) else none
]

abbrev pub shifted : Option ℕ → Option ℕ
shifted none = none
shifted (some i) = some (suc i)

-- `strings.IndexByte`
unfoldable pub index_of : Text → ℕ → Option ℕ
index_of [] c = none
index_of (x ∷ s) c = let rest = index_of s c in if x == c then some 0 else shifted rest

abbrev pub add_value : Option ℕ → Option (List ℕ) → Option (List ℕ)
add_value (some v) (some vs) = some (v ∷ vs)
add_value _ _ = none

-- The values of the characters after the separator.
unfoldable pub values_of : Text → Option (List ℕ)
unfolding index_of
values_of [] = some []
values_of (c ∷ s) = add_value (index_of bech32_charset c) (values_of s)

-- The checksum is verified and cut off.
abbrev pub checked : Text → Option (List ℕ) → Option (Text × List ℕ)
checked hrp none = none
checked hrp (some values) =
    if bech32_polymod (bech32_hrp_expand hrp ++ values) == 1
    then some (hrp, take (length values - 6) values)
    else none

abbrev pub decode_parts : Option (Text × Text) → Option (Text × List ℕ)
decode_parts none = none
decode_parts (some (hrp, rest)) =
    if is_empty hrp || ltb (length rest) 6 then none else checked hrp (values_of rest)

unfoldable pub bech32_decode : Text → Option (Text × List ℕ)
unfolding to_lower to_upper split_last values_of bech32_polymod bech32_hrp_expand take
bech32_decode s =
    if not (text_eq s (to_lower s)) && not (text_eq s (to_upper s))
    then none
    else decode_parts (split_last b'1' (to_lower s))

-- What a head with a length of one byte, or of two, leaves of the bytes after it.
abbrev pub after_short : List ℕ → List ℕ → List ℕ
after_short whole [] = whole
after_short whole (n ∷ rest) = if length rest == n then rest else whole

abbrev pub after_long : List ℕ → List ℕ → List ℕ
after_long whole (hi ∷ lo ∷ rest) = if length rest == bit_or (hi * 2 ^ 8) lo then rest else whole
after_long whole _ = whole

unfoldable pub unwrap_cbor_bytes : List ℕ → List ℕ
unwrap_cbor_bytes [] = []
unwrap_cbor_bytes (h ∷ b) =
    if not (h / 2 ^ 5 == 2)
    then h ∷ b
    else if ltb (h % 2 ^ 5) 24
    then (if length b == h % 2 ^ 5 then b else h ∷ b)
    else if h % 2 ^ 5 == 24
    then after_short (h ∷ b) b
    else if h % 2 ^ 5 == 25
    then after_long (h ∷ b) b
    else h ∷ b

abbrev pub is_reward_header : ℕ → Bool
is_reward_header h = h / 2 ^ 4 == 14 || h / 2 ^ 4 == 15

-- One byte of header and 28 of the credential.
abbrev pub credential_of : List ℕ → Option Text
credential_of [] = none
credential_of (h ∷ cred) =
    if length cred == 28 && is_reward_header h then some (hex_encode cred) else none

abbrev pub regrouped : Option (Text × List ℕ) → Option (List ℕ)
regrouped none = none
regrouped (some (hrp, groups)) =
    if text_eq hrp (lit "stake") || text_eq hrp (lit "stake_test")
    then convert_bits groups 5 8 false
    else none

unfoldable pub address_bytes : Text → Option (List ℕ)
unfolding has_prefix to_lower bech32_decode convert_bits hex_decode
address_bytes addr =
    if has_prefix (to_lower addr) (lit "stake")
    then regrouped (bech32_decode addr)
    else hex_decode addr

abbrev pub payload_of : Option (List ℕ) → Option Text
payload_of none = none
payload_of (some raw) = credential_of (unwrap_cbor_bytes raw)

unfoldable pub stake_hash_from_reward_address : Text → Option Text
unfolding trim_space address_bytes unwrap_cbor_bytes hex_encode
stake_hash_from_reward_address addr =
    let trimmed = trim_space addr in
    if is_empty trimmed then none else payload_of (address_bytes trimmed)
