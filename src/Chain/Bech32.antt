-- ===== src/Chain/Bech32.antt =====
-- server/internal/utils/chain/stakeaddr.go: the bech32 encoder. Bytes are natural numbers, and
-- `uint32` arithmetic is reduced modulo 2 ^ 32 where it is shifted left.
use Prim.Native.Nat.{bit_and, bit_or, bit_xor}
use ouro_pass.Base.{
  ltb, leb, ◌==◌, if◌then◌else◌, Text, lit, ℕ, zero, suc, ◌+◌, ◌-◌, ◌*◌, ◌/◌, ◌%◌, ◌^◌, Bool, not,
  ◌||◌, Option, none, some, List, [], ◌∷◌, ◌++◌, map,
}

abbrev pub u32 : ℕ → ℕ
u32 n = n % 2 ^ 32

abbrev pub bech32_charset : Text
bech32_charset = lit "qpzry9x8gf2tvdw0s3jn54khce6mua7l"

-- An index out of range would be a run-time panic; 0 stands for it.
unfoldable pub char_at : Text → ℕ → ℕ
char_at [] i = 0
char_at (c ∷ s) zero = c
char_at (c ∷ s) (suc i) = char_at s i

abbrev pub generators : List ℕ
generators = 0x3b6a57b2 ∷ 0x26508e6d ∷ 0x1ea119fa ∷ 0x3d4233dd ∷ 0x2a1462b3 ∷ []

-- The inner loop: `chk ^= gen[i]` where bit `i` of `top` is set.
unfoldable pub mix : ℕ → List ℕ → ℕ → ℕ
mix top [] chk = chk
mix top (g ∷ gen) chk = mix (top / 2) gen (if bit_and top 1 == 1 then bit_xor chk g else chk)

unfoldable pub polymod_step : ℕ → ℕ → ℕ
unfolding mix
polymod_step chk v = mix (chk / 2 ^ 25) generators (bit_xor (u32 (bit_and chk 0x1ffffff * 2 ^ 5)) v)

unfoldable pub polymod_from : ℕ → List ℕ → ℕ
unfolding polymod_step
polymod_from chk [] = chk
polymod_from chk (v ∷ values) = polymod_from (polymod_step chk v) values

unfoldable pub bech32_polymod : List ℕ → ℕ
unfolding polymod_from
bech32_polymod values = polymod_from 1 values

unfoldable pub bech32_hrp_expand : Text → List ℕ
bech32_hrp_expand hrp = map (λ c. c / 2 ^ 5) hrp ++ (0 ∷ map (λ c. bit_and c 31) hrp)

unfoldable pub bech32_checksum : Text → List ℕ → List ℕ
unfolding bech32_polymod bech32_hrp_expand
bech32_checksum hrp values =
    let polymod =
      bit_xor (bech32_polymod ((bech32_hrp_expand hrp ++ values) ++ (0 ∷ 0 ∷ 0 ∷ 0 ∷ 0 ∷ 0 ∷ [])))
        1 in
    map (λ i. bit_and (polymod / 2 ^ (5 * (5 - i))) 31) (0 ∷ 1 ∷ 2 ∷ 3 ∷ 4 ∷ 5 ∷ [])

unfoldable pub bech32_encode : Text → List ℕ → Text
unfolding bech32_checksum char_at
bech32_encode hrp values =
    hrp ++ (b'1' ∷ map (char_at bech32_charset) (values ++ bech32_checksum hrp values))

-- `for bits >= toBits`: a full group is cut off the accumulator; `bits` is fuel enough, since
-- each round takes at least one bit off it. The result is the bits left and the groups.
unfoldable pub drain : ℕ → ℕ → ℕ → ℕ → List ℕ → ℕ × List ℕ
drain zero to_bits acc bits out = (bits, out)
drain (suc f) to_bits acc bits out =
    let rest =
      drain f to_bits acc (bits - to_bits)
        (out ++ (acc / 2 ^ (bits - to_bits) % 2 ^ to_bits ∷ [])) in
    if ltb bits to_bits then (bits, out) else rest

-- The outer loop, with `acc`, `bits` and `out`.
unfoldable pub regroup : List ℕ → ℕ → ℕ → ℕ → ℕ → List ℕ → ℕ × (ℕ × List ℕ)
unfolding drain
regroup [] from_bits to_bits acc bits out = (acc, (bits, out))
regroup (b ∷ bytes) from_bits to_bits acc bits out =
    let acc' = u32 (bit_or (u32 (acc * 2 ^ from_bits)) b) in
    let (bits', out') = drain (bits + from_bits) to_bits acc' (bits + from_bits) out in
    regroup bytes from_bits to_bits acc' bits' out'

unfoldable pub pad_out : ℕ → ℕ → ℕ → List ℕ → List ℕ
pad_out to_bits acc bits out =
    if ltb 0 bits then out ++ (u32 (acc * 2 ^ (to_bits - bits)) % 2 ^ to_bits ∷ []) else out

unfoldable pub convert_bits : List ℕ → ℕ → ℕ → Bool → Option (List ℕ)
unfolding regroup pad_out
convert_bits bytes from_bits to_bits pad =
    let (acc, (bits, out)) = regroup bytes from_bits to_bits 0 0 [] in
    if pad
    then some (pad_out to_bits acc bits out)
    else if leb from_bits bits || not (u32 (acc * 2 ^ (to_bits - bits)) % 2 ^ to_bits == 0)
    then none
    else some out
