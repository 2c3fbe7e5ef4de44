-- ===== src/Chain/Hex.antt =====
-- `hex.DecodeString` and `hex.EncodeToString` of Go's library.
use ouro_pass.Base.{
  ltb, leb, if◌then◌else◌, length, Text, ℕ, ◌+◌, ◌-◌, ◌*◌, ◌/◌, ◌%◌, ◌<◌, ◌≡◌, refl, ap, ◌&&◌,
  Option, none, some, List, [], ◌∷◌, arith,
}

-- Pairs of hexadecimal digits of either case.
unfoldable pub nibble : ℕ → Option ℕ
nibble c =
    if leb 48 c && leb c 57
    then some (c - 48)
    else if leb 97 c && leb c 102
    then some (c - 87)
    else if leb 65 c && leb c 70
    then some (c - 55)
    else none

abbrev pub byte_of : Option ℕ → Option ℕ → Option (List ℕ) → Option (List ℕ)
byte_of (some h) (some l) (some rest) = some ((h * 16 + l) ∷ rest)
byte_of _ _ _ = none

unfoldable pub hex_decode : Text → Option (List ℕ)
unfolding nibble
hex_decode [] = some []
hex_decode (h ∷ []) = none
hex_decode (h ∷ l ∷ s) = byte_of (nibble h) (nibble l) (hex_decode s)

abbrev pub hex_digit : ℕ → ℕ
hex_digit n = if ltb n 10 then 48 + n else 87 + n

unfoldable pub hex_encode : List ℕ → Text
hex_encode [] = []
hex_encode (b ∷ bytes) = hex_digit (b / 16) ∷ hex_digit (b % 16) ∷ hex_encode bytes

-- Every entry is a byte.
abbrev pub AreBytes : List ℕ → Type 0
AreBytes [] = Unit
AreBytes (b ∷ bytes) = (b < 256) × AreBytes bytes

nibble-hex_digit : (n : ℕ) → n < 16 → nibble (hex_digit n) ≡ some n
unfolding nibble
nibble-hex_digit n h = ground arith

div_mod : (b : ℕ) → b / 16 * 16 + b % 16 ≡ b
div_mod b = omega arith

-- Hexadecimal text decodes to the bytes that it was made from.
pub hex_decode-hex_encode :
    (bytes : List ℕ) → AreBytes bytes → hex_decode (hex_encode bytes) ≡ some bytes
unfolding hex_decode hex_encode
hex_decode-hex_encode [] h = refl
hex_decode-hex_encode (b ∷ bytes) h =
    rw
      (
        nibble-hex_digit (b / 16) (omega (arith, h.0)),
        nibble-hex_digit (b % 16) (omega arith),
        hex_decode-hex_encode bytes h.1,
      )
      (ap (λ n. some (n ∷ bytes)) (div_mod b))

pub length-hex_encode : (bytes : List ℕ) → length (hex_encode bytes) ≡ 2 * length bytes
unfolding hex_encode
length-hex_encode [] = refl
length-hex_encode (b ∷ bytes) = omega (arith, length-hex_encode bytes)
