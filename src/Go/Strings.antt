-- ===== src/Go/Strings.antt =====
-- `strings.HasSuffix`, `strings.TrimSpace`, `strings.ToLower`, `strings.ToUpper`, `strings.IndexByte` over ASCII bytes,
-- and `strings.Count` of a byte.
use ouro_pass.Base.{
  leb, ◌==◌, if◌then◌else◌, Text, is_empty, text_eq, ℕ, zero, suc, ◌+◌, ◌-◌, Bool, true, false,
  ◌&&◌, ◌||◌, Option, none, some, [], ◌∷◌,
}

unfoldable pub has_prefix : Text → Text → Bool
has_prefix s [] = true
has_prefix [] (p ∷ ps) = false
has_prefix (c ∷ s) (p ∷ ps) = c == p && has_prefix s ps

unfoldable pub has_suffix : Text → Text → Bool
has_suffix [] suffix = text_eq [] suffix
has_suffix (c ∷ s) suffix = text_eq (c ∷ s) suffix || has_suffix s suffix

abbrev pub is_space : ℕ → Bool
is_space c = c == 32 || leb 9 c && leb c 13

unfoldable pub trim_left : Text → Text
trim_left [] = []
trim_left (c ∷ s) = let rest = trim_left s in if is_space c then rest else c ∷ s

unfoldable pub trim_right : Text → Text
trim_right [] = []
trim_right (c ∷ s) = let rest = trim_right s in if is_empty rest && is_space c then [] else c ∷ rest

unfoldable pub trim_space : Text → Text
unfolding trim_left trim_right
trim_space s = trim_right (trim_left s)

abbrev pub lower : ℕ → ℕ
lower c = if leb 65 c && leb c 90 then c + 32 else c

unfoldable pub to_lower : Text → Text
to_lower [] = []
to_lower (c ∷ s) = lower c ∷ to_lower s

abbrev pub upper : ℕ → ℕ
upper c = if leb 97 c && leb c 122 then c - 32 else c

unfoldable pub to_upper : Text → Text
to_upper [] = []
to_upper (c ∷ s) = upper c ∷ to_upper s

-- The text up to the first `stop`, and what follows it, if it occurs.
unfoldable pub before : ℕ → Text → Text
before stop [] = []
before stop (c ∷ s) = let rest = before stop s in if c == stop then [] else c ∷ rest

unfoldable pub after : ℕ → Text → Option Text
after stop [] = none
after stop (c ∷ s) = let rest = after stop s in if c == stop then some s else rest

unfoldable pub count_byte : ℕ → Text → ℕ
count_byte b [] = 0
count_byte b (c ∷ s) = (if c == b then 1 else 0) + count_byte b s

-- The slices `s[:n]` and `s[n:]`.
unfoldable pub take : ℕ → Text → Text
take zero s = []
take (suc n) [] = []
take (suc n) (c ∷ s) = c ∷ take n s

unfoldable pub drop : ℕ → Text → Text
drop zero s = s
drop (suc n) [] = []
drop (suc n) (c ∷ s) = drop n s
