-- ===== src/Store/Timestamp.antt =====
-- server/internal/store/sqlhelpers.go: times are stored as RFC 3339 texts with nanoseconds, in UTC,
-- and SQL compares those texts. Within the years that the format writes with four digits the date
-- and time down to the second have a fixed width and an order-preserving text, so a stored time is
-- its second with the text that follows it: nothing or a dot and the fraction with its trailing
-- zeros cut off, and the letter Z.
use ouro_pass.Base.{
  ltb, ◌==◌, if◌then◌else◌, Text, lit, ℕ, zero, suc, ◌+◌, ◌*◌, ◌/◌, ◌%◌, ◌^◌, ◌<◌, ◌≡◌, ◌≢◌, Bool,
  true, false, not, ◌&&◌, ◌||◌, [], ◌∷◌, ◌++◌, arith,
}

pub record Stamp : Type 0 where
  pub second : ℕ
  pub rest : Text

abbrev pub nanos_per_second : ℕ
nanos_per_second = 1000000000

-- The digits of a fraction below 10 ^ k, without trailing zeros.
unfoldable pub fraction : ℕ → ℕ → Text
fraction zero n = []
fraction (suc k) n =
    let rest = fraction k (n % 10 ^ k) in if n == 0 then [] else (48 + n / 10 ^ k) ∷ rest

unfoldable pub fraction_text : ℕ → Text
unfolding fraction
fraction_text n = if n == 0 then lit "Z" else b'.' ∷ (fraction 9 n ++ lit "Z")

-- `ts`
unfoldable pub ts : ℕ → Stamp
unfolding fraction_text
ts t = record { second = t / nanos_per_second; rest = fraction_text (t % nanos_per_second) }

unfoldable pub text_lt : Text → Text → Bool
text_lt [] [] = false
text_lt [] (d ∷ t) = true
text_lt (c ∷ s) [] = false
text_lt (c ∷ s) (d ∷ t) = ltb c d || c == d && text_lt s t

-- `a < b` and `a <= b` in SQL.
unfoldable pub stamp_lt : Stamp → Stamp → Bool
unfolding text_lt
stamp_lt a b = ltb a.second b.second || a.second == b.second && text_lt a.rest b.rest

unfoldable pub stamp_le : Stamp → Stamp → Bool
unfolding stamp_lt
stamp_le a b = not (stamp_lt b a)

-- Times in different seconds are compared as they should be.
pub stamp_lt-seconds :
    (t u : ℕ) → t / nanos_per_second ≢ u / nanos_per_second → stamp_lt (ts t) (ts u) ≡ ltb t u
unfolding stamp_lt ts
stamp_lt-seconds t u h = ground arith

-- The stored text of a time on a full second compares as later than that of every later time within
-- the same second, so that SQL takes the later of the two times for the earlier one.
pub stamp_lt_whole_second :
    (s f : ℕ)
    → 0 < f
    → f < nanos_per_second
    → (s * nanos_per_second < s * nanos_per_second + f)
      × (stamp_lt (ts (s * nanos_per_second + f)) (ts (s * nanos_per_second)) ≡ true)
unfolding stamp_lt ts
stamp_lt_whole_second s f p h = (omega arith, ground arith)
