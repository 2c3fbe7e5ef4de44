-- ===== src/Go/Decimal.antt =====
-- `new(big.Int).SetString(s, 10)` and `(*big.Int).String()`: an optional sign and decimal digits.
use ouro_pass.Base.{
  ltb, leb, ◌==◌, if◌then◌else◌, tests, Bool-cases, Text, ℕ, zero, suc, ◌+◌, ◌-◌, ◌*◌, ◌/◌, ◌%◌,
  ◌≤◌, ◌<◌, ◌≡◌, inl, inr, ◌&&◌, Option, none, some, [], ◌∷◌, arith,
}
use ouro_pass.Base.Int.{ℤ, pos, negsuc}

-- The digits up to the end of the text, read onto `acc`; any other byte is an error.
unfoldable pub read_digits : ℕ → Text → Option ℕ
read_digits acc [] = some acc
read_digits acc (c ∷ s) =
    let rest = read_digits (acc * 10 + (c - 48)) s in if leb 48 c && leb c 57 then rest else none

-- At least one digit.
unfoldable pub read_nat : Text → Option ℕ
unfolding read_digits
read_nat [] = none
read_nat (c ∷ s) = read_digits 0 (c ∷ s)

abbrev negate : ℕ → ℤ
negate zero = pos 0
negate (suc n) = negsuc n

abbrev signed : (ℕ → ℤ) → Option ℕ → Option ℤ
signed f none = none
signed f (some n) = some (f n)

unfoldable pub parse_int : Text → Option ℤ
unfolding read_nat
parse_int [] = none
parse_int (c ∷ s) =
    if c == b'-'
    then signed negate (read_nat s)
    else if c == b'+'
    then signed pos (read_nat s)
    else signed pos (read_nat (c ∷ s))

-- The decimal digits of `n` in front of `rest`; a fuel above `n` is enough.
unfoldable pub digits : ℕ → ℕ → Text → Text
digits zero n rest = rest
digits (suc f) n rest =
    let more = digits f (n / 10) ((48 + n % 10) ∷ rest) in
    if ltb n 10 then (48 + n) ∷ rest else more

unfoldable pub print_nat : ℕ → Text
unfolding digits
print_nat n = digits (suc n) n []

unfoldable pub print_int : ℤ → Text
unfolding print_nat
print_int (pos n) = print_nat n
print_int (negsuc n) = b'-' ∷ print_nat (suc n)

read-digits : (f n : ℕ) (rest : Text) → n < f → read_digits 0 (digits f n rest) ≡ read_digits n rest
unfolding read_digits digits
read-digits zero n rest h = absurd (omega arith)
read-digits (suc f) n rest h = elim (Bool-cases (ltb n 10)) [
  | inl small ↦ rw small (ground arith)
  | inr big ↦ rw (big, read-digits f (n / 10) ((48 + n % 10) ∷ rest) (ground arith)) (ground arith)
]

-- A printed number starts with a digit, so it has no sign and is not empty.
digits_start :
    (f n : ℕ) (rest : Text)
    → n < f
    → (c : ℕ) × (s : Text) × (digits f n rest ≡ c ∷ s) × (48 ≤ c) × (c ≤ 57)
unfolding digits
digits_start zero n rest h = absurd (omega arith)
digits_start (suc f) n rest h = elim (Bool-cases (ltb n 10)) [
  | inl small ↦ (48 + n, rest, rw small, omega arith, omega (tests))
  | inr big ↦ rw big (digits_start f (n / 10) ((48 + n % 10) ∷ rest) (ground arith))
]

-- Such a text is read as its digits.
read_nat_of_digits :
    (t : Text) (c : ℕ) (s : Text) (n : ℕ)
    → t ≡ c ∷ s
    → read_digits 0 t ≡ some n
    → read_nat t ≡ some n
unfolding read_nat
read_nat_of_digits [] c s n e h = cc
read_nat_of_digits (d ∷ t) c s n e h = h

parse_int_of_digits :
    (t : Text) (c : ℕ) (s : Text) (n : ℕ)
    → t ≡ c ∷ s
    → 48 ≤ c
    → c ≤ 57
    → read_nat t ≡ some n
    → parse_int t ≡ some (pos n)
unfolding parse_int
parse_int_of_digits [] c s n e lo hi h = cc
parse_int_of_digits (d ∷ t) c s n e lo hi h = ground arith

read_nat-print_nat : (n : ℕ) → read_nat (print_nat n) ≡ some n
unfolding print_nat
read_nat-print_nat n =
    let (c, s, e, lo, hi) = digits_start (suc n) n [] (omega arith) in
    read_nat_of_digits (digits (suc n) n []) c s n e
      (unfold read_digits in read-digits (suc n) n [] (omega arith))

pub parse_int-print_nat : (n : ℕ) → parse_int (print_nat n) ≡ some (pos n)
parse_int-print_nat n =
    let (c, s, e, lo, hi) = digits_start (suc n) n [] (omega arith) in
    parse_int_of_digits (print_nat n) c s n (unfold print_nat in e) lo hi (read_nat-print_nat n)

-- `SetString` reads back what `String` printed.
pub parse_int-print_int : (z : ℤ) → parse_int (print_int z) ≡ some z
unfolding print_int
parse_int-print_int (pos n) = parse_int-print_nat n
parse_int-print_int (negsuc n) = unfold parse_int in rw (read_nat-print_nat (suc n))
