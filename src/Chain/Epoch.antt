-- ===== src/Chain/Epoch.antt =====
-- server/internal/utils/chain/epoch.go. Times are Unix nanoseconds; `Unix()` is whole seconds.
use native.Mathlib.Nat.{div-mul-le_self, lt-div-mul-add, mul-div_left}
use ouro_pass.Base.{
  ltb, if◌then◌else◌, Option-cases, Text, lit, text_eq, ℕ, ◌+◌, ◌-◌, ◌*◌, ◌/◌, ◌%◌, ◌^◌, ◌≤◌, ◌<◌,
  ◌≡◌, ap, inl, inr, Option, none, some, arith,
}
use ouro_pass.Base.Int.{ℤ, pos, negsuc}

pub record EpochParams : Type 0 where
  pub genesis_unix : ℕ
  pub length_sec : ℕ

unfoldable pub epoch_by_network : Text → Option EpochParams
epoch_by_network network =
    if text_eq network (lit "mainnet")
    then some (record { genesis_unix = 1506203091; length_sec = 432000 })
    else if text_eq network (lit "preprod")
    then some (record { genesis_unix = 1654041600; length_sec = 432000 })
    else if text_eq network (lit "preview")
    then some (record { genesis_unix = 1666656000; length_sec = 86400 })
    else none

abbrev pub nanos : ℕ
nanos = 1000000000

unfoldable pub epoch_at : EpochParams → ℕ → Option ℕ
epoch_at p t = if ltb t p.genesis_unix then none else some ((t - p.genesis_unix) / p.length_sec)

unfoldable pub current_epoch : Text → ℕ → Option ℕ
unfolding epoch_by_network epoch_at
current_epoch network now = elim (epoch_by_network network) [
  | none ↦ none
  | some p ↦ epoch_at p (now / nanos)
]

-- `int64(n)` of a product taken modulo 2 ^ 64.
unfoldable pub int64 : ℕ → ℤ
int64 n = let m = n % 2 ^ 64 in if ltb m (2 ^ 63) then pos m else negsuc (2 ^ 64 - m - 1)

-- The start of an epoch in Unix seconds; the product and the sum wrap as `int64` does.
unfoldable pub epoch_start : Text → ℕ → Option ℤ
unfolding epoch_by_network int64
epoch_start network epoch = elim (epoch_by_network network) [
  | none ↦ none
  | some p ↦ some (int64 (p.genesis_unix + epoch * p.length_sec))
]

-- A known network has a positive epoch length, and its clock fits the machine integers.
pub epoch_by_network_bounds :
    (network : Text) (p : EpochParams)
    → epoch_by_network network ≡ some p
    → (0 < p.length_sec) × (p.length_sec ≤ 432000) × (p.genesis_unix < 2 ^ 31)
unfolding epoch_by_network
epoch_by_network_bounds network p h = ground arith

epoch_span :
    (g l t e : ℕ) → 0 < l → g ≤ t → (t - g) / l ≡ e → (g + e * l ≤ t) × (t < g + (e + 1) * l)
epoch_span g l t e p h q =
    let lower : e * l ≤ t - g = rw (← q) (div-mul-le_self (t - g) l) in
    let upper : t - g < e * l + l = rw (← q) (lt-div-mul-add p) in (omega arith, omega arith)

epoch_of_start : (g l e : ℕ) → 0 < l → (g + e * l - g) / l ≡ e
epoch_of_start g l e p = let r : g + e * l - g ≡ e * l = omega arith in rw r (mul-div_left e p)

int64_small : (n : ℕ) → n < 2 ^ 63 → int64 n ≡ pos n
unfolding int64
int64_small n h = ground arith

-- For one network: the span of the epoch of `t`, and the epoch of the span's start.
pub Spans : Text → ℕ → ℕ → Type 0
Spans network now e =
    (s : ℕ) × (n : ℕ) × (epoch_start network e ≡ some (pos s))
    × (epoch_start network (e + 1) ≡ some (pos n))
    × (s ≤ now / nanos)
    × (now / nanos < n)
    × (current_epoch network (s * nanos) ≡ some e)

Spans-of_params :
    (network : Text) (now e : ℕ) (p : EpochParams)
    → epoch_by_network network ≡ some p
    → now < 2 ^ 63
    → current_epoch network now ≡ some e
    → Spans network now e
unfolding Spans epoch_start current_epoch epoch_at
Spans-of_params network now e p known small h =
    let (len, short, early) = epoch_by_network_bounds network p known in
    let after : p.genesis_unix ≤ now / nanos = ground (arith, known) in
    let q : (now / nanos - p.genesis_unix) / p.length_sec ≡ e = ground (arith, known) in
    let (lo, hi) = epoch_span p.genesis_unix p.length_sec (now / nanos) e len after q in
    let s = p.genesis_unix + e * p.length_sec in
    let back : s * nanos / nanos ≡ s = mul-div_left s (omega arith) in
    let fits : p.genesis_unix + (e + 1) * p.length_sec < 2 ^ 63 = omega arith in
    (
      s,
      p.genesis_unix + (e + 1) * p.length_sec,
      rw (known, epoch_start) (ap some (int64_small s (omega arith))),
      rw (known, epoch_start) (ap some (int64_small _ fits)),
      lo,
      hi,
      rw (known, current_epoch)
          (rw back (ground (arith, epoch_of_start p.genesis_unix p.length_sec e len))),
    )

-- Where the epoch of a time before 2262 is known, the time lies between the start of that epoch
-- and the start of the next one, neither start wraps, and the start's own epoch is that epoch.
pub current_epoch-epoch_start :
    (network : Text) (now e : ℕ)
    → now < 2 ^ 63
    → current_epoch network now ≡ some e
    → Spans network now e
current_epoch-epoch_start network now e small h = elim (Option-cases (epoch_by_network network)) [
  | inl unknown ↦ absurd (unfold current_epoch in ground (arith, unknown))
  | inr (p, known) ↦ Spans-of_params network now e p known small h
]
