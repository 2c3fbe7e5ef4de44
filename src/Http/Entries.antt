-- ===== src/Http/Entries.antt =====
-- The saved answers of server/internal/httpapi/middleware/middleware.go that have not expired.
use ouro_pass.Base.{
  if◌then◌else◌, Bool-cases, Text, text_eq, text_eq_sound, text_eq_iff, ℕ, ◌-◌, ◌≤◌, ◌≡◌, refl, ◌∙◌,
  inl, inr, false, Option, none, some, [], ◌∷◌, arith,
}
use ouro_pass.Go.Maps.{get}
use ouro_pass.Http.Idempotency.{Saved, Cache, is_expired, delete, sweep, if_fresh, get_saved}

pub get-delete :
    (k j : Text) (m : Cache) → get j (delete k m) ≡ (if text_eq k j then none else get j m)
unfolding get delete
get-delete k j [] = ground arith
get-delete k j ((i, v) ∷ m) =
    ground (arith, text_eq_iff i k, text_eq_iff i j, text_eq_iff k j, get-delete k j m)

-- The sweep keeps what has not expired.
pub get-sweep :
    (ttl t : ℕ) (j : Text) (r : Saved) (m : Cache)
    → get j m ≡ some r
    → is_expired ttl t r ≡ false
    → get j (sweep ttl t m) ≡ some r
unfolding get sweep
get-sweep ttl t j r [] h fresh = absurd (cc)
get-sweep ttl t j r ((i, v) ∷ m) h fresh = elim (Bool-cases (text_eq i j)) [
  | inl hit ↦ let e : v ≡ r = ground (arith, hit, h) in rw (e, fresh) (rw hit)
  | inr miss ↦
      let rest = get-sweep ttl t j r m (ground (arith, miss, h)) fresh in
      elim (Bool-cases (is_expired ttl t v)) [
        | inl old ↦ rw old rest
        | inr new ↦ rw new (rw miss rest)
      ]
]

pub get-sweep-none :
    (ttl t : ℕ) (j : Text) (m : Cache) → get j m ≡ none → get j (sweep ttl t m) ≡ none
unfolding get sweep
get-sweep-none ttl t j [] h = refl
get-sweep-none ttl t j ((i, v) ∷ m) h = elim (Bool-cases (text_eq i j)) [
  | inl hit ↦ absurd (ground (arith, hit, h))
  | inr miss ↦
      let rest = get-sweep-none ttl t j m (ground (arith, miss, h)) in
      elim (Bool-cases (is_expired ttl t v)) [
        | inl old ↦ rw old rest
        | inr new ↦ rw new (rw miss rest)
      ]
]

pub within-fresh : (ttl t : ℕ) (r : Saved) → t - r.saved_at ≤ ttl → is_expired ttl t r ≡ false
within-fresh ttl t r h = ground arith

-- A read finds an entry that has not expired, and changes nothing.
pub get_saved-hit :
    (ttl t : ℕ) (key : Text) (r : Saved) (cache : Cache)
    → get key cache ≡ some r
    → is_expired ttl t r ≡ false
    → get_saved ttl t key cache ≡ (some r, cache)
unfolding get_saved
get_saved-hit ttl t key r cache h fresh = rw h (rw fresh)

-- A read of any key leaves such an entry, and misses only for another key.
pub get_saved-keeps :
    (ttl t : ℕ) (k key : Text) (r : Saved) (cache : Cache)
    → get key cache ≡ some r
    → is_expired ttl t r ≡ false
    → (get key (get_saved ttl t k cache).1 ≡ some r)
      × (((get_saved ttl t k cache).0 ≡ none) → text_eq k key ≡ false)
unfolding get_saved
get_saved-keeps ttl t k key r cache h fresh = elim (Bool-cases (text_eq k key)) [
  | inl own ↦
      let e = text_eq_sound k key own in
      rw (e, get_saved-hit ttl t key r cache h fresh) (h, λ n. absurd (cc))
  | inr other ↦ (passed other (get k cache) refl, λ n. other)
]
  where
    passed :
        text_eq k key ≡ false
        → (o : Option Saved) → get k cache ≡ o
        → get key (if_fresh ttl t k cache (get k cache)).1 ≡ some r
    passed other none e = rw e h
    passed other (some q) e = elim (Bool-cases (is_expired ttl t q)) [
      | inl old ↦ rw e (rw old (get-delete k key cache ∙ rw other h))
      | inr new ↦ rw e (rw new h)
    ]
