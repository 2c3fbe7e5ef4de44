-- ===== src/Http/Buckets.antt =====
-- The rate limiter against one bucket for each client: server/internal/httpapi/middleware/middleware.go.
use ouro_pass.Base.{
  if◌then◌else◌, Bool-cases, Text, text_eq, text_eq_sound, text_eq_refl, ℕ, ◌-◌, ◌≤◌, ◌≡◌, refl, ap,
  ◌∙◌, inl, inr, Bool, false, none, some, List, [], ◌∷◌, arith,
}
use ouro_pass.Go.Maps.{get, put, get-put}
use ouro_pass.Http.RateLimit.{
  Client, limiter_or_new, is_stale, evict, limiter_for, admit, admit_all, bucket,
}

abbrev pub of_ip {ℓ} : {A : Type ℓ} → Text → List (Text × A) → List A
of_ip ip [] = []
of_ip ip ((x, a) ∷ rest) = if text_eq x ip then a ∷ of_ip ip rest else of_ip ip rest

-- Times do not go back, and the client, last seen at the given time, is never idle for longer than
-- the limiter keeps it.
abbrev pub Busy : ℕ → Text → ℕ → List (Text × ℕ) → Type 0
Busy ttl ip last [] = Unit
Busy ttl ip last ((x, t) ∷ calls) =
    (t - last ≤ ttl) × Busy ttl ip (if text_eq x ip then t else last) calls

module _ {L : Type 0} (new_limiter : L) (allow : L → ℕ → Bool × L) (ttl : ℕ) where
  get-evict :
      (ip : Text) (c : Client L) (t : ℕ) (m : List (Text × Client L))
      → get ip m ≡ some c
      → t - c.last_seen ≤ ttl
      → get ip (evict new_limiter allow ttl t m) ≡ some c
  unfolding get evict
  get-evict ip c t [] h live = absurd (cc)
  get-evict ip c t ((x, d) ∷ m) h live = elim (Bool-cases (text_eq x ip)) [
    | inl own ↦
        let e : d ≡ c = ground (arith, own, h) in
        let keep : is_stale new_limiter allow ttl t c ≡ false = ground arith in
        rw e (rw keep (rw own))
    | inr other ↦
        let rest = get-evict ip c t m (ground (arith, other, h)) live in
        elim (Bool-cases (is_stale new_limiter allow ttl t d)) [
          | inl old ↦ rw old rest
          | inr new ↦ rw new (rw other rest)
        ]
  ]

  -- What a request leaves of the entry of a client that is not stale: its own, the bucket after the
  -- decision; another's, the entry as it was.
  admit-own :
      (ip : Text) (l : L) (t : ℕ) (m : List (Text × Client L))
      → limiter_or_new new_limiter allow ttl (get ip m) ≡ l
      → ((admit new_limiter allow ttl ip t m).0 ≡ (allow l t).0)
        × (get ip (admit new_limiter allow ttl ip t m).1
            ≡ some (record { limiter = (allow l t).1; last_seen = t }))
  unfolding admit limiter_for
  admit-own ip l t m h = rw h (
    refl,
    get-put ip ip _
          (evict new_limiter allow ttl t (put ip (record { limiter = l; last_seen = t }) m))
        ∙ rw (text_eq_refl ip) refl,
  )

  admit-other :
      (ip x : Text) (c : Client L) (t : ℕ) (m : List (Text × Client L))
      → text_eq x ip ≡ false
      → get ip m ≡ some c
      → t - c.last_seen ≤ ttl
      → get ip (admit new_limiter allow ttl x t m).1 ≡ some c
  unfolding admit limiter_for
  admit-other ip x c t m other h live =
      get-put x ip _ _ ∙ rw other (get-evict ip c t _ (get-put x ip _ m ∙ rw other h) live)

  admitted :
      (calls : List (Text × ℕ)) (ip : Text) (l : L) (last : ℕ) (m : List (Text × Client L))
      → get ip m ≡ some (record { limiter = l; last_seen = last })
      → Busy ttl ip last calls
      → of_ip ip (admit_all new_limiter allow ttl calls m)
        ≡ bucket new_limiter allow ttl l (of_ip ip calls)
  unfolding admit_all bucket
  admitted [] ip l last m h busy = refl
  admitted ((x, t) ∷ calls) ip l last m h busy = elim (Bool-cases (text_eq x ip)) [
    | inl own ↦
        let e = text_eq_sound x ip own in
        let (decision, after) = admit-own ip l t m (rw h refl) in
        let next : Busy ttl ip t calls = rw own at busy.1 in
        rw own (
          rw e (
            rw decision (
              ap (◌∷◌ (allow l t).0) (
                admitted calls ip (allow l t).1 t (admit new_limiter allow ttl ip t m).1 after
                  next))))
    | inr other ↦
        let next : Busy ttl ip last calls = rw other at busy.1 in
        rw other (
          admitted calls ip l last (admit new_limiter allow ttl x t m).1
            (admit-other ip x (record { limiter = l; last_seen = last }) t m other h busy.0) next)
  ]

  -- A client that is not known yet makes its first request and then is never idle for longer than
  -- the limiter keeps it: whatever the other clients do between its requests, each is decided as by
  -- one fresh bucket that it has to itself, and an eviction takes nothing from it.
  pub admit_all-bucket :
      (ip : Text) (t : ℕ) (calls : List (Text × ℕ)) (m : List (Text × Client L))
      → get ip m ≡ none
      → Busy ttl ip t calls
      → of_ip ip (admit_all new_limiter allow ttl ((ip, t) ∷ calls) m)
        ≡ bucket new_limiter allow ttl new_limiter (t ∷ of_ip ip calls)
  unfolding admit_all bucket
  admit_all-bucket ip t calls m new busy =
      let (decision, after) = admit-own ip new_limiter t m (rw new refl) in
      rw (text_eq_refl ip) (
        rw decision (
          ap (◌∷◌ (allow new_limiter t).0) (
            admitted calls ip (allow new_limiter t).1 t (admit new_limiter allow ttl ip t m).1 after
              busy)))
