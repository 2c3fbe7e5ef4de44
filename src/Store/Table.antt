-- ===== src/Store/Table.antt =====
-- Tables as lists of rows, with the effect of `SELECT`, `UPDATE … WHERE` and `INSERT`.
use ouro_pass.Base.{
  if◌then◌else◌, Bool-cases, length, Text, text_eq, text_eq_sound, text_eq_complete, ℕ, suc, ◌+◌,
  ◌≡◌, refl, sym, ap, ◌∙◌, ◌≢◌, inl, inr, Bool, false, ◌&&◌, Option, none, some, List, [], ◌∷◌,
  ◌++◌, arith,
}

module _ {A : Type 0} where
  -- The row of a primary key.
  unfoldable pub find : (A → Text) → Text → List A → Option A
  find key k [] = none
  find key k (r ∷ rows) = let rest = find key k rows in if text_eq (key r) k then some r else rest

  unfoldable pub update : (A → Bool) → (A → A) → List A → List A
  update p f [] = []
  update p f (r ∷ rows) = (if p r then f r else r) ∷ update p f rows

  unfoldable pub count : (A → Bool) → List A → ℕ
  count p [] = 0
  count p (r ∷ rows) = (if p r then 1 else 0) + count p rows

  abbrev pub update_found : (A → Bool) → (A → A) → Option A → Option A
  update_found p f none = none
  update_found p f (some r) = some (if p r then f r else r)

  -- An update that keeps the keys is seen row by row.
  pub find-update :
      (key : A → Text) (k : Text) (p : A → Bool) (f : A → A) (rows : List A)
      → ((r : A) → key (f r) ≡ key r)
      → find key k (update p f rows) ≡ update_found p f (find key k rows)
  unfolding find update
  find-update key k p f [] keeps = refl
  find-update key k p f (r ∷ rows) keeps = elim (Bool-cases (p r)) [
    | inl hit ↦ rw (hit, keeps r) (ground (arith, hit, find-update key k p f rows keeps))
    | inr miss ↦ rw miss (ground (arith, miss, find-update key k p f rows keeps))
  ]

  abbrev pub found_or : (A → Text) → Text → A → Option A → Option A
  found_or key k r (some x) = some x
  found_or key k r none = if text_eq (key r) k then some r else none

  -- A new row goes to the end.
  pub find-insert :
      (key : A → Text) (k : Text) (rows : List A) (r : A)
      → find key k (rows ++ (r ∷ [])) ≡ found_or key k r (find key k rows)
  unfolding find
  find-insert key k [] r = ground arith
  find-insert key k (x ∷ rows) r = ground (arith, find-insert key k rows r)

  pub find-key :
      (key : A → Text) (k : Text) (rows : List A) (r : A) → find key k rows ≡ some r → key r ≡ k
  unfolding find
  find-key key k [] r h = absurd (cc)
  find-key key k (x ∷ rows) r h = elim (Bool-cases (text_eq (key x) k)) [
    | inl hit ↦ let e : x ≡ r = ground (arith, hit, h) in rw (← e) (text_eq_sound (key x) k hit)
    | inr miss ↦ find-key key k rows r (ground (arith, miss, h))
  ]

  pub length-update :
      (p : A → Bool) (f : A → A) (rows : List A) → length (update p f rows) ≡ length rows
  unfolding update
  length-update p f [] = refl
  length-update p f (r ∷ rows) = ap suc (length-update p f rows)

  -- After an update that makes the test fail, no row passes it.
  pub count-update :
      (p : A → Bool) (f : A → A) (rows : List A)
      → ((r : A) → p (f r) ≡ false)
      → count p (update p f rows) ≡ 0
  unfolding count update
  count-update p f [] off = refl
  count-update p f (r ∷ rows) off = elim (Bool-cases (p r)) [
    | inl hit ↦ rw (hit, off r) (omega (arith, count-update p f rows off))
    | inr miss ↦ rw (miss, miss) (omega (arith, count-update p f rows off))
  ]

  -- No row has the key.
  abbrev pub Lacks : (A → Text) → Text → List A → Type 0
  Lacks key k [] = Unit
  Lacks key k (r ∷ rows) = (key r ≢ k) × Lacks key k rows

  -- The primary key: no two rows share it.
  abbrev pub Distinct : (A → Text) → List A → Type 0
  Distinct key [] = Unit
  Distinct key (r ∷ rows) = Lacks key (key r) rows × Distinct key rows

  pub count-Lacks :
      (key : A → Text) (k : Text) (q : A → Bool) (rows : List A)
      → Lacks key k rows
      → count (λ r. text_eq (key r) k && q r) rows ≡ 0
  unfolding count
  count-Lacks key k q [] h = refl
  count-Lacks key k q (r ∷ rows) h =
      ground (arith, h.0, text_eq_sound (key r) k, count-Lacks key k q rows h.1)

  abbrev pub one_if : (A → Bool) → Option A → ℕ
  one_if q none = 0
  one_if q (some r) = if q r then 1 else 0

  -- With a primary key, a statement for one key changes its row alone.
  pub count-find :
      (key : A → Text) (k : Text) (q : A → Bool) (rows : List A)
      → Distinct key rows
      → count (λ r. text_eq (key r) k && q r) rows ≡ one_if q (find key k rows)
  unfolding count find
  count-find key k q [] d = refl
  count-find key k q (r ∷ rows) d = elim (Bool-cases (text_eq (key r) k)) [
    | inl hit ↦
        let e = text_eq_sound (key r) k hit in
        let lacks : Lacks key k rows = rw e at d.0 in
        rw hit (ground (arith, count-Lacks key k q rows lacks))
    | inr miss ↦ rw miss (omega (arith, count-find key k q rows d.1))
  ]

  pub Lacks-find :
      (key : A → Text) (k : Text) (rows : List A) → find key k rows ≡ none → Lacks key k rows
  unfolding find
  Lacks-find key k [] h = tt
  Lacks-find key k (r ∷ rows) h = elim (Bool-cases (text_eq (key r) k)) [
    | inl hit ↦ absurd (ground (arith, hit, h))
    | inr miss ↦ (
      λ e. cc (miss, text_eq_complete (key r) k e),
      Lacks-find key k rows (ground (arith, miss, h)),
    )
  ]

  Lacks-insert :
      (key : A → Text) (k : Text) (rows : List A) (r : A)
      → Lacks key k rows
      → key r ≢ k
      → Lacks key k (rows ++ (r ∷ []))
  Lacks-insert key k [] r h ne = (ne, tt)
  Lacks-insert key k (x ∷ rows) r h ne = (h.0, Lacks-insert key k rows r h.1 ne)

  -- What the primary key refuses keeps the keys distinct.
  pub Distinct-insert :
      (key : A → Text) (rows : List A) (r : A)
      → Distinct key rows
      → Lacks key (key r) rows
      → Distinct key (rows ++ (r ∷ []))
  Distinct-insert key [] r d h = (tt, tt)
  Distinct-insert key (x ∷ rows) r d h =
      (Lacks-insert key (key x) rows r d.0 (λ e. h.0 (sym e)), Distinct-insert key rows r d.1 h.1)

  Lacks-update :
      (key : A → Text) (k : Text) (p : A → Bool) (f : A → A) (rows : List A)
      → ((r : A) → key (f r) ≡ key r)
      → Lacks key k rows
      → Lacks key k (update p f rows)
  unfolding update
  Lacks-update key k p f [] keeps h = tt
  Lacks-update key k p f (r ∷ rows) keeps h = (
    λ e. h.0 (elim (Bool-cases (p r)) [
      | inl hit ↦ sym (keeps r) ∙ (rw hit at e)
      | inr miss ↦ rw miss at e
    ]),
    Lacks-update key k p f rows keeps h.1,
  )

  key_if :
      (key : A → Text) (p : A → Bool) (f : A → A) (r : A)
      → ((r : A) → key (f r) ≡ key r)
      → key (if p r then f r else r) ≡ key r
  key_if key p f r keeps = elim (Bool-cases (p r)) [
    | inl hit ↦ rw hit (keeps r)
    | inr miss ↦ rw miss
  ]

  pub Distinct-update :
      (key : A → Text) (p : A → Bool) (f : A → A) (rows : List A)
      → ((r : A) → key (f r) ≡ key r)
      → Distinct key rows
      → Distinct key (update p f rows)
  unfolding update
  Distinct-update key p f [] keeps d = tt
  Distinct-update key p f (r ∷ rows) keeps d = (
    rw (key_if key p f r keeps) (Lacks-update key (key r) p f rows keeps d.0),
    Distinct-update key p f rows keeps d.1,
  )

  pub find-append :
      (key : A → Text) (k : Text) (r : A) (rows more : List A)
      → find key k rows ≡ some r
      → find key k (rows ++ more) ≡ some r
  unfolding find
  find-append key k r [] more h = absurd (cc)
  find-append key k r (x ∷ rows) more h = ground (arith, find-append key k r rows more)
