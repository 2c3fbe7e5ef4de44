-- ===== src/Store/Grants/Forest.antt =====
-- Rotation chains form a forest: a grant is created after the grant that it was rotated from.
use native.Mathlib.Nat.{pow-suc}
use ouro_pass.Base.{
  if◌then◌else◌, Bool-cases, length, In, Text, text_eq, text_eq_sound, ℕ, suc, ◌+◌, ◌*◌, ◌^◌, ◌≤◌,
  ◌<◌, ◌≡◌, refl, ◌∙◌, ◌≢◌, inl, inr, false, Option, none, some, List, [], ◌∷◌, ◌++◌, map, arith,
}
use ouro_pass.Store.Domain.{RefreshGrant}
use ouro_pass.Store.Grants.{grant_id, rotated_from_is, children}

-- No row of the list has this id.
abbrev pub Absent : Text → List RefreshGrant → Type 0
Absent id [] = Unit
Absent id (g ∷ rows) = (g.refresh_grant_id ≢ id) × Absent id rows

-- The grant was not rotated from a grant in the list.
abbrev pub Rootless : Option Text → List RefreshGrant → Type 0
Rootless none rows = Unit
Rootless (some p) rows = Absent p rows

-- Rows in the order of creation: none was rotated from itself or from a later one.
abbrev pub IsForest : List RefreshGrant → Type 0
IsForest [] = Unit
IsForest (g ∷ rows) = Rootless g.rotated_from (g ∷ rows) × IsForest rows

-- The rounds that the walk needs for one id: itself and its descendants.
unfoldable pub size : List RefreshGrant → Text → ℕ
size [] id = 1
size (g ∷ rows) id =
    (if rotated_from_is id g then size rows g.refresh_grant_id else 0) + size rows id

unfoldable pub sizes : List RefreshGrant → List Text → ℕ
sizes rows [] = 0
sizes rows (id ∷ ids) = size rows id + sizes rows ids

pub sizes-append :
    (rows : List RefreshGrant) (a b : List Text) → sizes rows (a ++ b) ≡ sizes rows a + sizes rows b
unfolding sizes
sizes-append rows [] b = omega arith
sizes-append rows (x ∷ a) b = omega (arith, sizes-append rows a b)

-- The fuel is enough.
pub size-le : (rows : List RefreshGrant) (id : Text) → size rows id ≤ 2 ^ length rows
unfolding size
size-le [] id = omega arith
size-le (g ∷ rows) id =
    let a = size-le rows g.refresh_grant_id in
    let b = size-le rows id in
    let p : 2 ^ suc (length rows) ≡ 2 * 2 ^ length rows = pow-suc 2 (length rows) ∙ omega arith in
    rw p (ground (arith, a, b))

pub size_pos : (rows : List RefreshGrant) (id : Text) → 0 < size rows id
unfolding size
size_pos [] id = omega arith
size_pos (g ∷ rows) id = ground (arith, size_pos rows id)

-- An id that the first row was not rotated from has its whole subtree in the later rows.
size-skip :
    (g : RefreshGrant) (rows : List RefreshGrant) (id : Text)
    → rotated_from_is id g ≡ false
    → size (g ∷ rows) id ≡ size rows id
unfolding size
size-skip g rows id h = rw h (omega arith)

pub ids : List RefreshGrant → List Text
ids = map grant_id

-- A row that is in the forest below `g` is not what `g` was rotated from.
Absent-miss :
    (p id : Text) (rows : List RefreshGrant)
    → Absent p rows
    → In id (ids rows)
    → text_eq p id ≡ false
unfolding ids
Absent-miss p id [] a m = absurd m
Absent-miss p id (g ∷ rows) a (inl e) = ground (arith, a.0, text_eq_sound p id)
Absent-miss p id (g ∷ rows) a (inr m) = Absent-miss p id rows a.1 m

Rootless-miss :
    (q : Option Text) (g : RefreshGrant) (rows : List RefreshGrant) (id : Text)
    → g.rotated_from ≡ q
    → Rootless q rows
    → In id (ids rows)
    → rotated_from_is id g ≡ false
Rootless-miss none g rows id e h m = rw e
Rootless-miss (some p) g rows id e h m = rw e (Absent-miss p id rows h m)

pub In-children-ids :
    (id c : Text) (rows : List RefreshGrant) → In c (children id rows) → In c (ids rows)
unfolding children ids
In-children-ids id c [] h = absurd h
In-children-ids id c (g ∷ rows) h = elim (Bool-cases (rotated_from_is id g)) [
  | inl hit ↦
      let k : In c (g.refresh_grant_id ∷ children id rows) = rw (hit, children) at h in
      elim k [ inl e ↦ inl e | inr m ↦ inr (In-children-ids id c rows m) ]
  | inr miss ↦
      let k : In c (children id rows) = rw (miss, children) at h in
      inr (In-children-ids id c rows k)
]

sizes-skip :
    (g : RefreshGrant) (rows : List RefreshGrant) (l : List Text)
    → Rootless g.rotated_from rows
    → ((c : Text) → In c l → In c (ids rows))
    → sizes (g ∷ rows) l ≡ sizes rows l
unfolding sizes
sizes-skip g rows [] h sub = refl
sizes-skip g rows (c ∷ l) h sub =
    let miss = Rootless-miss g.rotated_from g rows c refl h (sub c (inl refl)) in
    let rest = sizes-skip g rows l h (λ x m. sub x (inr m)) in
    omega (arith, size-skip g rows c miss, rest)

Rootless-tail :
    (q : Option Text) (g : RefreshGrant) (rows : List RefreshGrant)
    → Rootless q (g ∷ rows)
    → Rootless q rows
Rootless-tail none g rows h = tt
Rootless-tail (some p) g rows h = h.1

Rootless-self :
    (q : Option Text) (g : RefreshGrant) (rows : List RefreshGrant)
    → g.rotated_from ≡ q
    → Rootless q (g ∷ rows)
    → rotated_from_is g.refresh_grant_id g ≡ false
Rootless-self none g rows e h = rw e
Rootless-self (some p) g rows e h = rw e (ground (arith, h.0, text_eq_sound p g.refresh_grant_id))

-- One round: the id is taken off the queue and its children are put on it.
pub sizes-children :
    (rows : List RefreshGrant) (id : Text)
    → IsForest rows
    → suc (sizes rows (children id rows)) ≡ size rows id
unfolding size sizes children
sizes-children [] id f = refl
sizes-children (g ∷ rows) id f =
    let below = Rootless-tail g.rotated_from g rows f.0 in
    let ih = sizes-children rows id f.1 in
    let same = sizes-skip g rows (children id rows) below (λ c m. In-children-ids id c rows m) in
    let own = size-skip g rows g.refresh_grant_id (Rootless-self g.rotated_from g rows refl f.0) in
    elim (Bool-cases (rotated_from_is id g)) [
      | inl hit ↦ rw hit (omega (arith, ih, same, own))
      | inr miss ↦ rw miss (omega (arith, ih, same))
    ]
