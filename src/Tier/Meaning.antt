-- ===== src/Tier/Meaning.antt =====
-- What a tier condition means, said without the evaluator, and that the evaluator decides it.
use ouro_pass.Base.{
  Bool-cases, any, Text, lit, text_eq, text_eq_sound, text_eq_refl, text_eq_complete, ◌≡◌, refl,
  ◌∙◌, ◌≢◌, ◌↔◌, ◌⊎◌, inl, inr, Bool, true, false, not, ◌&&◌, ◌||◌, Option, none, some, List, [],
  ◌∷◌, arith,
}
use ouro_pass.Base.Int.{ℤ, ◌≤ℤ◌, ◌<ℤ◌}
use ouro_pass.Go.Decimal.{parse_int}
use ouro_pass.Go.Maps.{get_text}
use ouro_pass.Tier.{
  Condition, condition, Conditions, end, more, nil, negated, Rule, Facts, nz, order, is_ordering,
  ordered, compare, choose, eval, eval_all, eval_any, first_match, eval_rules,
}

-- The ordering operators hold of two texts that are integers in that order; an empty fact is 0.
pub data Orders (have op want : Text) : Type 0 where
  at_least :
      (h w : ℤ)
      → op ≡ lit ">="
      → parse_int (nz have) ≡ some h
      → parse_int want ≡ some w
      → w ≤ℤ h
      → Orders have op want
  above :
      (h w : ℤ)
      → op ≡ lit ">"
      → parse_int (nz have) ≡ some h
      → parse_int want ≡ some w
      → w <ℤ h
      → Orders have op want
  at_most :
      (h w : ℤ)
      → op ≡ lit "<="
      → parse_int (nz have) ≡ some h
      → parse_int want ≡ some w
      → h ≤ℤ w
      → Orders have op want
  below :
      (h w : ℤ)
      → op ≡ lit "<"
      → parse_int (nz have) ≡ some h
      → parse_int want ≡ some w
      → h <ℤ w
      → Orders have op want

pub data Compares (have op want : Text) : Type 0 where
  same : op ≡ lit "==" → have ≡ want → Compares have op want
  differ : op ≡ lit "!=" → have ≢ want → Compares have op want
  orders : Orders have op want → Compares have op want

order-Orders :
    (have op want : Text) (h w : ℤ)
    → parse_int (nz have) ≡ some h
    → parse_int want ≡ some w
    → is_ordering op ≡ true
    → order op h w ≡ true
    → Orders have op want
unfolding order is_ordering
order-Orders have op want h w ph pw ord t = elim (Bool-cases (text_eq op (lit ">="))) [
  | inl a ↦ at_least h w (text_eq_sound _ _ a) ph pw (ground (arith, a))
  | inr na ↦ elim (Bool-cases (text_eq op (lit ">"))) [
    | inl b ↦ above h w (text_eq_sound _ _ b) ph pw (ground (arith, na, b))
    | inr nb ↦ elim (Bool-cases (text_eq op (lit "<="))) [
      | inl c ↦ at_most h w (text_eq_sound _ _ c) ph pw (ground (arith, na, nb, c))
      | inr nc ↦
          below h w (text_eq_sound _ _ (ground (arith, na, nb, nc, ord))) ph pw
            (ground (arith, na, nb, nc))
    ]
  ]
]

ordered-Orders :
    (have op want : Text) (h w : Option ℤ)
    → parse_int (nz have) ≡ h
    → parse_int want ≡ w
    → is_ordering op ≡ true
    → ordered op h w ≡ true
    → Orders have op want
ordered-Orders have op want (some h) (some w) ph pw ord t =
    order-Orders have op want h w ph pw ord t
ordered-Orders have op want none w ph pw ord t = cc
ordered-Orders have op want (some h) none ph pw ord t = cc

compare-Compares : (have op want : Text) → compare have op want ≡ true → Compares have op want
unfolding compare
compare-Compares have op want t = elim (Bool-cases (text_eq op (lit "=="))) [
  | inl eq ↦ same (text_eq_sound _ _ eq) (text_eq_sound have want (ground (arith, eq, t)))
  | inr neq ↦ elim (Bool-cases (text_eq op (lit "!="))) [
    | inl ne ↦
        differ (text_eq_sound _ _ ne)
          (λ e. ground (arith, neq, ne, t, text_eq_complete have want e))
    | inr other ↦ orders (
        ordered-Orders have op want (parse_int (nz have)) (parse_int want) refl refl
          (ground (arith, neq, other, t)) (ground (arith, neq, other, t)))
  ]
]

-- A comparison read off its two parsed sides.
compare-ordered :
    (have op want : Text) (h w : ℤ)
    → text_eq op (lit "==") ≡ false
    → text_eq op (lit "!=") ≡ false
    → is_ordering op ≡ true
    → parse_int (nz have) ≡ some h
    → parse_int want ≡ some w
    → compare have op want ≡ order op h w
unfolding compare
compare-ordered have op want h w a b c p q = simp (a, b, c, p, q)

order_ge : (h w : ℤ) → w ≤ℤ h → order (lit ">=") h w ≡ true
unfolding order text_eq
order_ge h w o = ground arith

order_gt : (h w : ℤ) → w <ℤ h → order (lit ">") h w ≡ true
unfolding order text_eq
order_gt h w o = ground arith

order_le : (h w : ℤ) → h ≤ℤ w → order (lit "<=") h w ≡ true
unfolding order text_eq
order_le h w o = ground arith

order_lt : (h w : ℤ) → h <ℤ w → order (lit "<") h w ≡ true
unfolding order text_eq
order_lt h w o = ground arith

Orders-compare : (have op want : Text) → Orders have op want → compare have op want ≡ true
unfolding text_eq is_ordering
Orders-compare have op want (at_least h w e p q o) =
    rw e (compare-ordered have (lit ">=") want h w refl refl refl p q ∙ order_ge h w o)
Orders-compare have op want (above h w e p q o) =
    rw e (compare-ordered have (lit ">") want h w refl refl refl p q ∙ order_gt h w o)
Orders-compare have op want (at_most h w e p q o) =
    rw e (compare-ordered have (lit "<=") want h w refl refl refl p q ∙ order_le h w o)
Orders-compare have op want (below h w e p q o) =
    rw e (compare-ordered have (lit "<") want h w refl refl refl p q ∙ order_lt h w o)

Compares-compare : (have op want : Text) → Compares have op want → compare have op want ≡ true
unfolding compare text_eq
Compares-compare have op want (same e f) = rw (e, f) (text_eq_refl want)
Compares-compare have op want (differ e f) = rw e (ground (arith, f, text_eq_sound have want))
Compares-compare have op want (orders o) = Orders-compare have op want o

-- A leaf holds by its comparison, and the empty condition always.
abbrev pub Leaf : Text → Text → Text → Facts → Type 0
Leaf [] op value facts = Unit
Leaf (b ∷ fact) op value facts = Compares (get_text (b ∷ fact) facts) op value

-- The first form that is set decides, as the code's `switch` has it.
abbrev mutual
  pub Holds : Condition → Facts → Type 0
  Holds (condition (more c cs) any neg fact op value) facts = Holds c facts × HoldsAll cs facts
  Holds (condition end (more c cs) neg fact op value) facts = Holds c facts ⊎ HoldsAny cs facts
  Holds (condition end end (negated c) fact op value) facts = ¬ Holds c facts
  Holds (condition end end nil fact op value) facts = Leaf fact op value facts

  pub HoldsAll : Conditions → Facts → Type 0
  HoldsAll end facts = Unit
  HoldsAll (more c cs) facts = Holds c facts × HoldsAll cs facts

  pub HoldsAny : Conditions → Facts → Type 0
  HoldsAny end facts = ⊥
  HoldsAny (more c cs) facts = Holds c facts ⊎ HoldsAny cs facts

choose-Leaf :
    (fact op value : Text) (facts : Facts) (a o n : Bool)
    → (choose end end nil a o n fact op value facts ≡ true) ↔ Leaf fact op value facts
unfolding choose
choose-Leaf [] op value facts a o n = (λ h. tt, λ h. refl)
choose-Leaf (b ∷ fact) op value facts a o n = (
  compare-Compares (get_text (b ∷ fact) facts) op value,
  Compares-compare (get_text (b ∷ fact) facts) op value,
)

and_true : (a b : Bool) → (a && b) ≡ true → (a ≡ true) × (b ≡ true)
and_true a b h = ground arith

or_true : (a b : Bool) → (a || b) ≡ true → (a ≡ true) ⊎ (b ≡ true)
or_true true b h = inl refl
or_true false b h = inr h

not-true : (a : Bool) → (a ≡ true → ⊥) → not a ≡ true
not-true true h = absurd (h refl)
not-true false h = refl

mutual
  unfolding eval

  sound : (c : Condition) (facts : Facts) → eval c facts ≡ true → Holds c facts
  sound (condition (more c cs) any neg fact op value) facts h =
      let (p, q) = and_true (eval c facts) (eval_all cs facts) h in
      (sound c facts p, sound_all cs facts q)
  sound (condition end (more c cs) neg fact op value) facts h =
      elim (or_true (eval c facts) (eval_any cs facts) h) [
        | inl p ↦ inl (sound c facts p)
        | inr q ↦ inr (sound_any cs facts q)
      ]
  sound (condition end end (negated c) fact op value) facts h =
      λ k. ground (arith, h, complete c facts k)
  sound (condition end end nil fact op value) facts h =
      (choose-Leaf fact op value facts true false true).0 h

  sound_all : (cs : Conditions) (facts : Facts) → eval_all cs facts ≡ true → HoldsAll cs facts
  sound_all end facts h = tt
  sound_all (more c cs) facts h =
      let (p, q) = and_true (eval c facts) (eval_all cs facts) h in
      (sound c facts p, sound_all cs facts q)

  sound_any : (cs : Conditions) (facts : Facts) → eval_any cs facts ≡ true → HoldsAny cs facts
  sound_any end facts h = cc
  sound_any (more c cs) facts h = elim (or_true (eval c facts) (eval_any cs facts) h) [
    | inl p ↦ inl (sound c facts p)
    | inr q ↦ inr (sound_any cs facts q)
  ]

  complete : (c : Condition) (facts : Facts) → Holds c facts → eval c facts ≡ true
  complete (condition (more c cs) any neg fact op value) facts h =
      rw (complete c facts h.0) (complete_all cs facts h.1)
  complete (condition end (more c cs) neg fact op value) facts (inl p) = rw (complete c facts p)
  complete (condition end (more c cs) neg fact op value) facts (inr q) =
      ground (arith, complete_any cs facts q)
  complete (condition end end (negated c) fact op value) facts h =
      not-true (eval c facts) (λ t. h (sound c facts t))
  complete (condition end end nil fact op value) facts h =
      (choose-Leaf fact op value facts true false true).1 h

  complete_all : (cs : Conditions) (facts : Facts) → HoldsAll cs facts → eval_all cs facts ≡ true
  complete_all end facts h = refl
  complete_all (more c cs) facts h = rw (complete c facts h.0) (complete_all cs facts h.1)

  complete_any : (cs : Conditions) (facts : Facts) → HoldsAny cs facts → eval_any cs facts ≡ true
  complete_any end facts h = absurd h
  complete_any (more c cs) facts (inl p) = rw (complete c facts p)
  complete_any (more c cs) facts (inr q) = ground (arith, complete_any cs facts q)

-- The evaluator says `true` exactly when the condition holds.
pub eval_iff : (c : Condition) (facts : Facts) → (eval c facts ≡ true) ↔ Holds c facts
eval_iff c facts = (sound c facts, complete c facts)

-- The first rule, in order, whose condition holds gives the tier; the tier is empty if no rule's
-- condition holds.
pub data FirstMatch (facts : Facts) : List Rule → Text → Type 0 where
  none_left : FirstMatch facts [] []
  here : {r : Rule} {rules : List Rule} → Holds r.when facts → FirstMatch facts (r ∷ rules) r.tier
  later :
      {r : Rule} {rules : List Rule} {tier : Text}
      → ¬ Holds r.when facts
      → FirstMatch facts rules tier
      → FirstMatch facts (r ∷ rules) tier

pub first_match-FirstMatch :
    (rules : List Rule) (facts : Facts) → FirstMatch facts rules (first_match rules facts)
unfolding first_match
first_match-FirstMatch [] facts = none_left
first_match-FirstMatch (r ∷ rules) facts = elim (Bool-cases (eval r.when facts)) [
  | inl t ↦ rw t (here (sound r.when facts t))
  | inr f ↦ rw f (later (λ h. cc (complete r.when facts h)) (first_match-FirstMatch rules facts))
]

-- For rules that are given and that decode, `Eval` returns the tier of the first rule, in order,
-- whose condition holds, and the empty text if no rule's condition holds.
pub eval_rules-FirstMatch :
    (unmarshal : Text → Option (List Rule)) (json : Text) (facts : Facts) (rules : List Rule)
    → json ≢ []
    → unmarshal json ≡ some rules
    → FirstMatch facts rules (eval_rules unmarshal json facts)
unfolding eval_rules
eval_rules-FirstMatch unmarshal [] facts rules h e = absurd (h refl)
eval_rules-FirstMatch unmarshal (b ∷ json) facts rules h e =
    rw (e, eval_rules) (first_match-FirstMatch rules facts)
