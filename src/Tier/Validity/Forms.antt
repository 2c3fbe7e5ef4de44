-- ===== src/Tier/Validity/Forms.antt =====
-- The order in which the evaluator of server/internal/core/tier/tier.go tries the forms of a condition.
use ouro_pass.Base.{
  if◌then◌else◌, Bool-cases, any, all, In, Text, is_empty, ℕ, ◌≡◌, refl, sym, ap, ◌∙◌, inl, inr,
  Bool, true, false, not, ◌&&◌, ◌||◌, Option, none, some, List, [], ◌∷◌, arith,
}
use ouro_pass.Go.Maps.{get_text}
use ouro_pass.Tier.{
  Condition, condition, Conditions, end, more, Negated, nil, negated, Facts, order, compare, choose,
  eval, eval_all, eval_any, eval_not,
}
use ouro_pass.Tier.Validity.{
  Invalid, is_more, is_negated, check_forms, or_else, validate, validate_list, validate_not,
}

pub data Form : Type 0 where
  all_of any_of negation atom : Form

-- The value of the first form of a list that a condition has; a condition without one is true.
abbrev pub first_value : List Form → (Form → Bool) → (Form → Bool) → Bool
first_value [] present value = true
first_value (f ∷ order) present value =
    let rest = first_value order present value in if present f then value f else rest

abbrev pub has_form : Conditions → Conditions → Negated → Text → Form → Bool
has_form all any neg fact all_of = is_more all
has_form all any neg fact any_of = is_more any
has_form all any neg fact negation = is_negated neg
has_form all any neg fact atom = not (is_empty fact)

abbrev pub form_value : Bool → Bool → Bool → Text → Text → Text → Facts → Form → Bool
form_value a o n fact op value facts all_of = a
form_value a o n fact op value facts any_of = o
form_value a o n fact op value facts negation = not n
form_value a o n fact op value facts atom = compare (get_text fact facts) op value

-- An evaluator that tries the forms in the order of a list, in every condition.
module _ (order : List Form) where
  unfoldable mutual
    pub eval_in : Condition → Facts → Bool
    eval_in (condition all any neg fact op value) facts =
        first_value order (has_form all any neg fact) (
          form_value (eval_in_all all facts) (eval_in_any any facts) (eval_in_not neg facts) fact op
            value facts)

    pub eval_in_all : Conditions → Facts → Bool
    eval_in_all end facts = true
    eval_in_all (more c cs) facts = eval_in c facts && eval_in_all cs facts

    pub eval_in_any : Conditions → Facts → Bool
    eval_in_any end facts = false
    eval_in_any (more c cs) facts = eval_in c facts || eval_in_any cs facts

    pub eval_in_not : Negated → Facts → Bool
    eval_in_not nil facts = true
    eval_in_not (negated c) facts = eval_in c facts

first-sole :
    (present value : Form → Bool) (f : Form) (order : List Form)
    → In f order
    → present f ≡ true
    → ((g : Form) → present g ≡ true → value g ≡ value f)
    → first_value order present value ≡ value f
first-sole present value f [] there has sole = absurd there
first-sole present value f (g ∷ order) there has sole = elim (Bool-cases (present g)) [
  | inl hit ↦ rw hit (sole g hit)
  | inr miss ↦ elim there [
    | inl same ↦ absurd (cc (sym has ∙ ap present same ∙ miss))
    | inr later ↦ rw miss (first-sole present value f order later has sole)
  ]
]

first-none :
    (present value : Form → Bool) (order : List Form)
    → ((g : Form) → present g ≡ false)
    → first_value order present value ≡ true
first-none present value [] missing = refl
first-none present value (g ∷ order) missing =
    rw (missing g) (first-none present value order missing)

no_form : (g : Form) → has_form end end nil [] g ≡ false
no_form all_of = refl
no_form any_of = refl
no_form negation = refl
no_form atom = refl

only_atom :
    (a o n : Bool) (b : ℕ) (fact : Text) (op value : Text) (facts : Facts) (g : Form)
    → has_form end end nil (b ∷ fact) g ≡ true
    → form_value a o n (b ∷ fact) op value facts g ≡ form_value a o n (b ∷ fact) op value facts atom
only_atom a o n b fact op value facts all_of k = absurd (cc)
only_atom a o n b fact op value facts any_of k = absurd (cc)
only_atom a o n b fact op value facts negation k = absurd (cc)
only_atom a o n b fact op value facts atom k = refl

only_negation :
    (c : Condition) (a o n : Bool) (op value : Text) (facts : Facts) (g : Form)
    → has_form end end (negated c) [] g ≡ true
    → form_value a o n [] op value facts g ≡ form_value a o n [] op value facts negation
only_negation c a o n op value facts all_of k = absurd (cc)
only_negation c a o n op value facts any_of k = absurd (cc)
only_negation c a o n op value facts negation k = refl
only_negation c a o n op value facts atom k = absurd (cc)

only_any :
    (c : Condition) (cs : Conditions) (a o n : Bool) (op value : Text) (facts : Facts) (g : Form)
    → has_form end (more c cs) nil [] g ≡ true
    → form_value a o n [] op value facts g ≡ form_value a o n [] op value facts any_of
only_any c cs a o n op value facts all_of k = absurd (cc)
only_any c cs a o n op value facts any_of k = refl
only_any c cs a o n op value facts negation k = absurd (cc)
only_any c cs a o n op value facts atom k = absurd (cc)

only_all :
    (c : Condition) (cs : Conditions) (a o n : Bool) (op value : Text) (facts : Facts) (g : Form)
    → has_form (more c cs) end nil [] g ≡ true
    → form_value a o n [] op value facts g ≡ form_value a o n [] op value facts all_of
only_all c cs a o n op value facts all_of k = refl
only_all c cs a o n op value facts any_of k = absurd (cc)
only_all c cs a o n op value facts negation k = absurd (cc)
only_all c cs a o n op value facts atom k = absurd (cc)

module _ (order : List Form) (complete : (f : Form) → In f order) where
  first-choose :
      (all any : Conditions) (neg : Negated) (a o n : Bool) (fact op value : Text) (facts : Facts)
      → check_forms all any neg fact op value ≡ none
      → first_value order (has_form all any neg fact) (form_value a o n fact op value facts)
        ≡ choose all any neg a o n fact op value facts
  unfolding check_forms choose
  first-choose end end nil a o n [] op value facts h = first-none _ _ order no_form
  first-choose end end nil a o n (b ∷ fact) op value facts h =
      first-sole _ _ atom order (complete atom) refl (only_atom a o n b fact op value facts)
  first-choose end end (negated c) a o n [] op value facts h =
      first-sole _ _ negation order (complete negation) refl (only_negation c a o n op value facts)
  first-choose end (more c cs) nil a o n [] op value facts h =
      first-sole _ _ any_of order (complete any_of) refl (only_any c cs a o n op value facts)
  first-choose (more c cs) end nil a o n [] op value facts h =
      first-sole _ _ all_of order (complete all_of) refl (only_all c cs a o n op value facts)
  first-choose _ _ _ a o n fact op value facts h = absurd (ground arith)

  or_none : (a b : Option Invalid) → or_else a b ≡ none → (a ≡ none) × (b ≡ none)
  or_none none b h = (refl, h)
  or_none (some e) b h = absurd (cc)

  mutual
    unfolding validate eval eval_in

    in_order :
        (c : Condition) (facts : Facts) → validate c ≡ none → eval_in order c facts ≡ eval c facts
    in_order (condition all any neg fact op value) facts h =
        let (f, rest) = or_none (check_forms all any neg fact op value) _ h in
        let (va, rest1) = or_none (validate_list all) _ rest in
        let (vo, rest2) = or_none (validate_list any) _ rest1 in
        let (vn, _) = or_none (validate_not neg) _ rest2 in
        rw (in_order_all all facts va, in_order_any any facts vo, in_order_not neg facts vn)
          (first-choose all any neg (eval_all all facts) (eval_any any facts) (eval_not neg facts)
            fact op value facts f)

    in_order_all :
        (cs : Conditions) (facts : Facts)
        → validate_list cs ≡ none
        → eval_in_all order cs facts ≡ eval_all cs facts
    in_order_all end facts h = refl
    in_order_all (more c cs) facts h =
        let (v, vs) = or_none (validate c) (validate_list cs) h in
        rw (in_order c facts v, in_order_all cs facts vs)

    in_order_any :
        (cs : Conditions) (facts : Facts)
        → validate_list cs ≡ none
        → eval_in_any order cs facts ≡ eval_any cs facts
    in_order_any end facts h = refl
    in_order_any (more c cs) facts h =
        let (v, vs) = or_none (validate c) (validate_list cs) h in
        rw (in_order c facts v, in_order_any cs facts vs)

    in_order_not :
        (neg : Negated) (facts : Facts)
        → validate_not neg ≡ none
        → eval_in_not order neg facts ≡ eval_not neg facts
    in_order_not nil facts h = refl
    in_order_not (negated c) facts h = in_order c facts h

  -- Take any list in which each of the four forms, all, any, not and the comparison, occurs. A condition
  -- that `validate` accepts has the same value for the evaluator as for one that takes, in every
  -- condition within it, the first form of that list that is there.
  pub validate-eval :
      (c : Condition) (facts : Facts) → validate c ≡ none → eval_in order c facts ≡ eval c facts
  validate-eval c facts h = in_order c facts h
