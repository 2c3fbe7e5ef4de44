-- ===== src/Tier/Validity.antt =====
-- `Validate` of server/internal/core/tier/tier.go, of the rule language.
pub mod Forms
use ouro_pass.Base.{
  ltb, if◌then◌else◌, any, all, Text, lit, is_empty, text_eq, ℕ, ◌+◌, Bool, true, false, not, ◌&&◌,
  ◌||◌, Option, none, some, List, [], ◌∷◌,
}
use ouro_pass.Tier.{Condition, condition, Conditions, end, more, Negated, nil, negated, Rule}

pub data Invalid : Type 0 where
  bad_json tier_required several_forms op_without_fact invalid_op : Invalid

abbrev pub count_set : Bool → ℕ
count_set true = 1
count_set false = 0

abbrev pub is_more : Conditions → Bool
is_more end = false
is_more (more _ _) = true

abbrev pub is_negated : Negated → Bool
is_negated nil = false
is_negated (negated _) = true

unfoldable pub known_op : Text → Bool
known_op op =
    text_eq op (lit "==")
    || text_eq op (lit "!=")
    || text_eq op (lit ">=")
    || text_eq op (lit ">")
    || text_eq op (lit "<=")
    || text_eq op (lit "<")

unfoldable pub forms : Conditions → Conditions → Negated → Text → ℕ
forms all any neg fact =
    count_set (is_more all)
    + count_set (is_more any)
    + count_set (is_negated neg)
    + count_set (not (is_empty fact))

-- The checks of one node that stand before those of its parts, and the check after them.
unfoldable pub check_forms : Conditions → Conditions → Negated → Text → Text → Text → Option Invalid
unfolding forms
check_forms all any neg fact op value =
    if ltb 1 (forms all any neg fact)
    then some several_forms
    else if (not (is_empty op) || not (is_empty value)) && is_empty fact
    then some op_without_fact
    else none

unfoldable pub check_op : Text → Text → Option Invalid
unfolding known_op
check_op fact op = if is_empty fact || known_op op then none else some invalid_op

-- `if err := …; err != nil { return err }`
abbrev pub or_else : Option Invalid → Option Invalid → Option Invalid
or_else none next = next
or_else (some e) next = some e

unfoldable mutual
  unfolding check_forms check_op

  pub validate : Condition → Option Invalid
  validate (condition all any neg fact op value) = or_else (check_forms all any neg fact op value) (
      or_else (validate_list all)
        (or_else (validate_list any) (or_else (validate_not neg) (check_op fact op))))

  pub validate_list : Conditions → Option Invalid
  validate_list end = none
  validate_list (more c cs) = or_else (validate c) (validate_list cs)

  pub validate_not : Negated → Option Invalid
  validate_not nil = none
  validate_not (negated c) = validate c

unfoldable pub validate_rule : Rule → Option Invalid
unfolding validate
validate_rule r = if is_empty r.tier then some tier_required else validate r.when

-- The loop of `Validate`; the index in the message is left out.
unfoldable pub validate_all : List Rule → Option Invalid
unfolding validate_rule
validate_all [] = none
validate_all (r ∷ rules) = or_else (validate_rule r) (validate_all rules)

module _ (unmarshal : Text → Option (List Rule)) where
  unfoldable pub validate_rules : Text → Option Invalid
  unfolding validate_all
  validate_rules [] = none
  validate_rules (b ∷ json) = elim (unmarshal (b ∷ json)) [
    | none ↦ some bad_json
    | some rules ↦ validate_all rules
  ]
