-- ===== src/Tier.antt =====
-- server/internal/core/tier/tier.go: the rules that map facts to the issuer's first-party tier.
pub mod Meaning
pub mod Validity
use ouro_pass.Base.{
  if◌then◌else◌, any, all, Text, lit, is_empty, text_eq, Bool, true, false, not, ◌&&◌, ◌||◌, Option,
  none, some, List, [], ◌∷◌,
}
use ouro_pass.Base.Int.{ℤ, leb_ℤ, ltb_ℤ}
use ouro_pass.Go.Decimal.{parse_int}
use ouro_pass.Go.Maps.{get_text}

-- A condition has every field of the Go struct; an absent list is empty, an absent `Not` is `nil`.
mutual
  pub data Condition : Type 0 where
    condition : Conditions → Conditions → Negated → Text → Text → Text → Condition

  pub data Conditions : Type 0 where
    end : Conditions
    more : Condition → Conditions → Conditions

  pub data Negated : Type 0 where
    nil : Negated
    negated : Condition → Negated

pub record Rule : Type 0 where
  pub tier : Text
  pub when : Condition

abbrev pub Facts : Type 0
Facts = List (Text × Text)

unfoldable pub nz : Text → Text
nz s = if is_empty s then lit "0" else s

-- The ordering operators, on two parsed integers.
unfoldable pub order : Text → ℤ → ℤ → Bool
order op h w =
    if text_eq op (lit ">=")
    then leb_ℤ w h
    else if text_eq op (lit ">")
    then ltb_ℤ w h
    else if text_eq op (lit "<=")
    then leb_ℤ h w
    else ltb_ℤ h w

unfoldable pub is_ordering : Text → Bool
is_ordering op =
    text_eq op (lit ">=") || text_eq op (lit ">") || text_eq op (lit "<=") || text_eq op (lit "<")

abbrev pub ordered : Text → Option ℤ → Option ℤ → Bool
ordered op (some h) (some w) = order op h w
ordered op _ _ = false

unfoldable pub compare : Text → Text → Text → Bool
unfolding nz is_ordering
compare have op want =
    if text_eq op (lit "==")
    then text_eq have want
    else if text_eq op (lit "!=")
    then not (text_eq have want)
    else if is_ordering op
    then ordered op (parse_int (nz have)) (parse_int want)
    else false

-- The `switch` of `Condition.eval`, over the values of the sub-conditions.
unfoldable pub choose :
    Conditions → Conditions → Negated → Bool → Bool → Bool → Text → Text → Text → Facts → Bool
unfolding compare
choose (more _ _) any neg a o n fact op value facts = a
choose end (more _ _) neg a o n fact op value facts = o
choose end end (negated _) a o n fact op value facts = not n
choose end end nil a o n fact op value facts =
    if is_empty fact then true else compare (get_text fact facts) op value

unfoldable mutual
  unfolding choose

  pub eval : Condition → Facts → Bool
  eval (condition all any neg fact op value) facts =
      choose all any neg (eval_all all facts) (eval_any any facts) (eval_not neg facts) fact op
        value facts

  pub eval_all : Conditions → Facts → Bool
  eval_all end facts = true
  eval_all (more c cs) facts = eval c facts && eval_all cs facts

  pub eval_any : Conditions → Facts → Bool
  eval_any end facts = false
  eval_any (more c cs) facts = eval c facts || eval_any cs facts

  pub eval_not : Negated → Facts → Bool
  eval_not nil facts = true
  eval_not (negated c) facts = eval c facts

-- The loop of `Eval`: the first rule whose condition holds.
unfoldable pub first_match : List Rule → Facts → Text
first_match [] facts = []
first_match (r ∷ rules) facts =
    let rest = first_match rules facts in if eval r.when facts then r.tier else rest

-- `unmarshal` is `json.Unmarshal` into `[]Rule`; no bytes and bad JSON give no tier.
module _ (unmarshal : Text → Option (List Rule)) where
  unfoldable pub eval_rules : Text → Facts → Text
  unfolding first_match
  eval_rules [] facts = []
  eval_rules (b ∷ json) facts = elim (unmarshal (b ∷ json)) [
    | none ↦ []
    | some rules ↦ first_match rules facts
  ]
