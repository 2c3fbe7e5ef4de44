-- ===== src/Attestor/Aggregate.antt =====
-- The result of an evaluation of server/internal/core/attestor/set.go.
use mathlib.Core.List.{Perm, Permᴰ, append-nil, append_assoc}
use mathlib.Core.Logic.{∥∥₁_elim}
use mathlib.Core.Path.{ap₂}
use native.Mathlib.Nat.{ℕ_set}
use ouro_pass.Base.{
  Bool-cases, Option-cases, In, Text, lit, text_eq, text_eq_sound, text_eq_complete, ◌≡◌, refl, sym,
  ap, ◌∙◌, ◌↔◌, inl, inr, Bool, true, false, ◌&&◌, ◌||◌, Option, none, some, List, [], ◌∷◌, ◌++◌,
  arith,
}
use ouro_pass.Base.Int.{ℤ, pos, ◌+ℤ◌, eq_of_parts, int_laws}
use ouro_pass.Go.Decimal.{parse_int, print_int, parse_int-print_int}
use ouro_pass.Go.Strings.{has_suffix}
use ouro_pass.Go.Maps.{get, put, get-put, put_all}
use ouro_pass.Attestor.{
  Facts, Attestation, AttestorResult, bool_str, any_state_active, stake_of, add_stakes,
  sum_active_stake, collect, fact_any_held, fact_any_active, fact_total_active_stake, aggregate,
  empty_result, evaluate,
}

-- The sum of the stakes, each entry counted once.
pub total_stake : Facts → ℤ
total_stake [] = pos 0
total_stake ((k, v) ∷ facts) = stake_of k v +ℤ total_stake facts

+ℤ_assoc : (a b c : ℤ) → (a +ℤ b) +ℤ c ≡ a +ℤ (b +ℤ c)
+ℤ_assoc a b c = eq_of_parts _ _ (omega int_laws)

+ℤ_left_comm : (a b c : ℤ) → a +ℤ (b +ℤ c) ≡ b +ℤ (a +ℤ c)
+ℤ_left_comm a b c = eq_of_parts _ _ (omega int_laws)

+ℤ_zero : (a : ℤ) → a +ℤ pos 0 ≡ a
+ℤ_zero a = eq_of_parts _ _ (omega int_laws)

zero-+ℤ : (a : ℤ) → pos 0 +ℤ a ≡ a
zero-+ℤ a = eq_of_parts _ _ (omega int_laws)

add_stakes-total : (t : ℤ) (facts : Facts) → add_stakes t facts ≡ t +ℤ total_stake facts
unfolding add_stakes total_stake
add_stakes-total t [] = sym (+ℤ_zero t)
add_stakes-total t ((k, v) ∷ facts) =
    add_stakes-total (t +ℤ stake_of k v) facts ∙ +ℤ_assoc t (stake_of k v) (total_stake facts)

sum-total : (facts : Facts) → sum_active_stake facts ≡ print_int (total_stake facts)
unfolding sum_active_stake
sum-total facts = ap print_int (add_stakes-total (pos 0) facts ∙ zero-+ℤ (total_stake facts))

-- The total that the token rules read, parsed as the rules parse it, is the sum of the stake facts.
pub parse_int-sum_active_stake :
    (facts : Facts) → parse_int (sum_active_stake facts) ≡ some (total_stake facts)
parse_int-sum_active_stake facts = rw (sum-total facts) (parse_int-print_int (total_stake facts))

total_stake-perm : {f g : Facts} → Permᴰ f g → total_stake f ≡ total_stake g
unfolding total_stake
total_stake-perm Permᴰ.nil = refl
total_stake-perm (Permᴰ.cons {a = a} {b = b} e p) =
    ap₂ ◌+ℤ◌ (ap (λ (x : Text × Text). stake_of x.0 x.1) e) (total_stake-perm p)
total_stake-perm (Permᴰ.swap {a = a} {b = b} {l = l} e f) =
    rw (e, f) (+ℤ_left_comm _ _ (total_stake l))
total_stake-perm (Permᴰ.trans p q) = total_stake-perm p ∙ total_stake-perm q

ℤ-set : IsSet ℤ
ℤ-set = hlevel ℕ_set

Text-set : IsSet Text
Text-set = hlevel ℕ_set

-- The order in which the map is ranged over does not change the total.
pub sum_active_stake-perm : (f g : Facts) → Perm f g → sum_active_stake f ≡ sum_active_stake g
sum_active_stake-perm f g p =
    ∥∥₁_elim p (Text-set _ _)
      (λ q. sum-total f ∙ ap print_int (total_stake-perm q) ∙ sym (sum-total g))

-- Every attestor answered.
pub outcomes : List Attestation → List (Option Attestation)
outcomes [] = []
outcomes (a ∷ rest) = some a ∷ outcomes rest

pub any_held : List Attestation → Bool
any_held [] = false
any_held (a ∷ rest) = a.held || any_held rest

pub merged : List Attestation → Facts → Facts
merged [] facts = facts
merged (a ∷ rest) facts = merged rest (put_all a.facts facts)

-- What the loop has collected.
Collected : AttestorResult → List (Option Attestation) → AttestorResult → Type 0
Collected res os r =
    (atts : List Attestation) × (os ≡ outcomes atts)
    × (r.attestations ≡ res.attestations ++ atts)
    × (r.held ≡ (res.held || any_held atts))
    × (r.facts ≡ merged atts res.facts)

or_assoc : (a b c : Bool) → ((a || b) || c) ≡ (a || (b || c))
or_assoc true b c = refl
or_assoc false b c = refl

or_true : (a : Bool) → (a || true) ≡ true
or_true true = refl
or_true false = refl

or_false : (a : Bool) → a ≡ (a || false)
or_false true = refl
or_false false = refl

collect-Collected :
    (res : AttestorResult) (os : List (Option Attestation)) (r : AttestorResult)
    → collect res os ≡ some r
    → Collected res os r
unfolding collect Collected outcomes any_held merged
collect-Collected res [] r h =
    let e : res ≡ r = cc in
    ([], refl, rw (← e) (sym (append-nil res.attestations)), rw (← e) (or_false res.held), rw (← e))
collect-Collected res (none ∷ os) r h = absurd (cc)
collect-Collected res (some a ∷ os) r h =
    let (atts, e, f, g, k) =
      collect-Collected
        (record {
          attestations = res.attestations ++ (a ∷ []);
          held = res.held || a.held;
          facts = put_all a.facts res.facts;
        })
        os r h in
    (
      a ∷ atts,
      ap (λ (t : List (Option Attestation)). some a ∷ t) e,
      f ∙ append_assoc res.attestations (a ∷ []) atts,
      g ∙ or_assoc res.held a.held (any_held atts),
      k,
    )

-- One of the facts says that a credential is active.
pub Active : Facts → Type 0
Active facts =
    (e : Text × Text) × In e facts × (has_suffix e.0 (lit ".state") ≡ true) × (e.1 ≡ lit "active")

any_state_active_sound : (facts : Facts) → any_state_active facts ≡ true → Active facts
unfolding any_state_active Active
any_state_active_sound [] h = absurd (cc)
any_state_active_sound ((k, v) ∷ facts) h =
    elim (Bool-cases (has_suffix k (lit ".state") && text_eq v (lit "active"))) [
      | inl own ↦ elim (Bool-cases (has_suffix k (lit ".state"))) [
        | inl suffix ↦ ((k, v), inl refl, suffix, text_eq_sound v (lit "active") (rw suffix at own))
        | inr other ↦ absurd (ground (arith, other, own))
      ]
      | inr other ↦
          let (e, there, suffix, active) = any_state_active_sound facts (rw other at h) in
          (e, inr there, suffix, active)
    ]

any_state_active_complete : (facts : Facts) → Active facts → any_state_active facts ≡ true
unfolding any_state_active Active
any_state_active_complete [] (e, there, _, _) = absurd there
any_state_active_complete ((k, v) ∷ facts) (e, inl same, suffix, active) =
    let ends : has_suffix k (lit ".state") ≡ true =
      ap (λ (x : Text × Text). has_suffix x.0 (lit ".state")) (sym same) ∙ suffix in
    let says : v ≡ lit "active" = ap (λ (x : Text × Text). x.1) (sym same) ∙ active in
    rw (ends, text_eq_complete v (lit "active") says)
any_state_active_complete ((k, v) ∷ facts) (e, inr there, suffix, active) =
    rw (any_state_active_complete facts (e, there, suffix, active))
      (or_true (has_suffix k (lit ".state") && text_eq v (lit "active")))

-- A fact under a key that is no state, or no stake, does not change what the facts say of them.
any_state_active-put :
    (k v : Text) (facts : Facts)
    → has_suffix k (lit ".state") ≡ false
    → any_state_active (put k v facts) ≡ any_state_active facts
unfolding any_state_active put
any_state_active-put k v [] other = rw other
any_state_active-put k v ((j, w) ∷ facts) other = elim (Bool-cases (text_eq j k)) [
  | inl same ↦
      let own : has_suffix j (lit ".state") ≡ false =
        ap (λ (x : Text). has_suffix x (lit ".state")) (text_eq_sound j k same) ∙ other in
      rw same (rw (other, own))
  | inr differ ↦ rw differ (rw (any_state_active-put k v facts other))
]

stake_of-other :
    (k v : Text) → has_suffix k (lit ".active_stake_lovelace") ≡ false → stake_of k v ≡ pos 0
unfolding stake_of
stake_of-other k v other = rw other

total_stake-put :
    (k v : Text) (facts : Facts)
    → has_suffix k (lit ".active_stake_lovelace") ≡ false
    → total_stake (put k v facts) ≡ total_stake facts
unfolding total_stake put ◌+ℤ◌
total_stake-put k v [] other = rw (stake_of-other k v other)
total_stake-put k v ((j, w) ∷ facts) other = elim (Bool-cases (text_eq j k)) [
  | inl same ↦
      let own : has_suffix j (lit ".active_stake_lovelace") ≡ false =
        ap (λ (x : Text). has_suffix x (lit ".active_stake_lovelace")) (text_eq_sound j k same)
        ∙ other in
      rw same (rw (stake_of-other k v other, stake_of-other j w own))
  | inr differ ↦ rw differ (rw (total_stake-put k v facts other))
]

-- A result of `Evaluate`: every attestor answered, in order; the gate is open exactly when one of
-- the credentials is held; and the three aggregate facts are there: whether one is held, whether one
-- of the facts that the attestors reported says that a credential is active, and the sum of the
-- stakes among those facts.
pub record Evaluated (os : List (Option Attestation)) (r : AttestorResult) : Type 0 where
  pub answered : os ≡ outcomes r.attestations
  pub gate : r.held ≡ any_held r.attestations
  pub held_fact : get fact_any_held r.facts ≡ some (bool_str (any_held r.attestations))
  pub active_fact :
      (b : Bool) × (get fact_any_active r.facts ≡ some (bool_str b))
      × ((b ≡ true) ↔ Active (merged r.attestations []))
  pub total_fact :
      (total : Text) × (get fact_total_active_stake r.facts ≡ some total)
      × (parse_int total ≡ some (total_stake (merged r.attestations [])))

aggregate-Evaluated :
    (os : List (Option Attestation)) (c : AttestorResult)
    → Collected empty_result os c
    → Evaluated os (aggregate c)
unfolding Collected aggregate text_eq has_suffix
aggregate-Evaluated os c (atts, e, f, g, k) =
    let fa : c.attestations ≡ atts = f in
    let f1 = put fact_any_held (bool_str c.held) c.facts in
    let f2 = put fact_any_active (bool_str (any_state_active f1)) f1 in
    record {
      answered = e ∙ ap outcomes (sym fa);
      gate = g ∙ ap any_held (sym fa);
      held_fact = simp get-put (rw (g, ← fa));
      active_fact = (
        any_state_active f1,
        simp get-put,
        rw (any_state_active-put fact_any_held (bool_str c.held) c.facts refl, k, ← fa)
            (
              any_state_active_sound (merged c.attestations []),
              any_state_active_complete (merged c.attestations []),
            ),
      );
      total_fact = (
        sum_active_stake f2,
        simp get-put,
        parse_int-sum_active_stake f2
            ∙ ap some (
                total_stake-put fact_any_active (bool_str (any_state_active f1)) f1 refl
                ∙ total_stake-put fact_any_held (bool_str c.held) c.facts refl
                ∙ ap total_stake (k ∙ ap (λ (x : List Attestation). merged x []) (sym fa))),
      );
    }

-- An evaluation succeeds only if every attestor answered. Its result has the attestations in order
-- and is open exactly if one of them is held, and its facts say whether one is held, whether one of
-- the reported facts says that a credential is active, and the sum of the reported stakes.
pub evaluate-Evaluated :
    (os : List (Option Attestation)) (r : AttestorResult) → evaluate os ≡ some r → Evaluated os r
unfolding evaluate
evaluate-Evaluated os r h = elim (Option-cases (collect empty_result os)) [
  | inl e ↦ absurd (cc e)
  | inr (c, e) ↦
      let q : aggregate c ≡ r = cc in
      rw (← q) (aggregate-Evaluated os c (collect-Collected empty_result os c e))
]
