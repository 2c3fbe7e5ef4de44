-- ===== src/Tests/Rules.antt =====
-- Witnesses of the theorems on rules, facts, epochs and times.
use ouro_pass.Base.{
  In, Text, lit, text_eq, ◌+◌, ◌*◌, ◌<◌, ◌≡◌, refl, ◌↔◌, inl, inr, true, Option, none, some, List,
  [], ◌∷◌, arith,
}
use ouro_pass.Base.Int.{pos}
use ouro_pass.Membership.{Snapshot, derive_state}
use ouro_pass.Membership.Cache.{seen_at_hit, at_hit, derive_state-at_hit}
use ouro_pass.Tier.{Condition, condition, end, nil, negated, eval, eval_rules}
use ouro_pass.Tier.Meaning.{Holds, eval_iff, FirstMatch, eval_rules-FirstMatch}
use ouro_pass.Tier.Validity.{validate}
use ouro_pass.Tier.Validity.Forms.{Form, all_of, any_of, negation, atom, eval_in, validate-eval}
use ouro_pass.Attestor.{Attestation, kind_pool_stake, AttestorResult, empty_result}
use ouro_pass.Attestor.Aggregate.{Evaluated, evaluate-Evaluated}
use ouro_pass.Chain.Epoch.{current_epoch, Spans, current_epoch-epoch_start}
use ouro_pass.Store.Timestamp.{nanos_per_second, ts, stamp_lt, stamp_lt_whole_second}
use ouro_pass.Attestor

abbrev stake_facts : List (Text × Text)
stake_facts =
    (lit "pool:a.active_stake_lovelace", lit "40")
    ∷ (lit "pool:b.active_stake_lovelace", lit "x")
    ∷ (lit "pool:c.active_stake_lovelace", lit "2")
    ∷ []

abbrev at_least_40 : Condition
at_least_40 = condition end end nil (lit "pool:a.active_stake_lovelace") (lit ">=") (lit "40")

abbrev not_below : Condition
not_below = condition end end (negated at_least_40) [] [] []

eval_iff_example : (eval not_below stake_facts ≡ true) ↔ Holds not_below stake_facts
eval_iff_example = eval_iff not_below stake_facts

eval_rules-FirstMatch_example :
    FirstMatch stake_facts (record { tier = lit "gold"; when = at_least_40 } ∷ []) (
      eval_rules
        (λ b. some (record { tier = lit "gold"; when = at_least_40 } ∷ []))
        (1 ∷ [])
        stake_facts)
eval_rules-FirstMatch_example =
    eval_rules-FirstMatch (λ b. some (record { tier = lit "gold"; when = at_least_40 } ∷ []))
      (1 ∷ []) stake_facts (record { tier = lit "gold"; when = at_least_40 } ∷ []) (λ e. cc e) refl

abbrev any_first : List Form
any_first = any_of ∷ atom ∷ negation ∷ all_of ∷ []

any_first_complete : (f : Form) → In f any_first
any_first_complete any_of = inl refl
any_first_complete atom = inr (inl refl)
any_first_complete negation = inr (inr (inl refl))
any_first_complete all_of = inr (inr (inr (inl refl)))

validate-eval_example : eval_in any_first not_below stake_facts ≡ eval not_below stake_facts
unfolding validate text_eq
validate-eval_example = validate-eval any_first any_first_complete not_below stake_facts refl

abbrev member : Attestation
member = record {
  kind = kind_pool_stake;
  id = lit "a";
  held = true;
  claim = [];
  facts = (lit "pool:p.state", lit "active") ∷ stake_facts;
}

abbrev result_or : Option AttestorResult → AttestorResult
result_or none = empty_result
result_or (some r) = r

abbrev evaluated : AttestorResult
evaluated = result_or (Attestor.evaluate (some member ∷ []))

evaluated-some : Attestor.evaluate (some member ∷ []) ≡ some evaluated
unfolding Attestor.evaluate
evaluated-some = refl

evaluate-Evaluated_example : Evaluated (some member ∷ []) evaluated
evaluate-Evaluated_example = evaluate-Evaluated (some member ∷ []) evaluated evaluated-some

current_epoch-epoch_start_example : Spans (lit "mainnet") 1700000000000000000 448
unfolding current_epoch text_eq
current_epoch-epoch_start_example =
    current_epoch-epoch_start (lit "mainnet") 1700000000000000000 448 (omega arith) refl

stamp_lt_whole_second_example :
    (5 * nanos_per_second < 5 * nanos_per_second + 1)
    × (stamp_lt (ts (5 * nanos_per_second + 1)) (ts (5 * nanos_per_second)) ≡ true)
stamp_lt_whole_second_example = stamp_lt_whole_second 5 1 (omega arith) (omega arith)

abbrev moving : Snapshot
moving = record {
  stake_credential_hash = lit "ab";
  epoch = 500;
  delegated_pool_id = lit "b";
  active_stake_pool_id = lit "a";
  active_stake_lovelace = lit "7";
  rewards_lovelace = [];
  epochs_delegated = pos 3;
  account_status = lit "registered";
  source = lit "koios";
  fetched_at = 1;
}

derive_state-at_hit_example :
    (derive_state (some (at_hit moving (lit "mainnet") 500)) (lit "b")
      ≡ seen_at_hit (derive_state (some moving) (lit "b")))
    × ((at_hit moving (lit "mainnet") 500).active_stake_lovelace ≡ lit "7")
    × ((at_hit moving (lit "mainnet") 500).epochs_delegated ≡ pos 3)
derive_state-at_hit_example = derive_state-at_hit moving (lit "mainnet") 500 (lit "b")
