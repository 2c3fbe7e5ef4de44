-- ===== src/Attestor.antt =====
-- server/internal/core/attestor: the configured credentials and their evaluation as a set.
-- set.go, poolstake.go, networks.go and registry.go.
pub mod Aggregate
use ouro_pass.Base.{
  if◌then◌else◌, any, Text, lit, is_empty, text_eq, ℕ, zero, suc, ◌+◌, ◌-◌, ◌%◌, ◌^◌, Bool, true,
  false, not, ◌&&◌, ◌||◌, Option, none, some, List, [], ◌∷◌, ◌++◌,
}
use ouro_pass.Base.Int.{ℤ, pos, negsuc, ◌+ℤ◌, ltb_ℤ}
use ouro_pass.Go.Decimal.{parse_int, print_int}
use ouro_pass.Go.Strings.{has_suffix}
use ouro_pass.Go.Maps.{put, put_all}
use ouro_pass.Chain.Epoch.{epoch_start}
use ouro_pass.Membership.{State, active, state_text, is_outside, Snapshot, derive_state}

-- A value in a token's `credentials[]` entry.
pub data ClaimValue : Type 0 where
  string_value : Text → ClaimValue
  int_value : ℤ → ClaimValue
  time_value : ℤ → ClaimValue

abbrev pub Claim : Type 0
Claim = List (Text × ClaimValue)

abbrev pub Facts : Type 0
Facts = List (Text × Text)

pub record Attestation : Type 0 where
  pub kind : Text
  pub id : Text
  pub held : Bool
  pub claim : Claim
  pub facts : Facts

-- `PoolStakeParams` with the attestor's id.
pub record PoolStake : Type 0 where
  pub id : Text
  pub pool_id : Text
  pub network : Text

-- `"pool:" + poolID + "." + name`
unfoldable pub pool_fact_key : Text → Text → Text
pool_fact_key pool_id name = lit "pool:" ++ (pool_id ++ (lit "." ++ name))

-- `snap.Epoch - uint64(snap.EpochsDelegated) + 1`, modulo 2 ^ 64; `none` is the zero time.
unfoldable pub member_since : Text → ℕ → ℤ → Option ℤ
unfolding epoch_start
member_since network epoch (negsuc n) = none
member_since network epoch (pos zero) = none
member_since network epoch (pos (suc n)) =
    epoch_start network ((epoch + 2 ^ 64 - suc n % 2 ^ 64 + 1) % 2 ^ 64)

abbrev pub kind_pool_stake : Text
kind_pool_stake = lit "pool_stake"

abbrev add_if {ℓ} : {A : Type ℓ} → Bool → A → List A → List A
add_if true a l = l ++ (a ∷ [])
add_if false a l = l

-- The claim and the facts of an active position; `strconv.Itoa` prints the epochs.
unfoldable pub active_claim : PoolStake → Snapshot → Claim → Claim
unfolding member_since
active_claim p snap claim =
    let c1 =
      add_if (not (is_empty snap.active_stake_lovelace))
        (lit "active_stake_lovelace", string_value snap.active_stake_lovelace) claim in
    let c2 =
      add_if (ltb_ℤ (pos 0) snap.epochs_delegated)
        (lit "epochs_active", int_value snap.epochs_delegated) c1 in
    elim (member_since p.network snap.epoch snap.epochs_delegated) [
      | none ↦ c2
      | some since ↦ c2 ++ ((lit "member_since", time_value since) ∷ [])
    ]

unfoldable pub active_facts : PoolStake → Snapshot → Facts → Facts
unfolding pool_fact_key
active_facts p snap facts =
    add_if (ltb_ℤ (pos 0) snap.epochs_delegated)
      (pool_fact_key p.pool_id (lit "epochs_active"), print_int snap.epochs_delegated)
      (add_if (not (is_empty snap.active_stake_lovelace))
        (pool_fact_key p.pool_id (lit "active_stake_lovelace"), snap.active_stake_lovelace) facts)

unfoldable pub base_claim : PoolStake → State → Claim
unfolding state_text
base_claim p state =
    (lit "kind", string_value kind_pool_stake)
    ∷ (lit "pool", string_value p.pool_id)
    ∷ (lit "network", string_value p.network)
    ∷ (lit "state", string_value (state_text state))
    ∷ []

unfoldable pub base_facts : PoolStake → State → Facts
unfolding pool_fact_key state_text
base_facts p state = (pool_fact_key p.pool_id (lit "state"), state_text state) ∷ []

unfoldable pub attest_state : PoolStake → Option Snapshot → State → Attestation
unfolding active_claim active_facts base_claim base_facts is_outside
attest_state p (some snap) active = record {
  kind = kind_pool_stake;
  id = p.id;
  held = true;
  claim = active_claim p snap (base_claim p active);
  facts = active_facts p snap (base_facts p active);
}
attest_state p snap state = record {
  kind = kind_pool_stake;
  id = p.id;
  held = not (is_outside state);
  claim = base_claim p state;
  facts = base_facts p state;
}

-- `Attest`, given what `src.Snapshot` returned without an error.
unfoldable pub attest_snapshot : PoolStake → Option Snapshot → Attestation
unfolding attest_state derive_state
attest_snapshot p snap = attest_state p snap (derive_state snap p.pool_id)

pub record AttestorResult : Type 0 where
  pub attestations : List Attestation
  pub held : Bool
  pub facts : Facts

unfoldable pub bool_str : Bool → Text
bool_str b = if b then lit "true" else lit "false"

unfoldable pub any_state_active : Facts → Bool
any_state_active [] = false
any_state_active ((k, v) ∷ facts) =
    has_suffix k (lit ".state") && text_eq v (lit "active") || any_state_active facts

-- What one entry adds to the total: 0 unless it is a stake fact that is an integer.
unfoldable pub stake_of : Text → Text → ℤ
stake_of k v =
    if not (has_suffix k (lit ".active_stake_lovelace")) || is_empty v
    then pos 0
    else (elim (parse_int v) [ none ↦ pos 0 | some n ↦ n ])

unfoldable pub add_stakes : ℤ → Facts → ℤ
unfolding stake_of
add_stakes total [] = total
add_stakes total ((k, v) ∷ facts) = add_stakes (total +ℤ stake_of k v) facts

unfoldable pub sum_active_stake : Facts → Text
unfolding add_stakes
sum_active_stake facts = print_int (add_stakes (pos 0) facts)

-- The loop of `Set.Evaluate` over what the attestors returned; `none` is an attestor's error, and
-- ends the evaluation.
unfoldable pub collect : AttestorResult → List (Option Attestation) → Option AttestorResult
unfolding put_all
collect res [] = some res
collect res (none ∷ rest) = none
collect res (some att ∷ rest) =
    collect
      (record {
        attestations = res.attestations ++ (att ∷ []);
        held = res.held || att.held;
        facts = put_all att.facts res.facts;
      })
      rest

abbrev pub fact_any_held : Text
fact_any_held = lit "any_held"

abbrev pub fact_any_active : Text
fact_any_active = lit "any_active"

abbrev pub fact_total_active_stake : Text
fact_total_active_stake = lit "total_active_stake"

-- The three aggregate facts, each from the map as it stands when it is computed.
unfoldable pub aggregate : AttestorResult → AttestorResult
unfolding bool_str any_state_active sum_active_stake
aggregate res =
    let f1 = put fact_any_held (bool_str res.held) res.facts in
    let f2 = put fact_any_active (bool_str (any_state_active f1)) f1 in
    record res { facts = put fact_total_active_stake (sum_active_stake f2) f2 }

abbrev pub empty_result : AttestorResult
empty_result = record { attestations = []; held = false; facts = [] }

unfoldable pub evaluate : List (Option Attestation) → Option AttestorResult
unfolding collect aggregate
evaluate outcomes = elim (collect empty_result outcomes) [
  | none ↦ none
  | some res ↦ some (aggregate res)
]

-- `DistinctNetworks`: the networks of the pool_stake configurations, in first-seen order. A
-- configuration is its kind and the network of its parameters, if they are readable.
unfoldable pub distinct_from : List Text → List (Text × Option Text) → List Text
distinct_from out [] = out
distinct_from out ((kind, none) ∷ cfgs) = distinct_from out cfgs
distinct_from out ((kind, some network) ∷ cfgs) =
    let net : Text = if is_empty network then lit "mainnet" else network in
    distinct_from
      (if not (text_eq kind kind_pool_stake) || any (text_eq net) out
        then out
        else out ++ (net ∷ []))
      cfgs

unfoldable pub distinct_networks : List (Text × Option Text) → List Text
unfolding distinct_from
distinct_networks cfgs = distinct_from [] cfgs
