-- ===== src/Oauth/Gate.antt =====
-- The gate of server/internal/core/oauth/oauth.go: who is eligible.
use ouro_pass.Attestor
use mathlib.Core.Path.{subst}
use ouro_pass.Store.Tokens
use ouro_pass.Base.{
  if◌then◌else◌, any, Text, text_eq, ℕ, ◌+◌, ◌≡◌, refl, sym, ap, ◌∙◌, ◌≢◌, ◌⊎◌, inl, inr, Bool,
  true, false, not, Option, some, List, [], arith,
}
use ouro_pass.Store.Domain.{Db}
use ouro_pass.Store.Exec.{chain_error, Result, ok, Env, World, pure, ◌>>=◌, some_or, bind-ok, query}
use ouro_pass.Store.Inversion.{some_or-ok, pure-ok, ask-ok, query-ok, query-tick}
use ouro_pass.Outside.{Outside, ask}
use ouro_pass.Membership.{State, is_outside}
use ouro_pass.Attestor.{Attestation, AttestorResult, empty_result}
use ouro_pass.Go.Maps.{get, get_text}
use ouro_pass.Oauth.{
  Attested, representative_state, claims_of, ask_attestors, evaluate, first_party_tier,
  attest_result, attest,
}

-- The credential is not blacklisted, and the attestors were asked about it and answered with a
-- result whose representative state is the given one, which is not `outside`.
pub record Eligible (out : Outside) (sch : Text) (state : State) (db : Db) : Type 0 where
  pub not_blacklisted : any (λ x. text_eq x sch) db.blacklist ≡ false
  pub answered :
      (n : ℕ) × (outcomes : List (Option Attestation)) × (res : AttestorResult) × (out.attestors n
          sch
        ≡ some outcomes)
      × (Attestor.evaluate outcomes ≡ some res)
      × (representative_state res ≡ state)
  pub held : is_outside state ≡ false

-- What an evaluation that succeeds has seen: the credential is blacklisted, or it is not and the
-- attestors, asked in the given interaction, answered with the result.
pub record Answered (out : Outside) (sch : Text) (res : AttestorResult) (asked : ℕ) (before : Db)
    : Type 0 where
  pub seen :
      ((any (λ x. text_eq x sch) before.blacklist ≡ true) × (res ≡ empty_result))
      ⊎ ((any (λ x. text_eq x sch) before.blacklist ≡ false)
          × ((outcomes : List (Option Attestation)) × (out.attestors asked sch ≡ some outcomes)
              × (Attestor.evaluate outcomes ≡ some res)))

empty_result-outside : is_outside (representative_state empty_result) ≡ true
unfolding representative_state is_outside get_text get text_eq
empty_result-outside = refl

pub not-true : (b : Bool) → not b ≡ true → b ≡ false
not-true true h = absurd (cc)
not-true false h = refl

true≢false : true ≢ false
true≢false h = cc

pub Answered-Eligible :
    (out : Outside) (sch : Text) (res : AttestorResult) (asked : ℕ) (db : Db)
    → Answered out sch res asked db
    → is_outside (representative_state res) ≡ false
    → Eligible out sch (representative_state res) db
Answered-Eligible out sch res asked db a h = elim (a.seen) [
  | inl (_, e) ↦ absurd (
      true≢false (
        sym empty_result-outside
        ∙ ap (λ (r : AttestorResult). is_outside (representative_state r)) (sym e)
        ∙ h))
  | inr (open_to, (outcomes, answer, result)) ↦ record {
    not_blacklisted = open_to;
    answered = (asked, outcomes, res, answer, result, refl);
    held = h;
  }
]

module _ (env : Env) (out : Outside) where
  ask_attestors-ok :
      (sch : Text) (res : AttestorResult) (w w' : World Db)
      → ask_attestors env out sch w ≡ (ok res, w')
      → (w'.db ≡ w.db)
        × ((outcomes : List (Option Attestation)) × (out.attestors w.tick sch ≡ some outcomes)
            × (Attestor.evaluate outcomes ≡ some res))
  unfolding ask_attestors
  ask_attestors-ok sch res w w' h =
      let (outcomes, w1, asked, rest) =
        bind-ok (ask (λ n. out.attestors n sch) chain_error)
          (λ outcomes. some_or (Attestor.evaluate outcomes) chain_error) w res w' h in
      let (answer, same) = ask-ok (λ n. out.attestors n sch) chain_error w outcomes w1 asked in
      let (result, same') = some_or-ok (Attestor.evaluate outcomes) chain_error w1 res w' rest in
      (same' ∙ same, (outcomes, answer, result))

  branch-ok :
      (sch : Text) (blocked : Bool) (res : AttestorResult) (w w' : World Db)
      → any (λ x. text_eq x sch) w.db.blacklist ≡ blocked
      → ◌≡◌ {A = Result AttestorResult × World Db}
          ((if blocked then pure empty_result else ask_attestors env out sch) w)
          (ok res, w')
      → (w'.db ≡ w.db) × Answered out sch res w.tick w.db
  branch-ok sch true res w w' e h =
      let (r, same) = pure-ok empty_result w res w' h in (same, record { seen = inl (e, sym r) })
  branch-ok sch false res w w' e h =
      let (same, seen) = ask_attestors-ok sch res w w' h in (same, record { seen = inr (e, seen) })

  pub evaluate-Answered :
      (sch : Text) (res : AttestorResult) (w w' : World Db)
      → evaluate env out sch w ≡ (ok res, w')
      → (w'.db ≡ w.db) × Answered out sch res (w.tick + 1) w.db
  unfolding evaluate Tokens.is_blacklisted
  evaluate-Answered sch res w w' h =
      let (blocked, w1, asked, rest) =
        bind-ok (Tokens.is_blacklisted env sch)
          (λ blocked. if blocked then pure empty_result else ask_attestors env out sch) w res w'
          h in
      let (answer, same) =
        query-ok env (λ db. any (λ x. text_eq x sch) db.blacklist) w blocked w1 asked in
      let later : w1.tick ≡ w.tick + 1 =
        query-tick env (λ db. any (λ x. text_eq x sch) db.blacklist) w blocked w1 asked in
      let (same', seen) =
        branch-ok sch blocked res w1 w'
          (ap (λ (d : Db). any (λ x. text_eq x sch) d.blacklist) same ∙ answer) rest in
      (same' ∙ same, rw (same, later) at seen)

  tier-same :
      (res : AttestorResult) (b : Bool) (tier : Text) (w w' : World Db)
      → ◌≡◌ {A = Result Text × World Db}
          ((if b then pure [] else first_party_tier env out res.facts) w)
          (ok tier, w')
      → w'.db ≡ w.db
  unfolding first_party_tier Tokens.get_tier_rules query ◌>>=◌
  tier-same res true tier w w' h = ground arith
  tier-same res false tier w w' h = ground arith

  attest_result-ok :
      (res : AttestorResult) (a : Attested) (w w' : World Db)
      → attest_result env out res w ≡ (ok a, w')
      → (w'.db ≡ w.db) × (representative_state res ≡ a.state)
  unfolding attest_result
  attest_result-ok res a w w' h =
      let (tier, w1, told, rest) =
        bind-ok
          (λ w.
            (if is_outside (representative_state res)
                then pure []
                else first_party_tier env out res.facts)
              w)
          (λ tier. pure (record {
            state = representative_state res;
            tier = tier;
            credentials = claims_of res.attestations;
            facts = res.facts;
          }))
          w a w' h in
      let (made, same) = pure-ok _ w1 a w' rest in
      (
        same ∙ tier-same res (is_outside (representative_state res)) tier w w1 told,
        ap (λ (x : Attested). x.state) made,
      )

  -- A successful attestation changes no row and is that of a result.
  pub attest-Answered :
      (sch : Text) (a : Attested) (w w' : World Db)
      → attest env out sch w ≡ (ok a, w')
      → (w'.db ≡ w.db)
        × ((res : AttestorResult) × Answered out sch res (w.tick + 1) w.db
            × (representative_state res ≡ a.state))
  unfolding attest
  attest-Answered sch a w w' h =
      let (res, w1, evaluated, rest) =
        bind-ok (evaluate env out sch) (attest_result env out) w a w' h in
      let (same, seen) = evaluate-Answered sch res w w1 evaluated in
      let (same', state) = attest_result-ok res a w1 w' rest in (same' ∙ same, (res, seen, state))

  pub attest-Eligible :
      (sch : Text) (a : Attested) (w w' : World Db)
      → attest env out sch w ≡ (ok a, w')
      → is_outside a.state ≡ false
      → (w'.db ≡ w.db) × Eligible out sch a.state w.db
  attest-Eligible sch a w w' h held =
      let (same, (res, seen, state)) = attest-Answered sch a w w' h in
      (
        same,
        subst (λ s. Eligible out sch s w.db) state
            (Answered-Eligible out sch res (w.tick + 1) w.db seen (ap is_outside state ∙ held)),
      )
