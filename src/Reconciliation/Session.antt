-- ===== src/Reconciliation/Session.antt =====
-- What a pass of server/internal/worker/reconciliation does to one session.
use mathlib.Core.Path.{subst}
use ouro_pass.Base.{
  ltb, ltb→lt, Bool-cases, Text, text_eq, ℕ, ◌+◌, ◌≤◌, ◌<◌, ◌≡◌, refl, sym, ap, ◌∙◌, inl, inr, true,
  false, Option, none, some, arith,
}
use ouro_pass.Store.Table.{update}
use ouro_pass.Store.Domain.{sub_expired, SubscriptionSession, Db}
use ouro_pass.Store.Exec.{
  Error, Result, ok, err, Env, World, Exec, next, ◌>>=◌, attempt, now, exec, insert,
}
use ouro_pass.Outside.{Outside}
use ouro_pass.Membership.{State, is_outside}
use ouro_pass.Attestor.{AttestorResult}
use ouro_pass.Oauth.{Attested, representative_state, attest}
use ouro_pass.Oauth.Gate.{Eligible, Answered, Answered-Eligible, attest-Answered}
use ouro_pass.Oauth.Frame.{Keeps-attest}
use ouro_pass.Reconciliation.{
  Outcome, untouched, in_grace, over, failed, outcome_or, touched, warned, attempted, lost, decide,
  after_check, reconcile_session,
}
use ouro_pass.Store.Sessions

-- The credential is blacklisted, or the attestors, asked in the given interaction, answered with a
-- result that holds it nowhere.
pub record Lost (out : Outside) (sch : Text) (asked : ℕ) (db : Db) : Type 0 where
  pub heard :
      (res : AttestorResult) × Answered out sch res asked db
      × (is_outside (representative_state res) ≡ true)

-- The credential is not blacklisted, and the attestors answered with a result that holds it.
pub record Held (out : Outside) (sch : Text) (asked : ℕ) (db : Db) : Type 0 where
  pub heard :
      (res : AttestorResult) × Answered out sch res asked db
      × (is_outside (representative_state res) ≡ false)
  pub eligible : (state : State) × Eligible out sch state db

module _ (env : Env) (out : Outside) where
  -- Each outcome with its reasons and the world after it; `n` is the interaction in which the clock
  -- is read, and a write is the one after it.
  pub data Reconciled (x : SubscriptionSession) (asked : ℕ) (before : Db)
      : Outcome → World Db → Type 0 where
    stays_member :
        (n : ℕ) (tier : Text)
        → Held out x.stake_credential_hash asked before
        → Reconciled x asked before untouched (record {
          db = record before {
            sessions = Sessions.upsert_rows (touched (env.time n) tier x) before.sessions;
          };
          tick = n + 1 + 1;
        })
    waits :
        (n deadline : ℕ)
        → Lost out x.stake_credential_hash asked before
        → x.grace_until ≡ some deadline
        → env.time n < deadline
        → Reconciled x asked before untouched (record { db = before; tick = n + 1 })
    enters_grace :
        (n : ℕ)
        → Lost out x.stake_credential_hash asked before
        → x.grace_until ≡ none
        → Reconciled x asked before in_grace (record {
          db = record before {
            sessions = Sessions.upsert_rows (warned (env.time n) x) before.sessions;
          };
          tick = n + 1 + 1;
        })
    expires :
        (n deadline : ℕ)
        → Lost out x.stake_credential_hash asked before
        → x.grace_until ≡ some deadline
        → deadline ≤ env.time n
        → Reconciled x asked before over (record {
          db = record before {
            sessions =
                update
                  (λ y. text_eq y.session_id x.session_id)
                  (λ y. record y { status = sub_expired })
                  before.sessions;
          };
          tick = n + 1 + 1;
        })
    fails : (k : ℕ) → Reconciled x asked before failed (record { db = before; tick = k })

  upsert-ok :
      (y : SubscriptionSession) (w w' : World Db)
      → Sessions.upsert env y w ≡ (ok tt, w')
      → w' ≡ record {
        db = record w.db { sessions = Sessions.upsert_rows y w.db.sessions };
        tick = w.tick + 1;
      }
  unfolding Sessions.upsert insert
  upsert-ok y w w' h = ground arith

  upsert-err :
      (y : SubscriptionSession) (w : World Db) (e : Error) (w' : World Db)
      → Sessions.upsert env y w ≡ (err e, w')
      → w'.db ≡ w.db
  unfolding Sessions.upsert insert
  upsert-err y w e w' h = ground arith

  status-ok :
      (id : Text) (w w' : World Db)
      → Sessions.set_status env id sub_expired w ≡ (ok tt, w')
      → w' ≡ record {
        db = record w.db {
          sessions =
              update
                (λ y. text_eq y.session_id id)
                (λ y. record y { status = sub_expired })
                w.db.sessions;
        };
        tick = w.tick + 1;
      }
  unfolding Sessions.set_status exec
  status-ok id w w' h = ground arith

  status-err :
      (id : Text) (w : World Db) (e : Error) (w' : World Db)
      → Sessions.set_status env id sub_expired w ≡ (err e, w')
      → w'.db ≡ w.db
  unfolding Sessions.set_status exec
  status-err id w e w' h = ground arith

  abbrev Ends : SubscriptionSession → ℕ → Db → Result Outcome × World Db → Type 0
  Ends x asked before (r, w') = (o : Outcome) × (r ≡ ok o) × Reconciled x asked before o w'

  failed-Ends :
      (x : SubscriptionSession) (asked : ℕ) (before : Db) (w : World Db)
      → w.db ≡ before
      → Reconciled x asked before failed w
  failed-Ends x asked before w same =
      subst (λ (d : Db). Reconciled x asked before failed (record { db = d; tick = w.tick }))
        (sym same) (fails w.tick)

  attempted-Ends :
      (x : SubscriptionSession) (asked : ℕ) (o : Outcome) (m : Exec Db (Unit {0})) (w : World Db)
      → ((w' : World Db) → m w ≡ (ok tt, w') → Reconciled x asked w.db o w')
      → ((e : Error) (w' : World Db) → m w ≡ (err e, w') → w'.db ≡ w.db)
      → Ends x asked w.db (attempted o m w)
  unfolding attempted attempt ◌>>=◌
  attempted-Ends x asked o m w good bad = go (m w) refl
    where
      go :
          (s : Result (Unit {0}) × World Db)
          → m w ≡ s
          → Ends x asked w.db (ok (outcome_or o s.0), s.1)
      go (ok tt, w') e = (o, refl, good w' e)
      go (err c, w') e = (failed, refl, failed-Ends x asked w.db w' (bad c w' e))

  lost-Ends :
      (x : SubscriptionSession) (asked : ℕ) (g : Option ℕ) (w : World Db)
      → Lost out x.stake_credential_hash asked w.db
      → x.grace_until ≡ g
      → Ends x asked w.db (lost env out (env.time w.tick) x g (next w))
  lost-Ends x asked none w l e =
      attempted-Ends x asked in_grace (Sessions.upsert env (warned (env.time w.tick) x)) (next w)
        (λ w' h.
          subst (Reconciled x asked w.db in_grace)
            (sym (upsert-ok (warned (env.time w.tick) x) (next w) w' h)) (enters_grace w.tick l e))
        (λ c w' h. upsert-err (warned (env.time w.tick) x) (next w) c w' h)
  lost-Ends x asked (some deadline) w l e = elim (Bool-cases (ltb (env.time w.tick) deadline)) [
    | inl before ↦
        rw before
          (untouched, refl, waits w.tick deadline l e (ltb→lt (env.time w.tick) deadline before))
    | inr after ↦ rw after (
        attempted-Ends x asked over (Sessions.set_status env x.session_id sub_expired) (next w)
          (λ w' h.
            subst (Reconciled x asked w.db over) (sym (status-ok x.session_id (next w) w' h))
              (expires w.tick deadline l e (ground arith)))
          (λ c w' h. status-err x.session_id (next w) c w' h))
  ]

  decide-Ends :
      (x : SubscriptionSession) (asked : ℕ) (a : Attested) (res : AttestorResult) (w : World Db)
      → Answered out x.stake_credential_hash res asked w.db
      → representative_state res ≡ a.state
      → Ends x asked w.db (decide env out x a w)
  unfolding decide now ◌>>=◌
  decide-Ends x asked a res w seen state = elim (Bool-cases (is_outside a.state)) [
    | inl gone ↦ rw gone (
        lost-Ends x asked x.grace_until w
          (record { heard = (res, seen, ap is_outside state ∙ gone) }) refl)
    | inr held ↦
        let inside = ap is_outside state ∙ held in
        let member : Held out x.stake_credential_hash asked w.db = record {
          heard = (res, seen, inside);
          eligible = (
            representative_state res,
            Answered-Eligible out x.stake_credential_hash res asked w.db seen inside,
          );
        } in
        rw held (
          attempted-Ends x asked untouched
            (Sessions.upsert env (touched (env.time w.tick) a.tier x)) (next w)
            (λ w' h.
              subst (Reconciled x asked w.db untouched)
                (sym (upsert-ok (touched (env.time w.tick) a.tier x) (next w) w' h))
                (stays_member w.tick a.tier member))
            (λ c w' h. upsert-err (touched (env.time w.tick) a.tier x) (next w) c w' h))
  ]

  attest-same-err :
      (sch : Text) (w : World Db) (e : Error) (w' : World Db)
      → attest env out sch w ≡ (err e, w')
      → w'.db ≡ w.db
  attest-same-err sch w e w' h =
      ap (λ (x : Result Attested × World Db). x.1.db) (sym h)
      ∙ (Keeps-attest env out {P = λ d. d ≡ w.db} sch).at w refl

  pub reconcile_session-Reconciled :
      (x : SubscriptionSession) (w : World Db)
      → (o : Outcome) × ((reconcile_session env out x w).0 ≡ ok o)
        × Reconciled x (w.tick + 1) w.db o (reconcile_session env out x w).1
  unfolding reconcile_session attempt ◌>>=◌
  reconcile_session-Reconciled x w = go (attest env out x.stake_credential_hash w) refl
    where
      go :
          (s : Result Attested × World Db)
          → attest env out x.stake_credential_hash w ≡ s
          → Ends x (w.tick + 1) w.db (after_check env out x s.0 s.1)
      go (ok a, w1) e =
          let (same, (res, seen, state)) =
            attest-Answered env out x.stake_credential_hash a w w1 e in
          subst (λ d. Ends x (w.tick + 1) d (decide env out x a w1)) same
            (decide-Ends x (w.tick + 1) a res w1
              (subst (Answered out x.stake_credential_hash res (w.tick + 1)) (sym same) seen) state)
      go (err c, w1) e = (
        failed,
        refl,
        failed-Ends x (w.tick + 1) w.db w1 (attest-same-err x.stake_credential_hash w c w1 e),
      )
