-- ===== src/Store/Keeps.antt =====
-- Invariants of actions: one rule for each way to build an action. An invariant is kept whether the
-- action succeeds, fails by itself or fails by the database.
use ouro_pass.Base.{
  if◌then◌else◌, Bool-cases, Option-cases, ℕ, ◌≡◌, inl, inr, Bool, true, false, Option, none, some,
}
use ouro_pass.Store.Exec.{
  Error, Result, ok, err, Env, World, Exec, next, pure, raise, continue, ◌>>=◌, or_error, ignore,
  attempt, require, some_or, now, fresh, query, exec, with_tx, with_tx-cases, insert,
}
use ouro_pass.Outside.{ask}

pub record Keeps {S A : Type 0} (P : S → Type 0) (m : Exec S A) : Type 0 where
  pub at : (w : World S) → P w.db → P (m w).1.db

module _ {S A : Type 0} {P : S → Type 0} where
  pub Keeps-pure : (a : A) → Keeps P (pure {S = S} a)
  Keeps-pure a = record { at = λ w h. h }

  pub Keeps-raise : (e : Error) → Keeps P (raise {S = S} {A = A} e)
  Keeps-raise e = record { at = λ w h. h }

  pub Keeps-some_or : (o : Option A) (e : Error) → Keeps P (some_or {S = S} o e)
  Keeps-some_or none e = Keeps-raise e
  Keeps-some_or (some a) e = Keeps-pure a

  pub Keeps-or_error : (e : Error) (m : Exec S A) → Keeps P m → Keeps P (or_error e m)
  unfolding or_error
  Keeps-or_error e m k = record { at = λ w h. k.at w h }

  pub Keeps-ignore : (m : Exec S A) → Keeps P m → Keeps P (ignore m)
  unfolding ignore
  Keeps-ignore m k = record { at = λ w h. k.at w h }

  pub Keeps-attempt : (m : Exec S A) → Keeps P m → Keeps P (attempt m)
  unfolding attempt
  Keeps-attempt m k = record { at = λ w h. k.at w h }

  pub Keeps-if : (b : Bool) (m n : Exec S A) → Keeps P m → Keeps P n → Keeps P (if b then m else n)
  Keeps-if true m n km kn = km
  Keeps-if false m n km kn = kn

  pub Keeps-query : (env : Env) (f : S → A) → Keeps P (query env f)
  unfolding query
  Keeps-query env f = record {
    at = λ w h. elim (Bool-cases (env.fault w.tick)) [ inl a ↦ rw a h | inr a ↦ rw a h ];
  }

  pub Keeps-exec :
      (env : Env) (change : S → S) (report : S → A)
      → ((s : S) → P s → P (change s))
      → Keeps P (exec env change report)
  unfolding exec
  Keeps-exec env change report k = record {
    at = λ w h. elim (Bool-cases (env.fault w.tick)) [ inl a ↦ rw a h | inr a ↦ rw a (k w.db h) ];
  }

  pub Keeps-ask : (f : ℕ → Option A) (e : Error) → Keeps P (ask {S = S} f e)
  unfolding ask
  Keeps-ask f e = record {
    at = λ w h. elim (Option-cases (f w.tick)) [
      | inl n ↦ rw (ask, n) h
      | inr (a, n) ↦ rw (ask, n) h
    ];
  }

  pub Keeps-with_tx : (env : Env) (m : Exec S A) → Keeps P m → Keeps P (with_tx env m)
  Keeps-with_tx env m k = record {
    at = λ w h. elim (with_tx-cases env m w) [
      | inl (a, w1, e, r) ↦ rw r (let q = k.at (next w) h in rw e at q)
      | inr (e, w1, r, same) ↦ rw r (rw same h)
    ];
  }

module _ {S : Type 0} {P : S → Type 0} where
  pub Keeps-require : (b : Bool) (e : Error) → Keeps P (require {S = S} b e)
  Keeps-require true e = Keeps-pure tt
  Keeps-require false e = Keeps-raise e

  pub Keeps-now : (env : Env) → Keeps P (now env {S = S})
  unfolding now
  Keeps-now env = record { at = λ w h. h }

  pub Keeps-fresh : (env : Env) → Keeps P (fresh env {S = S})
  unfolding fresh
  Keeps-fresh env = record { at = λ w h. h }

  pub Keeps-insert :
      (env : Env) (allowed : S → Bool) (change : S → S)
      → ((s : S) → allowed s ≡ true → P s → P (change s))
      → Keeps P (insert env allowed change)
  unfolding insert
  Keeps-insert env allowed change k = record {
    at = λ w h. elim (Bool-cases (env.fault w.tick)) [
      | inl a ↦ rw a h
      | inr a ↦ elim (Bool-cases (allowed w.db)) [
        | inl b ↦ rw (a, b) (k w.db b h)
        | inr b ↦ rw (a, b) h
      ]
    ];
  }

module _ {S A B : Type 0} {P : S → Type 0} where
  Keeps-continue :
      (r : Result A) (f : A → Exec S B) (w : World S)
      → ((a : A) → Keeps P (f a))
      → P w.db
      → P (continue r f w).1.db
  Keeps-continue (ok a) f w k h = (k a).at w h
  Keeps-continue (err e) f w k h = h

  -- The rule for one statement after another.
  pub Keeps-bind :
      (first : Exec S A) (rest : A → Exec S B)
      → Keeps P first
      → ((answer : A) → Keeps P (rest answer))
      → Keeps P (first >>= rest)
  unfolding ◌>>=◌
  Keeps-bind first rest kept kept_after = record {
    at = λ w h. Keeps-continue (first w).0 rest (first w).1 kept_after (kept.at w h);
  }

pub ruleset keeps_rules = (
  Keeps-pure, Keeps-raise, Keeps-some_or, Keeps-or_error, Keeps-ignore, Keeps-attempt, Keeps-if,
  Keeps-query, Keeps-with_tx, Keeps-require, Keeps-now, Keeps-fresh, Keeps-bind, Keeps-ask,
)
