-- ===== src/Http/Holds.antt =====
-- Invariants of handlers, one rule for each way to build one: the tables keep `P` whether the handler
-- goes on or stops.
use ouro_pass.Base.{if◌then◌else◌, ◌≡◌, refl, ◌⊎◌, inl, inr, Bool, true, false, Option, none, some}
use ouro_pass.Store.Domain.{Db}
use ouro_pass.Store.Exec.{Error, Env, World, Exec}
use ouro_pass.Store.Keeps.{Keeps}
use ouro_pass.Http.Flow.{
  Failure, Flow, go, stop, Http, go_on, ◌>>=◌, answer, fail, or_reply, tried, some_or_reply, check,
  clock, random_id,
}

pub record Holds {A : Type 0} (P : Db → Type 0) (m : Http A) : Type 0 where
  pub held : (w : World Db) → P w.db → P (m w).1.db

module _ {A : Type 0} {P : Db → Type 0} where
  pub Holds-answer : (a : A) → Holds P (answer a)
  Holds-answer a = record { held = λ w h. h }

  pub Holds-fail : (e : Failure) → Holds P (fail {A = A} e)
  Holds-fail e = record { held = λ w h. h }

  pub Holds-some_or_reply : (o : Option A) (e : Failure) → Holds P (some_or_reply o e)
  Holds-some_or_reply none e = Holds-fail e
  Holds-some_or_reply (some a) e = Holds-answer a

  pub Holds-or_reply : (f : Error → Failure) (m : Exec Db A) → Keeps P m → Holds P (or_reply f m)
  unfolding or_reply
  Holds-or_reply f m k = record { held = λ w h. k.at w h }

  pub Holds-tried : (m : Exec Db A) → Keeps P m → Holds P (tried m)
  unfolding tried
  Holds-tried m k = record { held = λ w h. k.at w h }

  pub Holds-if : (b : Bool) (m n : Http A) → Holds P m → Holds P n → Holds P (if b then m else n)
  Holds-if true m n km kn = km
  Holds-if false m n km kn = kn

module _ {P : Db → Type 0} where
  pub Holds-check : (b : Bool) (e : Failure) → Holds P (check b e)
  Holds-check true e = Holds-answer tt
  Holds-check false e = Holds-fail e

  pub Holds-clock : (env : Env) → Holds P (clock env)
  unfolding clock
  Holds-clock env = record { held = λ w h. h }

  pub Holds-random_id : (env : Env) → Holds P (random_id env)
  unfolding random_id
  Holds-random_id env = record { held = λ w h. h }

module _ {A B : Type 0} {P : Db → Type 0} where
  Holds-go_on :
      (r : Flow A) (f : A → Http B) (w : World Db)
      → ((a : A) → Holds P (f a))
      → P w.db
      → P (go_on r f w).1.db
  Holds-go_on (go a) f w k h = (k a).held w h
  Holds-go_on (stop e) f w k h = h

  pub Holds-bind :
      (first : Http A) (rest : A → Http B)
      → Holds P first
      → ((a : A) → Holds P (rest a))
      → Holds P (first >>= rest)
  unfolding ◌>>=◌
  Holds-bind first rest k after = record {
    held = λ w h. Holds-go_on (first w).0 rest (first w).1 after (k.held w h);
  }

  -- The value that is there, with its equation.
  pub Holds-some :
      (o : Option A) (e : Failure) (f : A → Http B)
      → ((a : A) → o ≡ some a → Holds P (f a))
      → Holds P (some_or_reply o e >>= f)
  unfolding ◌>>=◌
  Holds-some none e f k = record { held = λ w h. h }
  Holds-some (some a) e f k = record { held = λ w h. (k a refl).held w h }

pub ruleset holds_rules = (
  Holds-answer, Holds-fail, Holds-some_or_reply, Holds-or_reply, Holds-tried, Holds-if, Holds-check,
  Holds-clock, Holds-random_id, Holds-bind,
)

module _ {A B : Type 0} where
  -- A step that stops the handler, or one after which the handler goes on.
  pub bind-cases :
      (m : Http A) (f : A → Http B) (w : World Db)
      → ((e : Failure) × (w1 : World Db) × (m w ≡ (stop e, w1)) × ((m >>= f) w ≡ (stop e, w1)))
        ⊎ ((a : A) × (w1 : World Db) × (m w ≡ (go a, w1)) × ((m >>= f) w ≡ f a w1))
  unfolding ◌>>=◌
  bind-cases m f w = split (m w) refl
    where
      split :
          (x : Flow A × World Db)
          → m w ≡ x
          → ((e : Failure) × (w1 : World Db) × (m w ≡ (stop e, w1))
              × (go_on (m w).0 f (m w).1 ≡ (stop e, w1)))
            ⊎ ((a : A) × (w1 : World Db) × (m w ≡ (go a, w1)) × (go_on (m w).0 f (m w).1 ≡ f a w1))
      split (stop e, w1) h = inl (e, w1, h, rw h refl)
      split (go a, w1) h = inr (a, w1, h, rw h refl)
