-- ===== src/Http/Flow.antt =====
-- What every handler of server/internal/httpapi is made of: early returns with an error envelope
-- (respond/respond.go), calls of services whose errors become such returns, and the final answer.
use ouro_pass.Base.{
  Text, lit, ℕ, ◌≡◌, refl, ◌∙◌, Bool, true, false, Option, none, some, List, arith,
}
use ouro_pass.Store.Domain.{OAuthClient, SubscriptionSession, PushJob, AuditLog, Db}
use ouro_pass.Store.Exec.{Error, Result, ok, err, Env, World, Exec, next}

-- A field of a JSON body. Rows are shown whole where the code encodes the row.
pub data Value : Type 0 where
  text : Text → Value
  number : ℕ → Value
  flag : Bool → Value
  fields : List (Text × Text) → Value
  objects : List (List (Text × Text)) → Value
  client_rows : List OAuthClient → Value
  job_rows : List PushJob → Value
  audit_rows : List AuditLog → Value
  session_rows : List SubscriptionSession → Value

-- `respond.Error`
pub record Failure : Type 0 where
  pub status : ℕ
  pub error : Text
  pub description : Text

abbrev pub Answer : Type 0
Answer = List (Text × Value)

-- How far a handler got: on to the next step, or out with an error.
pub data Flow (A : Type 0) : Type 0 where
  go : A → Flow A
  stop : Failure → Flow A

abbrev pub Http : Type 0 → Type 0
Http A = World Db → Flow A × World Db

module _ {A B : Type 0} where
  abbrev pub go_on : Flow A → (A → Http B) → Http B
  go_on (go a) f w = f a w
  go_on (stop e) f w = (stop e, w)

  infixl 10 ◌>>=◌
  unfoldable pub ◌>>=◌ : (first : Http A) (rest : A → Http B) → Http B
  ◌>>=◌ first rest w = let (r, after) = first w in go_on r rest after

  infixl 10 ◌>>◌
  abbrev pub ◌>>◌ : (first : Http A) (second : Http B) → Http B
  first >> second = first >>= λ _. second

abbrev pub error_reply : ℕ → Text → Text → Failure
error_reply s e d = record { status = s; error = e; description = d }

abbrev pub bad_request : Text → Failure
bad_request d = error_reply 400 (lit "invalid_request") d

-- `serverError` and `notImplemented` of router.go
unfoldable pub server_error : Error → Failure
server_error e = error_reply 500 (lit "server_error") (lit "internal error")

unfoldable pub not_implemented : Failure
not_implemented = error_reply 501 (lit "not_implemented") (lit "endpoint not yet implemented")

module _ {A : Type 0} where
  abbrev pub answer : A → Http A
  answer a w = (go a, w)

  abbrev pub fail : Failure → Http A
  fail e w = (stop e, w)

  abbrev pub flow_of : (Error → Failure) → Result A → Flow A
  flow_of f (ok a) = go a
  flow_of f (err e) = stop (f e)

  -- `if err != nil { …; return }`
  unfoldable pub or_reply : (Error → Failure) → Exec Db A → Http A
  or_reply f m w = let (r, w') = m w in (flow_of f r, w')

  -- The result as a value, for code that looks at the error itself.
  unfoldable pub tried : Exec Db A → Http (Result A)
  tried m w = let (r, w') = m w in (go r, w')

  abbrev pub some_or_reply : Option A → Failure → Http A
  some_or_reply none e = fail e
  some_or_reply (some a) e = answer a

abbrev pub check : Bool → Failure → Http (Unit {0})
check true e = answer tt
check false e = fail e

module _ (env : Env) where
  -- `time.Now()` and `crypto.RandomID()` in a handler.
  unfoldable pub clock : Http ℕ
  clock w = (go (env.time w.tick), next w)

  unfoldable pub random_id : Http Text
  random_id w = (go (env.random w.tick), next w)

module _ {A B : Type 0} where
  -- Inversion of a handler that got through its first step.
  pub bind-go :
      (m : Http A) (f : A → Http B) (w : World Db) (b : B) (w'' : World Db)
      → (m >>= f) w ≡ (go b, w'')
      → (a : A) × (w' : World Db) × (m w ≡ (go a, w')) × (f a w' ≡ (go b, w''))
  unfolding ◌>>=◌
  bind-go m f w b w'' h = through (m w) refl h
    where
      through :
          (x : Flow A × World Db)
          → m w ≡ x
          → ◌≡◌ {A = Flow B × World Db} (go_on x.0 f x.1) (go b, w'')
          → (a : A) × (w' : World Db) × (m w ≡ (go a, w')) × (f a w' ≡ (go b, w''))
      through (go a, w') e h = (a, w', e, h)
      through (stop c, w') e h = absurd (cc)

module _ {A : Type 0} where
  pub or_reply-go :
      (f : Error → Failure) (m : Exec Db A) (w : World Db) (a : A) (w' : World Db)
      → or_reply f m w ≡ (go a, w')
      → m w ≡ (ok a, w')
  unfolding or_reply
  or_reply-go f m w a w' h = cases (m w) refl h
    where
      cases :
          (x : Result A × World Db)
          → m w ≡ x
          → ◌≡◌ {A = Flow A × World Db} (flow_of f x.0, x.1) (go a, w')
          → m w ≡ (ok a, w')
      cases (ok b, w1) k h = k ∙ ground arith
      cases (err c, w1) k h = absurd (cc)

  pub answer-go :
      (a b : A) (w w' : World Db)
      → ◌≡◌ {A = Flow A × World Db} (go a, w) (go b, w')
      → (a ≡ b) × (w ≡ w')
  answer-go a b w w' h = ground arith

module _ {A : Type 0} where
  pub some_or_reply-go :
      (o : Option A) (e : Failure) (w : World Db) (a : A) (w' : World Db)
      → some_or_reply o e w ≡ (go a, w')
      → (o ≡ some a) × (w ≡ w')
  some_or_reply-go none e w a w' h = absurd (cc)
  some_or_reply-go (some b) e w a w' h = ground arith

pub check-go :
    (b : Bool) (e : Failure) (w w' : World Db) → check b e w ≡ (go tt, w') → (b ≡ true) × (w ≡ w')
check-go true e w w' h = ground arith
check-go false e w w' h = absurd (cc)
