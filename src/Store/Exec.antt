-- ===== src/Store/Exec.antt =====
-- The store's statements as actions on a world: the tables, and the number of interactions so far.
-- A failed statement returns an error and changes no table; a transaction restores the tables when
-- its body or its commit fails (`WithTx` of store.go).
use ouro_pass.Base.{
  if◌then◌else◌, Bool-cases, Text, ℕ, ◌+◌, ◌≡◌, refl, ◌⊎◌, inl, inr, Bool, true, false, not, ◌||◌,
  Option, none, some,
}

-- The sentinel errors of domain/errors.go and of the services, and the failures of what the program
-- calls: the database, the chain source and the cryptographic routines.
pub data Error : Type 0 where
  db_error chain_error crypto_error not_found conflict consumed expired purpose_mismatch : Error
  invalid_grant unsupported_grant invalid_client_creds invalid_client invalid_request : Error
  not_eligible access_denied unauthorized forbidden no_active_key not_rotating : Error
  wrong_binding send_error route_error shutdown : Error

pub data Result {ℓ} (A : Type ℓ) : Type ℓ where
  ok : A → Result A
  err : Error → Result A

pub record Env : Type 0 where
  pub time : ℕ → ℕ
  pub fault : ℕ → Bool
  pub random : ℕ → Text

pub record World {ℓ} (S : Type ℓ) : Type ℓ where
  pub db : S
  pub tick : ℕ

abbrev pub Exec {ℓ} : Type ℓ → Type ℓ → Type ℓ
Exec S A = World S → Result A × World S

abbrev pub next {ℓ} : {S : Type ℓ} → World S → World S
next w = record w { tick = w.tick + 1 }

module _ {S A : Type 0} where
  abbrev pub pure : A → Exec S A
  pure a w = (ok a, w)

  abbrev pub raise : Error → Exec S A
  raise e w = (err e, w)

  abbrev pub lift : Result A → Exec S A
  lift r w = (r, w)

module _ {S A B : Type 0} where
  abbrev pub continue : Result A → (A → Exec S B) → Exec S B
  continue (ok a) f w = f a w
  continue (err e) f w = (err e, w)

  infixl 10 ◌>>=◌
  unfoldable pub ◌>>=◌ : (first : Exec S A) (rest : A → Exec S B) → Exec S B
  ◌>>=◌ first rest w = let (r, after) = first w in continue r rest after

  infixl 10 ◌>>◌
  abbrev pub ◌>>◌ : (first : Exec S A) (second : Exec S B) → Exec S B
  first >> second = first >>= λ _. second

pub ok_injective {ℓ} : {A : Type ℓ} {a b : A} → ok a ≡ ok b → a ≡ b
ok_injective h = cc

-- `if err != nil { return nil, e }`: the cause is replaced.
abbrev pub replace_error {ℓ} : {A : Type ℓ} → Error → Result A → Result A
replace_error e (ok a) = ok a
replace_error e (err _) = err e

module _ {S A : Type 0} where
  unfoldable pub or_error : Error → Exec S A → Exec S A
  or_error e m w = let (r, w') = m w in (replace_error e r, w')

  -- `_ = …`: the error is dropped.
  unfoldable pub ignore : Exec S A → Exec S (Unit {0})
  ignore m w = let (r, w') = m w in (ok tt, w')

  -- The error as a value, for code that goes on after it.
  unfoldable pub attempt : Exec S A → Exec S (Result A)
  attempt m w = let (r, w') = m w in (ok r, w')

module _ {S : Type 0} where
  abbrev pub require : Bool → Error → Exec S (Unit {0})
  require true e = pure tt
  require false e = raise e

module _ {S A : Type 0} where
  abbrev pub some_or : Option A → Error → Exec S A
  some_or none e = raise e
  some_or (some a) e = pure a

  -- Inversion of a successful bind: the first action succeeded, and so did the rest after it.
  pub bind-ok :
      {B : Type 0} (m : Exec S A) (f : A → Exec S B) (w : World S) (b : B) (w'' : World S)
      → (m >>= f) w ≡ (ok b, w'')
      → (a : A) × (w' : World S) × (m w ≡ (ok a, w')) × (f a w' ≡ (ok b, w''))
  unfolding ◌>>=◌
  bind-ok {B} m f w b w'' h = go (m w) refl h
    where
      go :
          (x : Result A × World S)
          → m w ≡ x
          → ◌≡◌ {A = Result B × World S} (continue x.0 f x.1) (ok b, w'')
          → (a : A) × (w' : World S) × (m w ≡ (ok a, w')) × (f a w' ≡ (ok b, w''))
      go (ok a, w') e h = (a, w', e, h)
      go (err c, w') e h = absurd (cc)

module _ (env : Env) {S : Type 0} where
  -- `s.now()`
  unfoldable pub now : Exec S ℕ
  now w = (ok (env.time w.tick), next w)

  -- `crypto.RandomToken`, `crypto.RandomID`
  unfoldable pub fresh : Exec S Text
  fresh w = (ok (env.random w.tick), next w)

module _ (env : Env) {S A : Type 0} where
  unfoldable pub query : (S → A) → Exec S A
  query f w = if env.fault w.tick then (err db_error, next w) else (ok (f w.db), next w)

  unfoldable pub exec : (S → S) → (S → A) → Exec S A
  exec change report w =
      if env.fault w.tick
      then (err db_error, next w)
      else (ok (report w.db), record { db = change w.db; tick = w.tick + 1 })

  abbrev pub commit : S → Result A × World S → Result A × World S
  commit before (err e, w) = (err e, record w { db = before })
  commit before (ok a, w) =
      if env.fault w.tick
      then (err db_error, record { db = before; tick = w.tick + 1 })
      else (ok a, next w)

  unfoldable pub with_tx : Exec S A → Exec S A
  with_tx body w =
      let done = commit w.db (body (next w)) in
      if env.fault w.tick then (err db_error, next w) else done

  -- A transaction ends as its body does, or it fails and leaves the tables as they were.
  pub with_tx-cases :
      (body : Exec S A) (w : World S)
      → ((a : A) × (w1 : World S) × (body (next w) ≡ (ok a, w1))
          × (with_tx body w ≡ (ok a, next w1)))
        ⊎ ((e : Error) × (w1 : World S) × (with_tx body w ≡ (err e, w1)) × (w1.db ≡ w.db))
  unfolding with_tx
  with_tx-cases body w = elim (Bool-cases (env.fault w.tick)) [
    | inl f ↦ inr (db_error, next w, rw f, refl)
    | inr ok_begin ↦ rw ok_begin (ended (body (next w)) refl)
  ]
    where
      ended :
          (x : Result A × World S)
          → body (next w) ≡ x
          → ((a : A) × (w1 : World S) × (body (next w) ≡ (ok a, w1))
              × (commit w.db (body (next w)) ≡ (ok a, next w1)))
            ⊎ ((e : Error) × (w1 : World S) × (commit w.db (body (next w)) ≡ (err e, w1))
                × (w1.db ≡ w.db))
      ended (err e, w1) h = inr (e, record w1 { db = w.db }, rw h, refl)
      ended (ok a, w1) h = elim (Bool-cases (env.fault w1.tick)) [
        | inl f ↦ inr (db_error, record { db = w.db; tick = w1.tick + 1 }, rw h (rw f), refl)
        | inr fine ↦ inl (a, w1, h, rw h (rw fine))
      ]

module _ (env : Env) {S : Type 0} where
  -- A statement that a constraint may refuse; the refusal is a database error too.
  unfoldable pub insert : (S → Bool) → (S → S) → Exec S (Unit {0})
  insert allowed change w =
      if env.fault w.tick || not (allowed w.db)
      then (err db_error, next w)
      else (ok tt, record { db = change w.db; tick = w.tick + 1 })

module _ (env : Env) {S A : Type 0} where
  -- The read of one row that must be there.
  abbrev pub found_or : Error → (S → Option A) → Exec S A
  found_or e read = query env read >>= λ found. some_or found e
