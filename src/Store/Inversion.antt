-- ===== src/Store/Inversion.antt =====
-- What a successful statement says of its answer and of the tables after it.
use ouro_pass.Base.{
  Text, ℕ, ◌+◌, ◌≡◌, refl, sym, ap, ◌∙◌, inl, inr, Bool, true, false, Option, none, some, arith,
}
use ouro_pass.Store.Exec.{
  Error, Result, ok, err, Env, World, Exec, next, replace_error, or_error, require, some_or, now,
  fresh, query, exec, with_tx, with_tx-cases, insert,
}
use ouro_pass.Outside.{ask}

module _ {S A : Type 0} where
  pub some_or-ok :
      (o : Option A) (e : Error) (w : World S) (a : A) (w' : World S)
      → some_or {S = S} o e w ≡ (ok a, w')
      → (o ≡ some a) × (w'.db ≡ w.db)
  some_or-ok none e w a w' h = absurd (cc)
  some_or-ok (some b) e w a w' h = ground arith

  pub pure-ok :
      (b : A) (w : World S) (a : A) (w' : World S)
      → ◌≡◌ {A = Result A × World S} (ok b, w) (ok a, w')
      → (b ≡ a) × (w'.db ≡ w.db)
  pure-ok b w a w' h = ground arith

  pub or_error-ok :
      (e : Error) (m : Exec S A) (w : World S) (a : A) (w' : World S)
      → or_error e m w ≡ (ok a, w')
      → m w ≡ (ok a, w')
  unfolding or_error
  or_error-ok e m w a w' h = cases (m w) refl h
    where
      cases :
          (x : Result A × World S)
          → m w ≡ x
          → ◌≡◌ {A = Result A × World S} (replace_error e x.0, x.1) (ok a, w')
          → m w ≡ (ok a, w')
      cases (ok b, w1) k h = k ∙ h
      cases (err c, w1) k h = absurd (cc)

  pub ask-ok :
      (f : ℕ → Option A) (e : Error) (w : World S) (a : A) (w' : World S)
      → ask f e w ≡ (ok a, w')
      → (f w.tick ≡ some a) × (w'.db ≡ w.db)
  unfolding ask
  ask-ok f e w a w' h = ground arith

module _ (env : Env) {S A : Type 0} where
  pub query-ok :
      (f : S → A) (w : World S) (a : A) (w' : World S)
      → query env f w ≡ (ok a, w')
      → (f w.db ≡ a) × (w'.db ≡ w.db)
  unfolding query
  query-ok f w a w' h = ground arith

  pub query-tick :
      (f : S → A) (w : World S) (a : A) (w' : World S)
      → query env f w ≡ (ok a, w')
      → w'.tick ≡ w.tick + 1
  unfolding query
  query-tick f w a w' h = ground arith

  pub exec-ok :
      (change : S → S) (report : S → A) (w : World S) (a : A) (w' : World S)
      → exec env change report w ≡ (ok a, w')
      → (report w.db ≡ a) × (w'.db ≡ change w.db)
  unfolding exec
  exec-ok change report w a w' h = ground arith

  pub with_tx-ok :
      (body : Exec S A) (w : World S) (a : A) (w' : World S)
      → with_tx env body w ≡ (ok a, w')
      → (w1 : World S) × (body (next w) ≡ (ok a, w1)) × (w'.db ≡ w1.db)
  with_tx-ok body w a w' h = elim (with_tx-cases env body w) [
    | inl (b, w1, e, k) ↦
        let both : (ok b, next w1) ≡ (ok a, w') = sym k ∙ h in
        (w1, e ∙ (λ i. ((both i).0, w1)), ap (λ (x : Result A × World S). x.1.db) (sym both))
    | inr (e, w1, k, same) ↦ absurd (cc)
  ]

module _ {S : Type 0} where
  pub require-ok :
      (b : Bool) (e : Error) (w w' : World S)
      → require {S = S} b e w ≡ (ok tt, w')
      → (b ≡ true) × (w'.db ≡ w.db)
  require-ok true e w w' h = ground arith
  require-ok false e w w' h = absurd (cc)

module _ (env : Env) {S : Type 0} where
  pub now-ok :
      (w : World S) (t : ℕ) (w' : World S)
      → now env w ≡ (ok t, w')
      → (env.time w.tick ≡ t) × (w'.db ≡ w.db)
  unfolding now
  now-ok w t w' h = ground arith

  pub fresh-ok :
      (w : World S) (r : Text) (w' : World S)
      → fresh env w ≡ (ok r, w')
      → (env.random w.tick ≡ r) × (w'.db ≡ w.db)
  unfolding fresh
  fresh-ok w r w' h = ground arith

  pub insert-ok :
      (allowed : S → Bool) (change : S → S) (w : World S) (w' : World S)
      → insert env allowed change w ≡ (ok tt, w')
      → (allowed w.db ≡ true) × (w'.db ≡ change w.db)
  unfolding insert
  insert-ok allowed change w w' h = ground arith

  pub insert-err :
      (allowed : S → Bool) (change : S → S) (w : World S) (e : Error) (w' : World S)
      → insert env allowed change w ≡ (err e, w')
      → w'.db ≡ w.db
  unfolding insert
  insert-err allowed change w e w' h = ground arith

  pub exec-err :
      {A : Type 0} (change : S → S) (report : S → A) (w : World S) (e : Error) (w' : World S)
      → exec env change report w ≡ (err e, w')
      → w'.db ≡ w.db
  unfolding exec
  exec-err change report w e w' h = ground arith
