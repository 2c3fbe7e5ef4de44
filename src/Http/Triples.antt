-- ===== src/Http/Triples.antt =====
-- What holds after a handler that gets through, one rule for each way to build one: if the tables
-- satisfy `P` before, they and the value satisfy `Q` after.
use ouro_pass.Base.{Text, ℕ, ◌≡◌, refl, sym, ap, ◌∙◌, Bool, true, Option, some, List, arith}
use ouro_pass.Store.Domain.{AuthNonce, AdminUser, AuditLog, Db}
use ouro_pass.Store.Exec.{
  Error, Result, ok, Env, World, some_or, bind-ok, query, exec, insert, found_or,
}
use ouro_pass.Store.Inversion.{some_or-ok, query-ok, exec-ok, insert-ok}
use ouro_pass.Store.Keeps.{Keeps, Keeps-exec, Keeps-insert, keeps_rules}
use ouro_pass.Outside.{Outside}
use ouro_pass.Http.Flow.{
  Failure, Flow, go, Http, ◌>>=◌, answer, or_reply, tried, some_or_reply, check, clock, random_id,
  bind-go, or_reply-go, answer-go, some_or_reply-go, check-go,
}
use ouro_pass.Http.AdminLogin.{Deps, Head, StepUp, require_step_up, audit}
use ouro_pass.Http.Holds.{Holds, Holds-clock, Holds-random_id, holds_rules}
use ouro_pass.Store.Audit
use ouro_pass.Store.Nonces
use ouro_pass.Admin
use ouro_pass.WalletAuth
use mathlib.Core.Path.{subst}

pub record Triple {A : Type 0} (P : Db → Type 0) (m : Http A) (Q : A → Db → Type 0) : Type 0 where
  pub post : (w : World Db) → P w.db → (a : A) (w' : World Db) → m w ≡ (go a, w') → Q a w'.db

module _ {A B : Type 0} {P : Db → Type 0} {R : A → Db → Type 0} {Q : B → Db → Type 0} where
  pub Triple-bind :
      (m : Http A) (f : A → Http B)
      → Triple P m R
      → ((a : A) → Triple (R a) (f a) Q)
      → Triple P (m >>= f) Q
  Triple-bind m f first rest = record {
    post = λ w p b w' h.
        let (a, w1, e, k) = bind-go m f w b w' h in (rest a).post w1 (first.post w p a w1 e) b w' k;
  }

module _ {A : Type 0} {P : Db → Type 0} {Q : A → Db → Type 0} where
  pub Triple-answer : (a : A) → ((db : Db) → P db → Q a db) → Triple P (answer a) Q
  Triple-answer a k = record {
    post = λ w p b w' h.
        let (e, same) = answer-go a b w w' h in
        subst (λ (x : A). Q x w'.db) e (subst (λ (x : World Db). Q a x.db) same (k w.db p));
  }

  pub Triple-exec :
      (env : Env) (f : Error → Failure) (change : Db → Db) (report : Db → A)
      → ((db : Db) → P db → Q (report db) (change db))
      → Triple P (or_reply f (exec env change report)) Q
  Triple-exec env f change report k = record {
    post = λ w p a w' h.
        let (e, d) =
          exec-ok env change report w a w' (or_reply-go f (exec env change report) w a w' h) in
        subst (λ (x : A). Q x w'.db) e (subst (Q (report w.db)) (sym d) (k w.db p));
  }

  pub Triple-query :
      (env : Env) (f : Error → Failure) (read : Db → A)
      → ((db : Db) → P db → Q (read db) db)
      → Triple P (or_reply f (query env read)) Q
  Triple-query env f read k = record {
    post = λ w p a w' h.
        let (e, d) = query-ok env read w a w' (or_reply-go f (query env read) w a w' h) in
        subst (λ (x : A). Q x w'.db) e (subst (Q (read w.db)) (sym d) (k w.db p));
  }

  -- A read of one row.
  pub Triple-find :
      (env : Env) (f : Error → Failure) (e : Error) (read : Db → Option A)
      → ((db : Db) (a : A) → read db ≡ some a → P db → Q a db)
      → Triple P (or_reply f (found_or env e read)) Q
  Triple-find env f e read k = record {
    post = λ w p a w' h.
        let m = found_or env e read in
        let (o, w1, asked, rest) =
          bind-ok (query env read) (λ found. some_or found e) w a w' (or_reply-go f m w a w' h) in
        let (answer, d) = query-ok env read w o w1 asked in
        let (found, d') = some_or-ok o e w1 a w' rest in
        subst (Q a) (sym (d' ∙ d)) (k w.db a (answer ∙ found) p);
  }

  pub Triple-some_or_reply :
      (o : Option A) (e : Failure)
      → ((db : Db) (a : A) → o ≡ some a → P db → Q a db)
      → Triple P (some_or_reply o e) Q
  Triple-some_or_reply o e k = record {
    post = λ w p a w' h.
        let (found, same) = some_or_reply-go o e w a w' h in
        subst (λ (x : World Db). Q a x.db) same (k w.db a found p);
  }

  pub Triple-holds : (m : Http A) → Holds P m → ((a : A) (db : Db) → P db → Q a db) → Triple P m Q
  Triple-holds m k weaker = record {
    post = λ w p a w' h.
        weaker a w'.db (subst P (ap (λ (x : Flow A × World Db). x.1.db) h) (k.held w p));
  }

module _ {A : Type 0} where
  found-ok :
      (env : Env) (e : Error) (read : Db → Option A) (r : Result A) (w w' : World Db)
      → found_or env e read w ≡ (r, w')
      → (a : A) → r ≡ ok a
      → read w'.db ≡ some a
  found-ok env e read r w w' h a k =
      let (o, w1, asked, rest) =
        bind-ok (query env read) (λ found. some_or found e) w a w' (h ∙ rw k refl) in
      let (value, d) = query-ok env read w o w1 asked in
      let (found, d') = some_or-ok o e w1 a w' rest in ap read (d' ∙ d) ∙ (value ∙ found)

  found-same :
      (env : Env) (e : Error) (read : Db → Option A) (w : World Db)
      → (found_or env e read w).1.db ≡ w.db
  found-same env e read w =
      let kept : Keeps (λ db. db ≡ w.db) (found_or env e read) = search (keeps_rules) depth 8 in
      kept.at w refl

module _ {A : Type 0} {P : Db → Type 0} {Q : Result A → Db → Type 0} where
  -- A read of one row whose error is looked at.
  pub Triple-tried_find :
      (env : Env) (e : Error) (read : Db → Option A)
      → ((db : Db) (r : Result A) → ((a : A) → r ≡ ok a → read db ≡ some a) → P db → Q r db)
      → Triple P (tried (found_or env e read)) Q
  unfolding tried
  Triple-tried_find env e read k = record {
    post = λ w p r w' h.
        let got : found_or env e read w ≡ (r, w') = ground arith in
        let same : w'.db ≡ w.db =
          ap (λ (x : Result A × World Db). x.1.db) (sym got) ∙ found-same env e read w in
        k w'.db r (found-ok env e read r w w' got) (subst P (sym same) p);
  }

module _ {P : Db → Type 0} {Q : Unit {0} → Db → Type 0} where
  pub Triple-insert :
      (env : Env) (f : Error → Failure) (allowed : Db → Bool) (change : Db → Db)
      → ((db : Db) → allowed db ≡ true → P db → Q tt (change db))
      → Triple P (or_reply f (insert env allowed change)) Q
  Triple-insert env f allowed change k = record {
    post = λ w p a w' h.
        let (e, d) =
          insert-ok env allowed change w w' (or_reply-go f (insert env allowed change) w tt w' h) in
        subst (Q tt) (sym d) (k w.db e p);
  }

  pub Triple-check :
      (b : Bool) (e : Failure) → ((db : Db) → b ≡ true → P db → Q tt db) → Triple P (check b e) Q
  Triple-check b e k = record {
    post = λ w p a w' h.
        let (yes_b, same) = check-go b e w w' h in
        subst (λ (x : World Db). Q tt x.db) same (k w.db yes_b p);
  }

module _ (env : Env) (out : Outside) (deps : Deps) where
  -- The audit trail is no part of what the handlers promise.
  pub Holds-audit :
      (P : Db → Type 0) (user : AdminUser) (head : Head) (action target : Text)
      → ((db : Db) (xs : List AuditLog) → P db → P (record db { audits = xs }))
      → Holds P (audit env out deps user head action target)
  unfolding audit Audit.append
  Holds-audit P user head action target k =
      let appends : (a : AuditLog) → Keeps P (Audit.append env a) =
        λ a. Keeps-insert env _ _ (λ db _ p. k db _ p) in
      search (holds_rules, appends) depth 14

  pub Triple-audit :
      (P : Db → Type 0) (user : AdminUser) (head : Head) (action target : Text)
      → ((db : Db) (xs : List AuditLog) → P db → P (record db { audits = xs }))
      → Triple P (audit env out deps user head action target) (λ _ db. P db)
  Triple-audit P user head action target k =
      Triple-holds (audit env out deps user head action target)
        (Holds-audit P user head action target k) (λ a db p. p)

  -- A step-up touches no table but that of the nonces.
  Holds-signature :
      (P : Db → Type 0) (user : AdminUser) (su : StepUp)
      → ((db : Db) (xs : List AuthNonce) → P db → P (record db { nonces = xs }))
      → Holds P (require_step_up env out deps user su)
  unfolding require_step_up Admin.verify_step_up WalletAuth.verify Nonces.consume
      Nonces.consume_body Nonces.mark_consumed
  Holds-signature P user su k =
      let marks : (nonce : Text) (t : ℕ) → Keeps P (Nonces.mark_consumed env nonce t) =
        λ nonce t. Keeps-exec env _ _ (λ db p. k db _ p) in
      search (holds_rules, keeps_rules, marks) depth 20

  pub Triple-step_up :
      (P : Db → Type 0) (user : AdminUser) (su : StepUp)
      → ((db : Db) (xs : List AuthNonce) → P db → P (record db { nonces = xs }))
      → Triple P (require_step_up env out deps user su) (λ _ db. P db)
  Triple-step_up P user su k =
      Triple-holds (require_step_up env out deps user su) (Holds-signature P user su k)
        (λ a db p. p)

  pub Triple-clock : (P : Db → Type 0) → Triple P (clock env) (λ _ db. P db)
  Triple-clock P = Triple-holds (clock env) (Holds-clock env) (λ a db p. p)

  pub Triple-random_id : (P : Db → Type 0) → Triple P (random_id env) (λ _ db. P db)
  Triple-random_id P = Triple-holds (random_id env) (Holds-random_id env) (λ a db p. p)
