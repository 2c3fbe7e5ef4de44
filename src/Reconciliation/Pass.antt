-- ===== src/Reconciliation/Pass.antt =====
-- The counts of a pass of server/internal/worker/reconciliation.
use ouro_pass.Base.{
  length, select, Text, text_eq, ◌+◌, ◌≡◌, refl, ◌∙◌, false, ◌&&◌, List, [], ◌∷◌, arith,
}
use ouro_pass.Store.Domain.{SubscriptionSession, Db}
use ouro_pass.Store.Exec.{ok, Env, World, next, ◌>>=◌, query}
use ouro_pass.Outside.{Outside}
use ouro_pass.Reconciliation.{
  Outcome, untouched, in_grace, over, failed, Counts, no_counts, tally, reconcile_session,
  reconcile_each, reconcile,
}
use ouro_pass.Reconciliation.Session.{reconcile_session-Reconciled}
use ouro_pass.Store.Sessions

abbrev pub Balanced : Counts → Type 0
Balanced c = c.checked ≡ c.expired_count + c.grace + c.unchanged + c.failures

tally-Balanced : (id : Text) (o : Outcome) (c : Counts) → Balanced c → Balanced (tally id o c)
unfolding tally
tally-Balanced id untouched c h = omega arith
tally-Balanced id in_grace c h = omega arith
tally-Balanced id over c h = omega arith
tally-Balanced id failed c h = omega arith

tally-checked : (id : Text) (o : Outcome) (c : Counts) → (tally id o c).checked ≡ c.checked + 1
unfolding tally
tally-checked id untouched c = refl
tally-checked id in_grace c = refl
tally-checked id over c = refl
tally-checked id failed c = refl

module _ (env : Env) (out : Outside) where
  each-step :
      (x : SubscriptionSession) (sessions : List SubscriptionSession) (c : Counts) (o : Outcome)
      (w : World Db)
      → (reconcile_session env out x w).0 ≡ ok o
      → reconcile_each env out (x ∷ sessions) c w
        ≡ reconcile_each env out sessions (tally x.session_id o c) (reconcile_session env out x w).1
  unfolding reconcile_each ◌>>=◌
  each-step x sessions c o w e = rw e refl

  each-Balanced :
      (sessions : List SubscriptionSession) (c : Counts) (w : World Db)
      → Balanced c
      → (d : Counts) × (w' : World Db) × (reconcile_each env out sessions c w ≡ (ok d, w'))
        × (d.checked ≡ c.checked + length sessions)
        × Balanced d
  unfolding reconcile_each
  each-Balanced [] c w b = (c, w, refl, omega arith, b)
  each-Balanced (x ∷ sessions) c w b =
      let (o, e, _) = reconcile_session-Reconciled env out x w in
      let (d, w', rest, n, balanced) =
        each-Balanced sessions (tally x.session_id o c) (reconcile_session env out x w).1
          (tally-Balanced x.session_id o c b) in
      (
        d,
        w',
        each-step x sessions c o w e ∙ rest,
        omega (arith, n, tally-checked x.session_id o c),
        balanced,
      )

  -- A pass fails only if the sessions cannot be listed. Otherwise it checks every active session of
  -- the pool once, and each is counted once: as expired, in grace, unchanged or failed.
  pub reconcile-Balanced :
      (pool_id : Text) (w : World Db)
      → env.fault w.tick ≡ false
      → (d : Counts) × (w' : World Db) × (reconcile env out pool_id w ≡ (ok d, w'))
        × (d.checked
            ≡ length
                (select (λ x. text_eq x.pool_id pool_id && Sessions.is_sub_active x) w.db.sessions))
        × Balanced d
  unfolding reconcile Sessions.list_active query ◌>>=◌
  reconcile-Balanced pool_id w fine =
      let (d, w', e, n, b) =
        each-Balanced
          (select (λ x. text_eq x.pool_id pool_id && Sessions.is_sub_active x) w.db.sessions)
          no_counts (next w) refl in
      (d, w', rw fine e, omega (arith, n), b)
