-- ===== src/Push/Delivery.antt =====
-- Deliveries of server/internal/worker/push/push.go.
use ouro_pass.Store.Jobs
use ouro_pass.Base.{
  ◌==◌, ==_iff, Bool-cases, length, select, all, Text, ℕ, zero, suc, ◌+◌, ◌≤◌, ◌≡◌, refl, sym, ap,
  ◌∙◌, inl, inr, Bool, true, false, List, [], ◌∷◌, ◌++◌, arith,
}
use ouro_pass.Store.Domain.{SubscriptionSession, PushJob, Db}
use ouro_pass.Store.Exec.{
  Result, ok, Env, World, next, pure, ◌>>=◌, ok_injective, ignore, bind-ok, now, fresh,
}
use ouro_pass.Store.Inversion.{pure-ok}
use ouro_pass.Push.{
  Channel, Sends, matches, send_from, deliver, count_send, send_one, send_each, candidates_of,
  final_status, send_job,
}

-- What one delivery tells about the channel: at most `max_attempts` attempts, a success only if some
-- attempt was accepted, and no change of the tables.
pub record Delivered (channel : Channel) (user text : Text) (attempts : ℕ) (done : Bool)
    (before after : Db) : Type 0 where
  pub bounded : attempts ≤ channel.max_attempts
  pub accepted : done ≡ true → (n : ℕ) × (channel.send n user text ≡ true)
  pub reaches_all :
      done ≡ false
      → ((n : ℕ) → channel.sleeps n ≡ true)
      → ((n : ℕ) → channel.limiter_ready n ≡ true)
      → attempts ≡ channel.max_attempts
  pub same : after ≡ before

module _ (channel : Channel) (user text : Text) where
  abbrev FromResult : ℕ → ℕ → Db → Result (ℕ × Bool) × World Db → Type 0
  FromResult rest made before (r, w') =
      (n : ℕ) × (done : Bool) × (r ≡ ok (n, done))
      × (n ≤ made + rest)
      × (done ≡ true → (k : ℕ) × (channel.send k user text ≡ true))
      × (done ≡ false → ((k : ℕ) → channel.sleeps k ≡ true) → n ≡ made + rest)
      × (w'.db ≡ before)

  send_from-result :
      (rest made : ℕ) (w : World Db)
      → FromResult rest made w.db (send_from channel rest made user text w)
  unfolding send_from ◌>>=◌
  send_from-result zero made w =
      (made, false, refl, omega arith, (λ h. absurd (cc)), (λ h s. omega arith), refl)
  send_from-result (suc rest) made w = elim (Bool-cases (channel.send w.tick user text)) [
    | inl a ↦
        rw a (made + 1, true, refl, omega arith, (λ h. (w.tick, a)), (λ h s. absurd (cc)), refl)
    | inr a ↦ rw a (elim (Bool-cases (rest == 0)) [
      | inl z ↦ rw z (
        made + 1,
        false,
        refl,
        omega arith,
        (λ h. absurd (cc)),
        (λ h s. let q = (==_iff rest 0).0 z in omega (arith, q)),
        refl,
      )
      | inr z ↦ rw z (elim (Bool-cases (channel.sleeps (w.tick + 1))) [
        | inl s ↦ rw s (
            let (n, done, e, le, acc, all, same) =
              send_from-result rest (made + 1) (record { db = w.db; tick = w.tick + 1 + 1 }) in
            (
              n,
              done,
              e,
              omega (arith, le),
              acc,
              (λ h k. let q = all h k in omega (arith, q)),
              same,
            ))
        | inr s ↦ rw s (
          made + 1,
          false,
          refl,
          omega arith,
          (λ h. absurd (cc)),
          (λ h k. absurd (cc (k (w.tick + 1)))),
          refl,
        )
      ])
    ])
  ]

  -- A delivery always ends, within the attempts that are configured; it counts as sent only if the
  -- channel accepted an attempt, and gives up only after the last one unless the context ends.
  pub deliver-Delivered :
      (w : World Db)
      → (n : ℕ) × (done : Bool) × ((deliver channel user text w).0 ≡ ok (n, done))
        × Delivered channel user text n done w.db (deliver channel user text w).1.db
  unfolding deliver ◌>>=◌
  deliver-Delivered w = elim (Bool-cases (channel.limiter_ready w.tick)) [
    | inl a ↦ rw a (
        let (n, done, e, le, acc, all, same) = send_from-result channel.max_attempts 0 (next w) in
        (
          n,
          done,
          e,
          record {
            bounded = omega (arith, le);
            accepted = acc;
            reaches_all = λ h s r. let q = all h s in omega (arith, q);
            same = same;
          },
        ))
    | inr a ↦ rw a (
      0,
      false,
      refl,
      record {
        bounded = omega arith;
        accepted = λ h. absurd (cc);
        reaches_all = λ h s r. absurd (cc (r w.tick));
        same = refl;
      },
    )
  ]

count_send-total :
    (done : Bool) (c : Sends)
    → (count_send done c).sent + (count_send done c).failed ≡ c.sent + c.failed + 1
count_send-total true c = omega arith
count_send-total false c = omega arith

plus_zero : (n : ℕ) → 0 + 0 + n ≡ n
plus_zero n = omega arith

module _ (env : Env) (channel : Channel) (job : PushJob) where
  send_one-counts :
      (x : SubscriptionSession) (c : Sends) (w : World Db)
      → (d : Sends) × ((send_one env channel job x c w).0 ≡ ok d)
        × (d.sent + d.failed ≡ c.sent + c.failed + 1)
  unfolding send_one fresh now ignore ◌>>=◌
  send_one-counts x c w =
      let (n, done, e, _) =
        deliver-Delivered channel x.channel_user_id (job.title ++ (10 ∷ job.content)) w in
      (count_send done c, rw e refl, count_send-total done c)

  send_each-counts :
      (candidates : List SubscriptionSession) (c : Sends) (w : World Db)
      → ((n : ℕ) → channel.cancelled n ≡ false)
      → (d : Sends) × ((send_each env channel job candidates c w).0 ≡ ok d)
        × (d.sent + d.failed ≡ c.sent + c.failed + length (select (matches job) candidates))
  unfolding send_each ◌>>=◌
  send_each-counts [] c w run = (c, refl, omega arith)
  send_each-counts (x ∷ candidates) c w run = elim (Bool-cases (matches job x)) [
    | inl a ↦
        let (d, e, n) = send_one-counts x c (next w) in
        let (d', e', n') =
          send_each-counts candidates d (send_one env channel job x c (next w)).1 run in
        rw (run w.tick, a) (rw e (d', e', omega (arith, n, n')))
    | inr a ↦
        let (d', e', n') = send_each-counts candidates c (next w) run in
        rw (run w.tick, a) (d', e', omega (arith, n'))
  ]

  -- A job that is not interrupted and that ends well has counted every candidate that it targets once,
  -- as sent or as failed.
  pub send_job-counts :
      (d : Sends) (w w' : World Db)
      → ((n : ℕ) → channel.cancelled n ≡ false)
      → send_job env channel job w ≡ (ok d, w')
      → (sessions : List SubscriptionSession) × (w1 : World Db) × (candidates_of env channel job
            job.channel_id w
          ≡ (ok sessions, w1))
        × (d.sent + d.failed ≡ length (select (matches job) sessions))
  unfolding send_job
  send_job-counts d w w' run h =
      let ending = λ (c : Sends).
        Jobs.set_status env job.job_id (final_status env channel c) >>= λ _. pure c in
      let sending = λ (xs : List SubscriptionSession).
        send_each env channel job xs (record { sent = 0; failed = 0 }) >>= ending in
      let (xs, w1, listed, rest) =
        bind-ok (candidates_of env channel job job.channel_id) sending w d w' h in
      let (c, w2, each, rest') =
        bind-ok (send_each env channel job xs (record { sent = 0; failed = 0 })) ending w1 d w'
          rest in
      let (_, w3, _, last) =
        bind-ok (Jobs.set_status env job.job_id (final_status env channel c)) (λ _. pure c) w2 d w'
          rest' in
      let (c', e, n) = send_each-counts xs (record { sent = 0; failed = 0 }) w1 run in
      let same : c' ≡ c = ok_injective (sym e ∙ ap (λ (x : Result Sends × World Db). x.0) each) in
      let same' : c ≡ d = (pure-ok c w3 d w' last).0 in
      (
        xs,
        w1,
        listed,
        ap (λ (x : Sends). x.sent + x.failed) (sym (same ∙ same'))
            ∙ n
            ∙ plus_zero (length (select (matches job) xs)),
      )
