-- ===== src/Push.antt =====
-- server/internal/worker/push: push.go (a job is sent to the subscribers it targets) and worker.go.
pub mod Delivery
use ouro_pass.Base.{
  ltb, ◌==◌, if◌then◌else◌, any, Text, text_eq, ℕ, zero, suc, ◌+◌, Bool, true, false, ◌&&◌, Option,
  none, some, List, [], ◌∷◌, ◌++◌,
}
use ouro_pass.Base.Int.{sub_ℕ}
use ouro_pass.Store.Domain.{
  JobStatus, push_running, push_done, push_failed, delivery_sent, delivery_failed,
  SubscriptionSession, PushJob, DeliveryLog, Db,
}
use ouro_pass.Store.Exec.{
  route_error, ok, err, Env, Exec, next, pure, raise, ◌>>=◌, ◌>>◌, ignore, attempt, now, fresh,
}
use ouro_pass.Store.Sessions
use ouro_pass.Store.Jobs

-- The channel: `SendMessage`, the wait for the rate limiter, the sleep between attempts, whether the
-- context is cancelled, and the routing of a job. Each answer may depend on the interaction.
pub record Channel : Type 0 where
  pub send : ℕ → Text → Text → Bool
  pub limiter_ready : ℕ → Bool
  pub sleeps : ℕ → Bool
  pub cancelled : ℕ → Bool
  pub routed : ℕ → PushJob → Bool
  pub max_attempts : ℕ

-- `Result`; `skipped` is never counted.
pub record Sends : Type 0 where
  pub sent : ℕ
  pub failed : ℕ

abbrev pub unset_or : Option Text → (Text → Bool) → Bool
unset_or none p = true
unset_or (some []) p = true
unset_or (some (c ∷ t)) p = p (c ∷ t)

-- `matches`: the tier, the entitlement and the topic, each only if it is set.
unfoldable pub matches : PushJob → SubscriptionSession → Bool
matches job x =
    unset_or job.target_tier (text_eq x.tier)
    && unset_or job.required_entitlement (λ e. any (text_eq e) x.entitlements)
    && unset_or job.target_topic (λ t. any (text_eq t) x.topics)

module _ (channel : Channel) where
  abbrev told : (ℕ → Bool) → Exec Db Bool
  told f w = (ok (f w.tick), next w)

  -- The attempts that remain, and those that were made: how many were made in the end, and whether
  -- the last one succeeded. The sleep is left out after the last attempt.
  unfoldable pub send_from : ℕ → ℕ → Text → Text → Exec Db (ℕ × Bool)
  unfolding ◌>>=◌
  send_from zero made user text = pure (made, false)
  send_from (suc rest) made user text = do
    done ← told (λ n. channel.send n user text)
    (if done then pure (made + 1, true) else if rest == 0 then pure (made + 1, false) else (do
      awake ← told channel.sleeps
      (if awake then send_from rest (made + 1) user text else pure (made + 1, false))))

  -- `deliver`: a limiter that fails makes no attempt.
  unfoldable pub deliver : Text → Text → Exec Db (ℕ × Bool)
  unfolding send_from ◌>>=◌
  deliver user text = do
    ready ← told channel.limiter_ready
    (if ready then send_from channel.max_attempts 0 user text else pure (0, false))

abbrev pub count_send : Bool → Sends → Sends
count_send true c = record c { sent = c.sent + 1 }
count_send false c = record c { failed = c.failed + 1 }

abbrev pub delivery_of : PushJob → SubscriptionSession → Text → ℕ × Bool → ℕ → DeliveryLog
delivery_of job x id (attempts, done) t = record {
  delivery_id = id;
  job_id = job.job_id;
  session_id = x.session_id;
  channel_user_id = x.channel_user_id;
  status = if done then delivery_sent else delivery_failed;
  retry_count = sub_ℕ attempts 1;
  sent_at = t;
}

module _ (env : Env) (channel : Channel) where
  -- One recipient; a log row that cannot be written is reported and no more.
  unfoldable pub send_one : PushJob → SubscriptionSession → Sends → Exec Db Sends
  unfolding deliver fresh now ignore Jobs.append_delivery ◌>>=◌
  send_one job x c = do
    outcome ← deliver channel x.channel_user_id (job.title ++ (10 ∷ job.content))
    id ← fresh env
    t ← now env
    ignore (Jobs.append_delivery env (delivery_of job x id outcome t))
    pure (count_send outcome.1 c)

  -- The loop over the candidates; it stops when the context is cancelled.
  unfoldable pub send_each : PushJob → List SubscriptionSession → Sends → Exec Db Sends
  unfolding send_one matches ◌>>=◌
  send_each job [] c = pure c
  send_each job (x ∷ candidates) c = do
    stop ← told channel channel.cancelled
    (if stop
        then pure c
        else if matches job x
        then (send_one job x c >>= send_each job candidates)
        else send_each job candidates c)

  abbrev pub candidates_of : PushJob → Option Text → Exec Db (List SubscriptionSession)
  candidates_of job none = Sessions.list_active_by_channel env job.pool_id job.channel_type
  candidates_of job (some []) = Sessions.list_active_by_channel env job.pool_id job.channel_type
  candidates_of job (some (c ∷ id)) = Sessions.list_active_by_instance env (c ∷ id)

  unfoldable pub final_status : Sends → JobStatus
  final_status c = if (c.sent == 0) && ltb 0 c.failed then push_failed else push_done

  unfoldable pub send_job : PushJob → Exec Db Sends
  unfolding send_each final_status Sessions.list_active_by_channel Sessions.list_active_by_instance
      Jobs.set_status ◌>>=◌
  send_job job = do
    candidates ← candidates_of job job.channel_id
    c ← send_each job candidates (record { sent = 0; failed = 0 })
    Jobs.set_status env job.job_id (final_status c)
    pure c

  -- `Run` of the scheduler.
  unfoldable pub run_job : PushJob → Exec Db Sends
  unfolding send_job ignore Jobs.set_status ◌>>=◌
  run_job job = do
    Jobs.set_status env job.job_id push_running
    routed ← told channel (λ n. channel.routed n job)
    (if routed
        then send_job job
        else (do ignore (Jobs.set_status env job.job_id push_failed); raise route_error))

  -- One round of the worker: a job that fails does not stop the next ones.
  unfoldable pub run_each : List PushJob → Exec Db (Unit {0})
  unfolding run_job ignore ◌>>=◌
  run_each [] = pure tt
  run_each (job ∷ jobs) = do
    stop ← told channel channel.cancelled
    (if stop then pure tt else (do ignore (run_job job); run_each jobs))

  unfoldable pub run_due : Exec Db (Unit {0})
  unfolding now run_each attempt Jobs.list_scheduled ◌>>=◌
  run_due = do
    t ← now env
    r ← attempt (Jobs.list_scheduled env t 50)
    elim r [ err _ ↦ pure tt | ok jobs ↦ run_each jobs ]
