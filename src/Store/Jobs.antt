-- ===== src/Store/Jobs.antt =====
-- server/internal/store/repo_pushjob.go and repo_deliverylog.go: broadcast jobs and their log.
use ouro_pass.Base.{
  if◌then◌else◌, is_unset, select, Text, text_eq, ℕ, zero, suc, Bool, true, false, ◌&&◌, none, some,
  List, [], ◌∷◌, ◌++◌,
}
use ouro_pass.Store.Table.{find, update}
use ouro_pass.Store.Domain.{JobStatus, push_scheduled, PushJob, DeliveryLog, Db}
use ouro_pass.Store.Exec.{Env, Exec, now, query, exec, insert}
use ouro_pass.Store.Timestamp.{ts, stamp_lt, stamp_le}
use ouro_pass.Store.Order.{order_by}

abbrev pub job_of : PushJob → Text
job_of j = j.job_id

abbrev pub is_scheduled : PushJob → Bool
is_scheduled j = elim j.status [ push_scheduled ↦ true | _ ↦ false ]

-- `status = 'scheduled' AND (scheduled_at IS NULL OR scheduled_at <= ?)`
abbrev pub is_due : ℕ → PushJob → Bool
is_due now j =
    is_scheduled j && (elim j.scheduled_at [ none ↦ true | some t ↦ stamp_le (ts t) (ts now) ])

unfoldable pub insert_by_created : PushJob → List PushJob → List PushJob
insert_by_created j [] = j ∷ []
insert_by_created j (x ∷ rows) =
    let rest = insert_by_created j rows in
    if stamp_lt (ts x.created_at) (ts j.created_at) then x ∷ rest else j ∷ x ∷ rows

unfoldable pub order_by_created : List PushJob → List PushJob
unfolding insert_by_created
order_by_created [] = []
order_by_created (j ∷ rows) = insert_by_created j (order_by_created rows)

abbrev pub newer_job : PushJob → PushJob → Bool
newer_job a b = stamp_lt (ts b.created_at) (ts a.created_at)

-- `LIMIT ?`
abbrev pub limit {ℓ} : {A : Type ℓ} → ℕ → List A → List A
limit zero rows = []
limit (suc n) [] = []
limit (suc n) (x ∷ rows) = x ∷ limit n rows

module _ (env : Env) where
  unfoldable pub create : PushJob → Exec Db (Unit {0})
  unfolding insert
  create j =
      insert env (λ db. is_unset (find job_of j.job_id db.jobs))
        (λ db. record db { jobs = db.jobs ++ (j ∷ []) })

  unfoldable pub list_scheduled : ℕ → ℕ → Exec Db (List PushJob)
  unfolding query
  list_scheduled now n = query env (λ db. limit n (order_by_created (select (is_due now) db.jobs)))

  unfoldable pub list_by_pool : Text → ℕ → Exec Db (List PushJob)
  unfolding query order_by
  list_by_pool pool_id n =
      query env
        (λ db. limit n (order_by newer_job (select (λ j. text_eq j.pool_id pool_id) db.jobs)))

  unfoldable pub set_status : Text → JobStatus → Exec Db (Unit {0})
  unfolding exec
  set_status id s =
      exec env
        (λ db. record db {
          jobs = update (λ j. text_eq j.job_id id) (λ j. record j { status = s }) db.jobs;
        })
        (λ db. tt)

  -- `DeliveryLogRepo.Append`
  unfoldable pub append_delivery : DeliveryLog → Exec Db (Unit {0})
  unfolding insert
  append_delivery d =
      insert env
        (λ db. is_unset (find (λ (x : DeliveryLog). x.delivery_id) d.delivery_id db.deliveries))
        (λ db. record db { deliveries = db.deliveries ++ (d ∷ []) })
