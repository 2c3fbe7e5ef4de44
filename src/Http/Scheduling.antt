-- ===== src/Http/Scheduling.antt =====
-- The start of a push job: server/internal/httpapi/handlers_admin_resources.go.
use ouro_pass.Base.{
  Bool-cases, some_injective, is_unset, In, In-append_right, Text, lit, is_empty, ℕ, ◌≡◌, refl, sym,
  ◌⊎◌, inl, inr, true, not, some, [], ◌∷◌, ◌++◌,
}
use ouro_pass.Store.Domain.{PushJob, AdminUser, ChannelConfig, is_channel_type, Db}
use ouro_pass.Store.Table.{find}
use ouro_pass.Store.Exec.{not_found, Result, ok, err, Env, World}
use ouro_pass.Outside.{Outside}
use ouro_pass.Http.Flow.{text, Answer, go, bad_request, server_error, or_reply}
use ouro_pass.Http.AdminLogin.{Deps, Head}
use ouro_pass.Http.ClientAdmin.{
  ptr_if_set, PushBody, serves, usable, check_channel, job_of_body, admin_create_push_job,
}
use ouro_pass.Http.Triples.{
  Triple, Triple-bind, Triple-answer, Triple-some_or_reply, Triple-tried_find, Triple-insert,
  Triple-check, Triple-audit, Triple-clock, Triple-random_id,
}
use ouro_pass.Store.Channels
use ouro_pass.Store.Jobs

module _ (env : Env) (out : Outside) (deps : Deps) where
  -- The job is in the table, and the push worker's read finds it at any time.
  abbrev pub Scheduled : PushBody → Text → Db → Type 0
  Scheduled body id db =
      (j : PushJob) × In j db.jobs
      × ((t : ℕ) → Jobs.is_due t j ≡ true)
      × (j.job_id ≡ id)
      × (j.pool_id ≡ deps.pool_id)
      × (j.title ≡ body.title)
      × (j.content ≡ body.content)
      × (j.channel_type ≡ body.channel_type)
      × (j.channel_id ≡ ptr_if_set body.channel_id)
      × (j.target_tier ≡ ptr_if_set body.tier)
      × (j.target_topic ≡ ptr_if_set body.topic)
      × (j.required_entitlement ≡ ptr_if_set body.entitlement)

  abbrev pub Serving : PushBody → Db → Type 0
  Serving body db =
      (c : ChannelConfig) × (find Channels.channel_of body.channel_id db.channels ≡ some c)
      × (serves body.channel_type c ≡ true)

  -- A job that names an instance names an active one of its type.
  abbrev pub Routed : PushBody → Db → Type 0
  Routed body db = (is_empty body.channel_id ≡ true) ⊎ Serving body db

  served :
      (body : PushBody) (r : Result ChannelConfig) (db : Db)
      → ((c : ChannelConfig)
          → r ≡ ok c
          → find Channels.channel_of body.channel_id db.channels ≡ some c)
      → usable body.channel_type r ≡ true
      → Serving body db
  served body (ok c) db found good = (c, found c refl, good)
  served body (err e) db found good = absurd (cc)

  module _ (E : Type 0) (body : PushBody) where
    abbrev Found : Result ChannelConfig → Db → Type 0
    Found r db =
        E
        × ((c : ChannelConfig)
            → r ≡ ok c
            → find Channels.channel_of body.channel_id db.channels ≡ some c)

    Triple-route : Triple (λ db. E) (check_channel env out deps body) (λ _ db. E × Routed body db)
    unfolding Channels.get
    Triple-route = elim (Bool-cases (is_empty body.channel_id)) [
      | inl unnamed ↦ rw unnamed (Triple-answer tt (λ db p. (p, inl refl)))
      | inr named ↦ rw named (
          Triple-bind {R = Found} _ _
            (Triple-tried_find env not_found
              (λ db. find Channels.channel_of body.channel_id db.channels)
              (λ db r found p. (p, found)))
            λ r.
              Triple-check (usable body.channel_type r)
                (bad_request (lit "unknown or inactive channel instance for channel_type"))
                (λ db good found. (found.0, inr (served body r db found.1 good))))
    ]

  Triple-create :
      (user : AdminUser) (body : PushBody) (id : Text) (t : ℕ) (E : Type 0)
      → Triple
          (λ db. E × Routed body db)
          (or_reply server_error (Jobs.create env (job_of_body env out deps user body id t)))
          (λ _ db. E × Routed body db × Scheduled body id db)
  unfolding Jobs.create
  Triple-create user body id t E =
      let j = job_of_body env out deps user body id t in
      Triple-insert env server_error (λ db. is_unset (find Jobs.job_of j.job_id db.jobs))
        (λ db. record db { jobs = db.jobs ++ (j ∷ []) })
        (λ db e p. (
          p.0,
          p.1,
          (
            j,
            In-append_right j db.jobs (j ∷ []) (inl refl),
            λ t. refl,
            refl,
            refl,
            refl,
            refl,
            refl,
            refl,
            refl,
            refl,
            refl,
          ),
        ))

  Triple-schedule :
      (user : AdminUser) (head : Head) (body : PushBody)
      → Triple
          (λ db. Unit {0})
          (admin_create_push_job env out deps user head (some body))
          (λ a db.
            (id : Text) × (a
              ≡ (lit "job_id", text id) ∷ (lit "status", text (lit "scheduled")) ∷ [])
            × Routed body db
            × Scheduled body id db)
  unfolding admin_create_push_job
  Triple-schedule user head body =
      Triple-bind {R = λ b db. b ≡ body} _ _
        (Triple-some_or_reply (some body) (bad_request (lit "title and channel_type required"))
          (λ db a e p. sym (some_injective e)))
        λ b.
          Triple-bind {R = λ _ db. b ≡ body} _ _
            (Triple-check (not (is_empty b.title))
              (bad_request (lit "title and channel_type required")) (λ db e p. p))
            λ _.
              Triple-bind {R = λ _ db. b ≡ body} _ _
                (Triple-check (is_channel_type b.channel_type)
                  (bad_request (lit "unsupported channel_type")) (λ db e p. p))
                λ _. Triple-bind _ _ (Triple-route (b ≡ body) b) λ _.
                  Triple-bind _ _ (Triple-random_id env out deps (λ db. (b ≡ body) × Routed b db))
                    λ id.
                      Triple-bind _ _ (Triple-clock env out deps (λ db. (b ≡ body) × Routed b db))
                        λ t. Triple-bind _ _ (Triple-create user b id t (b ≡ body)) λ _.
                          Triple-bind _ _
                            (Triple-audit env out deps
                              (λ db. (b ≡ body) × Routed b db × Scheduled b id db) user head
                              (lit "push.create") id (λ db xs p. p))
                            λ _.
                              Triple-answer
                                ((lit "job_id", text id)
                                  ∷ (lit "status", text (lit "scheduled"))
                                  ∷ [])
                                (λ db p. (id, refl, rw (← p.0) p.1, rw (← p.0) p.2))

  -- When a push job is created with success, the answer names a job of the pool that is in the table
  -- with the title, the content and the channel of the request and with the tier, the topic and the
  -- entitlement that it targets, and that is due at any time; if the request names a channel instance,
  -- then the instance is in the table, active and of the type of the request.
  pub admin_create_push_job-Scheduled :
      (user : AdminUser) (head : Head) (body : PushBody) (a : Answer) (w w' : World Db)
      → admin_create_push_job env out deps user head (some body) w ≡ (go a, w')
      → (id : Text) × (a ≡ (lit "job_id", text id) ∷ (lit "status", text (lit "scheduled")) ∷ [])
        × Routed body w'.db
        × Scheduled body id w'.db
  admin_create_push_job-Scheduled user head body a w w' h =
      (Triple-schedule user head body).post w tt a w' h
