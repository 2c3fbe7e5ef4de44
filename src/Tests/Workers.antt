-- ===== src/Tests/Workers.antt =====
-- Witnesses of the theorems on rotation chains, the reconciler, the push worker and the supervisor.
use ouro_pass.Base.{
  leb, Text, lit, text_eq, text_eq_complete, ℕ, ◌≡◌, refl, ◌⊎◌, Bool, true, false, Option, none,
  some, List, [], ◌∷◌,
}
use ouro_pass.Store.Domain.{push_scheduled, PushJob, Db}
use ouro_pass.Store.Exec.{Error, Result, ok, err, World}
use ouro_pass.Store.Grants.Forest.{IsForest}
use ouro_pass.Store.Grants.Chain.{
  ChainRevoked, revoke_chain-ChainRevoked, revoke_chain_all_or_nothing,
}
use ouro_pass.Go.Maps.{get}
use ouro_pass.Reconciliation.{Counts, reconcile, has_advanced, commit_epochs, poll}
use ouro_pass.Reconciliation.Cursor.{names_net, AllDifferent, poll-settled}
use ouro_pass.Push.{Channel, Sends, deliver, send_job}
use ouro_pass.Push.Delivery.{Delivered, deliver-Delivered}
use ouro_pass.Telegram.{supervise}
use ouro_pass.Telegram.Running.{should_run, supervise-should_run}
use ouro_pass.Tests.{steady, wallets, office, start}
use ouro_pass.Store.Grants

chain-IsForest : IsForest office.grants
unfolding text_eq
chain-IsForest = (tt, ((λ e. cc (text_eq_complete (lit "#2") (lit "#1") e), tt), tt))

revoke_chain-ChainRevoked_example :
    (w' : World Db) × (Grants.revoke_chain steady (lit "#1") start ≡ (ok tt, w'))
    × ChainRevoked (lit "#1") office w'.db
revoke_chain-ChainRevoked_example =
    revoke_chain-ChainRevoked steady (lit "#1") start (λ n. refl) chain-IsForest

revoke_chain_all_or_nothing_example :
    (((Grants.revoke_chain steady (lit "#1") start).0 ≡ ok tt)
      × ChainRevoked (lit "#1") office (Grants.revoke_chain steady (lit "#1") start).1.db)
    ⊎ ((e : Error) × ((Grants.revoke_chain steady (lit "#1") start).0 ≡ err e)
        × ((Grants.revoke_chain steady (lit "#1") start).1.db ≡ office))
revoke_chain_all_or_nothing_example =
    revoke_chain_all_or_nothing steady (lit "#1") start chain-IsForest

abbrev probes : List (Text × Option ℕ)
probes = (lit "mainnet", some 500) ∷ (lit "preprod", none) ∷ []

different : AllDifferent probes
unfolding AllDifferent names_net text_eq
different = (refl, (refl, tt))

poll-settled_example :
    ((c : Counts)
      → (reconcile steady wallets (lit "pool") start).0 ≡ ok c
      → (poll steady wallets (lit "pool") probes (commit_epochs probes []) start
          ≡ (ok (commit_epochs probes []), start))
        × (has_advanced [] probes ≡ true
            → (poll steady wallets (lit "pool") probes [] start).0 ≡ ok (commit_epochs probes [])))
    × ((e : Error)
        → (reconcile steady wallets (lit "pool") start).0 ≡ err e
        → (poll steady wallets (lit "pool") probes [] start).0 ≡ ok [])
poll-settled_example = poll-settled steady wallets (lit "pool") probes [] start start different

abbrev flaky : Channel
flaky = record {
  send = λ n user text. leb 2 n;
  limiter_ready = λ n. true;
  sleeps = λ n. true;
  cancelled = λ n. false;
  routed = λ n job. true;
  max_attempts = 3;
}

abbrev job : PushJob
job = record {
  job_id = lit "job";
  pool_id = lit "pool";
  title = lit "t";
  content = lit "c";
  channel_id = none;
  channel_type = lit "telegram";
  target_topic = none;
  required_entitlement = none;
  target_tier = none;
  status = push_scheduled;
  scheduled_at = none;
  created_by = lit "admin";
  created_at = 1;
}

deliver-Delivered_example :
    (n : ℕ) × (done : Bool) × ((deliver flaky (lit "u") (lit "hello") start).0 ≡ ok (n, done))
    × Delivered flaky
        (lit "u")
        (lit "hello")
        n
        done
        office
        (deliver flaky (lit "u") (lit "hello") start).1.db
deliver-Delivered_example = deliver-Delivered flaky (lit "u") (lit "hello") start

abbrev sends : Result Sends × World Db
sends = send_job steady flaky job start

sends_ok : sends ≡ (ok (record { sent = 1; failed = 0 }), sends.1)
unfolding send_job text_eq
sends_ok = refl

abbrev prints : List (Text × Text)
prints = (lit "a", lit "v2") ∷ (lit "b", lit "v1") ∷ []

supervise-should_run_example :
    get (lit "a") (supervise (λ id. true) (some prints) ((lit "a", lit "v1") ∷ []))
    ≡ should_run (get (lit "a") prints) (get (lit "a") ((lit "a", lit "v1") ∷ [])) true
unfolding get
supervise-should_run_example =
    supervise-should_run (λ id. true) prints ((lit "a", lit "v1") ∷ []) (lit "a") (refl, tt)
