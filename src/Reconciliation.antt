-- ===== src/Reconciliation.antt =====
-- server/internal/worker/reconciliation/reconciliation.go: subscriptions follow the membership of
-- their credentials.
pub mod Session
pub mod Pass
pub mod Cursor
use ouro_pass.Base.{
  ltb, if◌then◌else◌, Text, text_eq, ℕ, ◌+◌, Bool, false, ◌||◌, Option, none, some, List, [], ◌∷◌,
  ◌++◌,
}
use ouro_pass.Store.Domain.{sub_expired, SubscriptionSession, Db}
use ouro_pass.Store.Exec.{Result, ok, err, Env, Exec, pure, ◌>>=◌, ◌>>◌, attempt, now}
use ouro_pass.Outside.{Outside}
use ouro_pass.Membership.{is_outside}
use ouro_pass.Oauth.{Attested, attest}
use ouro_pass.Store.Sessions

-- What became of one session: `untouched` is counted as `Unchanged`.
pub data Outcome : Type 0 where
  untouched in_grace over failed : Outcome

-- `Result`, and the sessions whose user was notified.
pub record Counts : Type 0 where
  pub checked : ℕ
  pub expired_count : ℕ
  pub grace : ℕ
  pub unchanged : ℕ
  pub failures : ℕ
  pub notified : List Text

abbrev pub no_counts : Counts
no_counts = record {
  checked = 0;
  expired_count = 0;
  grace = 0;
  unchanged = 0;
  failures = 0;
  notified = [];
}

unfoldable pub tally : Text → Outcome → Counts → Counts
tally id untouched c = record c { checked = c.checked + 1; unchanged = c.unchanged + 1 }
tally id in_grace c = record c {
  checked = c.checked + 1;
  grace = c.grace + 1;
  notified = c.notified ++ (id ∷ []);
}
tally id over c = record c { checked = c.checked + 1; expired_count = c.expired_count + 1 }
tally id failed c = record c { checked = c.checked + 1; failures = c.failures + 1 }

-- 30 days and 5 days, of domain/subscriptionsession.go.
abbrev pub subscription_ttl : ℕ
subscription_ttl = 2592000000000000

abbrev pub subscription_grace : ℕ
subscription_grace = 432000000000000

abbrev pub outcome_or : Outcome → Result (Unit {0}) → Outcome
outcome_or o (ok _) = o
outcome_or o (err _) = failed

abbrev pub touched : ℕ → Text → SubscriptionSession → SubscriptionSession
touched t tier x = record x {
  last_verified_at = t;
  tier = tier;
  expires_at = t + subscription_ttl;
  grace_until = none;
}

abbrev pub warned : ℕ → SubscriptionSession → SubscriptionSession
warned t x = record x { grace_until = some (t + subscription_grace) }

-- A failed write is logged and counted.
unfoldable pub attempted : Outcome → Exec Db (Unit {0}) → Exec Db Outcome
unfolding attempt ◌>>=◌
attempted o write = do r ← attempt write; pure (outcome_or o r)

module _ (env : Env) (out : Outside) where
  -- The membership is lost: the grace window opens, runs or is over.
  abbrev pub lost : ℕ → SubscriptionSession → Option ℕ → Exec Db Outcome
  lost t x none = attempted in_grace (Sessions.upsert env (warned t x))
  lost t x (some deadline) =
      if ltb t deadline
      then pure untouched
      else attempted over (Sessions.set_status env x.session_id sub_expired)

  unfoldable pub decide : SubscriptionSession → Attested → Exec Db Outcome
  unfolding now attempted is_outside Sessions.upsert Sessions.set_status ◌>>=◌
  decide x a = do
    t ← now env
    (if is_outside a.state
        then lost t x x.grace_until
        else attempted untouched (Sessions.upsert env (touched t a.tier x)))

  abbrev pub after_check : SubscriptionSession → Result Attested → Exec Db Outcome
  after_check x (err _) = pure failed
  after_check x (ok a) = decide x a

  unfoldable pub reconcile_session : SubscriptionSession → Exec Db Outcome
  unfolding attempt attest decide ◌>>=◌
  reconcile_session x = do r ← attempt (attest env out x.stake_credential_hash); after_check x r

  unfoldable pub reconcile_each : List SubscriptionSession → Counts → Exec Db Counts
  unfolding reconcile_session tally ◌>>=◌
  reconcile_each [] c = pure c
  reconcile_each (x ∷ sessions) c = do
    o ← reconcile_session x
    reconcile_each sessions (tally x.session_id o c)

  unfoldable pub reconcile : Text → Exec Db Counts
  unfolding reconcile_each Sessions.list_active ◌>>=◌
  reconcile pool_id = do
    sessions ← Sessions.list_active env pool_id
    reconcile_each sessions no_counts

-- The cursor of `Run`: the last epoch of each network, 0 for a network without one. A network whose
-- source or epoch cannot be had is skipped.
abbrev pub Cursor : Type 0
Cursor = List (Text × ℕ)

unfoldable pub last_epoch : Text → Cursor → ℕ
last_epoch net [] = 0
last_epoch net ((n, e) ∷ cursor) =
    let rest = last_epoch net cursor in if text_eq net n then e else rest

unfoldable pub has_advanced : Cursor → List (Text × Option ℕ) → Bool
has_advanced cursor [] = false
has_advanced cursor ((net, none) ∷ probes) = has_advanced cursor probes
has_advanced cursor ((net, some epoch) ∷ probes) =
    ltb (last_epoch net cursor) epoch || has_advanced cursor probes

-- The epochs of a pass that succeeded.
unfoldable pub commit_epochs : List (Text × Option ℕ) → Cursor → Cursor
commit_epochs [] cursor = cursor
commit_epochs ((net, none) ∷ probes) cursor = commit_epochs probes cursor
commit_epochs ((net, some epoch) ∷ probes) cursor = commit_epochs probes ((net, epoch) ∷ cursor)

module _ (env : Env) (out : Outside) where
  abbrev advance : List (Text × Option ℕ) → Cursor → Result Counts → Cursor
  advance probes cursor (ok _) = commit_epochs probes cursor
  advance probes cursor (err _) = cursor

  -- One round of `Run` after the probes; the cursor stays if the pass fails.
  unfoldable pub poll : Text → List (Text × Option ℕ) → Cursor → Exec Db Cursor
  unfolding attempt reconcile has_advanced commit_epochs ◌>>=◌
  poll pool_id probes cursor =
      let pass = (do r ← attempt (reconcile env out pool_id); pure (advance probes cursor r)) in
      if has_advanced cursor probes then pass else pure cursor
