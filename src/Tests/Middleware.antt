-- ===== src/Tests/Middleware.antt =====
-- Witnesses of the theorems on the middleware and on the cached chain source.
use ouro_pass.Base.{
  ltb, if◌then◌else◌, Text, lit, is_empty, text_eq, ℕ, suc, ◌+◌, ◌-◌, ◌≡◌, refl, ◌⊎◌, Bool, true,
  false, Option, none, some, List, [], ◌∷◌, arith,
}
use ouro_pass.Base.Int.{pos}
use ouro_pass.Go.Maps.{get}
use ouro_pass.Store.Domain.{Db}
use ouro_pass.Store.Exec.{Result, ok, World}
use ouro_pass.Membership.{Snapshot}
use ouro_pass.Membership.Cache.{str_ptr_or_nil, snapshot_to_cache}
use ouro_pass.Membership.Source.{snapshot}
use ouro_pass.Membership.Hits.{Hit, Fetched, snapshot-Served}
use ouro_pass.Membership.Active.{OnlyActive, snapshot-OnlyActive}
use ouro_pass.Http.Idempotency.{Request, Written, scoped}
use ouro_pass.Http.RateLimit.{Client, admit_all, bucket}
use ouro_pass.Http.Replay.{Call, step, serve_all, Until, serve-replays, serve-retries}
use ouro_pass.Http.Buckets.{of_ip, Busy, admit_all-bucket}
use ouro_pass.Tests.{steady, office, start}

-- The handler answers with the number of its runs so far; it fails for an empty content.
abbrev counter : Request → ℕ → Written × ℕ
counter req n = (record { status = if is_empty req.content then 400 else 0; body = n ∷ [] }, suc n)

abbrev call_with : Text → Text → ℕ → Call
call_with key content t = record {
  request = record {
    method = lit "POST";
    path = lit "/api/oauth/token";
    idempotency_key = key;
    caller = lit "x";
    content = content;
  };
  read_at = t;
  saved_at = t + 1;
}

abbrev first : Call
first = call_with (lit "k") (lit "code") 10

abbrev between : List Call
between = call_with (lit "j") (lit "code") 20 ∷ []

abbrev second : Call
second = call_with (lit "k") (lit "other") 40

Until-between : Until 60 counter 40 between
Until-between = (omega arith, omega arith, tt)

serve-replays_example :
    step 60 counter second (serve_all 60 counter between (step 60 counter first ([], 0)).1) ≡ (
      record (step 60 counter first ([], 0)).0 { replayed = true },
      serve_all 60 counter between (step 60 counter first ([], 0)).1,
    )
unfolding get scoped
serve-replays_example =
    serve-replays 60 counter first between second [] 0 refl refl refl refl refl Until-between
      (omega arith)

abbrev failing : Call
failing = call_with (lit "k") [] 10

serve-retries_example :
    ((step 60 counter second (step 60 counter failing ([], 0)).1).0
      ≡ record { status = 200; body = 1 ∷ []; replayed = false })
    × ((step 60 counter second (step 60 counter failing ([], 0)).1).1.1 ≡ 2)
unfolding get scoped
serve-retries_example = serve-retries 60 counter failing second [] 0 refl refl refl refl refl

-- A bucket of tokens that is never filled again.
abbrev spend : ℕ → ℕ → Bool × ℕ
spend n t = (ltb 0 n, n - 1)

abbrev traffic : List (Text × ℕ)
traffic = (lit "b", 1) ∷ (lit "a", 2) ∷ (lit "b", 3) ∷ (lit "a", 4) ∷ []

Busy-traffic : Busy 10 (lit "a") 0 traffic
unfolding text_eq
Busy-traffic = (omega arith, (omega arith, (omega arith, (omega arith, tt))))

nobody : get {V = Client ℕ} (lit "a") [] ≡ none
unfolding get
nobody = refl

admit_all-bucket_example :
    of_ip (lit "a") (admit_all 2 spend 10 ((lit "a", 0) ∷ traffic) [])
    ≡ bucket 2 spend 10 2 (0 ∷ of_ip (lit "a") traffic)
admit_all-bucket_example = admit_all-bucket 2 spend 10 (lit "a") 0 traffic [] nobody Busy-traffic

abbrev delegation : Snapshot
delegation = record {
  stake_credential_hash = lit "ab";
  epoch = 3;
  delegated_pool_id = lit "p";
  active_stake_pool_id = lit "p";
  active_stake_lovelace = lit "5";
  rewards_lovelace = [];
  epochs_delegated = pos 2;
  account_status = lit "registered";
  source = lit "koios";
  fetched_at = 1;
}

abbrev chain_says : ℕ → Text → Option Snapshot
chain_says n sch = some delegation

abbrev served : Result Snapshot × World Db
served = snapshot steady chain_says (lit "preview") (lit "ab") start

served_ok : served ≡ (ok delegation, served.1)
unfolding snapshot text_eq
served_ok = refl

snapshot-Served_example :
    Hit steady (lit "preview") (lit "ab") delegation start served.1
    ⊎ Fetched steady chain_says (lit "preview") (lit "ab") delegation start served.1
snapshot-Served_example =
    snapshot-Served steady chain_says (lit "preview") (lit "ab") delegation start served.1 served_ok

abbrev warm : World Db
warm = record {
  db = record office { snapshots = snapshot_to_cache delegation (lit "preview") 3 ∷ [] };
  tick = 0;
}

warm-OnlyActive : OnlyActive warm.db.snapshots
unfolding snapshot_to_cache str_ptr_or_nil
warm-OnlyActive = (refl, tt)

snapshot-OnlyActive_example :
    OnlyActive (snapshot steady chain_says (lit "preview") (lit "ab") warm).1.db.snapshots
snapshot-OnlyActive_example =
    snapshot-OnlyActive steady chain_says (lit "preview") (lit "ab") warm warm-OnlyActive
