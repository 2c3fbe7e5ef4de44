-- ===== src/Http/Replay.antt =====
-- What a repeated Idempotency-Key is answered: server/internal/httpapi/middleware/middleware.go.
use ouro_pass.Base.{
  Bool-cases, Text, is_empty, text_eq, text_eq_refl, ℕ, ◌-◌, ◌≤◌, ◌≡◌, refl, sym, ap, ◌∙◌, inl, inr,
  true, false, Option, none, some, List, [], ◌∷◌, arith,
}
use ouro_pass.Go.Maps.{get, get-put}
use ouro_pass.Http.Idempotency.{
  Request, Written, Response, Saved, Cache, scoped, is_expired, sweep, get_saved, put_saved,
  final_status, final, is_success, response_of, replay_of, run_and_save, replay_or_run, serve,
}
use ouro_pass.Http.Entries.{get-sweep, within-fresh, get_saved-hit, get_saved-keeps}

module _ {S : Type 0} (ttl : ℕ) (next : Request → S → Written × S) where
  run-keeps :
      (t1 : ℕ) (req : Request) (key : Text) (r : Saved) (cache : Cache) (s : S)
      → get key cache ≡ some r
      → is_expired ttl t1 r ≡ false
      → text_eq (scoped req) key ≡ false
      → get key (run_and_save ttl next t1 req cache s).1.0 ≡ some r
  unfolding run_and_save put_saved
  run-keeps t1 req key r cache s h fresh other =
      elim (Bool-cases (is_success (final_status (next req s).0.status))) [
        | inl good ↦ rw good (
            get-put (scoped req) key _ (sweep ttl t1 cache)
            ∙ rw other (get-sweep ttl t1 key r cache h fresh))
        | inr bad ↦ rw bad h
      ]

  after_read :
      (t1 : ℕ) (req : Request) (key : Text) (r : Saved) (x : Option Saved × Cache) (s : S)
      → get key x.1 ≡ some r
      → is_expired ttl t1 r ≡ false
      → ((x.0 ≡ none) → text_eq (scoped req) key ≡ false)
      → get key (replay_or_run ttl next t1 req x s).1.0 ≡ some r
  after_read t1 req key r (some q, cache) s h fresh other = h
  after_read t1 req key r (none, cache) s h fresh other =
      run-keeps t1 req key r cache s h fresh (other refl)

-- A request with the times at which the cache is read and written for it.
pub record Call : Type 0 where
  pub request : Request
  pub read_at : ℕ
  pub saved_at : ℕ

module _ {S : Type 0} (ttl : ℕ) (next : Request → S → Written × S) where
  abbrev pub step : Call → Cache × S → Response × (Cache × S)
  step c st = serve ttl next c.read_at c.saved_at c.request st

  unfoldable pub serve_all : List Call → Cache × S → Cache × S
  unfolding serve
  serve_all [] st = st
  serve_all (c ∷ calls) st = serve_all calls (step c st).1

  -- No request, of the key or of another, changes an entry that has not expired.
  serve-keeps :
      (c : Call) (key : Text) (r : Saved) (cache : Cache) (s : S)
      → get key cache ≡ some r
      → c.read_at ≤ c.saved_at
      → c.saved_at - r.saved_at ≤ ttl
      → get key (step c (cache, s)).1.0 ≡ some r
  unfolding serve
  serve-keeps c key r cache s h order within =
      elim (Bool-cases (is_empty c.request.idempotency_key)) [
        | inl plain ↦ rw plain h
        | inr keyed ↦
            let (kept, miss) =
              get_saved-keeps ttl c.read_at (scoped c.request) key r cache h
                (within-fresh ttl c.read_at r (omega arith)) in
            rw keyed (
              after_read ttl next c.saved_at c.request key r
                (get_saved ttl c.read_at (scoped c.request) cache) s kept
                (within-fresh ttl c.saved_at r within) miss)
      ]

  -- Each call reads the clock before it saves, and none saves later than `end`.
  abbrev pub Until : ℕ → List Call → Type 0
  Until end [] = Unit
  Until end (c ∷ calls) = (c.read_at ≤ c.saved_at) × (c.saved_at ≤ end) × Until end calls

  serve_all-keeps :
      (calls : List Call) (end : ℕ) (key : Text) (r : Saved) (cache : Cache) (s : S)
      → get key cache ≡ some r
      → Until end calls
      → end - r.saved_at ≤ ttl
      → get key (serve_all calls (cache, s)).0 ≡ some r
  unfolding serve_all
  serve_all-keeps [] end key r cache s h ordered within = h
  serve_all-keeps (c ∷ calls) end key r cache s h ordered within =
      serve_all-keeps calls end key r (step c (cache, s)).1.0 (step c (cache, s)).1.1
        (serve-keeps c key r cache s h ordered.0 (omega arith)) ordered.2 within

  abbrev entry : Call → S → Saved
  entry c s = record {
    status = final_status (next c.request s).0.status;
    body = (next c.request s).0.body;
    saved_at = c.saved_at;
  }

  step-missed :
      (c : Call) (cache : Cache) (s : S)
      → is_empty c.request.idempotency_key ≡ false
      → get (scoped c.request) cache ≡ none
      → step c (cache, s) ≡ run_and_save ttl next c.saved_at c.request cache s
  unfolding serve get_saved
  step-missed c cache s keyed new = rw keyed (rw new)

  step-found :
      (c : Call) (r : Saved) (cache : Cache) (s : S)
      → is_empty c.request.idempotency_key ≡ false
      → get (scoped c.request) cache ≡ some r
      → c.read_at - r.saved_at ≤ ttl
      → step c (cache, s) ≡ (replay_of r, (cache, s))
  unfolding serve
  step-found c r cache s keyed there within = rw keyed (
      rw (
        get_saved-hit ttl c.read_at (scoped c.request) r cache there
          (within-fresh ttl c.read_at r within)))

  saved-first :
      (c : Call) (cache : Cache) (s : S)
      → is_success (final_status (next c.request s).0.status) ≡ true
      → ((run_and_save ttl next c.saved_at c.request cache s).0
          ≡ response_of (final (next c.request s).0))
        × (get (scoped c.request) (run_and_save ttl next c.saved_at c.request cache s).1.0
            ≡ some (entry c s))
  unfolding run_and_save put_saved
  saved-first c cache s good = rw good (
    refl,
    get-put (scoped c.request) (scoped c.request) (entry c s) (sweep ttl c.saved_at cache)
        ∙ rw (text_eq_refl (scoped c.request)) refl,
  )

  -- A request that was answered with a success, under an Idempotency-Key that had no entry: within
  -- the life of the entry, and whatever other requests come between, a request with the same method,
  -- path and key, from any caller and with any content, is answered with the same status and body,
  -- marked as replayed, and the handler does not run.
  pub serve-replays :
      (c : Call) (calls : List Call) (again : Call) (cache : Cache) (s : S)
      → is_empty c.request.idempotency_key ≡ false
      → get (scoped c.request) cache ≡ none
      → is_success (final_status (next c.request s).0.status) ≡ true
      → scoped again.request ≡ scoped c.request
      → is_empty again.request.idempotency_key ≡ false
      → Until again.read_at calls
      → again.read_at - c.saved_at ≤ ttl
      → step again (serve_all calls (step c (cache, s)).1)
        ≡ (record (step c (cache, s)).0 { replayed = true }, serve_all calls (step c (cache, s)).1)
  serve-replays c calls again cache s keyed new good same keyed' ordered within =
      let run = step-missed c cache s keyed new in
      let (answer, stored) = saved-first c cache s good in
      let first : get (scoped c.request) (step c (cache, s)).1.0 ≡ some (entry c s) =
        rw run stored in
      let st = serve_all calls (step c (cache, s)).1 in
      let later : get (scoped again.request) st.0 ≡ some (entry c s) = rw same (
        serve_all-keeps calls again.read_at (scoped c.request) (entry c s) (step c (cache, s)).1.0
          (step c (cache, s)).1.1 first ordered within) in
      step-found again (entry c s) st.0 st.1 keyed' later within ∙ (λ i. (
        record ((sym answer ∙ ap (λ (x : Response × (Cache × S)). x.0) (sym run)) i) {
          replayed = true;
        },
        st,
      ))

  -- A request under an Idempotency-Key that had no entry, whose answer is no success: the next request
  -- with the same method, path and key is answered by the handler, run on the state that the first
  -- run left, and not from the cache.
  pub serve-retries :
      (c again : Call) (cache : Cache) (s : S)
      → is_empty c.request.idempotency_key ≡ false
      → get (scoped c.request) cache ≡ none
      → is_success (final_status (next c.request s).0.status) ≡ false
      → scoped again.request ≡ scoped c.request
      → is_empty again.request.idempotency_key ≡ false
      → ((step again (step c (cache, s)).1).0
          ≡ response_of (final (next again.request (next c.request s).1).0))
        × ((step again (step c (cache, s)).1).1.1 ≡ (next again.request (next c.request s).1).1)
  unfolding run_and_save
  serve-retries c again cache s keyed new bad same keyed' =
      let run : step c (cache, s)
          ≡ (response_of (final (next c.request s).0), (cache, (next c.request s).1)) =
        step-missed c cache s keyed new ∙ rw bad refl in
      rw run (rw (step-missed again cache (next c.request s).1 keyed' (rw same new)) (refl, refl))
