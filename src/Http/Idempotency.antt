-- ===== src/Http/Idempotency.antt =====
-- server/internal/httpapi/middleware/middleware.go: `Idempotency`. A handler is a function of the
-- state behind it; the times are those of the two reads of the clock.
use ouro_pass.Base.{
  ltb, leb, ◌==◌, if◌then◌else◌, select, Text, is_empty, text_eq, ℕ, ◌-◌, Bool, true, false, not,
  ◌&&◌, Option, none, some, List, ◌∷◌, ◌++◌,
}
use ouro_pass.Go.Maps.{get, put}

-- The parts of a request that the middleware or the handler behind it reads.
pub record Request : Type 0 where
  pub method : Text
  pub path : Text
  pub idempotency_key : Text
  pub caller : Text
  pub content : Text

-- What a handler wrote; the status is 0 where it wrote none.
pub record Written : Type 0 where
  pub status : ℕ
  pub body : Text

pub record Response : Type 0 where
  pub status : ℕ
  pub body : Text
  pub replayed : Bool

-- `idempotentResponse`
pub record Saved : Type 0 where
  pub status : ℕ
  pub body : Text
  pub saved_at : ℕ

abbrev pub Cache : Type 0
Cache = List (Text × Saved)

-- `r.Method + " " + r.URL.Path + "\x00" + key`
unfoldable pub scoped : Request → Text
scoped req = req.method ++ (b' ' ∷ (req.path ++ (0 ∷ req.idempotency_key)))

abbrev pub is_expired : ℕ → ℕ → Saved → Bool
is_expired ttl t r = ltb ttl (t - r.saved_at)

-- `delete`, and the sweep of expired entries.
unfoldable pub delete : Text → Cache → Cache
delete key cache = select (λ e. not (text_eq e.0 key)) cache

unfoldable pub sweep : ℕ → ℕ → Cache → Cache
sweep ttl t cache = select (λ e. not (is_expired ttl t e.1)) cache

-- An expired entry is deleted and not found.
abbrev pub if_fresh : ℕ → ℕ → Text → Cache → Option Saved → Option Saved × Cache
if_fresh ttl t key cache none = (none, cache)
if_fresh ttl t key cache (some r) =
    if is_expired ttl t r then (none, delete key cache) else (some r, cache)

unfoldable pub get_saved : ℕ → ℕ → Text → Cache → Option Saved × Cache
unfolding get delete
get_saved ttl t key cache = if_fresh ttl t key cache (get key cache)

unfoldable pub put_saved : ℕ → ℕ → Text → Written → Cache → Cache
unfolding put sweep
put_saved ttl t key out cache =
    put key (record { status = out.status; body = out.body; saved_at = t }) (sweep ttl t cache)

-- `if rec.status == 0`
abbrev pub final_status : ℕ → ℕ
final_status s = if s == 0 then 200 else s

abbrev pub final : Written → Written
final out = record out { status = final_status out.status }

abbrev pub is_success : ℕ → Bool
is_success s = leb 200 s && ltb s 300

abbrev pub response_of : Written → Response
response_of out = record { status = out.status; body = out.body; replayed = false }

abbrev pub replay_of : Saved → Response
replay_of r = record { status = r.status; body = r.body; replayed = true }

module _ {S : Type 0} (ttl : ℕ) (next : Request → S → Written × S) where
  -- After a miss: the handler runs, and a success is saved.
  unfoldable pub run_and_save : ℕ → Request → Cache → S → Response × (Cache × S)
  unfolding put_saved scoped
  run_and_save t1 req cache s =
      let (out, s') = next req s in
      let kept =
        if is_success (final_status out.status)
        then put_saved ttl t1 (scoped req) (final out) cache
        else cache in
      (response_of (final out), (kept, s'))

  abbrev pub pass_through : Request → Cache → S → Response × (Cache × S)
  pass_through req cache s = let (out, s') = next req s in (response_of (final out), (cache, s'))

  abbrev pub replay_or_run : ℕ → Request → Option Saved × Cache → S → Response × (Cache × S)
  replay_or_run t1 req (some r, cache) s = (replay_of r, (cache, s))
  replay_or_run t1 req (none, cache) s = run_and_save t1 req cache s

  -- `Middleware`: the cache is read at the first time and written at the second.
  unfoldable pub serve : ℕ → ℕ → Request → Cache × S → Response × (Cache × S)
  unfolding get_saved run_and_save scoped
  serve t0 t1 req (cache, s) =
      if is_empty req.idempotency_key
      then pass_through req cache s
      else replay_or_run t1 req (get_saved ttl t0 (scoped req) cache) s
