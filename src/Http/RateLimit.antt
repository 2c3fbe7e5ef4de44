-- ===== src/Http/RateLimit.antt =====
-- server/internal/httpapi/middleware/middleware.go: `IPRateLimiter`. The token bucket of the rate
-- library is a parameter: a fresh one, and its decision at a time with the bucket after it.
use ouro_pass.Base.{ltb, select, Text, ℕ, ◌-◌, Bool, not, Option, none, some, List, [], ◌∷◌}
use ouro_pass.Go.Maps.{get, put}

-- `clientLimiter`
pub record Client (L : Type 0) : Type 0 where
  pub limiter : L
  pub last_seen : ℕ

module _ {L : Type 0} (new_limiter : L) (allow : L → ℕ → Bool × L) (ttl : ℕ) where
  abbrev pub limiter_or_new : Option (Client L) → L
  limiter_or_new none = new_limiter
  limiter_or_new (some c) = c.limiter

  abbrev pub is_stale : ℕ → Client L → Bool
  is_stale t c = ltb ttl (t - c.last_seen)

  unfoldable pub evict : ℕ → List (Text × Client L) → List (Text × Client L)
  evict t clients = select (λ e. not (is_stale t e.1)) clients

  -- `limiterFor`: the client's bucket, made if it has none, and the clients after the eviction.
  unfoldable pub limiter_for : Text → ℕ → List (Text × Client L) → L × List (Text × Client L)
  unfolding evict get put
  limiter_for ip t clients =
      let l = limiter_or_new (get ip clients) in
      (l, evict t (put ip (record { limiter = l; last_seen = t }) clients))

  -- `Middleware`: the request passes if the bucket allows it. The bucket is shared with the map, so
  -- what `Allow` takes out of it is seen there.
  unfoldable pub admit : Text → ℕ → List (Text × Client L) → Bool × List (Text × Client L)
  unfolding limiter_for
  admit ip t clients =
      let (l, kept) = limiter_for ip t clients in
      let (passes, l') = allow l t in (passes, put ip (record { limiter = l'; last_seen = t }) kept)

  unfoldable pub admit_all : List (Text × ℕ) → List (Text × Client L) → List (Text × Bool)
  unfolding admit
  admit_all [] clients = []
  admit_all ((ip, t) ∷ calls) clients =
      let (passes, after) = admit ip t clients in (ip, passes) ∷ admit_all calls after

  -- One bucket alone, asked at each time.
  unfoldable pub bucket : L → List ℕ → List Bool
  bucket l [] = []
  bucket l (t ∷ times) = let (passes, l') = allow l t in passes ∷ bucket l' times
