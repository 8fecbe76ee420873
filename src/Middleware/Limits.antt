-- ===== src/Middleware/Limits.antt =====
-- internal/middleware/middleware.go: `RateLimiter` and `RateLimitMiddleware`. The token bucket of
-- golang.org/x/time/rate is a parameter.
use chat2sql.Prelude.{
  ℕ, ◌-◌, Bool, List, [], ◌∷◌, ◌++◌, Bytes, codes, ℤ, pos, Dict, text_key, lookup, insert, value_or,
  if◌then◌else◌, ltb, is_empty,
}
use chat2sql.Middleware.Context.{Request, Context, Answer, next, abort, rate_limit_exceeded}

pub record Limiting : Type 1 where
  pub Bucket : Type 0
  -- the rate and the burst
  pub new_limiter : ℤ → ℤ → Bucket
  -- the time
  pub allow : ℕ → Bucket → Bool × Bucket

pub record RateLimitConfig : Type 0 where
  pub requests_per_second : ℤ
  pub burst : ℤ
  pub cleanup_interval : ℕ

abbrev pub default_rate_limit : RateLimitConfig
default_rate_limit = record {
  requests_per_second = pos 100;
  burst = pos 200;
  cleanup_interval = 300_000_000_000;
}

-- A user header decides the key where there is one, and else the address.
unfoldable pub limit_key : Request → Bytes
limit_key request =
    if is_empty request.x_user_id
    then codes "ip:" ++ request.client_ip
    else codes "user:" ++ request.x_user_id

module _ (L : Limiting) where
  pub record RateLimiter : Type 0 where
    pub limiters : Dict Bytes L.Bucket
    pub rate : ℤ
    pub burst : ℤ
    pub cleanup_interval : ℕ
    pub last_cleanup : ℕ

  unfoldable pub new_rate_limiter : RateLimitConfig → ℕ → RateLimiter
  new_rate_limiter config now = record {
    limiters = [];
    rate = config.requests_per_second;
    burst = config.burst;
    cleanup_interval = config.cleanup_interval;
    last_cleanup = now;
  }

  -- The cleanup keeps every limiter.
  unfoldable pub cleanup : RateLimiter → ℕ → RateLimiter
  cleanup rl now =
      if ltb (now - rl.last_cleanup) rl.cleanup_interval
      then rl
      else record rl { last_cleanup = now }

  abbrev pub limiter_for : RateLimiter → Bytes → L.Bucket
  limiter_for rl key = value_or (L.new_limiter rl.rate rl.burst) (lookup key rl.limiters)

  unfoldable pub allow : RateLimiter → Bytes → ℕ → Bool × RateLimiter
  unfolding cleanup insert lookup
  allow rl key now =
      let cleaned = cleanup rl now in
      let (allowed, bucket) = L.allow now (limiter_for cleaned key) in
      (allowed, record cleaned { limiters = insert key bucket cleaned.limiters })

  unfoldable pub rate_limit_middleware : RateLimiter → Request → ℕ → Context → Answer × RateLimiter
  unfolding allow limit_key
  rate_limit_middleware rl request now ctx =
      let (allowed, after) = allow rl (limit_key request) now in
      ((if allowed then next ctx else abort rate_limit_exceeded ctx), after)

  -- The requests of a run, each with its time, and how each was answered.
  abbrev pub allow_all : RateLimiter → List (Bytes × ℕ) → List (Bytes × Bool)
  allow_all rl [] = []
  allow_all rl ((key, now) ∷ requests) =
      let (allowed, after) = allow rl key now in (key, allowed) ∷ allow_all after requests
