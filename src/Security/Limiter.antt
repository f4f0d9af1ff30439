-- ===== src/Security/Limiter.antt =====
-- internal/security/limiter.go: RateLimitManager. Its token buckets are those of
-- golang.org/x/time/rate, a parameter. Times are nanoseconds; the clock is an argument of each
-- call, read once where the code reads it twice.
use cogame.Base.{
  ℕ, ◌-◌, ltb, String, Bool, not, ◌||◌, ◌==◌, List, [], ◌∷◌, none, some, if◌then◌else◌,
}
use cogame.Base.Dict

-- rate.Limiter and rate.Limit; `allow` takes the time at which it is called.
pub record TokenBuckets : Type 1 where
  pub Rate : Type 0
  pub same_rate : Rate → Rate → Bool
  pub Bucket : Type 0
  pub new_limiter : Rate → ℕ → ℕ → Bucket
  pub allow : ℕ → Bucket → Bool × Bucket
  pub set_limit : Rate → ℕ → Bucket → Bucket
  pub set_burst : ℕ → ℕ → Bucket → Bucket

module _ (t : TokenBuckets) where
  open t use {Rate, Bucket}

  -- RateLimiter
  pub record RateLimiter : Type 0 where
    pub limiter : Bucket
    pub rate : Rate
    pub burst : ℕ
    pub last_request : ℕ

  -- The field `limiters` of RateLimitManager.
  abbrev pub Limiters : Type 0
  Limiters = List (String × RateLimiter)

  -- `limiter.Allow()`, and the time of the last request if it was allowed.
  unfoldable pub take_token : ℕ → RateLimiter → Bool × RateLimiter
  take_token now b =
      let (allowed, limiter) = t.allow now b.limiter in
      (
        allowed,
        record b { limiter = limiter; last_request = if allowed then now else b.last_request },
      )

  unfoldable pub new_bucket : Rate → ℕ → ℕ → RateLimiter
  new_bucket r burst now = record {
    limiter = t.new_limiter r burst now;
    rate = r;
    burst = burst;
    last_request = now;
  }

  -- A bucket whose rate or burst is not the one asked for is changed.
  unfoldable pub adjust : Rate → ℕ → ℕ → RateLimiter → RateLimiter
  adjust r burst now b =
      if not (t.same_rate b.rate r) || not (b.burst == burst)
      then record b {
        rate = r;
        burst = burst;
        limiter = t.set_burst burst now (t.set_limit r now b.limiter);
      }
      else b

  -- The bucket of the key, made or adjusted.
  unfoldable pub bucket_for : String → Rate → ℕ → ℕ → Limiters → RateLimiter
  unfolding new_bucket adjust
  bucket_for key r burst now m = elim (Dict.lookup key m) [
    | none ↦ new_bucket r burst now
    | some b ↦ adjust r burst now b
  ]

  unfoldable pub check_limit : String → Rate → ℕ → ℕ → Limiters → Bool × Limiters
  unfolding bucket_for take_token
  check_limit key r burst now m =
      let (allowed, bucket) = take_token now (bucket_for key r burst now m) in
      (allowed, Dict.insert key bucket m)

  -- An hour, in nanoseconds.
  abbrev pub expiry : ℕ
  expiry = 3600000000000

  -- now.Sub(lastRequest) > expiry
  unfoldable pub is_expired : ℕ → RateLimiter → Bool
  is_expired now b = ltb expiry (now - b.last_request)

  unfoldable pub cleanup_expired_buckets : ℕ → Limiters → Limiters
  unfolding is_expired
  cleanup_expired_buckets now [] = []
  cleanup_expired_buckets now ((key, b) ∷ m) =
      if is_expired now b
      then cleanup_expired_buckets now m
      else (key, b) ∷ cleanup_expired_buckets now m
