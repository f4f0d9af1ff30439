-- ===== src/Security/Keys.antt =====
-- The limiters of internal/security/limiter.go, key by key.
use cogame.Base.{
  ℕ, ◌+◌, ◌-◌, ltb, String, Bool, true, false, List, [], ◌∷◌, none, some, str_eq, eq_iff,
  if◌then◌else◌, ◌≡◌, refl, ◌∙◌, subst, Bool-cases, inl, inr, arith,
}
use cogame.Base.Dict
use cogame.Security.Limiter.{
  TokenBuckets, RateLimiter, Limiters, take_token, bucket_for, check_limit, cleanup_expired_buckets,
}

module _ (t : TokenBuckets) where
  open t use {Rate}

  bucket_for-rate :
      (key : String) (r : Rate) (burst now : ℕ) (m : Limiters t)
      → ((x : Rate) → t.same_rate x x ≡ true)
      → (t.same_rate (bucket_for t key r burst now m).rate r ≡ true)
        × ((bucket_for t key r burst now m).burst ≡ burst)
  unfolding bucket_for
  bucket_for-rate key r burst now m same = (ground (arith, same r), ground arith)

  -- A bucket that is new, or the stored one with its time.
  bucket_for-last_request :
      (key : String) (r : Rate) (burst now : ℕ) (m : Limiters t)
      → (bucket_for t key r burst now m).last_request
        ≡ elim (Dict.lookup key m) [ none ↦ now | some b ↦ b.last_request ]
  unfolding bucket_for
  bucket_for-last_request key r burst now m = ground arith

  -- CheckLimit stores a bucket under its key that has the rate and the burst asked for (the rate
  -- as far as `!=` tells rates apart), whose last request is now if the request was allowed and
  -- is as before, or now for a new bucket, if not; the buckets of other keys are as they were.
  pub check_limit-bucket :
      (key : String) (r : Rate) (burst now : ℕ) (m : Limiters t)
      → ((x : Rate) → t.same_rate x x ≡ true)
      → (b : RateLimiter t) × (Dict.lookup key (check_limit t key r burst now m).1 ≡ some b)
        × (t.same_rate b.rate r ≡ true)
        × (b.burst ≡ burst)
        × (b.last_request ≡ (
            if (check_limit t key r burst now m).0
            then now
            else elim (Dict.lookup key m) [ none ↦ now | some old ↦ old.last_request ]))
        × ((j : String)
            → str_eq key j ≡ false
            → Dict.lookup j (check_limit t key r burst now m).1 ≡ Dict.lookup j m)
  unfolding check_limit
  check_limit-bucket key r burst now m same =
      let b = bucket_for t key r burst now m in
      let b' = (take_token t now b).1 in
      let (rate, size) = bucket_for-rate key r burst now m same in
      (
        b',
        Dict.lookup-insert key key b' m ∙ rw ((eq_iff key key).1 refl) refl,
        rate,
        size,
        rw (bucket_for-last_request key r burst now m) refl,
        λ j h. Dict.lookup-insert key j b' m ∙ rw h refl,
      )

  pub check_limit-IsMap :
      (key : String) (r : Rate) (burst now : ℕ) (m : Limiters t)
      → Dict.IsMap m
      → Dict.IsMap (check_limit t key r burst now m).1
  unfolding check_limit
  check_limit-IsMap key r burst now m h = Dict.insert-IsMap key _ m h

  -- The cleanup drops exactly the buckets whose last request is more than an hour ago, and leaves
  -- the others as they are, in a map that holds no key twice.
  pub lookup-cleanup_expired_buckets :
      (now : ℕ) (m : Limiters t) (j : String)
      → Dict.IsMap m
      → Dict.lookup j (cleanup_expired_buckets t now m) ≡ elim (Dict.lookup j m) [
        | none ↦ none
        | some b ↦ if ltb 3600000000000 (now - b.last_request) then none else some b
      ]
  unfolding cleanup_expired_buckets Dict.lookup
  lookup-cleanup_expired_buckets now [] j h = refl
  lookup-cleanup_expired_buckets now ((key, b) ∷ m) j h = elim (Bool-cases (str_eq key j)) [
    | inl hit ↦
        let e : key ≡ j = (eq_iff key j).0 hit in
        let rest = lookup-cleanup_expired_buckets now m j h.1 in
        let absent : Dict.lookup j m ≡ none = subst (λ k. Dict.lookup k m ≡ none) e h.0 in
        ground (arith, hit, rest, absent)
    | inr miss ↦ ground (arith, miss, lookup-cleanup_expired_buckets now m j h.1)
  ]

  -- Of n calls with one key, how many were allowed; the times of the calls are a list.
  unfoldable pub count_allowed : String → Rate → ℕ → List ℕ → Limiters t → ℕ
  count_allowed key r burst [] m = 0
  count_allowed key r burst (now ∷ times) m =
      let (allowed, m') = check_limit t key r burst now m in
      (if allowed then 1 else 0) + count_allowed key r burst times m'

  -- What the documentation says of a limiter that never refills: it starts with its burst of
  -- tokens, and each Allow takes one while there is one.
  pub record NeverRefills (r : Rate) : Type 1 where
    pub AtRate : t.Bucket → Type 0
    pub new_limiter-AtRate : (burst now : ℕ) → AtRate (t.new_limiter r burst now)
    pub allow-AtRate : (now : ℕ) (b : t.Bucket) → AtRate b → AtRate (t.allow now b).1
    pub tokens : t.Bucket → ℕ
    pub tokens-new_limiter : (burst now : ℕ) → tokens (t.new_limiter r burst now) ≡ burst
    pub allow-tokens :
        (now : ℕ) (b : t.Bucket)
        → AtRate b
        → ((t.allow now b).0 ≡ ltb 0 (tokens b)) × (tokens (t.allow now b).1 ≡ tokens b - 1)

  -- One call with a stored bucket: it takes a token if there is one.
  record Taken (key : String) (r : Rate) (burst : ℕ) (law : NeverRefills r) (left : ℕ)
      (res : Bool × Limiters t) : Type 0 where
    bucket : RateLimiter t
    stored : Dict.lookup key res.1 ≡ some bucket
    at_rate : bucket.rate ≡ r
    at_burst : bucket.burst ≡ burst
    allowed : res.0 ≡ ltb 0 left
    fewer : law.tokens bucket.limiter ≡ left - 1
    still : law.AtRate bucket.limiter
