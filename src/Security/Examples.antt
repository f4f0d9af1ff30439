-- ===== src/Security/Examples.antt =====
-- Runs of the limiters of internal/security/limiter.go.
use Prim.Native.Nat.{min}
use cogame.Base.{ℕ, ◌-◌, ltb, ◌==◌, refl}
use cogame.Base.Dict
use cogame.Security.Limiter.{TokenBuckets}
use cogame.Security.Keys.{NeverRefills}

-- A bucket is its tokens; it never refills.
abbrev pub counting : TokenBuckets
counting = record {
  Rate = ℕ;
  same_rate = λ a b. a == b;
  Bucket = ℕ;
  new_limiter = λ r burst now. burst;
  allow = λ now b. (ltb 0 b, b - 1);
  set_limit = λ r now b. b;
  set_burst = λ burst now b. min b burst;
}

abbrev counting_never_refills : NeverRefills counting 0
counting_never_refills = record {
  AtRate = λ b. Unit {0};
  new_limiter-AtRate = λ burst now. tt;
  allow-AtRate = λ now b h. tt;
  tokens = λ b. b;
  tokens-new_limiter = λ burst now. refl;
  allow-tokens = λ now b h. (refl, refl);
}
