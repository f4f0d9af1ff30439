-- ===== src/Cache/Locks.antt =====
-- internal/cache/redis.go: Lock and Unlock of RedisManager. The Redis client is a parameter, with what
-- its documentation says of SET with NX and an expiry, and of DEL.
use Prim.Native.String.{◌++◌ as str_append}
use cogame.Base.{ℕ, ◌<◌, String, Bool, true, false, not, ◌≡◌}

-- The calls that the locks make, and the passing of time. Durations are numbers of one unit; the
-- calls have no error.
pub record LockClient : Type 1 where
  pub World : Type 0
  pub set_nx : String → ℕ → World → Bool × World
  pub del : String → World → World
  pub passes : ℕ → World → World

-- SetNX sets a key that is not there, and says whether it did. A key that was set with an expiration
-- which is not 0 goes after that time.
pub record LockLaws (c : LockClient) : Type 0 where
  pub has : c.World → String → Bool
  pub set_nx-has : (k : String) (e : ℕ) (w : c.World) → (c.set_nx k e w).0 ≡ not (has w k)
  pub has-set_nx : (k : String) (e : ℕ) (w : c.World) → has (c.set_nx k e w).1 k ≡ true
  pub has-del : (k : String) (w : c.World) → has (c.del k w) k ≡ false
  pub has-passes :
      (k : String) (e : ℕ) (w : c.World)
      → has w k ≡ false
      → 0 < e
      → has (c.passes e (c.set_nx k e w).1) k ≡ false

abbrev pub lock_key : String → String
lock_key key = str_append "lock:" key

module _ (c : LockClient) where
  open c use {World}

  unfoldable pub lock : String → ℕ → World → Bool × World
  lock key expiration w = c.set_nx (lock_key key) expiration w

  unfoldable pub unlock : String → World → World
  unlock key w = c.del (lock_key key) w
