-- ===== src/Pool/Examples.antt =====
-- Runs of the pools of internal/pool.
use cogame.Base.{
  int64, ℕ, ◌≤◌, ◌<◌, refl, [], ◌∷◌, some, length, replicate, All, length-replicate, arith,
}
use cogame.Pool.Generic.{GenericPool, get, put, reset_with}
use cogame.Pool.Clean.{Step, gets, puts, Reach, here, next, pool_yields_clean}
use cogame.Pool.Messages.{
  Message, new_message, new_actor_message, reset_message, set_message_data, message_pool,
  actor_pool,
}
use cogame.Pool.Reuse.{IsBlank}
use cogame.Pool.Total.{gets as buffer_gets, puts as buffer_puts}

abbrev used : Message
used = set_message_data (1 ∷ 2 ∷ []) (record new_message { kind = "chat" })

-- A used message is put into a new pool and got again.
abbrev filled : GenericPool Message
filled = put used (message_pool 4)

filled-Reach : Reach (message_pool 4) filled
filled-Reach = next here (puts used)

abbrev drained : GenericPool Message
drained = record filled { idle = []; gotten = 1 }

filled-Step : Step filled (some (reset_message used)) drained
unfolding get put message_pool
filled-Step = gets (reset_message used) drained refl

IsBlank-reset_with : (x : Message) → IsBlank (reset_with (some reset_message) x)
unfolding reset_message
IsBlank-reset_with x = (refl, refl, ground arith)

pool_yields_clean_example :
    IsBlank (reset_message used) × All IsBlank drained.idle × (length drained.idle ≤ 4)
unfolding message_pool
pool_yields_clean_example =
    pool_yields_clean IsBlank 4 new_message (some reset_message) (refl, refl, refl)
      IsBlank-reset_with filled drained (reset_message used) filled-Reach filled-Step

actor_pool-Step :
    Step (actor_pool 2) (some new_actor_message) (record (actor_pool 2) { created = 1; gotten = 1 })
unfolding get actor_pool int64
actor_pool-Step = gets new_actor_message (record (actor_pool 2) { created = 1; gotten = 1 }) refl

long_payload : 4096 < length (replicate {A = ℕ} 5000 0)
long_payload = omega (arith, length-replicate {A = ℕ} 5000 0)
