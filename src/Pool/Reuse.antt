-- ===== src/Pool/Reuse.antt =====
-- Reuse of the messages of internal/pool/message_pool.go and actor_pool.go.
use cogame.Base.{ℕ, ◌≤◌, ◌<◌, ◌≡◌, refl, List, [], length, some, arith}
use cogame.Pool.Generic.{GenericPool}
use cogame.Pool.Clean.{Step, Reach, pool_yields_clean}
use cogame.Pool.Messages.{
  IsSlice, Message, ActorMessage, reset_message, set_message_data, message_pool, new_message,
  new_actor_message, reset_actor_message, actor_pool,
}

-- A message with nothing of its last use that its fields show.
abbrev pub IsBlank : Message → Type 0
IsBlank m = (m.kind ≡ "") × (m.contents.bytes ≡ []) × (m.buf.bytes ≡ [])

abbrev pub IsBlankActor : ActorMessage → Type 0
IsBlankActor m =
    (m.id ≡ "")
    × (m.kind ≡ "")
    × (m.from ≡ "")
    × (m.to ≡ "")
    × (m.contents.bytes ≡ [])
    × (m.callback ≡ 0)
    × (m.buf.bytes ≡ [])

reset_message-IsBlank : (m : Message) → IsBlank (reset_message m)
unfolding reset_message
reset_message-IsBlank m = (refl, refl, ground arith)

reset_actor_message-IsBlank : (m : ActorMessage) → IsBlankActor (reset_actor_message m)
unfolding reset_actor_message
reset_actor_message-IsBlank m = (refl, refl, refl, refl, refl, refl, refl)

-- Every message that the message pool hands out, after any history of its use, is blank.
pub message_pool-IsBlank :
    (n : ℕ) (p q : GenericPool Message) (m : Message)
    → Reach (message_pool n) p
    → Step p (some m) q
    → IsBlank m
unfolding message_pool
message_pool-IsBlank n p q m r s =
    (pool_yields_clean IsBlank n new_message (some reset_message) (refl, refl, refl)
      reset_message-IsBlank p q m r s).0

-- The same of the pool of actor messages: no id, type, sender, receiver, data or callback is left.
pub actor_pool-IsBlankActor :
    (n : ℕ) (p q : GenericPool ActorMessage) (m : ActorMessage)
    → Reach (actor_pool n) p
    → Step p (some m) q
    → IsBlankActor m
unfolding actor_pool
actor_pool-IsBlankActor n p q m r s =
    (pool_yields_clean IsBlankActor n new_actor_message (some reset_actor_message)
      (refl, refl, refl, refl, refl, refl, refl) reset_actor_message-IsBlank p q m r s).0

-- The bytes that SetData is given are the message's data, whatever buffer the message brings from
-- an earlier use, and the buffer holds them; a buffer that is large enough is kept.
pub set_message_data-contents :
    (payload : List ℕ) (m : Message)
    → ((set_message_data payload m).contents.bytes ≡ payload)
      × IsSlice (set_message_data payload m).buf
      × (m.buf.capacity ≤ (set_message_data payload m).buf.capacity)
      × ((set_message_data payload m).kind ≡ m.kind)
unfolding set_message_data
set_message_data-contents payload m = (refl, ground arith, ground arith, refl)

-- A buffer that grew over 4096 bytes is kept by Reset, against what Reset is meant to do, when the
-- last payload was of 4096 bytes at most.
pub reset_message-keeps_large :
    (large small : List ℕ) (m : Message)
    → 4096 < length large
    → length small ≤ 4096
    → 4096 < (reset_message (set_message_data small (set_message_data large m))).buf.capacity
unfolding reset_message set_message_data
reset_message-keeps_large large small m h k = ground arith
