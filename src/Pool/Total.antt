-- ===== src/Pool/Total.antt =====
-- GetBuffer and PutBuffer of internal/pool/byte_buffer_pool.go succeed after any calls.
use cogame.Base.{ℕ, ◌≤◌, ◌≡◌, List, [], ◌∷◌, Option, none, some, length}
use cogame.Pool.Buffers.{Buffer, ByteBufferPool, get_buffer, put_buffer}
use cogame.Pool.Sizes.{IsBuffers}

-- What GetBuffer gives: no panic, the length asked for within the array, and a good pool.
abbrev pub Gives : ℕ → Option (Buffer × ByteBufferPool) → Type 0
Gives size none = ⊥
Gives size (some (buf, q)) = (buf.len ≡ size) × (size ≤ length buf.array) × IsBuffers q

abbrev pub Accepts : Option ByteBufferPool → Type 0
Accepts none = ⊥
Accepts (some q) = IsBuffers q

pub data Call : Type 0 where
  gets : ℕ → ℕ → Call
  puts : Buffer → Call

abbrev pub drop_buffer : Option (Buffer × ByteBufferPool) → Option ByteBufferPool
drop_buffer none = none
drop_buffer (some (buf, q)) = some q

unfoldable pub call : Call → ByteBufferPool → Option ByteBufferPool
call (gets choice size) p = drop_buffer (get_buffer choice size p)
call (puts buf) p = put_buffer buf p

-- `none` as soon as one call panics.
unfoldable pub run : Option ByteBufferPool → List Call → Option ByteBufferPool
run p [] = p
run none (c ∷ cs) = none
run (some p) (c ∷ cs) = run (call c p) cs
