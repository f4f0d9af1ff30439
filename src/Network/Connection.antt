-- ===== src/Network/Connection.antt =====
-- internal/network/tcp_conn.go: Connection. Its read and write buffers, which nothing uses, are left
-- out. A net.Conn is the bytes that arrive on it, cut as they arrive, and what was written to it.
use cogame.Base.{
  ℕ, ◌-◌, ◌==◌, String, Bool, true, false, ◌&&◌, List, [], ◌∷◌, ◌++◌, Option, none, some, length,
  replicate, if◌then◌else◌, take, drop, map_option,
}

-- `incoming` ends where a read fails: at the end of the stream or at the deadline.
pub record Wire : Type 0 where
  pub incoming : List (List ℕ)
  pub written : List (List ℕ)
  pub writable : Bool
  pub opened : Bool

pub record Connection : Type 0 where
  pub id : ℕ
  pub user_id : ℕ
  pub session_id : String
  pub last_activity : ℕ
  pub closed : ℕ
  pub wire : Wire

-- What is left of a segment after a read.
abbrev pub left_over : List ℕ → List (List ℕ) → List (List ℕ)
left_over [] segments = segments
left_over (b ∷ bs) segments = (b ∷ bs) ∷ segments

-- The bytes of one net.Conn.Read into n bytes: no more than the segment that is there holds.
unfoldable pub receive_bytes : ℕ → List (List ℕ) → Option (List ℕ × List (List ℕ))
receive_bytes n [] = none
receive_bytes n ([] ∷ segments) = receive_bytes n segments
receive_bytes n ((b ∷ bs) ∷ segments) = some (take n (b ∷ bs), left_over (drop n (b ∷ bs)) segments)

unfoldable pub wire_read : ℕ → Wire → Option (List ℕ) × Wire
unfolding receive_bytes
wire_read n w =
    if w.opened
    then elim (receive_bytes n w.incoming) [
      | none ↦ (none, w)
      | some (bytes, rest) ↦ (some bytes, record w { incoming = rest })
    ]
    else (none, w)

-- A buffer of n bytes after a read into it.
abbrev pub buffer : ℕ → List ℕ → List ℕ
buffer n bytes = bytes ++ replicate (n - length bytes) 0

unfoldable pub new_connection : ℕ → Wire → ℕ → Connection
new_connection id wire now = record {
  id = id;
  user_id = 0;
  session_id = "";
  last_activity = now;
  closed = 0;
  wire = wire;
}

unfoldable pub is_closed : Connection → Bool
is_closed c = c.closed == 1

-- Whether there was no error, and the connection after it.
unfoldable pub write : ℕ → List ℕ → Connection → Bool × Connection
unfolding is_closed
write now bytes c =
    if is_closed c
    then (false, c)
    else if c.wire.opened && c.wire.writable
    then (
      true,
      record c {
        last_activity = now;
        wire = record c.wire { written = c.wire.written ++ (bytes ∷ []) };
      },
    )
    else (false, record c { last_activity = now })

-- What a buffer of n bytes then holds, if there was no error.
abbrev pub noted : ℕ → ℕ → Connection → Option (List ℕ) × Wire → Option (List ℕ) × Connection
noted now n c (got, w) = (map_option (buffer n) got, record c { last_activity = now; wire = w })

-- Read into a new buffer of n bytes.
unfoldable pub read : ℕ → ℕ → Connection → Option (List ℕ) × Connection
unfolding is_closed wire_read
read now n c = if is_closed c then (none, c) else noted now n c (wire_read n c.wire)

unfoldable pub close : Connection → Connection
unfolding is_closed
close c = if is_closed c then c else record c { wire = record c.wire { opened = false } }

unfoldable pub reset : Connection → Connection
reset c = record c { user_id = 0; session_id = ""; last_activity = 0; closed = 0 }
