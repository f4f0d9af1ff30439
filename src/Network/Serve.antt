-- ===== src/Network/Serve.antt =====
-- internal/network/tcp_server.go: the loop of handleConnection, and the length header that
-- sendResponse of internal/server/gateway_server.go writes. Bytes are numbers under 256.
use cogame.Base.{
  ℕ, ◌+◌, ◌*◌, ◌/◌, ◌%◌, ◌^◌, ◌==◌, ltb, ◌||◌, List, [], ◌∷◌, ◌++◌, Option, none, some, length,
  if◌then◌else◌, get_elem?,
}
use cogame.Network.Connection.{Connection, read, is_closed}

-- buf[i], within the buffer.
abbrev pub byte_at : ℕ → List ℕ → ℕ
byte_at i buf = elim (get_elem? buf i) [ none ↦ 0 | some b ↦ b ]

-- The big-endian length; the bits that `|` joins are disjoint.
unfoldable pub decode_uint32 : List ℕ → ℕ
decode_uint32 buf =
    byte_at 0 buf * 2 ^ 24 + byte_at 1 buf * 2 ^ 16 + byte_at 2 buf * 2 ^ 8 + byte_at 3 buf

unfoldable pub encode_length : ℕ → List ℕ
encode_length n = n / 2 ^ 24 % 256 ∷ n / 2 ^ 16 % 256 ∷ n / 2 ^ 8 % 256 ∷ n % 256 ∷ []

-- A message with its header.
unfoldable pub frame : List ℕ → List ℕ
unfolding encode_length
frame bytes = encode_length (length bytes) ++ bytes

abbrev pub max_message : ℕ
max_message = 1024 * 1024

pub data Ended : Type 0 where
  server_stopped : Ended
  was_closed : Ended
  no_length : Ended
  invalid_length : Ended
  no_body : Ended

-- One turn of the loop: a message was handed on, or the loop has ended.
pub data Turn {ℓ} (S : Type ℓ) : Type ℓ where
  handled : List ℕ → Connection → S → Turn S
  ended : Ended → Connection → S → Turn S

-- The messages that were handed on, how the loop ended, and what it left.
pub record Served {ℓ} (S : Type ℓ) : Type ℓ where
  pub messages : List (List ℕ)
  pub why : Ended
  pub connection : Connection
  pub state : S

module _ {ℓ} {S : Type ℓ} (handle_message : List ℕ → Connection × S → Connection × S) where
  -- What follows the read of the body.
  unfoldable pub take_body : S → Option (List ℕ) × Connection → Turn S
  take_body s (none, c) = ended no_body c s
  take_body s (some body, c) = let (c1, s1) = handle_message body (c, s) in handled body c1 s1

  unfoldable pub read_body : ℕ → ℕ → Connection → S → Turn S
  unfolding take_body
  read_body now n c s =
      if n == 0 || ltb max_message n then ended invalid_length c s else take_body s (read now n c)

  -- What follows the read of the header.
  unfoldable pub take_head : ℕ → S → Option (List ℕ) × Connection → Turn S
  unfolding read_body
  take_head now s (none, c) = ended no_length c s
  take_head now s (some head, c) = read_body now (decode_uint32 head) c s

  unfoldable pub turn : ℕ → Connection → S → Turn S
  unfolding take_head
  turn now c s = if is_closed c then ended was_closed c s else take_head now s (read now 4 c)

  abbrev pub with_message : List ℕ → Served S → Served S
  with_message body r = record r { messages = body ∷ r.messages }

  -- The times are those of the turns; after them the server is no longer running.
  unfoldable pub serve : List ℕ → Connection → S → Served S
  serve [] c s = record { messages = []; why = server_stopped; connection = c; state = s }
  serve (now ∷ times) c s = elim (turn now c s) [
    | handled body c1 s1 ↦ with_message body (serve times c1 s1)
    | ended why c1 s1 ↦ record { messages = []; why = why; connection = c1; state = s1 }
  ]
