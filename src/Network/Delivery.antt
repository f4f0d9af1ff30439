-- ===== src/Network/Delivery.antt =====
-- The messages that the loop of handleConnection in internal/network/tcp_server.go hands on.
use cogame.Base.{
  ℕ, ◌-◌, ◌≤◌, ◌<◌, ◌==◌, ltb, Bool, true, false, ◌||◌, List, [], ◌∷◌, ◌++◌, none, some, length,
  ◌≡◌, refl, ap, arith, All, ◌∙◌,
}
use cogame.Network.Connection.{Connection, receive_bytes, wire_read, buffer, noted, read, is_closed}
use cogame.Network.Serve.{
  decode_uint32, encode_length, max_message, no_length, handled, ended, read_body, take_body,
  take_head, turn, serve,
}
use cogame.Network.Framing.{
  Sent, join, segments_of, bodies, FirstFull, decode_uint32-encode_length, join-FirstFull,
  segments_of-FirstFull, receive_bytes-join,
}

-- A connection that can be read.
abbrev pub IsLive : Connection → Type 0
IsLive c = (is_closed c ≡ false) × (c.wire.opened ≡ true)

-- The connection after a read that leaves these segments.
abbrev pub after_read : ℕ → Connection → List (List ℕ) → Connection
after_read now c segments = record c {
  last_activity = now;
  wire = record c.wire { incoming = segments };
}

append-[] : (xs : List ℕ) → xs ++ [] ≡ xs
append-[] [] = refl
append-[] (x ∷ xs) = rw (append-[] xs)

minus_self : (n : ℕ) → n - n ≡ 0
minus_self n = omega arith

buffer-full : (xs : List ℕ) → buffer (length xs) xs ≡ xs
buffer-full xs = rw (minus_self (length xs)) (append-[] xs)

pub read-receive_bytes :
    (now n : ℕ) (c : Connection) (bytes : List ℕ) (segments : List (List ℕ))
    → IsLive c
    → receive_bytes n c.wire.incoming ≡ some (bytes, segments)
    → read now n c ≡ (some (buffer n bytes), after_read now c segments)
unfolding read wire_read
read-receive_bytes now n c bytes segments (unflagged, opened) e =
    let got : wire_read n c.wire ≡ (some bytes, record c.wire { incoming = segments }) =
      simp (wire_read, opened, e) in
    rw (unflagged, read) (ap (noted now n c) got)

read-none :
    (now n : ℕ) (c : Connection)
    → IsLive c
    → c.wire.incoming ≡ []
    → read now n c ≡ (none, record c { last_activity = now })
unfolding read wire_read receive_bytes
read-none now n c (unflagged, opened) e =
    let got : wire_read n c.wire ≡ (none, c.wire) = simp (wire_read, opened, e) in
    rw (unflagged, read) (ap (noted now n c) got)

pub after_read-IsLive :
    (now : ℕ) (c : Connection) (segments : List (List ℕ))
    → IsLive c
    → IsLive (after_read now c segments)
unfolding is_closed
after_read-IsLive now c segments live = live

pub read-join :
    (now : ℕ) (c : Connection) (cut : Bool) (piece : List ℕ) (segments : List (List ℕ))
    → IsLive c
    → 0 < length piece
    → FirstFull segments
    → c.wire.incoming ≡ join cut piece segments
    → read now (length piece) c ≡ (some piece, after_read now c segments)
read-join now c cut piece segments live h f e =
    read-receive_bytes now (length piece) c piece segments live
      (ap (receive_bytes (length piece)) e ∙ receive_bytes-join cut piece segments h f)
    ∙ rw (buffer-full piece) refl

-- A message that the server takes.
abbrev pub IsSendable : Sent → Type 0
IsSendable m = (0 < length m.body) × (length m.body ≤ max_message)

module _ {ℓ} {S : Type ℓ} (handle_message : List ℕ → Connection × S → Connection × S) where
  -- The handler leaves what arrives to the loop, and does not close the connection.
  abbrev pub LeavesWire : Type ℓ
  LeavesWire =
      (m : List ℕ) (c : Connection) (s : S)
      → IsLive c
      → IsLive (handle_message m (c, s)).0
        × ((handle_message m (c, s)).0.wire.incoming ≡ c.wire.incoming)

  read_body-handled :
      (now n : ℕ) (c : Connection) (s : S) (m : Sent) (segments : List (List ℕ))
      → IsLive c
      → IsSendable m
      → FirstFull segments
      → c.wire.incoming ≡ join m.cut_body m.body segments
      → n ≡ length m.body
      → read_body handle_message now n c s ≡ (
          let (c2, s2) = handle_message m.body (after_read now c segments, s) in
          handled m.body c2 s2)
  unfolding read_body take_body
  read_body-handled now n c s m segments live (full, small) f e eq =
      let ok : (n == 0 || ltb max_message n) ≡ false = ground arith in
      let got : read now n c ≡ (some m.body, after_read now c segments) =
        ap (λ k. read now k c) eq ∙ read-join now c m.cut_body m.body segments live full f e in
      rw (ok, read_body) (ap (take_body handle_message s) got)

  -- A whole message in one turn.
  turn-handled :
      (now : ℕ) (c : Connection) (s : S) (m : Sent) (ms : List Sent)
      → IsLive c
      → IsSendable m
      → c.wire.incoming ≡ segments_of (m ∷ ms)
      → turn handle_message now c s ≡ (
          let (c2, s2) = handle_message m.body (after_read now c (segments_of ms), s) in
          handled m.body c2 s2)
  unfolding turn segments_of take_head encode_length is_closed
  turn-handled now c s m ms live fit e =
      let header = encode_length (length m.body) in
      let rest = join m.cut_body m.body (segments_of ms) in
      let first : read now 4 c ≡ (some header, after_read now c rest) =
        read-join now c m.cut_header header rest live (omega arith)
          (join-FirstFull m.cut_body m.body (segments_of ms) fit.0) e in
      let second =
        read_body-handled now (decode_uint32 header) (after_read now c rest) s m (segments_of ms)
          live fit (segments_of-FirstFull ms) refl
          (decode_uint32-encode_length (length m.body) (omega (arith, fit.1))) in
      rw (live.0, turn) (ap (take_head handle_message now s) first ∙ second)

  turn-no_length :
      (now : ℕ) (c : Connection) (s : S)
      → IsLive c
      → c.wire.incoming ≡ []
      → turn handle_message now c s ≡ ended no_length (record c { last_activity = now }) s
  unfolding turn take_head
  turn-no_length now c s live e =
      rw (live.0, turn) (ap (take_head handle_message now s) (read-none now 4 c live e))

  -- Messages of 1 byte to 1 MiB, sent as frames in order and cut into segments at will before and
  -- after headers and bodies, are handed to the handler as they were sent and in order, and the
  -- loop ends for want of another header; the handler leaves what arrives to the loop and does not
  -- close the connection, and the server runs for a turn more than there are messages.
  pub serve-segments_of :
      LeavesWire
      → (times : List ℕ) (ms : List Sent) (c : Connection) (s : S) → IsLive c
      → All IsSendable ms
      → c.wire.incoming ≡ segments_of ms
      → length ms < length times
      → ((serve handle_message times c s).messages ≡ bodies ms)
        × ((serve handle_message times c s).why ≡ no_length)
  unfolding serve bodies segments_of
  serve-segments_of leaves [] ms c s live fit e h = absurd (omega arith)
  serve-segments_of leaves (now ∷ times) [] c s live fit e h =
      rw (turn-no_length now c s live e, serve) (refl, refl)
  serve-segments_of leaves (now ∷ times) (m ∷ ms) c s live fit e h =
      let c1 = after_read now c (segments_of ms) in
      let next = handle_message m.body (c1, s) in
      let (live2, e2) : IsLive next.0 × (next.0.wire.incoming ≡ segments_of ms) =
        leaves m.body c1 s (after_read-IsLive now c (segments_of ms) live) in
      let rest = serve-segments_of leaves times ms next.0 next.1 live2 fit.1 e2 (omega arith) in
      rw (turn-handled now c s m ms live fit.0 e, serve) (ap (λ ms. m.body ∷ ms) rest.0, rest.1)
