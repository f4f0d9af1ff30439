-- ===== src/Network/Framing.antt =====
-- What the loop of internal/network/tcp_server.go reads of messages that are sent as frames, by
-- how the bytes are cut into segments.
use cogame.Base.{
  ℕ, ◌^◌, ◌<◌, Bool, true, false, List, [], ◌∷◌, ◌++◌, some, length, length-append, take, drop,
  take-length, drop-length, ◌≡◌, refl, arith,
}
use cogame.Network.Connection.{left_over, receive_bytes}
use cogame.Network.Serve.{decode_uint32, encode_length}

-- Decoding undoes the header of any length that 32 bits hold.
pub decode_uint32-encode_length : (n : ℕ) → n < 2 ^ 32 → decode_uint32 (encode_length n) ≡ n
unfolding decode_uint32 encode_length
decode_uint32-encode_length n h = omega arith

-- A piece before segments: a segment of its own, or a part of the next one.
unfoldable pub join : Bool → List ℕ → List (List ℕ) → List (List ℕ)
join true piece segments = piece ∷ segments
join false piece [] = piece ∷ []
join false piece (s ∷ segments) = (piece ++ s) ∷ segments

-- A message as it is sent, and whether a segment ends after its header and after its body.
pub record Sent : Type 0 where
  pub body : List ℕ
  pub cut_header : Bool
  pub cut_body : Bool

unfoldable pub segments_of : List Sent → List (List ℕ)
unfolding join
segments_of [] = []
segments_of (m ∷ ms) =
    join m.cut_header (encode_length (length m.body)) (join m.cut_body m.body (segments_of ms))

unfoldable pub bodies : List Sent → List (List ℕ)
bodies [] = []
bodies (m ∷ ms) = m.body ∷ bodies ms

abbrev pub FirstFull : List (List ℕ) → Type 0
FirstFull [] = Unit
FirstFull (s ∷ segments) = 0 < length s

pub join-FirstFull :
    (cut : Bool) (piece : List ℕ) (segments : List (List ℕ))
    → 0 < length piece
    → FirstFull (join cut piece segments)
unfolding join
join-FirstFull true piece segments h = h
join-FirstFull false piece [] h = h
join-FirstFull false piece (s ∷ segments) h = omega (arith, length-append piece s)

pub segments_of-FirstFull : (ms : List Sent) → FirstFull (segments_of ms)
unfolding segments_of encode_length
segments_of-FirstFull [] = tt
segments_of-FirstFull (m ∷ ms) =
    join-FirstFull m.cut_header (encode_length (length m.body)) _ (omega arith)

left_over_full :
    (s : List ℕ) (segments : List (List ℕ)) → 0 < length s → left_over s segments ≡ s ∷ segments
left_over_full [] segments h = absurd (omega arith)
left_over_full (b ∷ s) segments h = refl

take_all : (xs : List ℕ) → take (length xs) xs ≡ xs
take_all [] = refl
take_all (x ∷ xs) = rw (take_all xs)

drop_all : (xs : List ℕ) → drop (length xs) xs ≡ []
drop_all [] = refl
drop_all (x ∷ xs) = drop_all xs

-- One read takes a piece that lies within a segment.
pub receive_bytes-join :
    (cut : Bool) (piece : List ℕ) (segments : List (List ℕ))
    → 0 < length piece
    → FirstFull segments
    → receive_bytes (length piece) (join cut piece segments) ≡ some (piece, segments)
unfolding receive_bytes join
receive_bytes-join cut [] segments h f = absurd (omega arith)
receive_bytes-join true (b ∷ piece) segments h f =
    rw (take_all piece, drop_all piece, left_over) refl
receive_bytes-join false (b ∷ piece) [] h f = rw (take_all piece, drop_all piece, left_over) refl
receive_bytes-join false (b ∷ piece) (s ∷ segments) h f =
    rw (take-length piece s, drop-length piece s, left_over_full s segments f) refl
