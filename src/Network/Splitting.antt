-- ===== src/Network/Splitting.antt =====
-- What the loop of internal/network/tcp_server.go does with a body that comes in two segments.
use cogame.Base.{
  ℕ, zero, suc, ◌+◌, ◌-◌, ◌≤◌, ◌<◌, ◌==◌, ltb, true, false, ◌||◌, List, [], ◌∷◌, ◌++◌, some, length,
  take, drop, replicate, ◌≡◌, refl, ap, arith, ◌∙◌,
}
use cogame.Network.Connection.{Connection, left_over, receive_bytes, read, is_closed}
use cogame.Network.Serve.{
  decode_uint32, encode_length, max_message, handled, read_body, take_body, take_head, turn,
}
use cogame.Network.Framing.{join, decode_uint32-encode_length}
use cogame.Network.Delivery.{IsLive, after_read, after_read-IsLive, read-receive_bytes, read-join}

take_short : (n : ℕ) (xs : List ℕ) → length xs ≤ n → take n xs ≡ xs
take_short zero [] h = refl
take_short zero (x ∷ xs) h = absurd (omega arith)
take_short (suc n) [] h = refl
take_short (suc n) (x ∷ xs) h = rw (take_short n xs (omega arith)) refl

drop_short : (n : ℕ) (xs : List ℕ) → length xs ≤ n → drop n xs ≡ []
drop_short zero [] h = refl
drop_short zero (x ∷ xs) h = absurd (omega arith)
drop_short (suc n) [] h = refl
drop_short (suc n) (x ∷ xs) h = drop_short n xs (omega arith)

receive_bytes-short :
    (n : ℕ) (first : List ℕ) (segments : List (List ℕ))
    → 0 < length first
    → length first ≤ n
    → receive_bytes n (first ∷ segments) ≡ some (first, segments)
unfolding receive_bytes
receive_bytes-short n [] segments full h = absurd (omega arith)
receive_bytes-short n (b ∷ first) segments full h =
    rw (take_short n (b ∷ first) h, drop_short n (b ∷ first) h, left_over) refl

module _ {ℓ} {S : Type ℓ} (handle_message : List ℕ → Connection × S → Connection × S) where
  -- A body that arrives in two segments is not read whole: the handler is given its first part,
  -- with zeros for the second, and the second part is what the next header is read from.
  pub turn_split_body :
      (now : ℕ) (c : Connection) (s : S) (first second : List ℕ) (segments : List (List ℕ))
      → IsLive c
      → 0 < length first
      → 0 < length second
      → length first + length second ≤ max_message
      → c.wire.incoming ≡ encode_length (length first + length second) ∷ first ∷ second ∷ segments
      → turn handle_message now c s ≡ (
          let body = first ++ replicate (length second) 0 in
          let (c2, s2) = handle_message body (after_read now c (second ∷ segments), s) in
          handled body c2 s2)
  unfolding turn take_head read_body take_body encode_length is_closed join
  turn_split_body now c s first second segments live f1 f2 small e =
      let n = length first + length second in
      let c1 = after_read now c (first ∷ second ∷ segments) in
      let live1 : IsLive c1 = after_read-IsLive now c (first ∷ second ∷ segments) live in
      let head : read now 4 c ≡ (some (encode_length n), c1) =
        read-join now c true (encode_length n) (first ∷ second ∷ segments) live (omega arith) f1
          e in
      let size : decode_uint32 (encode_length n) ≡ n =
        decode_uint32-encode_length n (omega arith) in
      let minus : n - length first ≡ length second = omega arith in
      let body : read now n c1
          ≡ (some (first ++ replicate (length second) 0), after_read now c (second ∷ segments)) =
        read-receive_bytes now n c1 first (second ∷ segments) live1
          (receive_bytes-short n first (second ∷ segments) f1 (omega arith))
        ∙ rw minus refl in
      let ok : (n == 0 || ltb max_message n) ≡ false = ground arith in
      rw (live.0, turn)
        (ap (take_head handle_message now s) head
          ∙ rw (size, read_body) (rw (ok, read_body) (ap (take_body handle_message s) body)))
