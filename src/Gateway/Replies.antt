-- ===== src/Gateway/Replies.antt =====
-- What a client gets for a message, from internal/server/gateway_server.go.
use cogame.Base.{ℕ, List, [], ◌∷◌, ◌++◌, Option, some, drop, ◌≡◌, ◌⊎◌}
use cogame.Lobby.Messages.{MessageHeader, BaseRequest, BaseResponse}
use cogame.Network.Connection.{Wire, Connection}
use cogame.Network.Serve.{frame}
use cogame.Gateway.Messages.{LoginRequest, LoginResponse}
use cogame.Gateway.Handler.{Parts, Gateway, Handled, returned, panicked}

module _ (parts : Parts) where
  -- The wire after a message: nothing was written, or one frame, of a response with a header that
  -- is allowed.
  abbrev pub OneReply : (Option MessageHeader → Type 0) → Wire → Wire → Type 0
  OneReply Header w w' =
      (w'.incoming ≡ w.incoming)
      × ((w'.written ≡ w.written)
          ⊎ ((response : BaseResponse) × (bytes : List ℕ) × (parts.codec.marshal_response response
                ≡ some bytes)
              × Header response.header
              × (w'.written ≡ w.written ++ (frame bytes ∷ []))))

  abbrev pub Replies :
      (Option MessageHeader → Type 0) → (ℕ → Type 0) → Wire → Handled parts → Type 0
  Replies Header User w panicked = Unit
  Replies Header User w (returned ok c g) = OneReply Header w c.wire × User c.user_id

  module _ (Header : Option MessageHeader → Type 0) (User : ℕ → Type 0) where
    -- A login that the login service has answered.
    abbrev LoginsAllowed : Type 0
    LoginsAllowed =
        (req : LoginRequest) (reply : LoginResponse)
        → parts.login req ≡ some reply
        → User reply.user_id

  -- The header of the message that was received.
  abbrev pub HeaderOf : List ℕ → Option MessageHeader → Type 0
  HeaderOf bytes h =
      (request : BaseRequest) × (parts.codec.unmarshal_request (drop 4 bytes) ≡ some request)
      × (h ≡ request.header)

  -- The user that the connection had, or one that the login service has answered.
  abbrev pub UserAfter : ℕ → ℕ → Type 0
  UserAfter user user' =
      (user' ≡ user)
      ⊎ ((req : LoginRequest) × (reply : LoginResponse) × (parts.login req ≡ some reply)
          × (user' ≡ reply.user_id))
