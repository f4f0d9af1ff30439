-- ===== src/Gateway/Handler.antt =====
-- internal/server/gateway_server.go: GatewayMessageHandler.
use Prim.Native.String.{◌++◌ as str_append}
use cogame.Base.{
  ℕ, ◌==◌, ltb, leb, ℤ, pos, negsuc, String, Bool, true, false, ◌&&◌, List, [], Option, none, some,
  length, drop, decimal, if◌then◌else◌,
}
use cogame.Lobby.Messages.{BaseRequest, BaseResponse}
use cogame.Security.Limiter.{TokenBuckets, Limiters, check_limit}
use cogame.Discovery.Balance.{Selection}
use cogame.Discovery.Cache.{ServiceRegistry, ServiceDiscovery, get_service}
use cogame.Network.Connection.{Connection, write, close}
use cogame.Network.Serve.{decode_uint32, frame}
use cogame.Gateway.Messages.{LoginRequest, LoginResponse, Codec, UserCache}

-- What the gateway uses.
pub record Parts : Type 1 where
  pub buckets : TokenBuckets
  -- DefaultRate, 10 per second
  pub default_rate : buckets.Rate
  pub cache : UserCache
  pub codec : Codec
  pub registry : ServiceRegistry
  -- The Login call of the login service, `none` an error.
  pub login : LoginRequest → Option LoginResponse
  pub node_id : String

module _ (parts : Parts) where
  open parts use {buckets, cache, codec}

  pub record Gateway : Type 0 where
    pub limiters : Limiters buckets
    pub discovery : ServiceDiscovery
    pub online : cache.Store

  -- A call returns, with whether there was no error, or panics.
  pub data Handled : Type 0 where
    returned : Bool → Connection → Gateway → Handled
    panicked : Handled

  abbrev pub return_write : Gateway → Bool × Connection → Handled
  return_write g (ok, c) = returned ok c g

  -- The part of sendResponse that follows the data.
  unfoldable pub send_encoded : ℕ → BaseResponse → Connection → Gateway → Handled
  send_encoded now response c g = elim (codec.marshal_response response) [
    | none ↦ returned false c g
    | some bytes ↦ return_write g (write now (frame bytes) c)
  ]

  -- The data of a response, if there is any, as bytes: `none` is an error.
  abbrev pub response_data : Option LoginResponse → Option (List ℕ)
  response_data none = some []
  response_data (some reply) = codec.marshal_login reply

  unfoldable pub send_response :
      ℕ → BaseRequest → ℤ → String → Option LoginResponse → Connection → Gateway → Handled
  unfolding send_encoded
  send_response now request code msg reply c g = elim (response_data reply) [
    | none ↦ returned false c g
    | some payload ↦
        send_encoded now
          (record { header = request.header; code = code; msg = msg; payload = payload }) c g
  ]

  unfoldable pub send_error : ℕ → BaseRequest → ℤ → String → Connection → Gateway → Handled
  unfolding send_response
  send_error now request code msg c g = send_response now request code msg none c g

  -- The call of the login service, and what follows it.
  unfoldable pub call_login : ℕ → BaseRequest → LoginRequest → Connection → Gateway → Handled
  unfolding send_error
  call_login now request login_req c g = elim (parts.login login_req) [
    | none ↦ send_error now request (negsuc 0) "login failed" c g
    | some reply ↦
        send_response now request (pos 0) "login success" (some reply)
          (record c { user_id = reply.user_id })
          (record g { online = cache.set_user_online reply.user_id parts.node_id g.online })
  ]

  -- What goes on with a service, and without one.
  abbrev pub with_service :
      Selection × ServiceDiscovery → Gateway → (Gateway → Handled) → (Gateway → Handled) → Handled
  with_service (Selection.no_service, d) g found missing = missing (record g { discovery = d })
  with_service (Selection.panics, d) g found missing = panicked
  with_service (Selection.selected s counters, d) g found missing =
      found (record g { discovery = d })

  unfoldable pub handle_login : ℕ → BaseRequest → Connection → Gateway → Handled
  unfolding call_login
  handle_login now request c g = elim (codec.unmarshal_login request.payload) [
    | none ↦ send_error now request (negsuc 0) "invalid login request" c g
    | some login_req ↦
        with_service (get_service parts.registry "login" g.discovery) g
          (λ g1. call_login now request login_req c g1)
          (λ g1. send_error now request (negsuc 0) "login service not available" c g1)
  ]

  unfoldable pub handle_heartbeat : ℕ → BaseRequest → Connection → Gateway → Handled
  unfolding send_response
  handle_heartbeat now request c g =
      send_response now request (pos 0) "pong" none (record c { last_activity = now }) g

  unfoldable pub handle_logout : Connection → Gateway → Handled
  handle_logout c g = returned true (close c) (
      if c.user_id == 0 then g else record g { online = cache.set_user_offline c.user_id g.online })

  -- The first switch of forwardMessage.
  unfoldable pub target_service : ℕ → Option String
  target_service msg_id =
      if leb 2000 msg_id && ltb msg_id 3000
      then some "lobby"
      else if leb 3000 msg_id && ltb msg_id 4000
      then some "game"
      else if leb 4000 msg_id && ltb msg_id 5000
      then some "friend"
      else if leb 5000 msg_id && ltb msg_id 6000
      then some "chat"
      else if leb 6000 msg_id && ltb msg_id 7000
      then some "mail"
      else none

  unfoldable pub forward_message : ℕ → ℕ → BaseRequest → Connection → Gateway → Handled
  unfolding send_error target_service
  forward_message now msg_id request c g = elim (target_service msg_id) [
    | none ↦ send_error now request (negsuc 0) "unknown message type" c g
    | some target ↦
        with_service (get_service parts.registry target g.discovery) g
          (λ g1. send_response now request (pos 0) "success" none c g1)
          (λ g1.
            send_error now request (negsuc 1) (str_append target " service not available") c g1)
  ]

  -- The key of the limiter: by user, or by the address of the client, "" if it cannot be split.
  unfoldable pub limit_key : String → Connection → String
  unfolding decimal
  limit_key client_ip c =
      if ltb 0 c.user_id
      then str_append "msg:user:" (decimal c.user_id)
      else str_append "msg:ip:" client_ip

  -- The switch of routeMessage.
  unfoldable pub dispatch : ℕ → ℕ → BaseRequest → Connection → Gateway → Handled
  unfolding handle_login handle_heartbeat handle_logout forward_message
  dispatch now msg_id request c g =
      if msg_id == 1001
      then handle_login now request c g
      else if msg_id == 1002
      then handle_heartbeat now request c g
      else if msg_id == 1003
      then handle_logout c g
      else forward_message now msg_id request c g

  unfoldable pub route_message : ℕ → String → ℕ → BaseRequest → Connection → Gateway → Handled
  unfolding dispatch limit_key
  route_message now client_ip msg_id request c g =
      let (allowed, limiters) =
        check_limit buckets (limit_key client_ip c) parts.default_rate 50 now g.limiters in
      let g1 = record g { limiters = limiters } in
      if allowed
      then dispatch now msg_id request c g1
      else send_error now request (negsuc 0) "exceeds max messages per second" c g1

  unfoldable pub handle_message : ℕ → String → List ℕ → Connection → Gateway → Handled
  unfolding route_message
  handle_message now client_ip bytes c g =
      if ltb (length bytes) 4
      then returned false c g
      else elim (codec.unmarshal_request (drop 4 bytes)) [
        | none ↦ returned false c g
        | some request ↦ route_message now client_ip (decode_uint32 bytes) request c g
      ]
