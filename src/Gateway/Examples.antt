-- ===== src/Gateway/Examples.antt =====
-- Runs of the gateway of internal/server/gateway_server.go.
use cogame.Base.{true, ℕ, pos, List, [], ◌∷◌, none, some, ◌≡◌, refl}
use cogame.Base.Dict
use cogame.Security.Limiter.{check_limit}
use cogame.Network.Serve.{decode_uint32}
use cogame.Discovery.Balance.{select_in_turn}
use cogame.Security.Examples.{counting}
use cogame.Discovery.Cache.{get_service}
use cogame.Discovery.Examples.{fixed_registry, new_discovery}
use cogame.Network.Connection.{Connection, new_connection, write}
use cogame.Gateway.Messages.{LoginRequest, LoginResponse, Codec, UserCache}
use cogame.Gateway.Handler.{Parts, Gateway, Handled, handle_message}
use cogame.Gateway.Replies.{Replies}

abbrev pub anna : LoginRequest
anna = record { username = "anna"; password = "secret"; platform = "web"; version = "1" }

abbrev anna_reply : LoginResponse
anna_reply = record {
  user_id = 42;
  token = "t";
  nickname = "Anna";
  level = pos 1;
  exp = pos 0;
  gold = pos 0;
  diamond = pos 0;
}

-- A codec whose requests are their data, and whose responses are their data.
abbrev plain_codec : Codec
plain_codec = record {
  unmarshal_request = λ bytes. some (record { header = none; payload = bytes });
  unmarshal_login = λ bytes. some anna;
  marshal_login = λ reply. some (reply.user_id ∷ []);
  marshal_response = λ response. some response.payload;
}

-- The users that are online.
abbrev listed_users : UserCache
listed_users = record {
  Store = List ℕ;
  set_user_online = λ user node store. user ∷ store;
  set_user_offline = λ user store. [];
}

abbrev plain_parts : Parts
plain_parts = record {
  buckets = counting;
  default_rate = 10;
  cache = listed_users;
  codec = plain_codec;
  registry = fixed_registry;
  login = λ req. some anna_reply;
  node_id = "gateway1";
}

abbrev new_gateway : Gateway plain_parts
new_gateway = record { limiters = []; discovery = new_discovery; online = [] }

abbrev guest : Connection
guest = new_connection 1 (record { incoming = []; written = []; writable = true; opened = true }) 5

-- A login: message 1001.
abbrev login_bytes : List ℕ
login_bytes = 0 ∷ 0 ∷ 3 ∷ 233 ∷ 7 ∷ []

-- Anna is logged in.
abbrev bound_user : Handled plain_parts → ℕ
bound_user (Handled.returned ok c g) = c.user_id
bound_user Handled.panicked = 0

login_runs : bound_user (handle_message plain_parts 6 "10.0.0.9" login_bytes guest new_gateway) ≡ 42
unfolding handle_message new_connection check_limit Dict.lookup decode_uint32 get_service
    select_in_turn write
login_runs = refl
