-- ===== src/Gateway/Messages.antt =====
-- The messages of the gateway: MessageHeader, BaseRequest and BaseResponse of proto/gateway.proto
-- are those of proto/lobby.proto. What it calls is a parameter: the protobuf library, the login
-- service over gRPC, and the user cache in Redis, whose errors it ignores.
use cogame.Base.{ℕ, ℤ, String, List, Option}
use cogame.Lobby.Messages.{BaseRequest, BaseResponse}

pub record LoginRequest : Type 0 where
  pub username : String
  pub password : String
  pub platform : String
  pub version : String

pub record LoginResponse : Type 0 where
  pub user_id : ℕ
  pub token : String
  pub nickname : String
  pub level : ℤ
  pub exp : ℤ
  pub gold : ℤ
  pub diamond : ℤ

-- proto.Unmarshal and proto.Marshal; `none` is an error.
pub record Codec : Type 0 where
  pub unmarshal_request : List ℕ → Option BaseRequest
  pub unmarshal_login : List ℕ → Option LoginRequest
  pub marshal_login : LoginResponse → Option (List ℕ)
  pub marshal_response : BaseResponse → Option (List ℕ)

-- SetUserOnline and SetUserOffline of internal/cache/user.go.
pub record UserCache : Type 1 where
  pub Store : Type 0
  pub set_user_online : ℕ → String → Store → Store
  pub set_user_offline : ℕ → Store → Store
