-- ===== src/Lobby/Messages.antt =====
-- The messages of the lobby service (proto/lobby.proto) and what its handlers have in common.
-- Encoding and decoding are the protobuf library's, a parameter.
use cogame.Base.{ℕ, ◌/◌, ◌%◌, ◌^◌, ℤ, pos, String, Bool, List, [], Option, none, some}
use cogame.Model.{RoomPlayer}

pub record MessageHeader : Type 0 where
  pub msg_id : ℕ
  pub seq : ℕ
  pub user_id : ℕ
  pub timestamp : ℕ
  pub session_id : String

pub record BaseRequest : Type 0 where
  pub header : Option MessageHeader
  pub payload : List ℕ

pub record BaseResponse : Type 0 where
  pub header : Option MessageHeader
  pub code : ℤ
  pub msg : String
  pub payload : List ℕ

pub record CreateRoomRequest : Type 0 where
  pub room_name : String
  pub game_type : ℤ
  pub max_players : ℤ
  pub is_private : Bool
  pub password : String

pub record JoinRoomRequest : Type 0 where
  pub room_id : ℕ
  pub password : String

pub record GamePlayerInfo : Type 0 where
  pub user_id : ℕ
  pub nickname : String
  pub level : ℤ
  pub status : ℤ

pub record RoomInfo : Type 0 where
  pub room_id : ℕ
  pub room_name : String
  pub game_type : ℤ
  pub current_players : ℤ
  pub max_players : ℤ
  pub status : ℤ
  pub is_private : Bool
  pub owner : Option GamePlayerInfo
  pub players : List GamePlayerInfo
  pub created_time : ℕ

pub record RoomListResponse : Type 0 where
  pub rooms : List RoomInfo
  pub total : ℤ

-- proto.Unmarshal and proto.Marshal at the types that the handlers use; `none` is an error.
pub record Codec : Type 0 where
  pub unmarshal_create_room : List ℕ → Option CreateRoomRequest
  pub unmarshal_join_room : List ℕ → Option JoinRoomRequest
  pub marshal_room_info : RoomInfo → Option (List ℕ)
  pub marshal_room_list : RoomListResponse → Option (List ℕ)
  pub marshal_response : BaseResponse → Option (List ℕ)

-- req.Header.GetUserId(), which is 0 where the header is missing.
unfoldable pub get_user_id : BaseRequest → ℕ
get_user_id req = elim req.header [ none ↦ 0 | some h ↦ h.user_id ]

-- A response with no payload.
abbrev pub respond : BaseRequest → ℤ → String → BaseResponse
respond req code msg = record { header = req.header; code = code; msg = msg; payload = [] }

abbrev pub respond_with : BaseRequest → String → List ℕ → BaseResponse
respond_with req msg bytes = record {
  header = req.header;
  code = pos 0;
  msg = msg;
  payload = bytes;
}

-- t.Unix()
abbrev pub unix : ℕ → ℕ
unix t = t / 1000000000

-- uint32(t.Unix())
abbrev pub unix32 : ℕ → ℕ
unix32 t = unix t % 2 ^ 32

unfoldable pub player_info : RoomPlayer → GamePlayerInfo
player_info p = record {
  user_id = p.user_id;
  nickname = p.nickname;
  level = p.level;
  status = p.status;
}
