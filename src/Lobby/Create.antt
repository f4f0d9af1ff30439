-- ===== src/Lobby/Create.antt =====
-- CreateRoom and generateRoomID of internal/server/lobby_server.go.
use cogame.Base.{
  ℕ, ◌+◌, ◌%◌, ◌^◌, ℤ, pos, neg, ltb_ℤ, String, ◌&&◌, ◌||◌, [], ◌∷◌, Option, none, some, ◌==◌,
  str_eq, if◌then◌else◌,
}
use cogame.Model.{Room, User}
use cogame.Database.Mongo.{Mongo}
use cogame.Database.Rooms
use cogame.Database.Users.{get_by_user_id}
use cogame.Lobby.Messages.{
  BaseRequest, BaseResponse, CreateRoomRequest, GamePlayerInfo, RoomInfo, Codec, get_user_id,
  respond, respond_with, unix, unix32,
}

-- A new server hands out room ids from 1000.
abbrev pub first_room_id : ℕ
first_room_id = 1000

-- The id handed out, and the counter after it, a uint64.
unfoldable pub generate_room_id : ℕ → ℕ × ℕ
generate_room_id next_room_id = (next_room_id, (next_room_id + 1) % 2 ^ 64)

-- The tests on the request, in the order of the code; `none` lets the request pass.
unfoldable pub reject_create : CreateRoomRequest → Option (ℤ × String)
reject_create q =
    if str_eq q.room_name ""
    then some (neg 3, "room name cannot be empty")
    else if ltb_ℤ q.max_players (pos 2) || ltb_ℤ (pos 8) q.max_players
    then some (neg 4, "max players must be between 2 and 8")
    else if q.is_private && str_eq q.password ""
    then some (neg 5, "private room requires password")
    else none

unfoldable pub new_room : CreateRoomRequest → ℕ → User → ℕ → ℕ → Room
new_room q room_id user user_id now = record {
  id = 0;
  room_id = room_id;
  room_name = q.room_name;
  game_type = q.game_type;
  max_players = q.max_players;
  current_players = pos 1;
  status = pos 0;
  is_private = q.is_private;
  password = q.password;
  owner_id = user_id;
  players =
      record {
        user_id = user_id;
        nickname = user.nickname;
        level = user.level;
        status = pos 1;
        join_time = unix now;
      }
      ∷ [];
  created_at = 0;
  updated_at = 0;
}

unfoldable pub created_info : CreateRoomRequest → ℕ → User → ℕ → RoomInfo
created_info q room_id user created_at =
    let owner : GamePlayerInfo = record {
      user_id = user.user_id;
      nickname = user.nickname;
      level = user.level;
      status = pos 1;
    } in
    record {
      room_id = room_id;
      room_name = q.room_name;
      game_type = q.game_type;
      current_players = pos 1;
      max_players = q.max_players;
      status = pos 0;
      is_private = q.is_private;
      owner = some owner;
      players = owner ∷ [];
      created_time = unix32 created_at;
    }

-- The server's state is the room counter beside the world.
module _ (m : Mongo) (codec : Codec) where
  open m use {World}

  -- From the response's payload on; the room is stored.
  unfoldable pub answer_create : BaseRequest → CreateRoomRequest → ℕ → User → Room → BaseResponse
  unfolding created_info
  answer_create req q room_id user room =
      elim (codec.marshal_room_info (created_info q room_id user room.created_at)) [
        | none ↦ respond req (neg 8) "failed to create response"
        | some bytes ↦ respond_with req "room created successfully" bytes
      ]

  -- From the new id on; the request has passed its tests and the user was found.
  unfoldable pub store_created :
      BaseRequest → CreateRoomRequest → User → ℕ → World → BaseResponse × ℕ × World
  unfolding generate_room_id new_room answer_create
  store_created req q user next w =
      let (room_id, next') = generate_room_id next in
      let (now, w1) = m.clock w in
      let (stored, w2) = Rooms.create_room m (new_room q room_id user (get_user_id req) now) w1 in
      elim stored [
        | none ↦ (respond req (neg 7) "failed to create room", next', w2)
        | some room ↦ (answer_create req q room_id user room, next', w2)
      ]

  -- From the decoded request on.
  unfoldable pub create_decoded :
      BaseRequest → CreateRoomRequest → ℕ → World → BaseResponse × ℕ × World
  unfolding reject_create store_created
  create_decoded req q next w = elim (reject_create q) [
    | some (code, msg) ↦ (respond req code msg, next, w)
    | none ↦
        let (found, w1) = get_by_user_id m (get_user_id req) w in
        elim found [
          | none ↦ (respond req (neg 6) "user not found", next, w1)
          | some user ↦ store_created req q user next w1
        ]
  ]

  unfoldable pub create_room : BaseRequest → ℕ → World → BaseResponse × ℕ × World
  unfolding create_decoded
  create_room req next w =
      if get_user_id req == 0
      then (respond req (neg 1) "invalid user id", next, w)
      else elim (codec.unmarshal_create_room req.payload) [
        | none ↦ (respond req (neg 2) "invalid request data", next, w)
        | some q ↦ create_decoded req q next w
      ]
