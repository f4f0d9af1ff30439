-- ===== src/Lobby/Join.antt =====
-- JoinRoom of internal/server/lobby_server.go.
use cogame.Base.{
  ℕ, ℤ, pos, neg, eqb_ℤ, leb_ℤ, String, Bool, false, not, ◌&&◌, ◌||◌, List, [], ◌∷◌, Option, none,
  some, map, ◌==◌, str_eq, if◌then◌else◌,
}
use cogame.Model.{Room, RoomPlayer, User}
use cogame.Database.Mongo.{Mongo}
use cogame.Database.Rooms
use cogame.Database.Users.{get_by_user_id}
use cogame.Lobby.Messages.{
  BaseRequest, BaseResponse, JoinRoomRequest, RoomInfo, Codec, get_user_id, respond, respond_with,
  unix, unix32, player_info,
}

-- The loop over room.Players that looks for the user.
unfoldable pub in_room : ℕ → List RoomPlayer → Bool
in_room user_id [] = false
in_room user_id (p ∷ ps) = p.user_id == user_id || in_room user_id ps

-- The tests on the room, in the order of the code; `none` lets the user in.
unfoldable pub reject_join : Room → ℕ → String → Option (ℤ × String)
reject_join room user_id password =
    if not (eqb_ℤ room.status (pos 0))
    then some (neg 5, "room is not available")
    else if leb_ℤ room.max_players room.current_players
    then some (neg 6, "room is full")
    else if in_room user_id room.players
    then some (neg 7, "already in room")
    else if room.is_private && not (str_eq room.password password)
    then some (neg 8, "wrong password")
    else none

unfoldable pub new_player : ℕ → User → ℕ → RoomPlayer
new_player user_id user now = record {
  user_id = user_id;
  nickname = user.nickname;
  level = user.level;
  status = pos 0;
  join_time = unix now;
}

unfoldable pub joined_info : Room → Option User → RoomInfo
joined_info room owner = record {
  room_id = room.room_id;
  room_name = room.room_name;
  game_type = room.game_type;
  current_players = room.current_players;
  max_players = room.max_players;
  status = room.status;
  is_private = room.is_private;
  owner = elim owner [
    | none ↦ none
    | some u ↦
        some
          (record { user_id = u.user_id; nickname = u.nickname; level = u.level; status = pos 1 })
  ];
  players = map player_info room.players;
  created_time = unix32 room.created_at;
}

-- The room of the second read, or the first where that failed.
unfoldable pub re_read : Room → Option Room → Room
re_read room none = room
re_read room (some again) = again

module _ (m : Mongo) (codec : Codec) where
  open m use {World}

  -- From the second read of the room on.
  unfoldable pub answer_join : BaseRequest → ℕ → Room → World → BaseResponse × World
  unfolding joined_info re_read
  answer_join req room_id room w =
      let (again, w1) = Rooms.get_room_by_id m room_id w in
      let updated = re_read room again in
      let (owner, w2) = get_by_user_id m updated.owner_id w1 in
      elim (codec.marshal_room_info (joined_info updated owner)) [
        | none ↦ (respond req (neg 11) "failed to create response", w2)
        | some bytes ↦ (respond_with req "joined room successfully" bytes, w2)
      ]

  -- From the new player on; the room has let the user in and the user was found.
  unfoldable pub add_joined : BaseRequest → ℕ → Room → User → World → BaseResponse × World
  unfolding new_player answer_join
  add_joined req room_id room user w =
      let (now, w1) = m.clock w in
      let (added, w2) =
        Rooms.add_player_to_room m room_id (new_player (get_user_id req) user now) w1 in
      if added
      then answer_join req room_id room w2
      else (respond req (neg 10) "failed to join room", w2)

  -- From the room read first on.
  unfoldable pub join_found : BaseRequest → JoinRoomRequest → Room → World → BaseResponse × World
  unfolding reject_join add_joined
  join_found req q room w = elim (reject_join room (get_user_id req) q.password) [
    | some (code, msg) ↦ (respond req code msg, w)
    | none ↦
        let (found, w1) = get_by_user_id m (get_user_id req) w in
        elim found [
          | none ↦ (respond req (neg 9) "user not found", w1)
          | some user ↦ add_joined req q.room_id room user w1
        ]
  ]

  -- From the decoded request on.
  unfoldable pub join_decoded : BaseRequest → JoinRoomRequest → World → BaseResponse × World
  unfolding join_found
  join_decoded req q w =
      if q.room_id == 0
      then (respond req (neg 3) "invalid room id", w)
      else let (found, w1) = Rooms.get_room_by_id m q.room_id w in
        elim found [
          | none ↦ (respond req (neg 4) "room not found", w1)
          | some room ↦ join_found req q room w1
        ]

  unfoldable pub join_room : BaseRequest → World → BaseResponse × World
  unfolding join_decoded
  join_room req w =
      if get_user_id req == 0
      then (respond req (neg 1) "invalid user id", w)
      else elim (codec.unmarshal_join_room req.payload) [
        | none ↦ (respond req (neg 2) "invalid request data", w)
        | some q ↦ join_decoded req q w
      ]
