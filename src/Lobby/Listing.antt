-- ===== src/Lobby/Listing.antt =====
-- GetRoomList of internal/server/lobby_server.go.
use cogame.Base.{
  int32, ℕ, pos, neg, List, [], ◌∷◌, Option, none, some, map, length, ◌==◌, if◌then◌else◌,
}
use cogame.Model.{Room, User}
use cogame.Database.Mongo.{Mongo}
use cogame.Database.Rooms
use cogame.Database.Users.{get_by_user_id}
use cogame.Lobby.Messages.{
  BaseRequest, BaseResponse, RoomInfo, Codec, get_user_id, respond, respond_with, unix32,
  player_info,
}

unfoldable pub listed_info : Room → User → RoomInfo
listed_info room owner = record {
  room_id = room.room_id;
  room_name = room.room_name;
  game_type = room.game_type;
  current_players = room.current_players;
  max_players = room.max_players;
  status = room.status;
  is_private = room.is_private;
  owner = some (record {
    user_id = owner.user_id;
    nickname = owner.nickname;
    level = owner.level;
    status = pos 0;
  });
  players = map player_info room.players;
  created_time = unix32 room.created_at;
}

-- A page holds 20 rooms, from the first, of every game type.
abbrev pub page_limit : ℕ
page_limit = 20

abbrev pub with_owner : Room → Option User → List RoomInfo → List RoomInfo
with_owner room none infos = infos
with_owner room (some owner) infos = listed_info room owner ∷ infos

module _ (m : Mongo) (codec : Codec) where
  open m use {World}

  -- The loop over the rooms; a room whose owner is not found is skipped.
  unfoldable pub room_infos : List Room → World → List RoomInfo × World
  unfolding listed_info
  room_infos [] w = ([], w)
  room_infos (room ∷ rooms) w =
      let (owner, w1) = get_by_user_id m room.owner_id w in
      let (infos, w2) = room_infos rooms w1 in (with_owner room owner infos, w2)

  -- From the rooms on. Where the count fails the number of rooms found stands in for it.
  unfoldable pub answer_list : BaseRequest → List Room → World → BaseResponse × World
  unfolding room_infos
  answer_list req rooms w =
      let (infos, w1) = room_infos rooms w in
      let (counted, w2) = Rooms.count_rooms m (pos 0) w1 in
      let total : ℕ = elim counted [ none ↦ length infos | some n ↦ n ] in
      elim (codec.marshal_room_list (record { rooms = infos; total = int32 total })) [
        | none ↦ (respond req (neg 3) "failed to create response", w2)
        | some bytes ↦ (respond_with req "success" bytes, w2)
      ]

  unfoldable pub get_room_list : BaseRequest → World → BaseResponse × World
  unfolding answer_list
  get_room_list req w =
      if get_user_id req == 0
      then (respond req (neg 1) "invalid user id", w)
      else let (found, w1) = Rooms.get_room_list m (pos 0) page_limit 0 w in
        elim found [
          | none ↦ (respond req (neg 2) "failed to get room list", w1)
          | some rooms ↦ answer_list req rooms w1
        ]
