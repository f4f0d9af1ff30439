-- ===== src/Lobby/Leave.antt =====
-- LeaveRoom of internal/server/lobby_server.go. The handler also reads the clock and builds a map
-- that it then discards; that read is left out.
use cogame.Base.{ℕ, pos, neg, leb_ℤ, not, List, [], ◌∷◌, none, some, ◌==◌, if◌then◌else◌}
use cogame.Model.{Room, RoomPlayer}
use cogame.Database.Mongo.{Mongo}
use cogame.Database.Rooms
use cogame.Database.Users.{get_by_user_id}
use cogame.Lobby.Messages.{BaseRequest, BaseResponse, JoinRoomRequest, Codec, get_user_id, respond}
use cogame.Lobby.Join.{in_room}

-- The id of the first player who is not the one leaving, 0 if there is none.
unfoldable pub new_owner : ℕ → List RoomPlayer → ℕ
new_owner user_id [] = 0
new_owner user_id (p ∷ ps) = if p.user_id == user_id then new_owner user_id ps else p.user_id

module _ (m : Mongo) (codec : Codec) where
  open m use {World}

  -- The response after the departure; a response that cannot be encoded is an error.
  unfoldable pub answer_leave : BaseRequest → BaseResponse
  answer_leave req = elim (codec.marshal_response (respond req (pos 0) "left room successfully")) [
    | none ↦ respond req (neg 9) "failed to create response"
    | some bytes ↦ respond req (pos 0) "left room successfully"
  ]

  -- The owner leaves a room of one: the room goes.
  unfoldable pub close_room : BaseRequest → ℕ → World → BaseResponse × World
  unfolding answer_leave
  close_room req room_id w =
      let (deleted, w1) = Rooms.delete_room m room_id w in
      if deleted then (answer_leave req, w1) else (respond req (neg 6) "failed to leave room", w1)

  -- The owner leaves others behind: the player is removed, then the room as it was read at the
  -- beginning is written back with its new owner. An error of that write is only logged.
  unfoldable pub transfer_room : BaseRequest → ℕ → Room → World → BaseResponse × World
  unfolding answer_leave
  transfer_room req room_id room w =
      let owner = new_owner (get_user_id req) room.players in
      if owner == 0
      then (answer_leave req, w)
      else let (removed, w1) = Rooms.remove_player_from_room m room_id (get_user_id req) w in
        if removed
        then (answer_leave req, (Rooms.update_room m (record room { owner_id = owner }) w1).1)
        else (respond req (neg 7) "failed to leave room", w1)

  -- A player who is not the owner leaves.
  unfoldable pub drop_player : BaseRequest → ℕ → World → BaseResponse × World
  unfolding answer_leave
  drop_player req room_id w =
      let (removed, w1) = Rooms.remove_player_from_room m room_id (get_user_id req) w in
      if removed then (answer_leave req, w1) else (respond req (neg 8) "failed to leave room", w1)

  -- From the room on. The user is looked up for the log only.
  unfoldable pub leave_found : BaseRequest → ℕ → Room → World → BaseResponse × World
  unfolding close_room transfer_room drop_player
  leave_found req room_id room w =
      if not (in_room (get_user_id req) room.players)
      then (respond req (neg 5) "not in room", w)
      else let (user, w1) = get_by_user_id m (get_user_id req) w in
        if not (room.owner_id == get_user_id req)
        then drop_player req room_id w1
        else if leb_ℤ room.current_players (pos 1)
        then close_room req room_id w1
        else transfer_room req room_id room w1

  -- From the decoded request on.
  unfoldable pub leave_decoded : BaseRequest → JoinRoomRequest → World → BaseResponse × World
  unfolding leave_found
  leave_decoded req q w =
      if q.room_id == 0
      then (respond req (neg 3) "invalid room id", w)
      else let (found, w1) = Rooms.get_room_by_id m q.room_id w in
        elim found [
          | none ↦ (respond req (neg 4) "room not found", w1)
          | some room ↦ leave_found req q.room_id room w1
        ]

  unfoldable pub leave_room : BaseRequest → World → BaseResponse × World
  unfolding leave_decoded
  leave_room req w =
      if get_user_id req == 0
      then (respond req (neg 1) "invalid user id", w)
      else elim (codec.unmarshal_join_room req.payload) [
        | none ↦ (respond req (neg 2) "invalid request data", w)
        | some q ↦ leave_decoded req q w
      ]
