-- ===== src/Lobby/ListExamples.antt =====
-- A run of GetRoomList of internal/server/lobby_server.go over a MongoDB in memory.
use cogame.Base.{pos, false, [], ◌∷◌, ℕ, map, ◌≡◌, refl}
use cogame.Model.{Room}
use cogame.Database.Memory.{World, memory, memory_laws, memory_list_laws}
use cogame.Database.Users.{get_by_user_id}
use cogame.Lobby.Listing.{room_infos, get_room_list}
use cogame.Lobby.Effects.Stored.{Unchanged}
use cogame.Lobby.Effects.Listed.{ListOutcome, get_room_list-ListOutcome}
use cogame.Lobby.Examples.{user, codec, from_user, player}

-- A room with an owner and a status.
abbrev room : ℕ → ℕ → ℕ → Room
room room_id owner status = record {
  id = 0;
  room_id = room_id;
  room_name = "r";
  game_type = pos 1;
  max_players = pos 4;
  current_players = pos 1;
  status = pos status;
  is_private = false;
  password = "";
  owner_id = owner;
  players = player owner ∷ [];
  created_at = 0;
  updated_at = 0;
}

-- The second room is being played in; the owner of the third is not there.
abbrev three_rooms : World
three_rooms = record {
  rooms = room 1000 7 0 ∷ room 1001 8 1 ∷ room 1002 9 0 ∷ [];
  users = user 7 ∷ user 8 ∷ [];
  time = 5000000000;
}

listed_rooms :
    map
      (λ info. info.room_id)
      (room_infos memory codec (room 1000 7 0 ∷ room 1002 9 0 ∷ []) three_rooms).0
    ≡ 1000 ∷ []
unfolding room_infos get_by_user_id
listed_rooms = refl

get_room_list-ListOutcome_example :
    ListOutcome memory memory_laws codec
      (from_user 7)
      three_rooms
      (get_room_list memory codec (from_user 7) three_rooms).0
    × Unchanged memory memory_laws three_rooms
        (get_room_list memory codec (from_user 7) three_rooms).1
get_room_list-ListOutcome_example =
    get_room_list-ListOutcome memory memory_laws memory_list_laws codec (from_user 7) three_rooms
