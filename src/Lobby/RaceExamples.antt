-- ===== src/Lobby/RaceExamples.antt =====
-- A run of two requests to JoinRoom of internal/server/lobby_server.go at once.
use cogame.Base.{pos, ◌+ℤ◌, ltb_ℤ, true, false, [], ◌∷◌, some, ◌≡◌, refl}
use cogame.Model.{Room}
use cogame.Database.Memory.{World, memory, memory_laws}
use cogame.Database.Rooms
use cogame.Database.Users.{get_by_user_id}
use cogame.Lobby.Messages.{BaseResponse, JoinRoomRequest, get_user_id}
use cogame.Lobby.Join.{in_room, join_found}
use cogame.Lobby.Examples.{user, codec, from_user, player}
use cogame.Lobby.Effects.Race.{join_found_twice}

-- A room for two, with one player.
abbrev small_room : Room
small_room = record {
  id = 0;
  room_id = 1000;
  room_name = "r";
  game_type = pos 1;
  max_players = pos 2;
  current_players = pos 1;
  status = pos 0;
  is_private = false;
  password = "";
  owner_id = 7;
  players = player 7 ∷ [];
  created_at = 0;
  updated_at = 0;
}

abbrev crowded : World
crowded = record {
  rooms = small_room ∷ [];
  users = user 7 ∷ user 8 ∷ user 9 ∷ [];
  time = 5000000000;
}

abbrev asked : JoinRoomRequest
asked = record { room_id = 1000; password = "" }

abbrev first : BaseResponse × World
first = join_found memory codec (from_user 8) asked small_room crowded

abbrev second : BaseResponse × World
second = join_found memory codec (from_user 9) asked small_room first.1

join_found_twice_example :
    (full : Room) × (memory_laws.rooms second.1 1000 ≡ some full)
    × (full.max_players ≡ pos 2)
    × (full.current_players ≡ pos 2 +ℤ pos 1)
    × (ltb_ℤ full.max_players full.current_players ≡ true)
unfolding ◌+ℤ◌ join_found get_user_id get_by_user_id in_room Rooms.get_room_by_id
    Rooms.add_player_to_room
join_found_twice_example =
    join_found_twice memory memory_laws codec (from_user 8) (from_user 9) asked asked small_room
      crowded refl refl refl refl refl
