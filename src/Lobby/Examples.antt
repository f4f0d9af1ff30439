-- ===== src/Lobby/Examples.antt =====
-- Runs of the handlers of internal/server/lobby_server.go over a MongoDB in memory.
use cogame.Base.{ℕ, ℤ, pos, true, false, List, [], ◌∷◌, some, ◌≡◌, refl, arith, subst}
use cogame.Model.{Room, RoomPlayer, User}
use cogame.Database.Memory.{World, memory, memory_laws}
use cogame.Database.Rooms
use cogame.Database.Users.{get_by_user_id}
use cogame.Lobby.Messages.{BaseRequest, BaseResponse, Codec, get_user_id}
use cogame.Lobby.Create.{create_room}
use cogame.Lobby.Join.{in_room, join_room}
use cogame.Lobby.Leave.{new_owner, leave_room}
use cogame.Lobby.Rules.{IsRoom}
use cogame.Lobby.Effects.Stored.{AllRooms}
use cogame.Lobby.Effects.Joining.{JoinOutcome, join_room-JoinOutcome, join_room-AllRooms}
use cogame.Lobby.Effects.Creating.{CreateOutcome, create_room-CreateOutcome, create_room-AllRooms}
use cogame.Lobby.Effects.Invariant.{leave_room-AllRooms, leave_room_keeps_owner}

abbrev pub user : ℕ → User
user n = record {
  id = "";
  user_id = n;
  username = "u";
  password = "";
  nickname = "nick";
  email = "";
  phone = "";
  level = pos 1;
  experience = pos 0;
  gold = pos 0;
  diamond = pos 0;
  avatar = "";
  status = pos 0;
  last_login_ip = "";
  last_login_at = 0;
  created_at = 0;
  updated_at = 0;
}

-- Every payload decodes to the same request.
abbrev pub codec : Codec
codec = record {
  unmarshal_create_room = λ bytes. some (record {
    room_name = "r";
    game_type = pos 1;
    max_players = pos 2;
    is_private = false;
    password = "";
  });
  unmarshal_join_room = λ bytes. some (record { room_id = 1000; password = "" });
  marshal_room_info = λ info. some (1 ∷ []);
  marshal_room_list = λ infos. some (2 ∷ []);
  marshal_response = λ r. some (3 ∷ []);
}

abbrev pub from_user : ℕ → BaseRequest
from_user n = record {
  header = some (record { msg_id = 1; seq = 1; user_id = n; timestamp = 0; session_id = "" });
  payload = [];
}

abbrev empty_world : World
empty_world = record { rooms = []; users = user 7 ∷ user 8 ∷ []; time = 5000000000 }

abbrev created : BaseResponse × ℕ × World
created = create_room memory codec (from_user 7) 1000 empty_world

abbrev joined : BaseResponse × World
joined = join_room memory codec (from_user 8) created.2

create_room_code : (created.0.code ≡ pos 0) × (created.1 ≡ 1001)
unfolding create_room get_user_id get_by_user_id Rooms.create_room
create_room_code = (refl, refl)

join_room_code : joined.0.code ≡ pos 0
unfolding create_room get_user_id get_by_user_id Rooms.create_room join_room in_room
    Rooms.get_room_by_id Rooms.add_player_to_room
join_room_code = refl

abbrev pub player : ℕ → RoomPlayer
player n = record { user_id = n; nickname = "nick"; level = pos 1; status = pos 0; join_time = 5 }

-- Room 1000 of user 7, with room for three.
abbrev room_of : List RoomPlayer → ℤ → Room
room_of players count = record {
  id = 1;
  room_id = 1000;
  room_name = "r";
  game_type = pos 1;
  max_players = pos 3;
  current_players = count;
  status = pos 0;
  is_private = false;
  password = "";
  owner_id = 7;
  players = players;
  created_at = 0;
  updated_at = 0;
}

abbrev shared_room : Room
shared_room = room_of (player 7 ∷ player 9 ∷ []) (pos 2)

abbrev world_of : Room → World
world_of room = record { rooms = room ∷ []; users = user 7 ∷ user 8 ∷ []; time = 5000000000 }

shared_room-IsRoom : IsRoom shared_room
unfolding in_room
shared_room-IsRoom = record {
  counted = refl;
  fits = omega arith;
  distinct = (refl, (refl, tt));
  owned = refl;
}

world_of-AllRooms : (room : Room) → IsRoom room → AllRooms memory memory_laws (world_of room)
world_of-AllRooms room v j r h = let e : room ≡ r = ground arith in subst IsRoom e v

join_room-JoinOutcome_example :
    JoinOutcome memory memory_laws codec
      (from_user 8)
      (world_of shared_room)
      (join_room memory codec (from_user 8) (world_of shared_room))
join_room-JoinOutcome_example =
    join_room-JoinOutcome memory memory_laws codec (from_user 8) (world_of shared_room)

create_room-CreateOutcome_example :
    CreateOutcome memory memory_laws codec (from_user 7) 1000 empty_world created
create_room-CreateOutcome_example =
    create_room-CreateOutcome memory memory_laws codec (from_user 7) 1000 empty_world

shared_code : (join_room memory codec (from_user 8) (world_of shared_room)).0.code ≡ pos 0
unfolding get_user_id get_by_user_id join_room in_room Rooms.get_room_by_id Rooms.add_player_to_room
shared_code = refl

join_room-AllRooms_example :
    AllRooms memory memory_laws (join_room memory codec (from_user 8) (world_of shared_room)).1
join_room-AllRooms_example =
    join_room-AllRooms memory memory_laws codec (from_user 8) (world_of shared_room)
      (world_of-AllRooms shared_room shared_room-IsRoom) (λ e. cc (shared_code, e))

create_room-AllRooms_example : AllRooms memory memory_laws created.2
create_room-AllRooms_example =
    create_room-AllRooms memory memory_laws codec (from_user 7) 1000 empty_world
      (λ j r h. absurd (ground arith)) (λ e. cc (create_room_code.0, e))

leave_code : (leave_room memory codec (from_user 9) (world_of shared_room)).0.code ≡ pos 0
unfolding get_user_id get_by_user_id leave_room in_room Rooms.get_room_by_id
    Rooms.remove_player_from_room
leave_code = refl

owner_code : (leave_room memory codec (from_user 7) (world_of shared_room)).0.code ≡ pos 0
unfolding get_user_id get_by_user_id leave_room in_room Rooms.get_room_by_id
    Rooms.remove_player_from_room new_owner Rooms.update_room
owner_code = refl

update_room-succeeds : (new : Room) (w1 : World) → (Rooms.update_room memory new w1).0 ≡ true
unfolding Rooms.update_room
update_room-succeeds new w1 = refl

leave_room-AllRooms_example :
    AllRooms memory memory_laws (leave_room memory codec (from_user 9) (world_of shared_room)).1
leave_room-AllRooms_example =
    leave_room-AllRooms memory memory_laws codec (from_user 9) (world_of shared_room)
      update_room-succeeds (world_of-AllRooms shared_room shared_room-IsRoom)
      (λ e. cc (leave_code, e)) (λ e. cc (leave_code, e)) (λ e. cc (leave_code, e))

leave_room_keeps_owner_example :
    (r : Room) × (memory_laws.rooms
        (leave_room memory codec (from_user 7) (world_of shared_room)).1
        1000
      ≡ some r)
    × (r.owner_id ≡ 9)
    × (r.players ≡ shared_room.players)
    × (in_room 7 r.players ≡ true)
    × (r.current_players ≡ pos 2)
unfolding get_user_id new_owner
leave_room_keeps_owner_example =
    leave_room_keeps_owner memory memory_laws codec (from_user 7) (world_of shared_room)
      (record { room_id = 1000; password = "" }) shared_room refl refl refl refl
      (λ e. absurd (ground arith)) update_room-succeeds owner_code
