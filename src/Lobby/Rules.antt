-- ===== src/Lobby/Rules.antt =====
-- What makes a room well formed, and the pure steps that keep it so.
use cogame.Base.{
  ℕ, ◌+◌, pos, negsuc, suc, ◌+ℤ◌, ◌≤ℤ◌, String, true, false, List, [], ◌∷◌, ◌++◌, none, ◌≡◌, refl,
  ◌==◌, length, arith, if◌then◌else◌,
}
use cogame.Model.{Room, RoomPlayer, User}
use cogame.Database.Mongo.{
  push_players, pull_players, inc_current_players, set_updated_at, without_user, apply_operators,
}
use cogame.Lobby.Messages.{CreateRoomRequest}
use cogame.Lobby.Create.{reject_create, new_room}
use cogame.Lobby.Join.{in_room, reject_join, new_player}

-- No user is in the list twice.
abbrev pub Distinct : List RoomPlayer → Type 0
Distinct [] = Unit {0}
Distinct (p ∷ ps) = (in_room p.user_id ps ≡ false) × Distinct ps

-- A waiting room: the counter is the number of players, who fit and are distinct, and the owner
-- is one of them.
pub record IsRoom (r : Room) : Type 0 where
  pub counted : r.current_players ≡ pos (length r.players)
  pub fits : r.current_players ≤ℤ r.max_players
  pub distinct : Distinct r.players
  pub owned : in_room r.owner_id r.players ≡ true

pub in_room-append :
    (u : ℕ) (ps : List RoomPlayer) (p : RoomPlayer)
    → in_room u (ps ++ p ∷ []) ≡ (if p.user_id == u then true else in_room u ps)
unfolding in_room
in_room-append u [] p = ground arith
in_room-append u (x ∷ ps) p = ground (arith, in_room-append u ps p)

pub Distinct-append :
    (ps : List RoomPlayer) (p : RoomPlayer)
    → Distinct ps
    → in_room p.user_id ps ≡ false
    → Distinct (ps ++ p ∷ [])
unfolding in_room
Distinct-append [] p d h = (refl, tt)
Distinct-append (x ∷ ps) p d h =
    ground (arith, Distinct-append ps p d.1, in_room-append x.user_id ps p)

pub length-append_one :
    (ps : List RoomPlayer) (p : RoomPlayer) → length (ps ++ p ∷ []) ≡ length ps + 1
length-append_one [] p = omega arith
length-append_one (x ∷ ps) p = omega (arith, length-append_one ps p)

-- The room of a request that passes the tests is well formed.
pub new_room-IsRoom :
    (q : CreateRoomRequest) (room_id : ℕ) (user : User) (user_id now : ℕ)
    → reject_create q ≡ none
    → IsRoom (new_room q room_id user user_id now)
unfolding reject_create new_room in_room
new_room-IsRoom q room_id user user_id now h = record {
  counted = refl;
  fits = ground arith;
  distinct = (refl, tt);
  owned = ground arith;
}

-- The document after AddPlayerToRoom.
abbrev pub with_player : RoomPlayer → ℕ → Room → Room
with_player p now =
    apply_operators (push_players p ∷ inc_current_players (pos 1) ∷ set_updated_at now ∷ [])

-- A room that lets a user in is well formed with that user.
pub with_player-IsRoom :
    (r : Room) (u : ℕ) (password : String) (user : User) (now later : ℕ)
    → IsRoom r
    → reject_join r u password ≡ none
    → IsRoom (with_player (new_player u user now) later r)
unfolding reject_join new_player ◌+ℤ◌
with_player-IsRoom r u password user now later v h = record {
  counted = ground (arith, length-append_one r.players (new_player u user now));
  fits = ground arith;
  distinct = Distinct-append r.players (new_player u user now) v.distinct (ground arith);
  owned = ground (arith, in_room-append r.owner_id r.players (new_player u user now));
}

pub in_room-without_user :
    (u v : ℕ) (ps : List RoomPlayer)
    → in_room v (without_user u ps) ≡ (if u == v then false else in_room v ps)
unfolding in_room
in_room-without_user u v [] = ground arith
in_room-without_user u v (p ∷ ps) = ground (arith, in_room-without_user u v ps)

Distinct-without_user : (u : ℕ) (ps : List RoomPlayer) → Distinct ps → Distinct (without_user u ps)
Distinct-without_user u [] d = tt
Distinct-without_user u (p ∷ ps) d =
    ground (arith, Distinct-without_user u ps d.1, in_room-without_user u p.user_id ps)

without_user_absent : (u : ℕ) (ps : List RoomPlayer) → in_room u ps ≡ false → without_user u ps ≡ ps
unfolding in_room
without_user_absent u [] h = refl
without_user_absent u (p ∷ ps) h = ground (arith, without_user_absent u ps)

length-without_user :
    (u : ℕ) (ps : List RoomPlayer)
    → Distinct ps
    → in_room u ps ≡ true
    → length ps ≡ suc (length (without_user u ps))
unfolding in_room
length-without_user u [] d h = cc
length-without_user u (p ∷ ps) d h =
    ground (arith, length-without_user u ps d.1, without_user_absent u ps)

-- The document after RemovePlayerFromRoom.
abbrev pub without_player : ℕ → ℕ → Room → Room
without_player u now =
    apply_operators (pull_players u ∷ inc_current_players (negsuc 0) ∷ set_updated_at now ∷ [])

-- A room is well formed after a player other than its owner is removed.
pub without_player-IsRoom :
    (r : Room) (u now : ℕ)
    → IsRoom r
    → in_room u r.players ≡ true
    → (r.owner_id == u) ≡ false
    → IsRoom (without_player u now r)
unfolding ◌+ℤ◌
without_player-IsRoom r u now v inside other = record {
  counted = ground (arith, length-without_user u r.players v.distinct);
  fits = ground (arith, length-without_user u r.players v.distinct);
  distinct = Distinct-without_user u r.players v.distinct;
  owned = ground (arith, in_room-without_user u r.owner_id r.players);
}
