-- ===== src/Database/Effects.antt =====
-- What each method of the room repository does to the stored rooms, from the laws of MongoDB.
use cogame.Base.{ℕ, pos, negsuc, true, [], ◌∷◌, none, some, ◌≡◌, refl, ◌==◌, arith, if◌then◌else◌}
use mathlib.Core.Option
use cogame.Model.{Room, RoomPlayer}
use cogame.Database.Mongo.{
  Mongo, MongoLaws, document, no_documents, failure, Reply, push_players, pull_players,
  inc_current_players, set_updated_at, set_document, apply_operators,
}
use cogame.Database.Rooms
use cogame.Database.Users.{get_by_user_id}

module _ (m : Mongo) (l : MongoLaws m) where
  open m use {World}
  open l use {rooms}

  pub rooms-get_room_by_id :
      (k : ℕ) (w : World) (j : ℕ) → rooms (Rooms.get_room_by_id m k w).1 j ≡ rooms w j
  unfolding Rooms.get_room_by_id
  rooms-get_room_by_id k w j = l.rooms-find_room k w j

  pub rooms-get_by_user_id :
      (k : ℕ) (w : World) (j : ℕ) → rooms (get_by_user_id m k w).1 j ≡ rooms w j
  unfolding get_by_user_id
  rooms-get_by_user_id k w j = l.rooms-find_user k w j

  reply_document :
      (r : Reply Room) (room : Room)
      → (elim r [ document x ↦ some x | no_documents ↦ none | failure ↦ none ]) ≡ some room
      → r ≡ document room
  reply_document (document x) room h = ground arith
  reply_document no_documents room h = cc
  reply_document failure room h = cc

  -- A room that is found is the stored one.
  pub get_room_by_id-stored :
      (k : ℕ) (w : World) (room : Room)
      → (Rooms.get_room_by_id m k w).0 ≡ some room
      → rooms w k ≡ some room
  unfolding Rooms.get_room_by_id
  get_room_by_id-stored k w room h =
      l.find_room-document k w room (reply_document (m.find_room k w).0 room h)

  pub rooms-add_player_to_room :
      (k : ℕ) (p : RoomPlayer) (w : World) (j : ℕ)
      → (Rooms.add_player_to_room m k p w).0 ≡ true
      → rooms (Rooms.add_player_to_room m k p w).1 j ≡ (
          if k == j
          then Option.map
              (apply_operators
                (push_players p ∷ inc_current_players (pos 1) ∷ set_updated_at (m.clock w).0 ∷ []))
              (rooms w k)
          else rooms w j)
  unfolding Rooms.add_player_to_room
  rooms-add_player_to_room k p w j h =
      let e = l.rooms-update_room k _ (m.clock w).1 j tt h in
      rw (l.rooms-clock w k, l.rooms-clock w j) at e

  pub rooms-remove_player_from_room :
      (k u : ℕ) (w : World) (j : ℕ)
      → (Rooms.remove_player_from_room m k u w).0 ≡ true
      → rooms (Rooms.remove_player_from_room m k u w).1 j ≡ (
          if k == j
          then Option.map
              (apply_operators (
                pull_players u
                ∷ inc_current_players (negsuc 0)
                ∷ set_updated_at (m.clock w).0
                ∷ []))
              (rooms w k)
          else rooms w j)
  unfolding Rooms.remove_player_from_room
  rooms-remove_player_from_room k u w j h =
      let e = l.rooms-update_room k _ (m.clock w).1 j tt h in
      rw (l.rooms-clock w k, l.rooms-clock w j) at e

  pub rooms-update_room :
      (r : Room) (w : World) (j : ℕ)
      → (Rooms.update_room m r w).0 ≡ true
      → rooms (Rooms.update_room m r w).1 j ≡ (
          if r.room_id == j
          then Option.map
              (apply_operators (set_document (record r { updated_at = (m.clock w).0 }) ∷ []))
              (rooms w r.room_id)
          else rooms w j)
  unfolding Rooms.update_room
  rooms-update_room r w j h =
      let e = l.rooms-update_room r.room_id _ (m.clock w).1 j (refl, tt) h in
      rw (l.rooms-clock w r.room_id, l.rooms-clock w j) at e
