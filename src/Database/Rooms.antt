-- ===== src/Database/Rooms.antt =====
-- internal/database/mongodb/room.go: RoomRepository. A method that returns an error returns
-- `none` or `false`, since its callers look at nothing else.
use cogame.Base.{ℕ, ℤ, pos, negsuc, ltb_ℤ, Bool, List, [], ◌∷◌, Option, none, some, if◌then◌else◌}
use cogame.Model.{Room, RoomPlayer}
use cogame.Database.Mongo.{
  Mongo, document, no_documents, failure, Filter, push_players, pull_players, inc_current_players,
  set_updated_at, set_document,
}

module _ (m : Mongo) where
  open m use {World}

  -- The new document, with its times and, after the insertion, its object id.
  unfoldable pub create_room : Room → World → Option Room × World
  create_room room w =
      let (created, w1) = m.clock w in
      let (updated, w2) = m.clock w1 in
      let stamped = record room { created_at = created; updated_at = updated } in
      let (result, w3) = m.insert_room stamped w2 in
      (elim result [ none ↦ none | some i ↦ some (record stamped { id = i }) ], w3)

  unfoldable pub get_room_by_id : ℕ → World → Option Room × World
  get_room_by_id room_id w =
      let (reply, w1) = m.find_room room_id w in
      (elim reply [ document r ↦ some r | no_documents ↦ none | failure ↦ none ], w1)

  -- The filter lists waiting rooms only, of one game type if that is positive.
  unfoldable pub waiting : ℤ → Filter
  waiting game_type = record {
    game_type = if ltb_ℤ (pos 0) game_type then some game_type else none;
    status = pos 0;
  }

  unfoldable pub get_room_list : ℤ → ℕ → ℕ → World → Option (List Room) × World
  unfolding waiting
  get_room_list game_type limit offset = m.find_rooms (waiting game_type) limit offset

  unfoldable pub update_room : Room → World → Bool × World
  update_room room w =
      let (now, w1) = m.clock w in
      m.update_room room.room_id (set_document (record room { updated_at = now }) ∷ []) w1

  unfoldable pub add_player_to_room : ℕ → RoomPlayer → World → Bool × World
  add_player_to_room room_id player w =
      let (now, w1) = m.clock w in
      m.update_room room_id
        (push_players player ∷ inc_current_players (pos 1) ∷ set_updated_at now ∷ []) w1

  unfoldable pub remove_player_from_room : ℕ → ℕ → World → Bool × World
  remove_player_from_room room_id user_id w =
      let (now, w1) = m.clock w in
      m.update_room room_id
        (pull_players user_id ∷ inc_current_players (negsuc 0) ∷ set_updated_at now ∷ []) w1

  unfoldable pub delete_room : ℕ → World → Bool × World
  delete_room = m.delete_room

  unfoldable pub count_rooms : ℤ → World → Option ℕ × World
  unfolding waiting
  count_rooms game_type = m.count_rooms (waiting game_type)
