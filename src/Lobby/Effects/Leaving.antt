-- ===== src/Lobby/Effects/Leaving.antt =====
-- The effect of LeaveRoom of internal/server/lobby_server.go.
pub mod Outcome
use cogame.Base.{
  ℕ, pos, neg, leb_ℤ, Bool-cases, Option-cases, true, false, List, [], ◌∷◌, Option, none, some, ◌≡◌,
  ◌≢◌, refl, sym, ap, subst, ◌∙◌, ◌==◌, ==_refl, ==_iff, arith, if◌then◌else◌, inl, inr, ◌⊎◌,
}
use cogame.Model.{Room, RoomPlayer}
use cogame.Database.Mongo.{Mongo, MongoLaws, apply_operators, set_document}
use cogame.Database.Rooms
use cogame.Database.Users.{get_by_user_id}
use cogame.Database.Effects
use cogame.Lobby.Messages.{BaseRequest, BaseResponse, JoinRoomRequest, Codec, get_user_id}
use cogame.Lobby.Join.{in_room}
use cogame.Lobby.Leave.{
  new_owner, answer_leave, close_room, transfer_room, drop_player, leave_found, leave_decoded,
  leave_room,
}
use cogame.Lobby.Effects.Stored.{Unchanged}
use cogame.Lobby.Rules.{without_player}

-- The stored room after a departure: none, or a document; the other rooms are as they were.
pub record Becomes (m : Mongo) (l : MongoLaws m) (k : ℕ) (after : Option Room) (w w' : m.World)
    : Type 0 where
  pub here : l.rooms w' k ≡ after
  pub others : (j : ℕ) → (k == j) ≡ false → l.rooms w' j ≡ l.rooms w j

-- What UpdateRoom makes of the room after RemovePlayerFromRoom, when it writes back the room that
-- was read before.
abbrev pub written_back : Room → ℕ → ℕ → ℕ → Room
written_back room u removed_at updated_at =
    apply_operators
      (set_document (record room { owner_id = new_owner u room.players; updated_at = updated_at })
        ∷ [])
      (without_player u removed_at room)

-- What became of the room of someone who is in it.
pub data Departure (m : Mongo) (l : MongoLaws m) (u k : ℕ) (room : Room) (w : m.World)
    (res : BaseResponse × m.World) : Type 0 where
  closed :
      room.owner_id ≡ u
      → leb_ℤ room.current_players (pos 1) ≡ true
      → Becomes m l k none w res.1
      → Departure m l u k room w res
  dropped :
      (room.owner_id == u) ≡ false
      → (now : ℕ) → Becomes m l k (some (without_player u now room)) w res.1
      → Departure m l u k room w res
  kept :
      room.owner_id ≡ u
      → leb_ℤ room.current_players (pos 1) ≡ false
      → new_owner u room.players ≡ 0
      → Unchanged m l w res.1
      → Departure m l u k room w res
  transferred :
      room.owner_id ≡ u
      → leb_ℤ room.current_players (pos 1) ≡ false
      → new_owner u room.players ≢ 0
      → (now later : ℕ) → Becomes m l k (some (written_back room u now later)) w res.1
      → Departure m l u k room w res
  not_updated :
      room.owner_id ≡ u
      → leb_ℤ room.current_players (pos 1) ≡ false
      → new_owner u room.players ≢ 0
      → (new : Room) (w1 : m.World) → (Rooms.update_room m new w1).0 ≡ false
      → Departure m l u k room w res

pub data LeaveOutcome (m : Mongo) (l : MongoLaws m) (codec : Codec) (req : BaseRequest)
    (w : m.World) (res : BaseResponse × m.World) : Type 0 where
  refused : res.0.code ≢ pos 0 → Unchanged m l w res.1 → LeaveOutcome m l codec req w res
  left :
      (q : JoinRoomRequest) (room : Room)
      → codec.unmarshal_join_room req.payload ≡ some q
      → l.rooms w q.room_id ≡ some room
      → in_room (get_user_id req) room.players ≡ true
      → (res.0.code ≡ pos 0) ⊎ (res.0.code ≡ neg 9)
      → Departure m l (get_user_id req) q.room_id room w res
      → LeaveOutcome m l codec req w res
  failed :
      (res.0.code ≡ neg 6) ⊎ (res.0.code ≡ neg 7) ⊎ (res.0.code ≡ neg 8)
      → LeaveOutcome m l codec req w res

module _ (m : Mongo) (l : MongoLaws m) (codec : Codec) where
  open m use {World}
  open l use {rooms}

  answer_leave-code :
      (req : BaseRequest)
      → ((answer_leave m codec req).code ≡ pos 0) ⊎ ((answer_leave m codec req).code ≡ neg 9)
  unfolding answer_leave
  answer_leave-code req = ground arith

  remove_player-Becomes :
      (k u : ℕ) (room : Room) (w : World)
      → rooms w k ≡ some room
      → (Rooms.remove_player_from_room m k u w).0 ≡ true
      → Becomes m l k
          (some (without_player u (m.clock w).0 room))
          w
          (Rooms.remove_player_from_room m k u w).1
  remove_player-Becomes k u room w stored done = record {
    here = Effects.rooms-remove_player_from_room m l k u w k done ∙ rw (==_refl k, stored) refl;
    others = λ j h. Effects.rooms-remove_player_from_room m l k u w j done ∙ rw h refl;
  }

  delete_room-Becomes :
      (k : ℕ) (w : World)
      → (Rooms.delete_room m k w).0 ≡ true
      → Becomes m l k none w (Rooms.delete_room m k w).1
  unfolding Rooms.delete_room
  delete_room-Becomes k w done = record {
    here = l.rooms-delete_room k w k done ∙ rw (==_refl k) refl;
    others = λ j h. l.rooms-delete_room k w j done ∙ rw h refl;
  }

  -- UpdateRoom of a room that is stored under its own id.
  update_room-Becomes :
      (new old : Room) (w : World)
      → rooms w new.room_id ≡ some old
      → (Rooms.update_room m new w).0 ≡ true
      → Becomes m l new.room_id
          (some
            (apply_operators (set_document (record new { updated_at = (m.clock w).0 }) ∷ []) old))
          w
          (Rooms.update_room m new w).1
  update_room-Becomes new old w stored done = record {
    here =
        Effects.rooms-update_room m l new w new.room_id done
        ∙ rw (==_refl new.room_id, stored) refl;
    others = λ j h. Effects.rooms-update_room m l new w j done ∙ rw h refl;
  }

  Becomes-Becomes :
      {k : ℕ} {a b : Option Room} {w w1 w2 : World}
      → Becomes m l k a w w1
      → Becomes m l k b w1 w2
      → Becomes m l k b w w2
  Becomes-Becomes v v' = record { here = v'.here; others = λ j h. v'.others j h ∙ v.others j h }

  Becomes-later :
      {k : ℕ} {a : Option Room} {w w1 w2 : World}
      → Unchanged m l w w1
      → Becomes m l k a w1 w2
      → Becomes m l k a w w2
  Becomes-later before v = record { here = v.here; others = λ j h. v.others j h ∙ before j }

  Becomes-lookup :
      {k k' : ℕ} {a : Option Room} {w w' : World}
      → k ≡ k'
      → Becomes m l k a w w'
      → Becomes m l k' a w w'
  Becomes-lookup {a = a} {w} {w'} e v = subst (λ i. Becomes m l i a w w') e v
