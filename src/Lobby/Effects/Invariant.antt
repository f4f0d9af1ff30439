-- ===== src/Lobby/Effects/Invariant.antt =====
-- LeaveRoom of internal/server/lobby_server.go and the shape of rooms; and what it does to an
-- owner who leaves others behind.
use cogame.Base.{
  ℕ, pos, neg, leb_ℤ, Bool-cases, true, false, List, [], ◌∷◌, Option, some, ◌≡◌, ◌≢◌, refl, sym, ap,
  subst, ◌∙◌, ◌==◌, ==_iff, eq_of_some, arith, inl, inr,
}
use mathlib.Core.Bool.{false≢true}
use cogame.Model.{Room, RoomPlayer}
use cogame.Database.Mongo.{Mongo, MongoLaws}
use cogame.Database.Rooms
use cogame.Lobby.Messages.{BaseRequest, BaseResponse, JoinRoomRequest, Codec, get_user_id}
use cogame.Lobby.Join.{in_room}
use cogame.Lobby.Leave.{new_owner, leave_room}
use cogame.Lobby.Effects.Stored.{AllRooms}
use cogame.Lobby.Effects.Leaving.{
  Becomes, Departure, closed, dropped, kept, transferred, not_updated, LeaveOutcome, refused, left,
  failed, written_back,
}
use cogame.Lobby.Effects.Leaving.Outcome.{leave_room-LeaveOutcome}
use cogame.Lobby.Rules.{IsRoom, without_player-IsRoom}

in_room-new_owner :
    (u : ℕ) (ps : List RoomPlayer) → new_owner u ps ≢ 0 → in_room (new_owner u ps) ps ≡ true
unfolding in_room new_owner
in_room-new_owner u [] h = absurd (h refl)
in_room-new_owner u (p ∷ ps) h = ground (arith, in_room-new_owner u ps)

-- The room that is written back is well formed: it has its old players.
written_back-IsRoom :
    (room : Room) (u now later : ℕ)
    → IsRoom room
    → new_owner u room.players ≢ 0
    → IsRoom (written_back room u now later)
written_back-IsRoom room u now later v h = record {
  counted = v.counted;
  fits = v.fits;
  distinct = v.distinct;
  owned = in_room-new_owner u room.players h;
}

module _ (m : Mongo) (l : MongoLaws m) (codec : Codec) where
  open m use {World}
  open l use {rooms}

  Becomes-AllRooms :
      {k : ℕ} {a : Option Room} {w w' : World}
      → Becomes m l k a w w'
      → ((r : Room) → a ≡ some r → IsRoom r)
      → AllRooms m l w
      → AllRooms m l w'
  Becomes-AllRooms {k} {w' = w'} v ok all j r stored = elim (Bool-cases (k == j)) [
    | inl here ↦ let e : k ≡ j = (==_iff k j).0 here in ok r (sym v.here ∙ ap (rooms w') e ∙ stored)
    | inr other ↦ all j r (sym (v.others j other) ∙ stored)
  ]

  Departure-AllRooms :
      {u k : ℕ} {room : Room} {w : World} {res : BaseResponse × World}
      → ((new : Room) (w1 : World) → (Rooms.update_room m new w1).0 ≡ true)
      → IsRoom room
      → in_room u room.players ≡ true
      → Departure m l u k room w res
      → AllRooms m l w
      → AllRooms m l res.1
  Departure-AllRooms written v inside (closed own alone b) all =
      Becomes-AllRooms b (λ r e. absurd (cc)) all
  Departure-AllRooms {u} {room = room} written v inside (dropped other now b) all =
      Becomes-AllRooms b
        (λ r e. subst IsRoom (eq_of_some e) (without_player-IsRoom room u now v inside other)) all
  Departure-AllRooms written v inside (kept own many nobody same) all =
      λ j r stored. all j r (sym (same j) ∙ stored)
  Departure-AllRooms {u} {room = room} written v inside (transferred own many heir now later b)
        all =
      Becomes-AllRooms b
        (λ r e. subst IsRoom (eq_of_some e) (written_back-IsRoom room u now later v heir)) all
  Departure-AllRooms written v inside (not_updated own many heir new w1 lost) all =
      absurd (false≢true (sym lost ∙ written new w1))

  -- LeaveRoom keeps every stored room well formed, where the database reports no error: UpdateRoom
  -- never fails, and the response is none of -6, -7 and -8.
  pub leave_room-AllRooms :
      (req : BaseRequest) (w : World)
      → ((new : Room) (w1 : World) → (Rooms.update_room m new w1).0 ≡ true)
      → AllRooms m l w
      → (leave_room m codec req w).0.code ≢ neg 6
      → (leave_room m codec req w).0.code ≢ neg 7
      → (leave_room m codec req w).0.code ≢ neg 8
      → AllRooms m l (leave_room m codec req w).1
  leave_room-AllRooms req w written all six seven eight =
      of_outcome (leave_room-LeaveOutcome m l codec req w)
    where
      of_outcome :
          LeaveOutcome m l codec req w (leave_room m codec req w)
          → AllRooms m l (leave_room m codec req w).1
      of_outcome (refused code same) = λ j r stored. all j r (sym (same j) ∙ stored)
      of_outcome (left q room decoded stored inside code d) =
          Departure-AllRooms written (all q.room_id room stored) inside d all
      of_outcome (failed (inl h)) = absurd (six h)
      of_outcome (failed (inr (inl h))) = absurd (seven h)
      of_outcome (failed (inr (inr h))) = absurd (eight h)

  -- An owner who leaves others behind does not leave: where LeaveRoom answers 0 and UpdateRoom
  -- does not fail, the stored room has a new owner, and the old list of players, with the one who
  -- left still among them, and the old counter.
  pub leave_room_keeps_owner :
      (req : BaseRequest) (w : World) (q : JoinRoomRequest) (room : Room)
      → codec.unmarshal_join_room req.payload ≡ some q
      → rooms w q.room_id ≡ some room
      → room.owner_id ≡ get_user_id req
      → leb_ℤ room.current_players (pos 1) ≡ false
      → new_owner (get_user_id req) room.players ≢ 0
      → ((new : Room) (w1 : World) → (Rooms.update_room m new w1).0 ≡ true)
      → (leave_room m codec req w).0.code ≡ pos 0
      → (r : Room) × (rooms (leave_room m codec req w).1 q.room_id ≡ some r)
        × (r.owner_id ≡ new_owner (get_user_id req) room.players)
        × (r.players ≡ room.players)
        × (in_room (get_user_id req) r.players ≡ true)
        × (r.current_players ≡ room.current_players)
  leave_room_keeps_owner req w q room decoded stored own many heir written code =
      of_outcome (leave_room-LeaveOutcome m l codec req w)
    where
      u : ℕ
      u = get_user_id req

      Goal : Type 0
      Goal =
          (r : Room) × (rooms (leave_room m codec req w).1 q.room_id ≡ some r)
          × (r.owner_id ≡ new_owner u room.players)
          × (r.players ≡ room.players)
          × (in_room u r.players ≡ true)
          × (r.current_players ≡ room.current_players)

      of_departure :
          in_room u room.players ≡ true
          → Departure m l u q.room_id room w (leave_room m codec req w)
          → Goal
      of_departure inside (closed _ alone _) = absurd (false≢true (sym many ∙ alone))
      of_departure inside (dropped other _ _) =
          absurd (false≢true (sym other ∙ (==_iff room.owner_id u).1 own))
      of_departure inside (kept _ _ nobody _) = absurd (heir nobody)
      of_departure inside (transferred _ _ _ now later b) =
          (written_back room u now later, b.here, refl, refl, inside, refl)
      of_departure inside (not_updated _ _ _ new w1 lost) =
          absurd (false≢true (sym lost ∙ written new w1))

      of_outcome : LeaveOutcome m l codec req w (leave_room m codec req w) → Goal
      of_outcome (refused no_code _) = absurd (no_code code)
      of_outcome (left q' room' decoded' stored' inside _ d) =
          let same_q : q' ≡ q = eq_of_some (sym decoded' ∙ decoded) in
          let same_room : room' ≡ room =
            eq_of_some
              (sym stored' ∙ ap (λ (x : JoinRoomRequest). rooms w x.room_id) same_q ∙ stored) in
          of_departure (subst (λ x. in_room u x.players ≡ true) same_room inside) (
            subst (λ x. Departure m l u x.room_id room w (leave_room m codec req w)) same_q
              (subst (λ x. Departure m l u q'.room_id x w (leave_room m codec req w)) same_room d))
      of_outcome (failed (inl h)) = absurd (ground arith)
      of_outcome (failed (inr (inl h))) = absurd (ground arith)
      of_outcome (failed (inr (inr h))) = absurd (ground arith)
