-- ===== src/Lobby/Effects/Leaving/Outcome.antt =====
-- The outcomes of LeaveRoom of internal/server/lobby_server.go, branch by branch.
use cogame.Base.{
  pos, leb_ℤ, Bool-cases, Option-cases, true, false, some, ◌≡◌, ◌≢◌, refl, ap, ◌∙◌, ◌==◌, ==_iff,
  arith, inl, inr,
}
use cogame.Model.{Room}
use cogame.Database.Mongo.{Mongo, MongoLaws}
use cogame.Database.Rooms
use cogame.Database.Users.{get_by_user_id}
use cogame.Database.Effects
use cogame.Lobby.Messages.{BaseRequest, JoinRoomRequest, Codec, get_user_id}
use cogame.Lobby.Join.{in_room}
use cogame.Lobby.Leave.{
  new_owner, answer_leave, close_room, transfer_room, drop_player, leave_found, leave_decoded,
  leave_room,
}
use cogame.Lobby.Effects.Stored.{Unchanged}
use cogame.Lobby.Effects.Leaving.{
  Departure, closed, dropped, kept, transferred, not_updated, LeaveOutcome, refused, left, failed,
  answer_leave-code, remove_player-Becomes, delete_room-Becomes, update_room-Becomes,
  Becomes-Becomes, Becomes-later, Becomes-lookup,
}

module _ (m : Mongo) (l : MongoLaws m) (codec : Codec) where
  open m use {World}
  open l use {rooms}

  module _ (req : BaseRequest) (q : JoinRoomRequest) (room : Room) (w w0 : World)
      (decoded : codec.unmarshal_join_room req.payload ≡ some q)
      (stored : rooms w q.room_id ≡ some room)
      (inside : in_room (get_user_id req) room.players ≡ true) (before : Unchanged m l w w0) where
    done_with :
        (w' : World)
        → Departure m l (get_user_id req) q.room_id room w (answer_leave m codec req, w')
        → LeaveOutcome m l codec req w (answer_leave m codec req, w')
    done_with w' d = left q room decoded stored inside (answer_leave-code m l codec req) d

    stored_before : rooms w0 q.room_id ≡ some room
    stored_before = before q.room_id ∙ stored

    close_room-LeaveOutcome :
        room.owner_id ≡ get_user_id req
        → leb_ℤ room.current_players (pos 1) ≡ true
        → LeaveOutcome m l codec req w (close_room m codec req q.room_id w0)
    unfolding close_room
    close_room-LeaveOutcome own alone = elim (Bool-cases (Rooms.delete_room m q.room_id w0).0) [
      | inl done ↦ rw done (
          done_with _ (
            closed own alone
              (Becomes-later m l codec before (delete_room-Becomes m l codec q.room_id w0 done))))
      | inr bad ↦ rw bad (failed (inl refl))
    ]

    drop_player-LeaveOutcome :
        (room.owner_id == get_user_id req) ≡ false
        → LeaveOutcome m l codec req w (drop_player m codec req q.room_id w0)
    unfolding drop_player
    drop_player-LeaveOutcome other =
        let u = get_user_id req in
        elim (Bool-cases (Rooms.remove_player_from_room m q.room_id u w0).0) [
          | inl done ↦ rw done (
              done_with _ (
                dropped other (m.clock w0).0 (
                  Becomes-later m l codec before
                    (remove_player-Becomes m l codec q.room_id u room w0 stored_before done))))
          | inr bad ↦ rw bad (failed (inr (inr refl)))
        ]

    transfer_room-LeaveOutcome :
        room.owner_id ≡ get_user_id req
        → leb_ℤ room.current_players (pos 1) ≡ false
        → LeaveOutcome m l codec req w (transfer_room m codec req q.room_id room w0)
    unfolding transfer_room
    transfer_room-LeaveOutcome own many =
        let u = get_user_id req in
        let k = q.room_id in
        let heir = new_owner u room.players in
        let (removed, w1) = Rooms.remove_player_from_room m k u w0 in
        let new = record room { owner_id = heir } in
        elim (Bool-cases (heir == 0)) [
          | inl nobody ↦ rw nobody (done_with w0 (kept own many ((==_iff heir 0).0 nobody) before))
          | inr somebody ↦
              let some_heir : heir ≢ 0 = ground arith in
              elim (Bool-cases removed) [
                | inr bad ↦ rw (somebody, bad) (failed (inr (inl refl)))
                | inl done ↦ elim (Bool-cases (Rooms.update_room m new w1).0) [
                  | inr lost ↦
                      rw (somebody, done) (done_with _ (not_updated own many some_heir new w1 lost))
                  | inl written ↦
                      let gone = remove_player-Becomes m l codec k u room w0 stored_before done in
                      let id : room.room_id ≡ k = l.rooms-room_id k w room stored in
                      let back =
                        update_room-Becomes m l codec new _ w1 (ap (rooms w1) id ∙ gone.here)
                          written in
                      rw (somebody, done)
                        (done_with _ (
                          transferred own many some_heir (m.clock w0).0 (m.clock w1).0 (
                            Becomes-later m l codec before
                              (Becomes-Becomes m l codec gone (Becomes-lookup m l codec id back)))))
                ]
              ]
        ]

  leave_found-LeaveOutcome :
      (req : BaseRequest) (q : JoinRoomRequest) (room : Room) (w w0 : World)
      → codec.unmarshal_join_room req.payload ≡ some q
      → rooms w q.room_id ≡ some room
      → Unchanged m l w w0
      → LeaveOutcome m l codec req w (leave_found m codec req q.room_id room w0)
  unfolding leave_found
  leave_found-LeaveOutcome req q room w w0 decoded stored before =
      let u = get_user_id req in
      let (user, w1) = get_by_user_id m u w0 in
      let same : Unchanged m l w w1 = λ j. Effects.rooms-get_by_user_id m l u w0 j ∙ before j in
      elim (Bool-cases (in_room u room.players)) [
        | inr outside ↦ rw outside (refused (λ e. cc) before)
        | inl inside ↦ elim (Bool-cases (room.owner_id == u)) [
          | inr other ↦
              rw (inside, other)
                (drop_player-LeaveOutcome req q room w w1 decoded stored inside same other)
          | inl own ↦
              let owner : room.owner_id ≡ u = (==_iff room.owner_id u).0 own in
              elim (Bool-cases (leb_ℤ room.current_players (pos 1))) [
                | inl alone ↦
                    rw (inside, own, alone)
                      (close_room-LeaveOutcome req q room w w1 decoded stored inside same owner
                        alone)
                | inr many ↦
                    rw (inside, own, many)
                      (transfer_room-LeaveOutcome req q room w w1 decoded stored inside same owner
                        many)
              ]
        ]
      ]

  leave_decoded-LeaveOutcome :
      (req : BaseRequest) (q : JoinRoomRequest) (w : World)
      → codec.unmarshal_join_room req.payload ≡ some q
      → LeaveOutcome m l codec req w (leave_decoded m codec req q w)
  unfolding leave_decoded
  leave_decoded-LeaveOutcome req q w decoded =
      let (found, w1) = Rooms.get_room_by_id m q.room_id w in
      let same = Effects.rooms-get_room_by_id m l q.room_id w in
      elim (Bool-cases (q.room_id == 0)) [
        | inl zero_id ↦ rw zero_id (refused (λ e. cc) (λ j. refl))
        | inr some_id ↦ elim (Option-cases found) [
          | inl missing ↦ rw (some_id, missing, leave_decoded) (refused (λ e. cc) same)
          | inr (room, here) ↦
              rw (some_id, here, leave_decoded)
                (leave_found-LeaveOutcome req q room w w1 decoded
                  (Effects.get_room_by_id-stored m l q.room_id w room here) same)
        ]
      ]

  pub leave_room-LeaveOutcome :
      (req : BaseRequest) (w : World) → LeaveOutcome m l codec req w (leave_room m codec req w)
  unfolding leave_room
  leave_room-LeaveOutcome req w = elim (Bool-cases (get_user_id req == 0)) [
    | inl no_user ↦ rw no_user (refused (λ e. cc) (λ j. refl))
    | inr user ↦ elim (Option-cases (codec.unmarshal_join_room req.payload)) [
      | inl bad ↦ rw (user, bad, leave_room) (refused (λ e. cc) (λ j. refl))
      | inr (q, decoded) ↦
          rw (user, decoded, leave_room) (leave_decoded-LeaveOutcome req q w decoded)
    ]
  ]
