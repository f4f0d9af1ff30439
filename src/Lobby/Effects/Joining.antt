-- ===== src/Lobby/Effects/Joining.antt =====
-- The effect of JoinRoom of internal/server/lobby_server.go.
use cogame.Base.{
  ℕ, pos, neg, String, Bool-cases, Option-cases, true, false, none, some, ◌≡◌, ◌≢◌, refl, sym, ap,
  subst, ◌∙◌, ◌==◌, ==_refl, ==_iff, arith, inl, inr, ◌⊎◌, ℤ,
}
use cogame.Model.{Room, User}
use cogame.Database.Mongo.{Mongo, MongoLaws}
use cogame.Database.Rooms
use cogame.Database.Users.{get_by_user_id}
use cogame.Database.Effects
use cogame.Lobby.Messages.{BaseRequest, BaseResponse, JoinRoomRequest, Codec, get_user_id}
use cogame.Lobby.Join.{
  re_read, reject_join, new_player, answer_join, add_joined, join_found, join_decoded, join_room,
}
use cogame.Lobby.Effects.Stored.{Unchanged, AllRooms}
use cogame.Lobby.Rules.{IsRoom, with_player, with_player-IsRoom}

-- The user was let in: the room read at first, which passed the tests, now holds the user at its
-- end, and no other room changed.
pub record Joined (m : Mongo) (l : MongoLaws m) (u : ℕ) (q : JoinRoomRequest) (w w' : m.World)
    : Type 0 where
  pub room : Room
  pub user : User
  pub now : ℕ
  pub later : ℕ
  pub stored : l.rooms w q.room_id ≡ some room
  pub admitted : reject_join room u q.password ≡ none
  pub added : l.rooms w' q.room_id ≡ some (with_player (new_player u user now) later room)
  pub others : (j : ℕ) → (q.room_id == j) ≡ false → l.rooms w' j ≡ l.rooms w j

-- The three outcomes of a request to join: refused with every room as it was, accepted (also
-- where the answer could then not be encoded), or an error of the write itself.
pub data JoinOutcome (m : Mongo) (l : MongoLaws m) (codec : Codec) (req : BaseRequest) (w : m.World)
    (res : BaseResponse × m.World) : Type 0 where
  refused : res.0.code ≢ pos 0 → Unchanged m l w res.1 → JoinOutcome m l codec req w res
  accepted :
      (q : JoinRoomRequest)
      → codec.unmarshal_join_room req.payload ≡ some q
      → (res.0.code ≡ pos 0) ⊎ (res.0.code ≡ neg 11)
      → Joined m l (get_user_id req) q w res.1
      → JoinOutcome m l codec req w res
  failed : res.0.code ≡ neg 10 → JoinOutcome m l codec req w res

module _ (m : Mongo) (l : MongoLaws m) (codec : Codec) where
  open m use {World}
  open l use {rooms}

  pub answer_join-Unchanged :
      (req : BaseRequest) (k : ℕ) (room : Room) (w : World)
      → Unchanged m l w (answer_join m codec req k room w).1
  unfolding answer_join
  answer_join-Unchanged req k room w j =
      let (again, w1) = Rooms.get_room_by_id m k w in
      ground (
        arith,
        Effects.rooms-get_room_by_id m l k w j,
        Effects.rooms-get_by_user_id m l (re_read room again).owner_id w1 j,
      )

  answer_join-code :
      (req : BaseRequest) (k : ℕ) (room : Room) (w : World)
      → ((answer_join m codec req k room w).0.code ≡ pos 0)
        ⊎ ((answer_join m codec req k room w).0.code ≡ neg 11)
  unfolding answer_join
  answer_join-code req k room w = ground arith

  -- The write of the new player, when it is reported to have been done.
  add_player_Joined :
      (u : ℕ) (q : JoinRoomRequest) (room : Room) (user : User) (now : ℕ) (w : World)
      → rooms w q.room_id ≡ some room
      → reject_join room u q.password ≡ none
      → (Rooms.add_player_to_room m q.room_id (new_player u user now) w).0 ≡ true
      → Joined m l u q w (Rooms.add_player_to_room m q.room_id (new_player u user now) w).1
  add_player_Joined u q room user now w stored admitted done =
      let p = new_player u user now in
      let k = q.room_id in
      record {
        room = room;
        user = user;
        now = now;
        later = (m.clock w).0;
        stored = stored;
        admitted = admitted;
        added = Effects.rooms-add_player_to_room m l k p w k done ∙ rw (==_refl k, stored) refl;
        others = λ j h. Effects.rooms-add_player_to_room m l k p w j done ∙ rw h refl;
      }

  Joined-between :
      {u : ℕ} {q : JoinRoomRequest} {w w1 w2 w3 : World}
      → Unchanged m l w w1
      → Joined m l u q w1 w2
      → Unchanged m l w2 w3
      → Joined m l u q w w3
  Joined-between {q = q} before v after = record {
    room = v.room;
    user = v.user;
    now = v.now;
    later = v.later;
    stored = sym (before q.room_id) ∙ v.stored;
    admitted = v.admitted;
    added = after q.room_id ∙ v.added;
    others = λ j h. after j ∙ v.others j h ∙ before j;
  }

  add_joined-JoinOutcome :
      (req : BaseRequest) (q : JoinRoomRequest) (room : Room) (user : User) (w : World)
      → codec.unmarshal_join_room req.payload ≡ some q
      → rooms w q.room_id ≡ some room
      → reject_join room (get_user_id req) q.password ≡ none
      → JoinOutcome m l codec req w (add_joined m codec req q.room_id room user w)
  unfolding add_joined
  add_joined-JoinOutcome req q room user w decoded stored admitted =
      let u = get_user_id req in
      let (now, w1) = m.clock w in
      let p = new_player u user now in
      let (added, w2) = Rooms.add_player_to_room m q.room_id p w1 in
      elim (Bool-cases added) [
        | inl done ↦ rw done (
            accepted q decoded (answer_join-code req q.room_id room w2) (
              Joined-between (l.rooms-clock w)
                (add_player_Joined u q room user now w1 (l.rooms-clock w q.room_id ∙ stored)
                  admitted done)
                (answer_join-Unchanged req q.room_id room w2)))
        | inr not_done ↦ rw not_done (failed refl)
      ]

  JoinOutcome-later :
      {req : BaseRequest} {w w1 : World} {res : BaseResponse × World}
      → Unchanged m l w w1
      → JoinOutcome m l codec req w1 res
      → JoinOutcome m l codec req w res
  JoinOutcome-later before (refused code same) = refused code (λ j. same j ∙ before j)
  JoinOutcome-later before (accepted q decoded code v) =
      accepted q decoded code (Joined-between before v (λ j. refl))
  JoinOutcome-later before (failed code) = failed code

  -- The codes of the tests are not 0.
  pub reject_join-code :
      (room : Room) (u : ℕ) (password : String) (code : ℤ) (msg : String)
      → reject_join room u password ≡ some (code, msg)
      → code ≢ pos 0
  unfolding reject_join
  reject_join-code room u password code msg h = ground arith

  join_found-JoinOutcome :
      (req : BaseRequest) (q : JoinRoomRequest) (room : Room) (w : World)
      → codec.unmarshal_join_room req.payload ≡ some q
      → rooms w q.room_id ≡ some room
      → JoinOutcome m l codec req w (join_found m codec req q room w)
  unfolding join_found
  join_found-JoinOutcome req q room w decoded stored =
      let u = get_user_id req in
      let (found, w1) = get_by_user_id m u w in
      let same = Effects.rooms-get_by_user_id m l u w in
      elim (Option-cases (reject_join room u q.password)) [
        | inl pass ↦ elim (Option-cases found) [
          | inl missing ↦ rw (pass, join_found, missing) (refused (λ e. cc) same)
          | inr (user, here) ↦
              rw (pass, join_found, here)
                (JoinOutcome-later same (
                  add_joined-JoinOutcome req q room user w1 decoded (same q.room_id ∙ stored) pass))
        ]
        | inr ((code, msg), no_pass) ↦
            rw (no_pass, join_found)
              (refused (reject_join-code room u q.password code msg no_pass) (λ j. refl))
      ]

  join_decoded-JoinOutcome :
      (req : BaseRequest) (q : JoinRoomRequest) (w : World)
      → codec.unmarshal_join_room req.payload ≡ some q
      → JoinOutcome m l codec req w (join_decoded m codec req q w)
  unfolding join_decoded
  join_decoded-JoinOutcome req q w decoded =
      let (found, w1) = Rooms.get_room_by_id m q.room_id w in
      let same = Effects.rooms-get_room_by_id m l q.room_id w in
      elim (Bool-cases (q.room_id == 0)) [
        | inl zero_id ↦ rw zero_id (refused (λ e. cc) (λ j. refl))
        | inr some_id ↦ elim (Option-cases found) [
          | inl missing ↦ rw (some_id, missing, join_decoded) (refused (λ e. cc) same)
          | inr (room, here) ↦
              rw (some_id, here, join_decoded)
                (JoinOutcome-later same (
                  join_found-JoinOutcome req q room w1 decoded
                    (same q.room_id ∙ Effects.get_room_by_id-stored m l q.room_id w room here)))
        ]
      ]

  -- Whatever the request and the stored rooms, JoinRoom has one of three outcomes: it answers with
  -- an error code and every stored room is as it was; or it answers 0 (or -11, where the answer
  -- could not be encoded) and the room of the request, which passed the tests as it was stored,
  -- has the user at the end of its players and one more in its counter, and no other room has
  -- changed; or it answers -10 because the database reported an error of the write.
  pub join_room-JoinOutcome :
      (req : BaseRequest) (w : World) → JoinOutcome m l codec req w (join_room m codec req w)
  unfolding join_room
  join_room-JoinOutcome req w = elim (Bool-cases (get_user_id req == 0)) [
    | inl no_user ↦ rw no_user (refused (λ e. cc) (λ j. refl))
    | inr user ↦ elim (Option-cases (codec.unmarshal_join_room req.payload)) [
      | inl bad ↦ rw (user, bad, join_room) (refused (λ e. cc) (λ j. refl))
      | inr (q, decoded) ↦ rw (user, decoded, join_room) (join_decoded-JoinOutcome req q w decoded)
    ]
  ]

  Joined-AllRooms :
      {u : ℕ} {q : JoinRoomRequest} {w w' : World}
      → Joined m l u q w w'
      → AllRooms m l w
      → AllRooms m l w'
  Joined-AllRooms {u} {q} {w' = w'} v all j r stored = elim (Bool-cases (q.room_id == j)) [
    | inl here ↦
        let e : q.room_id ≡ j = (==_iff q.room_id j).0 here in
        let same : with_player (new_player u v.user v.now) v.later v.room ≡ r =
          cc (v.added, stored, ap (rooms w') e) in
        subst IsRoom same (
          with_player-IsRoom v.room u q.password v.user v.now v.later
            (all q.room_id v.room v.stored) v.admitted)
    | inr other ↦ all j r (sym (v.others j other) ∙ stored)
  ]

  JoinOutcome-AllRooms :
      {req : BaseRequest} {w : World} {res : BaseResponse × World}
      → JoinOutcome m l codec req w res
      → AllRooms m l w
      → res.0.code ≢ neg 10
      → AllRooms m l res.1
  JoinOutcome-AllRooms (refused _ same) all h j r stored = all j r (sym (same j) ∙ stored)
  JoinOutcome-AllRooms (accepted q _ _ v) all h j r stored = Joined-AllRooms v all j r stored
  JoinOutcome-AllRooms (failed code) all h j r stored = absurd (h code)

  -- JoinRoom keeps every stored room well formed (players counted, within the maximum, distinct,
  -- the owner among them), unless the database reports an error of the write.
  pub join_room-AllRooms :
      (req : BaseRequest) (w : World)
      → AllRooms m l w
      → (join_room m codec req w).0.code ≢ neg 10
      → AllRooms m l (join_room m codec req w).1
  join_room-AllRooms req w = JoinOutcome-AllRooms (join_room-JoinOutcome req w)
