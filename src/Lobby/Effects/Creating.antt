-- ===== src/Lobby/Effects/Creating.antt =====
-- The effect of CreateRoom of internal/server/lobby_server.go.
use cogame.Base.{
  ℕ, pos, neg, String, Bool-cases, Option-cases, false, none, some, ◌≡◌, ◌≢◌, refl, sym, ap, subst,
  ◌∙◌, ◌==◌, ==_refl, ==_iff, arith, inl, inr, ◌⊎◌, ℤ,
}
use cogame.Model.{Room, User}
use cogame.Database.Mongo.{Mongo, MongoLaws}
use cogame.Database.Rooms
use cogame.Database.Users.{get_by_user_id}
use cogame.Database.Effects
use cogame.Lobby.Messages.{BaseRequest, BaseResponse, CreateRoomRequest, Codec, get_user_id}
use cogame.Lobby.Create.{
  generate_room_id, reject_create, new_room, answer_create, store_created, create_decoded,
  create_room,
}
use cogame.Lobby.Effects.Stored.{Unchanged, AllRooms}
use cogame.Lobby.Rules.{IsRoom, new_room-IsRoom}

-- The room was stored under the counter's id, which was free; no other room changed.
pub record Created (m : Mongo) (l : MongoLaws m) (u : ℕ) (next : ℕ) (q : CreateRoomRequest)
    (w w' : m.World) : Type 0 where
  pub room : Room
  pub user : User
  pub now : ℕ
  pub passed : reject_create q ≡ none
  pub free : l.rooms w next ≡ none
  pub added : l.rooms w' next ≡ some room
  pub as_asked :
      (record room { id = 0; created_at = 0; updated_at = 0 }) ≡ new_room q next user u now
  pub others : (j : ℕ) → (next == j) ≡ false → l.rooms w' j ≡ l.rooms w j

-- The outcomes of a request to create a room.
pub data CreateOutcome (m : Mongo) (l : MongoLaws m) (codec : Codec) (req : BaseRequest) (next : ℕ)
    (w : m.World) (res : BaseResponse × ℕ × m.World) : Type 0 where
  refused :
      res.0.code ≢ pos 0
      → res.1 ≡ next
      → Unchanged m l w res.2
      → CreateOutcome m l codec req next w res
  accepted :
      (q : CreateRoomRequest)
      → codec.unmarshal_create_room req.payload ≡ some q
      → (res.0.code ≡ pos 0) ⊎ (res.0.code ≡ neg 8)
      → res.1 ≡ (generate_room_id next).1
      → Created m l (get_user_id req) next q w res.2
      → CreateOutcome m l codec req next w res
  failed :
      res.0.code ≡ neg 7
      → res.1 ≡ (generate_room_id next).1
      → CreateOutcome m l codec req next w res

module _ (m : Mongo) (l : MongoLaws m) (codec : Codec) where
  open m use {World}
  open l use {rooms}

  rooms-two_clocks : (w : World) → Unchanged m l w (m.clock (m.clock w).1).1
  rooms-two_clocks w j = l.rooms-clock (m.clock w).1 j ∙ l.rooms-clock w j

  -- CreateRoom of the repository, when it reports no error.
  stored-Created :
      (u next : ℕ) (q : CreateRoomRequest) (user : User) (now : ℕ) (w : World) (room : Room)
      → reject_create q ≡ none
      → (Rooms.create_room m (new_room q next user u now) w).0 ≡ some room
      → Created m l u next q w (Rooms.create_room m (new_room q next user u now) w).1
  unfolding Rooms.create_room new_room
  stored-Created u next q user now w room passed done =
      let (created, w1) = m.clock w in
      let (updated, w2) = m.clock w1 in
      let fresh = new_room q next user u now in
      let stamped = record fresh { created_at = created; updated_at = updated } in
      elim (Option-cases (m.insert_room stamped w2).0) [
        | inl bad ↦ absurd (ground arith)
        | inr (i, inserted) ↦ record {
          room = record stamped { id = i };
          user = user;
          now = now;
          passed = passed;
          free = sym (rooms-two_clocks w next) ∙ l.insert_room_fresh stamped w2 i inserted;
          added = l.rooms-insert_room stamped w2 i next inserted ∙ rw (==_refl next) refl;
          as_asked = refl;
          others = λ j h. l.rooms-insert_room stamped w2 i j inserted ∙ rw h (rooms-two_clocks w j);
        }
      ]

  answer_create-code :
      (req : BaseRequest) (q : CreateRoomRequest) (k : ℕ) (user : User) (room : Room)
      → ((answer_create m codec req q k user room).code ≡ pos 0)
        ⊎ ((answer_create m codec req q k user room).code ≡ neg 8)
  unfolding answer_create
  answer_create-code req q k user room = ground arith

  Created-later :
      {u next : ℕ} {q : CreateRoomRequest} {w w1 w2 : World}
      → Unchanged m l w w1
      → Created m l u next q w1 w2
      → Created m l u next q w w2
  Created-later {next = next} before v = record {
    room = v.room;
    user = v.user;
    now = v.now;
    passed = v.passed;
    free = sym (before next) ∙ v.free;
    added = v.added;
    as_asked = v.as_asked;
    others = λ j h. v.others j h ∙ before j;
  }

  store_created-CreateOutcome :
      (req : BaseRequest) (q : CreateRoomRequest) (user : User) (next : ℕ) (w : World)
      → codec.unmarshal_create_room req.payload ≡ some q
      → reject_create q ≡ none
      → CreateOutcome m l codec req next w (store_created m codec req q user next w)
  unfolding store_created
  store_created-CreateOutcome req q user next w decoded passed =
      let u = get_user_id req in
      let (now, w1) = m.clock w in
      let fresh = new_room q next user u now in
      elim (Option-cases (Rooms.create_room m fresh w1).0) [
        | inl bad ↦ rw (bad, store_created) (failed refl refl)
        | inr (room, done) ↦
            rw (done, store_created)
              (accepted q decoded (answer_create-code req q next user room) refl (
                Created-later (l.rooms-clock w)
                  (stored-Created u next q user now w1 room passed done)))
      ]

  CreateOutcome-later :
      {req : BaseRequest} {next : ℕ} {w w1 : World} {res : BaseResponse × ℕ × World}
      → Unchanged m l w w1
      → CreateOutcome m l codec req next w1 res
      → CreateOutcome m l codec req next w res
  CreateOutcome-later before (refused code kept same) = refused code kept (λ j. same j ∙ before j)
  CreateOutcome-later before (accepted q decoded code moved v) =
      accepted q decoded code moved (Created-later before v)
  CreateOutcome-later before (failed code moved) = failed code moved

  reject_create-code :
      (q : CreateRoomRequest) (code : ℤ) (msg : String)
      → reject_create q ≡ some (code, msg)
      → code ≢ pos 0
  unfolding reject_create
  reject_create-code q code msg h = ground arith

  create_decoded-CreateOutcome :
      (req : BaseRequest) (q : CreateRoomRequest) (next : ℕ) (w : World)
      → codec.unmarshal_create_room req.payload ≡ some q
      → CreateOutcome m l codec req next w (create_decoded m codec req q next w)
  unfolding create_decoded
  create_decoded-CreateOutcome req q next w decoded =
      let u = get_user_id req in
      let (found, w1) = get_by_user_id m u w in
      let same = Effects.rooms-get_by_user_id m l u w in
      elim (Option-cases (reject_create q)) [
        | inl pass ↦ elim (Option-cases found) [
          | inl missing ↦ rw (pass, create_decoded, missing) (refused (λ e. cc) refl same)
          | inr (user, here) ↦
              rw (pass, create_decoded, here)
                (CreateOutcome-later same
                  (store_created-CreateOutcome req q user next w1 decoded pass))
        ]
        | inr ((code, msg), no_pass) ↦
            rw (no_pass, create_decoded)
              (refused (reject_create-code q code msg no_pass) refl (λ j. refl))
      ]

  -- Whatever the request, the counter and the stored rooms, CreateRoom has one of three outcomes:
  -- it answers with an error code, and the counter and every stored room are as they were; or it
  -- answers 0 (or -8, where the answer could not be encoded), the request passed its tests, the
  -- counter has moved on, and the room asked for is stored under the old counter, which was free,
  -- with no other room changed; or it answers -7, for an error of the insertion, with the counter
  -- moved on.
  pub create_room-CreateOutcome :
      (req : BaseRequest) (next : ℕ) (w : World)
      → CreateOutcome m l codec req next w (create_room m codec req next w)
  unfolding create_room
  create_room-CreateOutcome req next w = elim (Bool-cases (get_user_id req == 0)) [
    | inl no_user ↦ rw no_user (refused (λ e. cc) refl (λ j. refl))
    | inr user ↦ elim (Option-cases (codec.unmarshal_create_room req.payload)) [
      | inl bad ↦ rw (user, bad, create_room) (refused (λ e. cc) refl (λ j. refl))
      | inr (q, decoded) ↦
          rw (user, decoded, create_room) (create_decoded-CreateOutcome req q next w decoded)
    ]
  ]

  Created-IsRoom :
      {u next : ℕ} {q : CreateRoomRequest} {w w' : World} (v : Created m l u next q w w')
      → IsRoom v.room
  Created-IsRoom {u} {next} {q} v =
      let fresh = new_room-IsRoom q next v.user u v.now v.passed in
      let ok = subst IsRoom (sym v.as_asked) fresh in
      record { counted = ok.counted; fits = ok.fits; distinct = ok.distinct; owned = ok.owned }

  Created-AllRooms :
      {u next : ℕ} {q : CreateRoomRequest} {w w' : World}
      → Created m l u next q w w'
      → AllRooms m l w
      → AllRooms m l w'
  Created-AllRooms {next = next} {w' = w'} v all j r stored = elim (Bool-cases (next == j)) [
    | inl here ↦
        let e : next ≡ j = (==_iff next j).0 here in
        let same : v.room ≡ r = cc (v.added, stored, ap (rooms w') e) in
        subst IsRoom same (Created-IsRoom v)
    | inr other ↦ all j r (sym (v.others j other) ∙ stored)
  ]

  CreateOutcome-AllRooms :
      {req : BaseRequest} {next : ℕ} {w : World} {res : BaseResponse × ℕ × World}
      → CreateOutcome m l codec req next w res
      → AllRooms m l w
      → res.0.code ≢ neg 7
      → AllRooms m l res.2
  CreateOutcome-AllRooms (refused _ _ same) all h j r stored = all j r (sym (same j) ∙ stored)
  CreateOutcome-AllRooms (accepted q _ _ _ v) all h j r stored = Created-AllRooms v all j r stored
  CreateOutcome-AllRooms (failed code _) all h j r stored = absurd (h code)

  -- CreateRoom keeps every stored room well formed, unless the database reports an error of the
  -- insertion.
  pub create_room-AllRooms :
      (req : BaseRequest) (next : ℕ) (w : World)
      → AllRooms m l w
      → (create_room m codec req next w).0.code ≢ neg 7
      → AllRooms m l (create_room m codec req next w).2
  create_room-AllRooms req next w = CreateOutcome-AllRooms (create_room-CreateOutcome req next w)
