-- ===== src/Lobby/Effects/Listed.antt =====
-- What GetRoomList of internal/server/lobby_server.go answers, from the laws of MongoDB.
use cogame.Base.{
  int32, ℕ, ℤ, pos, ◌≤◌, suc, List, [], ◌∷◌, Option, none, some, All, length, Bool-cases,
  Option-cases, ◌≡◌, ◌≢◌, ◌⊎◌, inl, inr, refl, ◌∙◌, ◌==◌, arith,
}
use cogame.Model.{Room, User}
use cogame.Database.Mongo.{Mongo, MongoLaws, MongoListLaws}
use cogame.Database.Rooms
use cogame.Database.Users.{get_by_user_id}
use cogame.Database.Effects
use cogame.Lobby.Messages.{BaseRequest, BaseResponse, RoomInfo, Codec, get_user_id, respond_with}
use cogame.Lobby.Listing.{
  listed_info, page_limit, with_owner, room_infos, answer_list, get_room_list,
}
use cogame.Lobby.Effects.Stored.{Unchanged}

-- The entry of a stored room that waits for players, with the owner as GetByUserID read it.
abbrev pub IsListed : (m : Mongo) (l : MongoLaws m) → m.World → RoomInfo → Type 0
IsListed m l w info =
    (room : Room) × (owner : User) × (w1 : m.World) × (l.rooms w room.room_id ≡ some room)
    × (room.status ≡ pos 0)
    × ((get_by_user_id m room.owner_id w1).0 ≡ some owner)
    × (info ≡ listed_info room owner)

-- An error, or a page of such entries.
abbrev pub ListOutcome :
    (m : Mongo) (l : MongoLaws m) → Codec → BaseRequest → m.World → BaseResponse → Type 0
ListOutcome m l codec req w res =
    (res.code ≢ pos 0)
    ⊎ ((infos : List RoomInfo) × (total : ℤ) × (bytes : List ℕ) × All (IsListed m l w) infos
        × (length infos ≤ 20)
        × (codec.marshal_room_list (record { rooms = infos; total = total }) ≡ some bytes)
        × (res ≡ respond_with req "success" bytes))

module _ (m : Mongo) (l : MongoLaws m) (lists : MongoListLaws m l) (codec : Codec) where
  open m use {World}
  open l use {rooms}

  with_owner-length :
      (room : Room) (o : Option User) (infos : List RoomInfo) (n : ℕ)
      → length infos ≤ n
      → length (with_owner room o infos) ≤ suc n
  with_owner-length room none infos n h = ground arith
  with_owner-length room (some owner) infos n h = ground arith

  room_infos-length : (rs : List Room) (w : World) → length (room_infos m codec rs w).0 ≤ length rs
  unfolding room_infos
  room_infos-length [] w = ground arith
  room_infos-length (room ∷ rs) w =
      with_owner-length room _ _ (length rs)
        (room_infos-length rs (get_by_user_id m room.owner_id w).1)

  room_infos-Unchanged : (rs : List Room) (w : World) → Unchanged m l w (room_infos m codec rs w).1
  unfolding room_infos
  room_infos-Unchanged [] w j = refl
  room_infos-Unchanged (room ∷ rs) w j =
      room_infos-Unchanged rs (get_by_user_id m room.owner_id w).1 j
      ∙ Effects.rooms-get_by_user_id m l room.owner_id w j

  with_owner-IsListed :
      (w w1 : World) (room : Room) (o : Option User) (infos : List RoomInfo)
      → rooms w room.room_id ≡ some room
      → room.status ≡ pos 0
      → (get_by_user_id m room.owner_id w1).0 ≡ o
      → All (IsListed m l w) infos
      → All (IsListed m l w) (with_owner room o infos)
  with_owner-IsListed w w1 room none infos stored waits read h = h
  with_owner-IsListed w w1 room (some owner) infos stored waits read h =
      ((room, owner, w1, stored, waits, read, refl), h)

  room_infos-IsListed :
      (w : World) (rs : List Room) (w1 : World)
      → All (λ r. (rooms w r.room_id ≡ some r) × (r.status ≡ pos 0)) rs
      → All (IsListed m l w) (room_infos m codec rs w1).0
  unfolding room_infos
  room_infos-IsListed w [] w1 h = tt
  room_infos-IsListed w (room ∷ rs) w1 ((stored, waits), h) =
      with_owner-IsListed w w1 room _ _ stored waits refl
        (room_infos-IsListed w rs (get_by_user_id m room.owner_id w1).1 h)

  answer_list-ListOutcome :
      (req : BaseRequest) (rs : List Room) (w w1 : World)
      → All (λ r. (rooms w r.room_id ≡ some r) × (r.status ≡ pos 0)) rs
      → length rs ≤ page_limit
      → ListOutcome m l codec req w (answer_list m codec req rs w1).0
  unfolding answer_list
  answer_list-ListOutcome req rs w w1 stored bounded =
      let (infos, w2) = room_infos m codec rs w1 in
      let total =
        int32 (elim (Rooms.count_rooms m (pos 0) w2).0 [ none ↦ length infos | some n ↦ n ]) in
      let short : length infos ≤ page_limit = omega (arith, room_infos-length rs w1, bounded) in
      elim (Option-cases (codec.marshal_room_list (record { rooms = infos; total = total }))) [
        | inl failed ↦ rw (failed, answer_list) (inl (ground arith))
        | inr (bytes, made) ↦
            rw (made, answer_list)
              (inr (infos, total, bytes, room_infos-IsListed w rs w1 stored, short, made, refl))
      ]

  answer_list-Unchanged :
      (req : BaseRequest) (rs : List Room) (w : World)
      → Unchanged m l w (answer_list m codec req rs w).1
  unfolding answer_list Rooms.count_rooms
  answer_list-Unchanged req rs w j =
      let (infos, w2) = room_infos m codec rs w in
      ground
        (arith, room_infos-Unchanged rs w j, lists.rooms-count_rooms (Rooms.waiting m (pos 0)) w2 j)

  -- GetRoomList changes no room. Its answer is an error, or lists at most 20 stored rooms that wait
  -- for players, each as it is stored and with its owner.
  pub get_room_list-ListOutcome :
      (req : BaseRequest) (w : World)
      → ListOutcome m l codec req w (get_room_list m codec req w).0
        × Unchanged m l w (get_room_list m codec req w).1
  unfolding get_room_list Rooms.get_room_list
  get_room_list-ListOutcome req w =
      let (found, w1) = m.find_rooms (Rooms.waiting m (pos 0)) page_limit 0 w in
      let same : Unchanged m l w w1 =
        lists.rooms-find_rooms (Rooms.waiting m (pos 0)) page_limit 0 w in
      elim (Bool-cases (get_user_id req == 0)) [
        | inl nobody ↦ rw nobody (inl (ground arith), λ j. refl)
        | inr somebody ↦ elim (Option-cases found) [
          | inl failed ↦ rw (somebody, failed) (inl (ground arith), same)
          | inr (rs, e) ↦
              rw (somebody, e)
                (
                  answer_list-ListOutcome req rs w w1
                      (lists.find_rooms-stored (Rooms.waiting m (pos 0)) page_limit 0 w rs e)
                      (lists.find_rooms-length (Rooms.waiting m (pos 0)) page_limit 0 w rs
                        (ground arith) e),
                  λ j. answer_list-Unchanged req rs w1 j ∙ same j,
                )
        ]
      ]
