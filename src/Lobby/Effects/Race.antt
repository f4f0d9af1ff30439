-- ===== src/Lobby/Effects/Race.antt =====
-- Two requests to JoinRoom of internal/server/lobby_server.go at once: the handler reads the room,
-- tests it, and writes later, with no lock.
use cogame.Base.{
  ℕ, pos, neg, ℤ, ltb_ℤ, ◌+ℤ◌, Bool-cases, Option-cases, true, some, ◌≡◌, refl, sym, ap, subst, ◌∙◌,
  ==_refl, arith, inl, inr,
}
use cogame.Model.{Room, RoomPlayer, User}
use cogame.Database.Mongo.{Mongo, MongoLaws}
use cogame.Database.Rooms
use cogame.Database.Users.{get_by_user_id}
use cogame.Database.Effects
use cogame.Lobby.Messages.{BaseRequest, BaseResponse, JoinRoomRequest, Codec, get_user_id, respond}
use cogame.Lobby.Join.{reject_join, new_player, add_joined, join_found}
use cogame.Lobby.Effects.Joining.{answer_join-Unchanged, reject_join-code}
use cogame.Lobby.Rules.{with_player}

-- The stored room has one player more than r.
abbrev pub Grown : (m : Mongo) (l : MongoLaws m) → ℕ → Room → m.World → Type 0
Grown m l k r w = (p : RoomPlayer) × (later : ℕ) × (l.rooms w k ≡ some (with_player p later r))

ltb_ℤ-+ℤ : (n : ℤ) → ltb_ℤ n (n +ℤ pos 1) ≡ true
unfolding ◌+ℤ◌
ltb_ℤ-+ℤ n = ground arith

module _ (m : Mongo) (l : MongoLaws m) (codec : Codec) where
  open m use {World}
  open l use {rooms}

  add_joined-Grown :
      (req : BaseRequest) (k : ℕ) (stale r : Room) (user : User) (w : World)
      → rooms w k ≡ some r
      → (add_joined m codec req k stale user w).0.code ≡ pos 0
      → Grown m l k r (add_joined m codec req k stale user w).1
  unfolding add_joined
  add_joined-Grown req k stale r user w stored answered =
      let (now, w1) = m.clock w in
      let p = new_player (get_user_id req) user now in
      let (added, w2) = Rooms.add_player_to_room m k p w1 in
      elim (Bool-cases added) [
        | inl done ↦
            let grown : rooms w2 k ≡ some (with_player p (m.clock w1).0 r) =
              Effects.rooms-add_player_to_room m l k p w1 k done
              ∙ rw (==_refl k, l.rooms-clock w k ∙ stored) refl in
            rw done (p, (m.clock w1).0, answer_join-Unchanged m l codec req k stale w2 k ∙ grown)
        | inr not_done ↦ absurd (ground (arith, not_done, answered))
      ]

  -- A request that is answered 0 adds a player to the room that is stored when it writes, whatever
  -- it read before.
  join_found-Grown :
      (req : BaseRequest) (q : JoinRoomRequest) (stale r : Room) (w : World)
      → rooms w q.room_id ≡ some r
      → (join_found m codec req q stale w).0.code ≡ pos 0
      → Grown m l q.room_id r (join_found m codec req q stale w).1
  unfolding join_found
  join_found-Grown req q stale r w stored answered =
      elim (Option-cases (reject_join stale (get_user_id req) q.password)) [
        | inr ((code, msg), refused) ↦
            let same : join_found m codec req q stale w ≡ (respond req code msg, w) =
              rw (refused, join_found) refl in
            absurd (
              reject_join-code m l codec stale (get_user_id req) q.password code msg refused
                (ap (λ (x : BaseResponse × World). x.0.code) (sym same) ∙ answered))
        | inl admitted ↦ elim (Option-cases (get_by_user_id m (get_user_id req) w).0) [
          | inl nobody ↦
              let same : (join_found m codec req q stale w).0.code ≡ neg 9 =
                rw (admitted, join_found, nobody) refl in
              absurd (ground (arith, same, answered))
          | inr (user, found) ↦
              let w1 = (get_by_user_id m (get_user_id req) w).1 in
              let same : join_found m codec req q stale w
                  ≡ add_joined m codec req q.room_id stale user w1 =
                rw (admitted, join_found, found) refl in
              subst (λ (x : BaseResponse × World). Grown m l q.room_id r x.1) (sym same)
                (add_joined-Grown req q.room_id stale r user w1
                  (Effects.rooms-get_by_user_id m l (get_user_id req) w q.room_id ∙ stored)
                  (ap (λ (x : BaseResponse × World). x.0.code) (sym same) ∙ answered))
        ]
      ]

  -- Two requests that have both read the room when it had one place left, and are both answered 0,
  -- leave the room with one player more than its maximum.
  pub join_found_twice :
      (req1 req2 : BaseRequest) (q1 q2 : JoinRoomRequest) (room : Room) (w : World)
      → q1.room_id ≡ q2.room_id
      → rooms w q1.room_id ≡ some room
      → room.current_players +ℤ pos 1 ≡ room.max_players
      → (join_found m codec req1 q1 room w).0.code ≡ pos 0
      → (join_found m codec req2 q2 room (join_found m codec req1 q1 room w).1).0.code ≡ pos 0
      → (full : Room) × (rooms
            (join_found m codec req2 q2 room (join_found m codec req1 q1 room w).1).1
            q1.room_id
          ≡ some full)
        × (full.max_players ≡ room.max_players)
        × (full.current_players ≡ room.max_players +ℤ pos 1)
        × (ltb_ℤ full.max_players full.current_players ≡ true)
  join_found_twice req1 req2 q1 q2 room w same stored one_left yes1 yes2 =
      let w1 = (join_found m codec req1 q1 room w).1 in
      let (p1, t1, grown1) = join_found-Grown req1 q1 room room w stored yes1 in
      let r1 = with_player p1 t1 room in
      let (p2, t2, grown2) =
        join_found-Grown req2 q2 room r1 w1 (subst (λ k. rooms w1 k ≡ some r1) same grown1) yes2 in
      let full = with_player p2 t2 r1 in
      (
        full,
        subst (λ k. rooms (join_found m codec req2 q2 room w1).1 k ≡ some full) (sym same) grown2,
        refl,
        ap (λ n. n +ℤ pos 1) one_left,
        subst (λ n. ltb_ℤ n (room.current_players +ℤ pos 1 +ℤ pos 1) ≡ true) one_left
            (ltb_ℤ-+ℤ (room.current_players +ℤ pos 1)),
      )
