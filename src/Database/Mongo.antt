-- ===== src/Database/Mongo.antt =====
-- The MongoDB driver as the repositories of internal/database/mongodb call it. The driver and the
-- server are not part of the repository: they are the record `Mongo`, and what the repositories
-- rely on is the record `MongoLaws`, the documented effect of each call on the stored documents.
use cogame.Base.{
  ℕ, ℤ, ◌+ℤ◌, Bool, true, List, [], ◌∷◌, ◌++◌, Option, none, some, ◌≡◌, ◌==◌, if◌then◌else◌, str_eq,
  All, length, ◌<◌, ◌≤◌,
}
use mathlib.Core.Option
use cogame.Model.{Room, RoomPlayer, User}

-- What FindOne and Decode report: a document, ErrNoDocuments, or any other error.
pub data Reply (A : Type 0) : Type 0 where
  document : A → Reply A
  no_documents : Reply A
  failure : Reply A

-- The operators of the update documents that the room repository builds.
pub data Operator : Type 0 where
  push_players : RoomPlayer → Operator
  pull_players : ℕ → Operator
  inc_current_players : ℤ → Operator
  set_updated_at : ℕ → Operator
  set_document : Room → Operator

-- The filter documents of Find and CountDocuments.
pub record Filter : Type 0 where
  pub game_type : Option ℤ
  pub status : ℤ

-- Each call acts on the world outside the process, which other processes may share.
pub record Mongo : Type 1 where
  pub World : Type 0
  pub clock : World → ℕ × World
  pub find_room : ℕ → World → Reply Room × World
  pub insert_room : Room → World → Option ℕ × World
  pub update_room : ℕ → List Operator → World → Bool × World
  pub delete_room : ℕ → World → Bool × World
  pub find_rooms : Filter → ℕ → ℕ → World → Option (List Room) × World
  pub count_rooms : Filter → World → Option ℕ × World
  pub find_user : ℕ → World → Reply User × World

-- $pull: every player with this user id goes.
abbrev pub without_user : ℕ → List RoomPlayer → List RoomPlayer
without_user u [] = []
without_user u (p ∷ ps) = if p.user_id == u then without_user u ps else p ∷ without_user u ps

-- The documented meaning of the operators on one document. A $set of a whole room leaves `_id`,
-- and leaves the password where the new one is empty (its bson tag says omitempty).
abbrev pub apply_operator : Operator → Room → Room
apply_operator (push_players p) r = record r { players = r.players ++ (p ∷ []) }
apply_operator (pull_players u) r = record r { players = without_user u r.players }
apply_operator (inc_current_players n) r = record r { current_players = r.current_players +ℤ n }
apply_operator (set_updated_at t) r = record r { updated_at = t }
apply_operator (set_document new) r = record new {
  id = r.id;
  password = if str_eq new.password "" then r.password else new.password;
}

abbrev pub apply_operators : List Operator → Room → Room
apply_operators [] r = r
apply_operators (o ∷ os) r = apply_operators os (apply_operator o r)

-- The update keeps the document under the room id by which it was found.
abbrev pub KeepsId : ℕ → List Operator → Type 0
KeepsId k [] = Unit {0}
KeepsId k (set_document r ∷ os) = (r.room_id ≡ k) × KeepsId k os
KeepsId k (push_players p ∷ os) = KeepsId k os
KeepsId k (pull_players u ∷ os) = KeepsId k os
KeepsId k (inc_current_players n ∷ os) = KeepsId k os
KeepsId k (set_updated_at t ∷ os) = KeepsId k os

-- `rooms w` is the collection by room id, whose unique index makes it a partial function. Where a
-- call reports an error nothing is said of the documents it names.
pub record MongoLaws (m : Mongo) : Type 1 where
  pub rooms : m.World → ℕ → Option Room
  pub rooms-clock : (w : m.World) (j : ℕ) → rooms (m.clock w).1 j ≡ rooms w j
  pub rooms-find_room : (k : ℕ) (w : m.World) (j : ℕ) → rooms (m.find_room k w).1 j ≡ rooms w j
  pub rooms-find_user : (k : ℕ) (w : m.World) (j : ℕ) → rooms (m.find_user k w).1 j ≡ rooms w j
  pub find_room-document :
      (k : ℕ) (w : m.World) (r : Room) → (m.find_room k w).0 ≡ document r → rooms w k ≡ some r
  pub find_room-no_documents :
      (k : ℕ) (w : m.World) → (m.find_room k w).0 ≡ no_documents → rooms w k ≡ none
  pub rooms-room_id : (k : ℕ) (w : m.World) (r : Room) → rooms w k ≡ some r → r.room_id ≡ k
  pub rooms-insert_room :
      (r : Room) (w : m.World) (i : ℕ) (j : ℕ)
      → (m.insert_room r w).0 ≡ some i
      → rooms (m.insert_room r w).1 j
        ≡ (if r.room_id == j then some (record r { id = i }) else rooms w j)
  pub insert_room_fresh :
      (r : Room) (w : m.World) (i : ℕ) → (m.insert_room r w).0 ≡ some i → rooms w r.room_id ≡ none
  pub rooms-update_room :
      (k : ℕ) (os : List Operator) (w : m.World) (j : ℕ)
      → KeepsId k os
      → (m.update_room k os w).0 ≡ true
      → rooms (m.update_room k os w).1 j
        ≡ (if k == j then Option.map (apply_operators os) (rooms w k) else rooms w j)
  pub rooms-delete_room :
      (k : ℕ) (w : m.World) (j : ℕ)
      → (m.delete_room k w).0 ≡ true
      → rooms (m.delete_room k w).1 j ≡ (if k == j then none else rooms w j)

-- Find and CountDocuments change nothing. The documents found are stored, match the filter's status
-- and are at most as many as the limit, where it is not 0, which stands for no limit.
pub record MongoListLaws (m : Mongo) (l : MongoLaws m) : Type 0 where
  pub rooms-find_rooms :
      (f : Filter) (limit skip : ℕ) (w : m.World) (j : ℕ)
      → l.rooms (m.find_rooms f limit skip w).1 j ≡ l.rooms w j
  pub rooms-count_rooms :
      (f : Filter) (w : m.World) (j : ℕ) → l.rooms (m.count_rooms f w).1 j ≡ l.rooms w j
  pub find_rooms-stored :
      (f : Filter) (limit skip : ℕ) (w : m.World) (rs : List Room)
      → (m.find_rooms f limit skip w).0 ≡ some rs
      → All (λ r. (l.rooms w r.room_id ≡ some r) × (r.status ≡ f.status)) rs
  pub find_rooms-length :
      (f : Filter) (limit skip : ℕ) (w : m.World) (rs : List Room)
      → 0 < limit
      → (m.find_rooms f limit skip w).0 ≡ some rs
      → length rs ≤ limit
