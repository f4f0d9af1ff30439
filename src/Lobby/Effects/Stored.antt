-- ===== src/Lobby/Effects/Stored.antt =====
-- Predicates on the stored rooms that the theorems on the handlers share.
use cogame.Base.{ℕ, some, ◌≡◌}
use cogame.Model.{Room}
use cogame.Database.Mongo.{Mongo, MongoLaws}
use cogame.Lobby.Rules.{IsRoom}

-- Every stored room is as it was.
abbrev pub Unchanged : (m : Mongo) (l : MongoLaws m) → m.World → m.World → Type 0
Unchanged m l w w' = (j : ℕ) → l.rooms w' j ≡ l.rooms w j

-- Every stored room is well formed.
abbrev pub AllRooms : (m : Mongo) (l : MongoLaws m) → m.World → Type 0
AllRooms m l w = (j : ℕ) (r : Room) → l.rooms w j ≡ some r → IsRoom r
