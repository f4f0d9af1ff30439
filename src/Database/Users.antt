-- ===== src/Database/Users.antt =====
-- internal/database/mongodb/user.go: the lookup of UserRepository that the lobby calls.
use cogame.Base.{ℕ, Option, none, some}
use cogame.Model.{User}
use cogame.Database.Mongo.{Mongo, document, no_documents, failure}

unfoldable pub get_by_user_id : (m : Mongo) → ℕ → m.World → Option User × m.World
get_by_user_id m user_id w =
    let (reply, w1) = m.find_user user_id w in
    (elim reply [ document u ↦ some u | no_documents ↦ none | failure ↦ none ], w1)
