-- ===== src/Gateway/Routing.antt =====
-- Which service a message goes to, in internal/server/gateway_server.go.
use cogame.Base.{ℕ, ◌/◌, String, List, [], ◌∷◌, Option, none, some, get_elem?, ◌≡◌, arith}
use cogame.Gateway.Handler.{Parts, target_service}

-- The services by the thousands of the message id.
abbrev pub services_by_thousands : List (Option String)
services_by_thousands =
    none ∷ none ∷ some "lobby" ∷ some "game" ∷ some "friend" ∷ some "chat" ∷ some "mail" ∷ []

abbrev pub service_at : Option (Option String) → Option String
service_at none = none
service_at (some s) = s

-- The service of a message is that of the thousands of its id, in the table of the five services;
-- every other id has none.
pub target_service-service_at :
    (parts : Parts) (msg_id : ℕ)
    → target_service parts msg_id ≡ service_at (get_elem? services_by_thousands (msg_id / 1000))
unfolding target_service
target_service-service_at parts msg_id = ground arith
