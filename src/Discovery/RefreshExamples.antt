-- ===== src/Discovery/RefreshExamples.antt =====
-- Runs of the cache, the watches and the lookup by node of internal/discovery/etcd.go.
use cogame.Base.{List, [], ◌∷◌, none, some, ◌≡◌, ◌⊎◌, refl, arith}
use cogame.Base.Dict
use cogame.Discovery.Balance.{ServiceInfo}
use cogame.Discovery.Registry.{register, unregister}
use cogame.Discovery.Cache.{ServiceRegistry, ServiceDiscovery, get_all_services}
use cogame.Discovery.Refresh.{update_cache_turn, newest, update_cache_turn-renews}
use cogame.Discovery.Watching.{raced, older_list_stays}
use cogame.Discovery.ById.{
  Call, registers, unregisters, calls, get_registered_service, get_registered_service-node_id,
}
use cogame.Discovery.Examples.{lobby, plain_etcd, empty_registry, fixed_registry}

-- A cache whose list of lobbies has had its day.
abbrev outdated : ServiceDiscovery
outdated = record { service_cache = ("lobby", lobby "z" 1 ∷ []) ∷ []; counters = [] }

update_cache_turn-renews_example :
    ((Dict.lookup "lobby" outdated.service_cache ≡ none)
      × (Dict.lookup "lobby" (update_cache_turn fixed_registry outdated).service_cache ≡ none))
    ⊎ ((old : List ServiceInfo) × (Dict.lookup "lobby" outdated.service_cache ≡ some old)
        × (get_all_services fixed_registry "lobby" (update_cache_turn fixed_registry outdated) ≡ (
          newest (fixed_registry.get_services "lobby") old,
          update_cache_turn fixed_registry outdated,
        )))
update_cache_turn-renews_example = update_cache_turn-renews fixed_registry "lobby" outdated

-- The registry when the first lobby is there, and when it has gone.
abbrev one_lobby : ServiceRegistry
one_lobby = record { get_services = λ node_type. some (lobby "a" 4 ∷ []) }

abbrev no_lobby : ServiceRegistry
no_lobby = record { get_services = λ node_type. some [] }

older_list_stays_example :
    (get_all_services no_lobby "lobby" (raced one_lobby no_lobby "lobby")
      ≡ (lobby "a" 4 ∷ [], raced one_lobby no_lobby "lobby"))
    × (get_all_services no_lobby "lobby"
          (update_cache_turn no_lobby (raced one_lobby no_lobby "lobby"))
        ≡ ([], update_cache_turn no_lobby (raced one_lobby no_lobby "lobby")))
older_list_stays_example =
    older_list_stays one_lobby no_lobby "lobby" (lobby "a" 4 ∷ []) [] refl refl

abbrev two_nodes : List (Call plain_etcd)
two_nodes = registers 9 (lobby "a" 4) ∷ registers 10 (lobby "b" 3) ∷ unregisters "a" ∷ []

get_registered_service-node_id_example : (record (lobby "b" 3) { update_time = 10 }).node_id ≡ "b"
unfolding get_registered_service calls register unregister Dict.lookup Dict.insert Dict.delete
get_registered_service-node_id_example =
    get_registered_service-node_id plain_etcd two_nodes empty_registry "b"
      (record (lobby "b" 3) { update_time = 10 }) (λ k info h. absurd (ground (arith, h))) refl
