-- ===== src/Discovery/Cache.antt =====
-- internal/discovery/etcd.go: ServiceDiscovery over a ServiceRegistry, with the round robin that it
-- takes when it is given no load balancer.
use cogame.Base.{
  String, eq_iff, List, [], ◌∷◌, Option, none, some, ◌≡◌, inl, inr, refl, sym, ◌∙◌, ap, arith,
  Option-cases,
}
use cogame.Base.Dict
use cogame.Discovery.Balance.{
  ServiceInfo, Counters, Selection, no_service, selected, panics, select_in_turn,
}

-- The part of the interface ServiceRegistry that is used here; `none` is an error.
pub record ServiceRegistry : Type 0 where
  pub get_services : String → Option (List ServiceInfo)

pub record ServiceDiscovery : Type 0 where
  pub service_cache : List (String × List ServiceInfo)
  pub counters : Counters

-- What a call gives, and the discovery after it; a panic leaves it as it was.
abbrev pub keep_counters : ServiceDiscovery → Selection → Selection × ServiceDiscovery
keep_counters d no_service = (no_service, d)
keep_counters d panics = (panics, d)
keep_counters d (selected s counters) = (selected s counters, record d { counters = counters })

module _ (registry : ServiceRegistry) where
  -- The registry is asked where the cache has nothing, or an empty list.
  unfoldable pub ask_registry : String → ServiceDiscovery → Selection × ServiceDiscovery
  ask_registry node_type d = elim (registry.get_services node_type) [
    | none ↦ (no_service, d)
    | some fresh ↦
        keep_counters (record d { service_cache = Dict.insert node_type fresh d.service_cache })
          (select_in_turn fresh d.counters)
  ]

  unfoldable pub get_service : String → ServiceDiscovery → Selection × ServiceDiscovery
  unfolding ask_registry
  get_service node_type d = elim (Dict.lookup node_type d.service_cache) [
    | none ↦ ask_registry node_type d
    | some services ↦ elim services [
      | [] ↦ ask_registry node_type d
      | s ∷ ss ↦ keep_counters d (select_in_turn (s ∷ ss) d.counters)
    ]
  ]

  unfoldable pub get_all_services : String → ServiceDiscovery → List ServiceInfo × ServiceDiscovery
  get_all_services node_type d = elim (Dict.lookup node_type d.service_cache) [
    | none ↦ elim (registry.get_services node_type) [
      | none ↦ ([], d)
      | some fresh ↦
          (fresh, record d { service_cache = Dict.insert node_type fresh d.service_cache })
    ]
    | some services ↦ (services, d)
  ]

  -- One type of updateCacheLoop.
  unfoldable pub update_cache : String → ServiceDiscovery → ServiceDiscovery
  update_cache node_type d = elim (registry.get_services node_type) [
    | none ↦ d
    | some fresh ↦ record d { service_cache = Dict.insert node_type fresh d.service_cache }
  ]

-- The cache has services of the type.
abbrev HasServices : String → ServiceDiscovery → Type 0
HasServices node_type d =
    (s : ServiceInfo) × (ss : List ServiceInfo) × (Dict.lookup node_type d.service_cache
      ≡ some (s ∷ ss))

keep_counters-service_cache :
    (d : ServiceDiscovery) (choice : Selection)
    → (keep_counters d choice).1.service_cache ≡ d.service_cache
keep_counters-service_cache d no_service = refl
keep_counters-service_cache d panics = refl
keep_counters-service_cache d (selected s counters) = refl

keep_counters-HasServices :
    (node_type : String) (services : List ServiceInfo) (d d' : ServiceDiscovery) (s : ServiceInfo)
    (counters : Counters)
    → Dict.lookup node_type d.service_cache ≡ some services
    → keep_counters d (select_in_turn services d.counters) ≡ (selected s counters, d')
    → HasServices node_type d'
unfolding select_in_turn
keep_counters-HasServices node_type [] d d' s counters found h = absurd (ground (arith, h))
keep_counters-HasServices node_type (x ∷ xs) d d' s counters found h = (
  x,
  xs,
  ap (λ (r : Selection × ServiceDiscovery). Dict.lookup node_type r.1.service_cache) (sym h)
      ∙ ap (Dict.lookup node_type)
          (keep_counters-service_cache d (select_in_turn (x ∷ xs) d.counters))
      ∙ found,
)

ask_registry-HasServices :
    (registry : ServiceRegistry) (node_type : String) (d d' : ServiceDiscovery) (s : ServiceInfo)
    (counters : Counters)
    → ask_registry registry node_type d ≡ (selected s counters, d')
    → HasServices node_type d'
unfolding ask_registry
ask_registry-HasServices registry node_type d d' s counters h =
    elim (Option-cases (registry.get_services node_type)) [
      | inl failed ↦ absurd (ground (arith, failed, h))
      | inr (fresh, got) ↦
          let d1 = record d { service_cache = Dict.insert node_type fresh d.service_cache } in
          let asked : ask_registry registry node_type d
              ≡ keep_counters d1 (select_in_turn fresh d.counters) =
            rw (got, ask_registry) refl in
          keep_counters-HasServices node_type fresh d1 d' s counters
            (Dict.lookup-insert node_type node_type fresh d.service_cache
              ∙ rw ((eq_iff node_type node_type).1 refl) refl)
            (sym asked ∙ h)
    ]

get_service-HasServices :
    (registry : ServiceRegistry) (node_type : String) (d d' : ServiceDiscovery) (s : ServiceInfo)
    (counters : Counters) (cached : Option (List ServiceInfo))
    → Dict.lookup node_type d.service_cache ≡ cached
    → get_service registry node_type d ≡ (selected s counters, d')
    → HasServices node_type d'
unfolding get_service
get_service-HasServices registry node_type d d' s counters none e h =
    let asked : get_service registry node_type d ≡ ask_registry registry node_type d =
      rw (e, get_service) refl in
    ask_registry-HasServices registry node_type d d' s counters (sym asked ∙ h)
get_service-HasServices registry node_type d d' s counters (some []) e h =
    let asked : get_service registry node_type d ≡ ask_registry registry node_type d =
      rw (e, get_service) refl in
    ask_registry-HasServices registry node_type d d' s counters (sym asked ∙ h)
get_service-HasServices registry node_type d d' s counters (some (x ∷ xs)) e h =
    let kept : get_service registry node_type d
        ≡ keep_counters d (select_in_turn (x ∷ xs) d.counters) =
      rw (e, get_service) refl in
    keep_counters-HasServices node_type (x ∷ xs) d d' s counters e (sym kept ∙ h)

-- Once GetService has given a service of a type, the next call takes its services from the cache:
-- it gives the same and leaves the same, whatever the registry then answers, and it gives the
-- service whose turn it is in the services of the cache.
pub get_service-cached :
    (registry other : ServiceRegistry) (node_type : String) (d d' : ServiceDiscovery)
    (s : ServiceInfo) (counters : Counters)
    → get_service registry node_type d ≡ (selected s counters, d')
    → (services : List ServiceInfo) × (Dict.lookup node_type d'.service_cache ≡ some services)
      × (get_service other node_type d' ≡ keep_counters d' (select_in_turn services d'.counters))
unfolding get_service
get_service-cached registry other node_type d d' s counters h =
    let (x, xs, found) =
      get_service-HasServices registry node_type d d' s counters
        (Dict.lookup node_type d.service_cache) refl h in
    (x ∷ xs, found, rw (found, get_service) refl)
