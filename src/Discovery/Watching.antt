-- ===== src/Discovery/Watching.antt =====
-- internal/discovery/etcd.go: the callback by which a ServiceDiscovery watches its type of nodes. Each
-- change that etcd reports makes the registry list the services, and a goroutine for the callback
-- with them.
use cogame.Base.{
  ℕ, zero, suc, String, eq_iff, List, [], ◌∷◌, ◌++◌, none, some, ◌≡◌, inl, inr, refl, ◌∙◌, ap,
  arith, get_elem?,
}
use cogame.Base.Dict
use cogame.Discovery.Balance.{ServiceInfo}
use cogame.Discovery.Cache.{ServiceRegistry, ServiceDiscovery, get_all_services}
use cogame.Discovery.Refresh.{update_cache_turn, get_all_services-cached, update_cache_turn-renews}

-- A discovery of a type of nodes, and the lists that its callback has still to put into the cache,
-- each in a goroutine.
pub record Watching : Type 0 where
  pub discovery : ServiceDiscovery
  pub pending : List (List ServiceInfo)

unfoldable pub new_service_discovery : Watching
new_service_discovery = record {
  discovery = record { service_cache = []; counters = [] };
  pending = [];
}

-- A change of the type's services is reported.
unfoldable pub on_change : ServiceRegistry → String → Watching → Watching
on_change registry node_type s = elim (registry.get_services node_type) [
  | none ↦ s
  | some services ↦ record s { pending = s.pending ++ (services ∷ []) }
]

abbrev pub drop_at : {A : Type 0} → ℕ → List A → List A
drop_at n [] = []
drop_at zero (x ∷ xs) = xs
drop_at (suc n) (x ∷ xs) = x ∷ drop_at n xs

-- The goroutine at a place runs.
unfoldable pub run_callback : String → ℕ → Watching → Watching
run_callback node_type n s = elim (get_elem? s.pending n) [
  | none ↦ s
  | some services ↦ record {
    discovery = record (s.discovery) {
      service_cache = Dict.insert node_type services s.discovery.service_cache;
    };
    pending = drop_at n s.pending;
  }
]

abbrev pub raced : ServiceRegistry → ServiceRegistry → String → ServiceDiscovery
raced before after node_type =
    (run_callback node_type 0 (
      run_callback node_type 1
        (on_change after node_type (on_change before node_type new_service_discovery)))).discovery

on_change-pending :
    (registry : ServiceRegistry) (node_type : String) (s : Watching) (services : List ServiceInfo)
    → registry.get_services node_type ≡ some services
    → on_change registry node_type s ≡ record s { pending = s.pending ++ (services ∷ []) }
unfolding on_change
on_change-pending registry node_type s services h = rw (h, on_change) refl

raced-service_cache :
    (before after : ServiceRegistry) (node_type : String) (old new : List ServiceInfo)
    → before.get_services node_type ≡ some old
    → after.get_services node_type ≡ some new
    → (raced before after node_type).service_cache
      ≡ Dict.insert node_type old (Dict.insert node_type new [])
unfolding run_callback new_service_discovery
raced-service_cache before after node_type old new listed_old listed_new =
    let s = record new_service_discovery { pending = old ∷ [] } in
    ap (λ s1. (run_callback node_type 0 (run_callback node_type 1 s1)).discovery.service_cache)
      (ap (on_change after node_type)
          (on_change-pending before node_type new_service_discovery old listed_old)
        ∙ on_change-pending after node_type s new listed_new)

-- Where the services of a type change twice, the goroutines of the callback may run in either order:
-- with the second first, the list from before the second change stays in the cache, and
-- GetAllServices gives it, until a turn of updateCacheLoop in which the registry answers.
pub older_list_stays :
    (before after : ServiceRegistry) (node_type : String) (old new : List ServiceInfo)
    → before.get_services node_type ≡ some old
    → after.get_services node_type ≡ some new
    → let d = raced before after node_type in
      (get_all_services after node_type d ≡ (old, d))
      × (get_all_services after node_type (update_cache_turn after d)
          ≡ (new, update_cache_turn after d))
older_list_stays before after node_type old new listed_old listed_new =
    let d = raced before after node_type in
    let stale : Dict.lookup node_type d.service_cache ≡ some old =
      ap (Dict.lookup node_type)
        (raced-service_cache before after node_type old new listed_old listed_new)
      ∙ Dict.lookup-insert node_type node_type old (Dict.insert node_type new [])
      ∙ rw ((eq_iff node_type node_type).1 refl) refl in
    (
      get_all_services-cached after node_type d old stale,
      elim (update_cache_turn-renews after node_type d) [
        | inl (absent, _) ↦ absurd (ground (arith, absent, stale))
        | inr (other, cached, gives) ↦ rw listed_new at gives
      ],
    )
