-- ===== src/Discovery/Refresh.antt =====
-- internal/discovery/etcd.go: the turns of updateCacheLoop.
use cogame.Base.{
  String, str_eq, eq_iff, Bool, true, false, ◌||◌, List, [], ◌∷◌, Option, none, some, if◌then◌else◌,
  ◌≡◌, ◌⊎◌, inl, inr, refl, sym, ◌∙◌, arith, Option-cases, Bool-cases,
}
use cogame.Base.Dict
use cogame.Discovery.Balance.{ServiceInfo}
use cogame.Discovery.Cache.{ServiceRegistry, ServiceDiscovery, update_cache, get_all_services}

abbrev pub cached_types : List (String × List ServiceInfo) → List String
cached_types [] = []
cached_types ((node_type, services) ∷ rest) = node_type ∷ cached_types rest

unfoldable pub update_caches : ServiceRegistry → List String → ServiceDiscovery → ServiceDiscovery
update_caches registry [] d = d
update_caches registry (t ∷ ts) d = update_caches registry ts (update_cache registry t d)

-- A turn of updateCacheLoop.
unfoldable pub update_cache_turn : ServiceRegistry → ServiceDiscovery → ServiceDiscovery
unfolding update_caches
update_cache_turn registry d = update_caches registry (cached_types d.service_cache) d

-- What is cached of a type, where the registry is asked.
abbrev pub renewed : {A : Type 0} → Option A → Option A → Option A
renewed none old = old
renewed (some fresh) old = some fresh

abbrev pub contains : String → List String → Bool
contains k [] = false
contains k (t ∷ ts) = str_eq t k || contains k ts

-- The services that the registry lists, or the old ones where it fails.
abbrev pub newest : Option (List ServiceInfo) → List ServiceInfo → List ServiceInfo
newest none old = old
newest (some fresh) old = fresh

renewed-some :
    (answer : Option (List ServiceInfo)) (old : List ServiceInfo)
    → renewed answer (some old) ≡ some (newest answer old)
renewed-some none old = refl
renewed-some (some fresh) old = refl

if_same : {A : Type 0} (b : Bool) (x : A) → x ≡ (if b then x else x)
if_same true x = refl
if_same false x = refl

renewed_twice :
    {A : Type 0} (b : Bool) (answer old : Option A)
    → (if b then renewed answer (renewed answer old) else renewed answer old) ≡ renewed answer old
renewed_twice b none old = sym (if_same b old)
renewed_twice b (some fresh) old = sym (if_same b (some fresh))

contains-cached_types :
    (k : String) (services : List ServiceInfo) (cache : List (String × List ServiceInfo))
    → Dict.lookup k cache ≡ some services
    → contains k (cached_types cache) ≡ true
unfolding Dict.lookup
contains-cached_types k services [] h = absurd (ground (arith, h))
contains-cached_types k services ((t, old) ∷ rest) h =
    ground (arith, h, contains-cached_types k services rest)

absent-cached_types :
    (k : String) (cache : List (String × List ServiceInfo))
    → Dict.lookup k cache ≡ none
    → contains k (cached_types cache) ≡ false
unfolding Dict.lookup
absent-cached_types k [] h = refl
absent-cached_types k ((t, old) ∷ rest) h = ground (arith, h, absent-cached_types k rest)

module _ (registry : ServiceRegistry) where
  lookup-update_cache :
      (t k : String) (d : ServiceDiscovery)
      → Dict.lookup k (update_cache registry t d).service_cache ≡ (
          if str_eq t k
          then renewed (registry.get_services t) (Dict.lookup k d.service_cache)
          else Dict.lookup k d.service_cache)
  unfolding update_cache
  lookup-update_cache t k d = elim (Option-cases (registry.get_services t)) [
    | inl failed ↦ rw (failed, update_cache) (if_same (str_eq t k) (Dict.lookup k d.service_cache))
    | inr (fresh, got) ↦ rw (got, update_cache) (Dict.lookup-insert t k fresh d.service_cache)
  ]

  lookup-update_caches :
      (k : String) (ts : List String) (d : ServiceDiscovery)
      → Dict.lookup k (update_caches registry ts d).service_cache ≡ (
          if contains k ts
          then renewed (registry.get_services k) (Dict.lookup k d.service_cache)
          else Dict.lookup k d.service_cache)
  unfolding update_caches
  lookup-update_caches k [] d = refl
  lookup-update_caches k (t ∷ ts) d =
      let rest = lookup-update_caches k ts (update_cache registry t d) in
      let once = lookup-update_cache t k d in
      elim (Bool-cases (str_eq t k)) [
        | inl same ↦
            let t_is : t ≡ k = (eq_iff t k).0 same in
            let renewed_once : Dict.lookup k (update_cache registry t d).service_cache
                ≡ renewed (registry.get_services k) (Dict.lookup k d.service_cache) =
              once ∙ rw (same, t_is) refl in
            rw same (
              rest
              ∙ rw renewed_once (
                  renewed_twice (contains k ts) (registry.get_services k)
                    (Dict.lookup k d.service_cache)))
        | inr other ↦
            let kept : Dict.lookup k (update_cache registry t d).service_cache
                ≡ Dict.lookup k d.service_cache =
              once ∙ rw other refl in
            rw other (rw kept at rest)
      ]

  pub get_all_services-cached :
      (k : String) (d : ServiceDiscovery) (services : List ServiceInfo)
      → Dict.lookup k d.service_cache ≡ some services
      → get_all_services registry k d ≡ (services, d)
  unfolding get_all_services
  get_all_services-cached k d services h = rw (h, get_all_services) refl

  -- A turn of updateCacheLoop: of every type that is cached the cache then has what the registry
  -- lists, or what it had where the registry fails, and GetAllServices gives that. A type that is not
  -- cached stays so.
  pub update_cache_turn-renews :
      (k : String) (d : ServiceDiscovery)
      → let d1 = update_cache_turn registry d in
        ((Dict.lookup k d.service_cache ≡ none) × (Dict.lookup k d1.service_cache ≡ none))
        ⊎ ((old : List ServiceInfo) × (Dict.lookup k d.service_cache ≡ some old)
            × (get_all_services registry k d1 ≡ (newest (registry.get_services k) old, d1)))
  unfolding update_cache_turn
  update_cache_turn-renews k d =
      let all = lookup-update_caches k (cached_types d.service_cache) d in
      elim (Option-cases (Dict.lookup k d.service_cache)) [
        | inl absent ↦ inl (absent, all ∙ rw (absent-cached_types k d.service_cache absent) absent)
        | inr (old, cached) ↦
            let fresh =
              all
              ∙ rw (contains-cached_types k old d.service_cache cached, cached)
                  (renewed-some (registry.get_services k) old) in
            inr (old, cached, get_all_services-cached k (update_cache_turn registry d) _ fresh)
      ]
