-- ===== src/Center/Counts.antt =====
-- GetServiceList and GetClusterStatus of internal/server/center_server.go against one another.
use cogame.Base.{
  ℕ, ◌+◌, ◌%◌, ◌^◌, ◌<◌, String, str_eq, eq_iff, Bool, ◌&&◌, List, [], ◌∷◌, none, some, map, length,
  ◌≡◌, refl, arith, if◌then◌else◌, Bool-cases, inl, inr,
}
use cogame.Base.Dict
use cogame.Discovery.Balance.{ServiceInfo}
use cogame.Discovery.Registry.{Etcd, EtcdRegistry}
use cogame.Center.Services.{
  ListedService, ClusterStatusResponse, updated_within, listed, count_type, count_services,
  all_services, service_types, get_service_list, get_cluster_status,
}

-- How many entries pass a test.
abbrev pub count_if : (ListedService → Bool) → List ListedService → ℕ
count_if p [] = 0
count_if p (x ∷ xs) = (if p x then 1 else 0) + count_if p xs

abbrev pub is_online : ListedService → Bool
is_online x = str_eq x.status "online"

abbrev pub is_online_of : String → ListedService → Bool
is_online_of node_type x = is_online x && str_eq x.service_type node_type

abbrev pub stat_of : String → List (String × ℕ) → ℕ
stat_of node_type stats = elim (Dict.lookup node_type stats) [ none ↦ 0 | some n ↦ n ]

listed-is_online : (now : ℕ) (s : ServiceInfo) → is_online (listed now s) ≡ updated_within 60 now s
unfolding listed
listed-is_online now s = elim (Bool-cases (updated_within 60 now s)) [
  | inl yes' ↦ rw (yes', listed) refl
  | inr no' ↦ rw (no', listed) refl
]

listed-is_online_of :
    (key : String) (now : ℕ) (s : ServiceInfo)
    → is_online_of key (listed now s) ≡ (updated_within 60 now s && str_eq s.node_type key)
unfolding listed
listed-is_online_of key now s = elim (Bool-cases (updated_within 60 now s)) [
  | inl yes' ↦ rw (yes', listed) refl
  | inr no' ↦ rw (no', listed) refl
]

stat_of-count_type :
    (key node_type : String) (stats : List (String × ℕ))
    → stat_of key stats < 2 ^ 32
    → stat_of key (count_type node_type stats)
      ≡ (stat_of key stats + (if str_eq node_type key then 1 else 0)) % 2 ^ 32
unfolding count_type
stat_of-count_type key node_type stats small = ground (
  arith,
  Dict.lookup-insert node_type key
      (elim (Dict.lookup node_type stats) [ none ↦ 1 | some n ↦ (n + 1) % 2 ^ 32 ]) stats,
  eq_iff node_type key,
)

stat_of-nothing : (key : String) → stat_of key [] ≡ 0
unfolding Dict.lookup
stat_of-nothing key = refl

-- Each counter is below 2 ^ 32, and so are those of the types.
abbrev IsSmall : ClusterStatusResponse → Type 0
IsSmall c =
    (c.total_services < 2 ^ 32)
    × (c.online_services < 2 ^ 32)
    × ((key : String) → stat_of key c.service_stats < 2 ^ 32)

-- What the loop counts, on top of the counters before.
abbrev Counted : ℕ → List ServiceInfo → ClusterStatusResponse → ClusterStatusResponse → Type 0
Counted now ss c c' =
    let entries = map (listed now) ss in
    (c'.total_services ≡ (c.total_services + length entries) % 2 ^ 32)
    × (c'.online_services ≡ (c.online_services + count_if is_online entries) % 2 ^ 32)
    × ((key : String)
        → stat_of key c'.service_stats
          ≡ (stat_of key c.service_stats + count_if (is_online_of key) entries) % 2 ^ 32)

next-IsSmall :
    (node_type : String) (c : ClusterStatusResponse) (key : String)
    → IsSmall c
    → stat_of key (count_type node_type c.service_stats) < 2 ^ 32
next-IsSmall node_type c key h =
    let e = stat_of-count_type key node_type c.service_stats (h.2 key) in omega (arith, e)

count_services-Counted :
    (now : ℕ) (ss : List ServiceInfo) (c : ClusterStatusResponse)
    → IsSmall c
    → Counted now ss c (count_services now ss c)
unfolding count_services
count_services-Counted now [] c h =
    (ground (arith, h), ground (arith, h), λ key. ground (arith, h.2 key))
count_services-Counted now (s ∷ ss) c h = elim (Bool-cases (updated_within 60 now s)) [
  | inl up ↦
      let c1 : ClusterStatusResponse = record {
        total_services = (c.total_services + 1) % 2 ^ 32;
        online_services = (c.online_services + 1) % 2 ^ 32;
        service_stats = count_type s.node_type c.service_stats;
      } in
      let (total, online, stats) =
        count_services-Counted now ss c1
          (omega arith, omega arith, λ key. next-IsSmall s.node_type c key h) in
      rw (up, count_services)
        (
          omega (arith, total),
          ground (arith, online, listed-is_online now s, up),
          λ key. ground (
            arith,
            stats key,
            listed-is_online_of key now s,
            up,
            stat_of-count_type key s.node_type c.service_stats (h.2 key),
          ),
        )
  | inr down ↦
      let c1 : ClusterStatusResponse = record c {
        total_services = (c.total_services + 1) % 2 ^ 32;
      } in
      let (total, online, stats) = count_services-Counted now ss c1 (omega arith, h.1, h.2) in
      rw (down, count_services)
        (
          omega (arith, total),
          ground (arith, online, listed-is_online now s, down),
          λ key. ground (arith, stats key, listed-is_online_of key now s, down),
        )
]

-- Asked at the same time of the same registry, GetClusterStatus counts what GetServiceList lists: in
-- all, as online, and of each type as online, in 32 bits each.
pub get_cluster_status-get_service_list :
    (t : Etcd) (now : ℕ) (r : EtcdRegistry t)
    → ((get_cluster_status t now r).total_services
        ≡ length (get_service_list t now r).services % 2 ^ 32)
      × ((get_cluster_status t now r).online_services
          ≡ count_if is_online (get_service_list t now r).services % 2 ^ 32)
      × ((key : String)
          → stat_of key (get_cluster_status t now r).service_stats
            ≡ count_if (is_online_of key) (get_service_list t now r).services % 2 ^ 32)
unfolding get_cluster_status get_service_list
get_cluster_status-get_service_list t now r =
    let services = all_services t service_types r in
    let none_yet : ClusterStatusResponse = record {
      total_services = 0;
      online_services = 0;
      service_stats = [];
    } in
    let (total, online, stats) =
      count_services-Counted now services none_yet
        (omega arith, omega arith, λ key. omega (arith, stat_of-nothing key)) in
    (
      omega (arith, total),
      omega (arith, online),
      λ key. omega (arith, stats key, stat_of-nothing key),
    )
