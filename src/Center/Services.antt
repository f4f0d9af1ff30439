-- ===== src/Center/Services.antt =====
-- internal/server/center_server.go: GetServiceList and GetClusterStatus. Each asks the time once for
-- all services. The code and message of GetClusterStatus, which are constant, and the figures of
-- the process are left out.
use cogame.Base.{
  ℕ, suc, ◌+◌, ◌-◌, ◌%◌, ◌^◌, leb, ℤ, int32, String, Bool, List, [], ◌∷◌, ◌++◌, none, some, map,
  length, if◌then◌else◌,
}
use cogame.Base.Dict
use cogame.Discovery.Balance.{ServiceInfo}
use cogame.Discovery.Registry.{Etcd, EtcdRegistry, get_services}

-- center_proto.ServiceInfo
pub record ListedService : Type 0 where
  pub service_id : String
  pub service_type : String
  pub address : String
  pub port : ℤ
  pub status : String
  pub last_heartbeat : ℕ

pub record ServiceListResponse : Type 0 where
  pub services : List ListedService
  pub total : ℤ

-- The counters of a map[string]int32 and the two totals are kept as 32 bits.
pub record ClusterStatusResponse : Type 0 where
  pub total_services : ℕ
  pub online_services : ℕ
  pub service_stats : List (String × ℕ)

-- The types that ShutdownService and performHealthChecks look through.
abbrev pub node_types : List String
node_types = "gateway" ∷ "login" ∷ "lobby" ∷ "game" ∷ "friend" ∷ "chat" ∷ "mail" ∷ "gm" ∷ []

abbrev pub service_types : List String
service_types = node_types ++ ("center" ∷ [])

-- time.Now().Unix()-service.UpdateTime <= limit
abbrev pub updated_within : ℕ → ℕ → ServiceInfo → Bool
updated_within limit now s = leb now (s.update_time + limit)

-- int32 of an int.
abbrev pub port32 : ℤ → ℤ
port32 (ℤ.pos n) = int32 n
port32 (ℤ.negsuc n) = int32 (2 ^ 64 - suc n)

unfoldable pub listed : ℕ → ServiceInfo → ListedService
listed now s = record {
  service_id = s.node_id;
  service_type = s.node_type;
  address = s.address;
  port = port32 s.port;
  status = if updated_within 60 now s then "online" else "offline";
  last_heartbeat = s.update_time % 2 ^ 32;
}

-- serviceStats[nodeType]++
unfoldable pub count_type : String → List (String × ℕ) → List (String × ℕ)
count_type node_type stats =
    Dict.insert node_type
      ((elim (Dict.lookup node_type stats) [ none ↦ 1 | some n ↦ (n + 1) % 2 ^ 32 ])) stats

-- The loop of GetClusterStatus.
unfoldable pub count_services : ℕ → List ServiceInfo → ClusterStatusResponse → ClusterStatusResponse
unfolding count_type
count_services now [] c = c
count_services now (s ∷ ss) c = count_services now ss (
    if updated_within 60 now s
    then record {
      total_services = (c.total_services + 1) % 2 ^ 32;
      online_services = (c.online_services + 1) % 2 ^ 32;
      service_stats = count_type s.node_type c.service_stats;
    }
    else record c { total_services = (c.total_services + 1) % 2 ^ 32 })

module _ (t : Etcd) where
  -- The services of some types; a type for which there is an error is left out.
  unfoldable pub all_services : List String → EtcdRegistry t → List ServiceInfo
  all_services [] r = []
  all_services (node_type ∷ node_types) r =
      let rest = all_services node_types r in
      elim (get_services t node_type r) [ none ↦ rest | some services ↦ services ++ rest ]

  unfoldable pub get_service_list : ℕ → EtcdRegistry t → ServiceListResponse
  unfolding all_services listed
  get_service_list now r =
      let services = map (listed now) (all_services service_types r) in
      record { services = services; total = int32 (length services) }

  unfoldable pub get_cluster_status : ℕ → EtcdRegistry t → ClusterStatusResponse
  unfolding all_services count_services
  get_cluster_status now r =
      count_services now (all_services service_types r)
        (record { total_services = 0; online_services = 0; service_stats = [] })
