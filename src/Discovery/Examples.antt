-- ===== src/Discovery/Examples.antt =====
-- Runs of the load balancers and the registry of internal/discovery.
use cogame.Base.{
  ℕ, ◌<◌, pos, String, true, false, List, [], ◌∷◌, some, get_elem?, ◌≡◌, ◌⊎◌, refl, arith,
}
use cogame.Base.Dict
use cogame.Discovery.Balance.{
  ServiceInfo, counter_of, selected, select_in_turn, select_by_load, max_int,
}
use cogame.Discovery.Rotation.{selections, selections_turn}
use cogame.Discovery.Lightest.{IsLightest, NoneBelow, select_by_load-IsLightest}
use cogame.Discovery.Registry.{Etcd, EtcdRegistry, returned, register}
use cogame.Discovery.Cache.{ServiceRegistry, ServiceDiscovery, get_service}

abbrev pub lobby : String → ℕ → ServiceInfo
lobby node_id load = record {
  node_id = node_id;
  node_type = "lobby";
  address = "10.0.0.1";
  port = pos 8000;
  load = pos load;
  status = "online";
  metadata = [];
  update_time = 0;
}

abbrev others : List ServiceInfo
others = lobby "b" 3 ∷ lobby "c" 5 ∷ []

selections_turn_example :
    (i : ℕ) × (i < 3)
    × (get_elem? (selections 3 (lobby "a" 4 ∷ others) (("lobby", 7) ∷ [])) i ≡ some (lobby "c" 5))
unfolding Dict.lookup counter_of
selections_turn_example =
    selections_turn 2 (lobby "a" 4) others (("lobby", 7) ∷ []) (omega arith) (omega arith)

select_by_load-IsLightest_example :
    ((x : ServiceInfo) × (select_by_load (lobby "a" 4 ∷ others) ≡ some x)
      × IsLightest max_int (lobby "a" 4 ∷ others) x)
    ⊎ ((select_by_load (lobby "a" 4 ∷ others) ≡ some (lobby "a" 4))
        × NoneBelow max_int (lobby "a" 4 ∷ others))
select_by_load-IsLightest_example = select_by_load-IsLightest (lobby "a" 4) others

-- An etcd that holds values by key and lists them all.
abbrev pub values_of : List (String × String) → List String
values_of [] = []
values_of ((key, value) ∷ kvs) = value ∷ values_of kvs

abbrev pub plain_etcd : Etcd
plain_etcd = record {
  Store = List (String × String);
  put = λ key value store. some (Dict.insert key value store);
  remove = λ key store. some (Dict.delete key store);
  get_prefix = λ prefix store. some (values_of store);
  marshal = λ info. some info.node_id;
  unmarshal = λ text. some (lobby text 0);
}

abbrev pub empty_registry : EtcdRegistry plain_etcd
empty_registry = record { services = []; store = []; locked = false }

abbrev pub full_registry : EtcdRegistry plain_etcd
full_registry = record {
  services = Dict.insert "a" (record (lobby "a" 4) { update_time = 9 }) [];
  store = Dict.insert "/lufy/services/lobby/a" "a" [];
  locked = false;
}

full_registry-register :
    register plain_etcd 9 (lobby "a" 4) empty_registry ≡ returned true full_registry
unfolding register
full_registry-register = refl

abbrev pub fixed_registry : ServiceRegistry
fixed_registry = record { get_services = λ node_type. some (lobby "a" 4 ∷ others) }

abbrev pub new_discovery : ServiceDiscovery
new_discovery = record { service_cache = []; counters = [] }

abbrev used_discovery : ServiceDiscovery
used_discovery = record {
  service_cache = ("lobby", lobby "a" 4 ∷ others) ∷ [];
  counters = ("lobby", 1) ∷ [];
}

used_discovery-get_service :
    get_service fixed_registry "lobby" new_discovery
    ≡ (selected (lobby "a" 4) (("lobby", 1) ∷ []), used_discovery)
unfolding get_service select_in_turn Dict.lookup Dict.insert
used_discovery-get_service = refl
