-- ===== src/Discovery/Balance.antt =====
-- internal/discovery/etcd.go: ServiceInfo and the two load balancers.
use cogame.Base.{
  ℕ, ◌+◌, ◌-◌, ◌%◌, ◌^◌, ◌==◌, ltb, ℤ, pos, ltb_ℤ, String, str_eq, ◌&&◌, List, [], ◌∷◌, Option,
  none, some, length, get_elem?, if◌then◌else◌,
}
use cogame.Base.Dict

pub record ServiceInfo : Type 0 where
  pub node_id : String
  pub node_type : String
  pub address : String
  pub port : ℤ
  pub load : ℤ
  pub status : String
  pub metadata : List (String × String)
  pub update_time : ℕ

-- The field `counters` of RoundRobinLoadBalancer; an int is kept as its 64 bits.
abbrev pub Counters : Type 0
Counters = List (String × ℕ)

-- lb.counters[nodeType], 0 if it is not there.
unfoldable pub counter_of : String → Counters → ℕ
counter_of node_type counters = elim (Dict.lookup node_type counters) [ none ↦ 0 | some n ↦ n ]

-- counter % len(services), of which a negative value is no index; `none` is a panic.
unfoldable pub turn_index : ℕ → ℕ → Option ℕ
turn_index counter n =
    if ltb counter (2 ^ 63)
    then some (counter % n)
    else if (2 ^ 64 - counter) % n == 0
    then some 0
    else none

pub data Selection : Type 0 where
  no_service : Selection
  panics : Selection
  selected : ServiceInfo → Counters → Selection

-- RoundRobinLoadBalancer.Select
unfoldable pub select_in_turn : List ServiceInfo → Counters → Selection
unfolding counter_of turn_index
select_in_turn [] counters = no_service
select_in_turn (s ∷ ss) counters =
    let counter = counter_of s.node_type counters in
    elim (turn_index counter (length (s ∷ ss))) [
      | none ↦ panics
      | some i ↦ elim (get_elem? (s ∷ ss) i) [
        | none ↦ panics
        | some service ↦
            selected service (Dict.insert s.node_type ((counter + 1) % 2 ^ 64) counters)
      ]
    ]

-- int(^uint(0) >> 1)
abbrev pub max_int : ℤ
max_int = pos (2 ^ 63 - 1)

-- The loop of WeightedLoadBalancer.Select, with `minLoad` and `selected`.
unfoldable pub lightest_online : ℤ → Option ServiceInfo → List ServiceInfo → Option ServiceInfo
lightest_online min_load best [] = best
lightest_online min_load best (s ∷ ss) =
    let better = str_eq s.status "online" && ltb_ℤ s.load min_load in
    lightest_online (if better then s.load else min_load) (if better then some s else best) ss

-- WeightedLoadBalancer.Select
unfoldable pub select_by_load : List ServiceInfo → Option ServiceInfo
unfolding lightest_online
select_by_load [] = none
select_by_load (s ∷ ss) = elim (lightest_online max_int none (s ∷ ss)) [
  | none ↦ some s
  | some best ↦ some best
]
