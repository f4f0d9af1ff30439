-- ===== src/Discovery/Rotation.antt =====
-- RoundRobinLoadBalancer of internal/discovery/etcd.go gives every service its turn.

use native.Mathlib.Nat.{mod-lt, mod-eq_of_lt, add-mod-mod, mod-add-mod, add-mod_right}
use cogame.Base.{
  ℕ, zero, suc, ◌+◌, ◌-◌, ◌%◌, ◌^◌, ◌≤◌, ◌<◌, ltb, String, str_eq, eq_iff, List, [], ◌∷◌, some,
  length, drop, get_elem?, ◌≡◌, refl, sym, ap, ◌∙◌, arith, true,
}
use cogame.Base.Dict
use cogame.Discovery.Balance.{
  ServiceInfo, Counters, counter_of, turn_index, Selection, no_service, panics, selected,
  select_in_turn,
}

abbrev pub add_selected : Selection → (Counters → List ServiceInfo) → List ServiceInfo
add_selected no_service rest = []
add_selected panics rest = []
add_selected (selected s counters) rest = s ∷ rest counters

-- What n calls of Select with the same services give, up to a panic.
unfoldable pub selections : ℕ → List ServiceInfo → Counters → List ServiceInfo
selections zero services counters = []
selections (suc n) services counters =
    add_selected (select_in_turn services counters) (selections n services)

drop-get_elem? :
    (i : ℕ) (xs : List ServiceInfo)
    → i < length xs
    → (x : ServiceInfo) × (get_elem? xs i ≡ some x) × (drop i xs ≡ x ∷ drop (suc i) xs)
drop-get_elem? i [] h = absurd (omega arith)
drop-get_elem? zero (x ∷ xs) h = (x, refl, refl)
drop-get_elem? (suc i) (x ∷ xs) h = drop-get_elem? i xs (omega arith)

-- One call, at a counter that is not negative as an int.
select_in_turn-selected :
    (s : ServiceInfo) (ss : List ServiceInfo) (counters : Counters) (x : ServiceInfo)
    → counter_of s.node_type counters < 2 ^ 63
    → get_elem? (s ∷ ss) (counter_of s.node_type counters % length (s ∷ ss)) ≡ some x
    → select_in_turn (s ∷ ss) counters
      ≡ selected x (Dict.insert s.node_type (suc (counter_of s.node_type counters)) counters)
unfolding select_in_turn
select_in_turn-selected s ss counters x small found =
    let n = counter_of s.node_type counters in
    let positive : ltb n (2 ^ 63) ≡ true = ground arith in
    let next : (n + 1) % 2 ^ 64 ≡ suc n = omega arith in
    let index : turn_index n (length (s ∷ ss)) ≡ some (n % length (s ∷ ss)) =
      rw (positive, turn_index) refl in
    rw (index, select_in_turn, found, next) refl

counter_of-insert :
    (node_type : String) (n : ℕ) (counters : Counters)
    → counter_of node_type (Dict.insert node_type n counters) ≡ n
unfolding counter_of
counter_of-insert node_type n counters =
    let same : str_eq node_type node_type ≡ true = (eq_iff node_type node_type).1 refl in
    let found : Dict.lookup node_type (Dict.insert node_type n counters) ≡ some n =
      Dict.lookup-insert node_type node_type n counters ∙ rw same refl in
    rw (found, counter_of) refl

-- The first of the calls, or one of the others.
selections_at :
    (k i : ℕ) (s : ServiceInfo) (ss : List ServiceInfo) (n : ℕ) (x : ServiceInfo)
    (counters : Counters)
    → get_elem? (s ∷ ss) (n % length (s ∷ ss)) ≡ some x
    → counter_of s.node_type counters ≡ suc n
    → ((j : ℕ)
        → j < k
        → counter_of s.node_type counters + k ≤ 2 ^ 63
        → get_elem? (selections k (s ∷ ss) counters) j
          ≡ get_elem? (s ∷ ss) ((counter_of s.node_type counters + j) % length (s ∷ ss)))
    → i < suc k
    → n + suc k ≤ 2 ^ 63
    → get_elem? (x ∷ selections k (s ∷ ss) counters) i
      ≡ get_elem? (s ∷ ss) ((n + i) % length (s ∷ ss))
selections_at k zero s ss n x counters found e rest below small =
    let same : n + 0 ≡ n = omega arith in
    sym found ∙ ap (λ m. get_elem? (s ∷ ss) (m % length (s ∷ ss))) (sym same)
selections_at k (suc i) s ss n x counters found e rest below small =
    let shift : counter_of s.node_type counters + i ≡ n + suc i = omega (arith, e) in
    rest i (omega arith) (omega (arith, e))
    ∙ ap (λ m. get_elem? (s ∷ ss) (m % length (s ∷ ss))) shift

-- With the same services in the same order, the i-th of k calls of Select gets the service at the
-- counter of their type and i more, modulo the number of services, and none of the calls panics,
-- while the counter does not pass what an int holds.
pub selections-get_elem? :
    (k i : ℕ) (s : ServiceInfo) (ss : List ServiceInfo) (counters : Counters)
    → i < k
    → counter_of s.node_type counters + k ≤ 2 ^ 63
    → get_elem? (selections k (s ∷ ss) counters) i
      ≡ get_elem? (s ∷ ss) ((counter_of s.node_type counters + i) % length (s ∷ ss))
unfolding selections
selections-get_elem? zero i s ss counters below small = absurd (omega arith)
selections-get_elem? (suc k) i s ss counters below small =
    let n = counter_of s.node_type counters in
    let (x, found, split) =
      drop-get_elem? (n % length (s ∷ ss)) (s ∷ ss) (mod-lt n (omega arith)) in
    let call = select_in_turn-selected s ss counters x (omega arith) found in
    let counters' = Dict.insert s.node_type (suc n) counters in
    let n' : counter_of s.node_type counters' ≡ suc n =
      counter_of-insert s.node_type (suc n) counters in
    rw (call, selections)
      (selections_at k i s ss n x counters' found n' (λ j. selections-get_elem? k j s ss counters')
        below small)

-- So among as many calls in a row as there are services, each service has its turn.
pub selections_turn :
    (j : ℕ) (s : ServiceInfo) (ss : List ServiceInfo) (counters : Counters)
    → j < length (s ∷ ss)
    → counter_of s.node_type counters + length (s ∷ ss) ≤ 2 ^ 63
    → (i : ℕ) × (i < length (s ∷ ss))
      × (get_elem? (selections (length (s ∷ ss)) (s ∷ ss) counters) i ≡ get_elem? (s ∷ ss) j)
selections_turn j s ss counters below small =
    let n = counter_of s.node_type counters in
    let len = length (s ∷ ss) in
    let back = j + (len - n % len) in
    let i = back % len in
    let within : n % len < len = mod-lt n (omega arith) in
    let sum : n % len + back ≡ j + len = omega (arith, within) in
    let turn : (n + i) % len ≡ j =
      add-mod-mod n back len
      ∙ sym (mod-add-mod n len back)
      ∙ ap (λ m. m % len) sum
      ∙ add-mod_right j len
      ∙ mod-eq_of_lt below in
    (
      i,
      mod-lt back (omega arith),
      selections-get_elem? len i s ss counters (mod-lt back (omega arith)) small
          ∙ ap (get_elem? (s ∷ ss)) turn,
    )
