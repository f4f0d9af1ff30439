-- ===== src/Queue/Manager.antt =====
-- internal/mq/nsq_core.go: NSQManager, how it is made and closed, and its producers.
use cogame.Base.{
  ℕ, ◌+◌, ◌%◌, ◌^◌, ◌==◌, ltb, String, Bool, true, false, ◌&&◌, List, [], ◌∷◌, ◌++◌, Option, none,
  some, length, get_elem?, if◌then◌else◌,
}
use cogame.Discovery.Balance.{turn_index}
use cogame.Queue.Nsq.{Nsq}

-- The timeouts and sizes of the configuration only go into the client's.
pub record NsqConfig : Type 0 where
  pub nsqd_address : String
  pub nsqlookupd_address : String
  pub cluster_mode : Bool
  pub nsqd_addresses : List String
  pub nsqlookupd_addresses : List String
  pub load_balancing : Bool
  pub failover_enabled : Bool

-- `cluster` is the mode. An int is kept as its 64 bits. `H` is what handles a message.
pub record NsqManager (H : Type 0) : Type 0 where
  pub config : NsqConfig
  pub producers : List ℕ
  pub producer : ℕ
  pub consumers : List (String × ℕ)
  pub handlers : List (String × H)
  pub cluster : Bool
  pub current_producer : ℕ

-- The first producer is the main one.
abbrev pub with_main : Option (List ℕ) → Option (ℕ × List ℕ)
with_main none = none
with_main (some []) = none
with_main (some (p ∷ ps)) = some (p, p ∷ ps)

abbrev pub started_with : {H : Type 0} → NsqConfig → ℕ → List ℕ → NsqManager H
started_with config p ps = record {
  config = config;
  producers = ps;
  producer = p;
  consumers = [];
  handlers = [];
  cluster = config.cluster_mode;
  current_producer = 0;
}

abbrev pub manager_of : {H : Type 0} → NsqConfig → Option (ℕ × List ℕ) → Option (NsqManager H)
manager_of config none = none
manager_of config (some (p, ps)) = some (started_with config p ps)

module _ (n : Nsq) where
  open n use {World}

  unfoldable pub close_producers : List ℕ → World → World
  close_producers [] w = w
  close_producers (p ∷ ps) w = close_producers ps (n.stop p w)

  -- The main producer and all producers, if there is no error.
  unfoldable pub init_single_mode : NsqConfig → World → Option (ℕ × List ℕ) × World
  init_single_mode config w =
      let (made, w1) = n.new_producer config.nsqd_address w in
      elim made [
        | none ↦ (none, w1)
        | some p ↦
            let (alive, w2) = n.ping p w1 in
            if alive then (some (p, p ∷ []), w2) else (none, n.stop p w2)
      ]

  -- The loop over the addresses; `ps` are the producers so far.
  unfoldable pub connect_all : Bool → List String → List ℕ → World → Option (List ℕ) × World
  unfolding close_producers
  connect_all failover [] ps w = (some ps, w)
  connect_all failover (address ∷ addresses) ps w =
      let (made, w1) = n.new_producer address w in
      elim made [
        | none ↦ (none, close_producers ps w1)
        | some p ↦
            let (alive, w2) = n.ping p w1 in
            elim alive [
              | true ↦ connect_all failover addresses (ps ++ (p ∷ [])) w2
              | false ↦
                  let w3 = n.stop p w2 in
                  elim failover [
                    | true ↦ connect_all failover addresses ps w3
                    | false ↦ (none, close_producers ps w3)
                  ]
            ]
      ]

  unfoldable pub init_cluster_mode : NsqConfig → World → Option (ℕ × List ℕ) × World
  unfolding connect_all
  init_cluster_mode config w = elim config.nsqd_addresses [
    | [] ↦ (none, w)
    | address ∷ addresses ↦
        let (made, w1) = connect_all config.failover_enabled (address ∷ addresses) [] w in
        (with_main made, w1)
  ]

  unfoldable pub new_nsq_manager : {H : Type 0} → NsqConfig → World → Option (NsqManager H) × World
  unfolding init_single_mode init_cluster_mode
  new_nsq_manager config w =
      let (made, w1) =
        if config.cluster_mode then init_cluster_mode config w else init_single_mode config w in
      (manager_of config made, w1)

  unfoldable pub stop_consumers : List (String × ℕ) → World → World
  stop_consumers [] w = w
  stop_consumers ((key, c) ∷ rest) w = stop_consumers rest (n.stop_consumer c w)

  -- Close
  unfoldable pub close_manager : {H : Type 0} → NsqManager H → World → World
  unfolding stop_consumers
  close_manager m w = n.stop m.producer (stop_consumers m.consumers w)

  -- The loop over the other producers.
  unfoldable pub try_others : ℕ → List ℕ → String → List ℕ → World → Bool × World
  try_others failed [] topic body w = (false, w)
  try_others failed (p ∷ ps) topic body w = elim (p == failed) [
    | true ↦ try_others failed ps topic body w
    | false ↦
        let (ok, w1) = n.publish p topic body w in
        elim ok [ true ↦ (true, w1) | false ↦ try_others failed ps topic body w1 ]
  ]

  -- `none` is a panic: an index out of range.
  unfoldable pub publish_with_load_balancing :
      {H : Type 0} → NsqManager H → String → List ℕ → World → Option (Bool × NsqManager H × World)
  unfolding try_others
  publish_with_load_balancing m topic body w =
      elim (turn_index m.current_producer (length m.producers)) [
        | none ↦ none
        | some i ↦ elim (get_elem? m.producers i) [
          | none ↦ none
          | some p ↦
              let m1 = record m { current_producer = (m.current_producer + 1) % 2 ^ 64 } in
              let (ok, w1) = n.publish p topic body w in
              if ok
              then some (true, m1, w1)
              else if m.config.failover_enabled && ltb 1 (length m.producers)
              then (let (other, w2) = try_others p m.producers topic body w1 in
                  some (other, m1, w2))
              else some (false, m1, w1)
        ]
      ]

  unfoldable pub publish :
      {H : Type 0} → NsqManager H → String → List ℕ → World → Option (Bool × NsqManager H × World)
  unfolding publish_with_load_balancing
  publish m topic body w =
      if m.cluster && (m.config.load_balancing && ltb 1 (length m.producers))
      then publish_with_load_balancing m topic body w
      else let (ok, w1) = n.publish m.producer topic body w in some (ok, m, w1)

  unfoldable pub deferred_publish :
      {H : Type 0} → NsqManager H → String → ℕ → List ℕ → World → Bool × World
  deferred_publish m topic delay body w = n.deferred_publish m.producer topic delay body w
