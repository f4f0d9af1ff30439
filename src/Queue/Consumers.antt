-- ===== src/Queue/Consumers.antt =====
-- internal/mq/nsq_core.go: Subscribe and Unsubscribe of NSQManager. Both hold the mutex throughout,
-- so that each is one step.
use Prim.Native.String.{◌++◌ as str_append}
use cogame.Base.{ℕ, String, Bool, true, false, ◌&&◌, ◌||◌, List, [], ◌∷◌, none, some, if◌then◌else◌}
use cogame.Base.Dict
use cogame.Queue.Nsq.{Nsq}
use cogame.Queue.Manager.{NsqManager}

-- fmt.Sprintf("%s_%s", topic, channel)
abbrev pub subscription_key : String → String → String
subscription_key topic channel = str_append topic (str_append "_" channel)

abbrev pub any : List String → Bool
any [] = false
any (x ∷ xs) = true

module _ (n : Nsq) where
  open n use {World}

  -- The loop over the addresses of nsqlookupd.
  unfoldable pub connect_lookups : Bool → List String → ℕ → World → Bool × World
  connect_lookups failover [] consumer w = (true, w)
  connect_lookups failover (address ∷ addresses) consumer w =
      let (ok, w1) = n.connect_lookupd consumer address w in
      elim (ok || failover) [
        | true ↦ connect_lookups failover addresses consumer w1
        | false ↦ (false, w1)
      ]

module _ (n : Nsq) {H : Type 0} where
  open n use {World}

  unfoldable pub connect_consumer : NsqManager H → ℕ → World → Bool × World
  unfolding connect_lookups
  connect_consumer m consumer w =
      if m.cluster && any m.config.nsqlookupd_addresses
      then connect_lookups n m.config.failover_enabled m.config.nsqlookupd_addresses consumer w
      else n.connect_lookupd consumer m.config.nsqlookupd_address w

  -- With whether there was no error.
  unfoldable pub subscribe :
      NsqManager H → String → String → H → World → Bool × NsqManager H × World
  unfolding connect_consumer
  subscribe m topic channel handler w =
      let key = subscription_key topic channel in
      elim (Dict.lookup key m.consumers) [
        | some other ↦ (false, m, w)
        | none ↦
            let (made, w1) = n.new_consumer topic channel w in
            elim made [
              | none ↦ (false, m, w1)
              | some consumer ↦
                  let (ok, w2) = connect_consumer m consumer w1 in
                  if ok
                  then (
                    true,
                    record m {
                      consumers = Dict.insert key consumer m.consumers;
                      handlers = Dict.insert key handler m.handlers;
                    },
                    w2,
                  )
                  else (false, m, w2)
            ]
      ]

  unfoldable pub unsubscribe : NsqManager H → String → String → World → Bool × NsqManager H × World
  unsubscribe m topic channel w =
      let key = subscription_key topic channel in
      elim (Dict.lookup key m.consumers) [
        | none ↦ (false, m, w)
        | some consumer ↦ (
          true,
          record m {
            consumers = Dict.delete key m.consumers;
            handlers = Dict.delete key m.handlers;
          },
          n.stop_consumer consumer w,
        )
      ]
