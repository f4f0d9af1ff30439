-- ===== src/Center/Delivery.antt =====
-- What the commands of internal/server/center_server.go do to the nodes that they reach.
use mathlib.Core.List.{append-nil, append_assoc}
use cogame.Base.{
  ℕ, suc, ◌+◌, pos, String, str_eq, Bool, true, false, not, ◌&&◌, List, [], ◌∷◌, ◌++◌, Option, none,
  some, length, ◌≡◌, refl, sym, ap, ◌∙◌, arith, if◌then◌else◌, Bool-cases, inl, inr,
}
use cogame.Base.Dict
use cogame.Security.Limiter.{TokenBuckets}
use cogame.Discovery.Balance.{ServiceInfo}
use cogame.Discovery.Registry.{Etcd, EtcdRegistry, get_services}
use cogame.Queue.Nsq.{Nsq, NsqLaws}
use cogame.Queue.Manager.{NsqManager, publish}
use cogame.Queue.Messages.{
  Items, SystemMessage, MessageCodec, MessageCodecLaws, new_system_message, handle_system_message,
  handle_system_bytes, send_to_node, publish_system_message, publish_json,
}
use cogame.Node.State.{BaseServer}
use cogame.Node.System.{common_handlers, handle_shutdown}
use cogame.Center.Services.{updated_within, node_types}
use cogame.Center.Commands.{
  ServiceOperationRequest, CommonResponse, succeeded, send_to_all, command_services,
  services_with_id, operate_service, shutdown_service,
}

module _ (t : Etcd) (b : TokenBuckets) (j : MessageCodec) (l : MessageCodecLaws j) where
  -- What a node does with a message that another sent: the handler of its command, if it is one of
  -- the node's.
  handled :
      (now later : ℕ) (kind target command node_id : String) (args : Items) (bytes : List ℕ)
      (s : BaseServer t b)
      → j.marshal_system (new_system_message now kind target command args) ≡ some bytes
      → (m : SystemMessage) × (m.target ≡ target)
        × (m.command ≡ command)
        × (handle_system_bytes j (common_handlers t b later node_id) bytes s
            ≡ handle_system_message (common_handlers t b later node_id) m s)
  unfolding handle_system_bytes new_system_message
  handled now later kind target command node_id args bytes s e =
      let (m, read, same, named) = l.marshal_unmarshal _ bytes e in
      (m, same, named, rw (read, handle_system_bytes) refl)

  -- The shutdown that is sent to a node makes it, and no other node, call Stop.
  pub shutdown_reaches_target :
      (now later : ℕ) (target node_id : String) (args : Items) (bytes : List ℕ) (s : BaseServer t b)
      → str_eq target "" ≡ false
      → j.marshal_system (new_system_message now "unicast" target "shutdown" args) ≡ some bytes
      → handle_system_bytes j (common_handlers t b later node_id) bytes s
        ≡ (some true, if str_eq target node_id then record s { stops = suc s.stops } else s)
  unfolding handle_system_message common_handlers handle_shutdown Dict.lookup Dict.insert
  shutdown_reaches_target now later target node_id args bytes s named e =
      let (m, same, command, done) =
        handled now later "unicast" target "shutdown" node_id args bytes s e in
      done
      ∙ rw (same, command)
          (elim (Bool-cases (str_eq target node_id)) [
            | inl mine ↦ rw (named, mine) refl
            | inr other ↦ rw (named, other) refl
          ])

  -- A restart does nothing to any node, whichever it is sent to: no node has a handler for it.
  pub restart_ignored :
      (now later : ℕ) (target node_id : String) (args : Items) (bytes : List ℕ) (s : BaseServer t b)
      → j.marshal_system (new_system_message now "unicast" target "restart" args) ≡ some bytes
      → handle_system_bytes j (common_handlers t b later node_id) bytes s ≡ (some true, s)
  unfolding handle_system_message common_handlers Dict.lookup Dict.insert
  restart_ignored now later target node_id args bytes s e =
      let (m, same, command, done) =
        handled now later "unicast" target "restart" node_id args bytes s e in
      done
      ∙ rw (same, command)
          (elim (Bool-cases (not (str_eq target "") && not (str_eq target node_id))) [
            | inl skipped ↦ rw skipped refl
            | inr taken ↦ rw taken refl
          ])

-- How many services were updated lately enough to be sent a command.
abbrev pub count_updated : ℕ → List ServiceInfo → ℕ
count_updated now [] = 0
count_updated now (s ∷ ss) = (if updated_within 120 now s then 1 else 0) + count_updated now ss

-- The services that a request names, by id or else by type; `none` is an error of the registry.
abbrev pub targets :
    (t : Etcd) → ServiceOperationRequest → EtcdRegistry t → Option (List ServiceInfo)
targets t req r =
    if str_eq req.service_id ""
    then get_services t req.service_type r
    else some (services_with_id t req.service_id node_types r)

-- One call of Publish for each that was sent the command, whatever the calls gave.
module _ (n : Nsq) (l : NsqLaws n) (j : MessageCodec) {H : Type 0} where
  open n use {World}
  open l use {attempts}

  send_to_node-attempts :
      (now : ℕ) (target command : String) (args : Items) (m : NsqManager H) (w : World)
      → m.cluster ≡ false
      → (bytes : List ℕ)
      → j.marshal_system (new_system_message now "unicast" target command args) ≡ some bytes
      → (ok : Bool) × (w1 : World) × (send_to_node n j now target command args m w
          ≡ some (ok, m, w1))
        × (attempts w1 ≡ attempts w ++ ((m.producer, ok) ∷ []))
  unfolding send_to_node publish_system_message publish_json publish
  send_to_node-attempts now target command args m w single bytes e =
      let sent = n.publish m.producer "system_messages" bytes w in
      (
        sent.0,
        sent.1,
        simp (e, single, send_to_node),
        l.attempts-publish m.producer "system_messages" bytes w,
      )

  -- The calls that a command makes of the producer.
  abbrev pub Sent :
      List ServiceInfo → ℕ → NsqManager H → World → Option (ℕ × NsqManager H × World) → Type 0
  Sent ss now m w none = ⊥
  Sent ss now m w (some (count, m1, w1)) =
      (count ≡ count_updated now ss)
      × (m1 ≡ m)
      × (calls : List (ℕ × Bool)) × (attempts w1 ≡ attempts w ++ calls)
      × (length calls ≡ count)

  one_more-Sent :
      (s : ServiceInfo) (ss : List ServiceInfo) (now : ℕ) (m : NsqManager H) (w w1 : World)
      (ok : Bool) (rest : Option (ℕ × NsqManager H × World))
      → updated_within 120 now s ≡ true
      → attempts w1 ≡ attempts w ++ ((m.producer, ok) ∷ [])
      → Sent ss now m w1 rest
      → Sent
          (s ∷ ss)
          now
          m
          w
          (elim rest [ none ↦ none | some (count, m2, w2) ↦ some (suc count, m2, w2) ])
  one_more-Sent s ss now m w w1 ok none up logged h = absurd h
  one_more-Sent s ss now m w w1 ok (some (count, m2, w2)) up logged
        (counted, same, calls, more, sized) =
      (
        ground (arith, up, counted),
        same,
        (m.producer, ok) ∷ calls,
        more
            ∙ ap (λ k. k ++ calls) logged
            ∙ append_assoc (attempts w) ((m.producer, ok) ∷ []) calls,
        ap suc sized,
      )

  skipped-Sent :
      (s : ServiceInfo) (ss : List ServiceInfo) (now : ℕ) (m : NsqManager H) (w : World)
      (rest : Option (ℕ × NsqManager H × World))
      → updated_within 120 now s ≡ false
      → Sent ss now m w rest
      → Sent (s ∷ ss) now m w rest
  skipped-Sent s ss now m w none old h = h
  skipped-Sent s ss now m w (some (count, m1, w1)) old (counted, same, calls, more, sized) =
      (ground (arith, old, counted), same, calls, more, sized)

  send_to_all-Sent :
      (t : Etcd) (now : ℕ) (command : String) (args : Items) (m : NsqManager H)
      → m.cluster ≡ false
      → ((msg : SystemMessage) → (bytes : List ℕ) × (j.marshal_system msg ≡ some bytes))
      → (ss : List ServiceInfo) (w : World)
      → Sent ss now m w (send_to_all t n j 120 now command args ss m w)
  unfolding send_to_all
  send_to_all-Sent t now command args m single writes [] w =
      (refl, refl, [], sym (append-nil (attempts w)), refl)
  send_to_all-Sent t now command args m single writes (s ∷ ss) w =
      elim (Bool-cases (updated_within 120 now s)) [
        | inr old ↦
            rw (old, send_to_all)
              (skipped-Sent s ss now m w _ old
                (send_to_all-Sent t now command args m single writes ss w))
        | inl new ↦
            let (bytes, e) = writes (new_system_message now "unicast" s.node_id command args) in
            let (ok, w1, sent, logged) =
              send_to_node-attempts now s.node_id command args m w single bytes e in
            rw (new, send_to_all, sent)
              (one_more-Sent s ss now m w w1 ok _ new logged
                (send_to_all-Sent t now command args m single writes ss w1))
      ]

  -- A single producer is called once for each target.
  abbrev pub Commanded :
      List ServiceInfo
      → ℕ
      → NsqManager H
      → World
      → Option (CommonResponse × NsqManager H × World)
      → Type 0
  Commanded ss now m w none = ⊥
  Commanded ss now m w (some (response, m1, w1)) =
      (response ≡ succeeded (pos (count_updated now ss)))
      × (m1 ≡ m)
      × (calls : List (ℕ × Bool)) × (attempts w1 ≡ attempts w ++ calls)
      × (length calls ≡ count_updated now ss)

  sent-Commanded :
      (ss : List ServiceInfo) (now : ℕ) (m : NsqManager H) (w : World)
      (sent : Option (ℕ × NsqManager H × World))
      → Sent ss now m w sent
      → Commanded ss now m w
          (elim sent [ none ↦ none | some (count, m1, w1) ↦ some (succeeded (pos count), m1, w1) ])
  sent-Commanded ss now m w none h = h
  sent-Commanded ss now m w (some (count, m1, w1)) (counted, same, calls, more, sized) =
      (ap (λ k. succeeded (pos k)) counted, same, calls, more, sized ∙ counted)

  -- Over a single producer, ShutdownService of a request that names services which are there never
  -- panics. It calls Publish once for each of them that was updated in the last 120 seconds, and
  -- answers with the number of these calls as the commands sent, whether or not they had errors.
  pub shutdown_service-Commanded :
      (t : Etcd) (now : ℕ) (req : ServiceOperationRequest) (r : EtcdRegistry t) (m : NsqManager H)
      (w : World) (s : ServiceInfo) (ss : List ServiceInfo)
      → m.cluster ≡ false
      → ((msg : SystemMessage) → (bytes : List ℕ) × (j.marshal_system msg ≡ some bytes))
      → (str_eq req.service_id "" && str_eq req.service_type "") ≡ false
      → targets t req r ≡ some (s ∷ ss)
      → Commanded (s ∷ ss) now m w (shutdown_service t n j now req r m w)
  unfolding shutdown_service operate_service command_services
  shutdown_service-Commanded t now req r m w s ss single writes full found =
      let all = λ (args : Items).
        sent-Commanded (s ∷ ss) now m w _
          (send_to_all-Sent t now "shutdown" args m single writes (s ∷ ss) w) in
      elim (Bool-cases (str_eq req.service_id "")) [
        | inl by_type ↦
            (let there : get_services t req.service_type r ≡ some (s ∷ ss) =
                ground (arith, found, by_type) in
              let full' : str_eq req.service_type "" ≡ false = ground (arith, full, by_type) in
              simp (by_type, full', there, shutdown_service) (all _))
        | inr by_id ↦
            (let there : services_with_id t req.service_id node_types r ≡ s ∷ ss =
                ground (arith, found, by_id) in
              simp (by_id, there, shutdown_service) (all _))
      ]
