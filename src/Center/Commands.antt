-- ===== src/Center/Commands.antt =====
-- internal/server/center_server.go: BroadcastMessage, ShutdownService and RestartService. Each asks
-- the time once; the answers are kept as their codes and the number in their data.
use cogame.Base.{
  ℕ, suc, ◌+◌, ℤ, pos, neg, String, str_eq, true, false, ◌&&◌, List, [], ◌∷◌, ◌++◌, Option, none,
  some, if◌then◌else◌,
}
use cogame.Discovery.Balance.{ServiceInfo}
use cogame.Discovery.Registry.{Etcd, EtcdRegistry, get_services}
use cogame.Queue.Nsq.{Nsq}
use cogame.Queue.Manager.{NsqManager}
use cogame.Queue.Messages.{
  text, number, Items, MessageCodec, send_to_node, broadcast_system_message,
}
use cogame.Center.Services.{node_types, updated_within}

pub record BroadcastMessageRequest : Type 0 where
  pub message_type : String
  pub content : String
  pub target_services : List String

pub record ServiceOperationRequest : Type 0 where
  pub service_id : String
  pub service_type : String

-- `target_count` is what the data of an answer without an error says.
pub record CommonResponse : Type 0 where
  pub code : ℤ
  pub target_count : Option ℤ

abbrev pub failed : ℤ → CommonResponse
failed code = record { code = code; target_count = none }

abbrev pub succeeded : ℤ → CommonResponse
succeeded count = record { code = pos 0; target_count = some count }

-- The first service with this id, as a list.
unfoldable pub first_with_id : String → List ServiceInfo → List ServiceInfo
first_with_id id [] = []
first_with_id id (s ∷ ss) = if str_eq s.node_id id then s ∷ [] else first_with_id id ss

abbrev pub broadcast_items : ℕ → BroadcastMessageRequest → Items
broadcast_items now req =
    ("type", text req.message_type)
    ∷ ("content", text req.content)
    ∷ ("timestamp", number (pos now))
    ∷ ("from", text "center_server")
    ∷ []

module _ (t : Etcd) where
  unfoldable pub services_with_id : String → List String → EtcdRegistry t → List ServiceInfo
  unfolding first_with_id
  services_with_id id [] r = []
  services_with_id id (node_type ∷ types) r =
      let rest = services_with_id id types r in
      elim (get_services t node_type r) [
        | none ↦ rest
        | some services ↦ first_with_id id services ++ rest
      ]

module _ (t : Etcd) (n : Nsq) (j : MessageCodec) {H : Type 0} where
  open n use {World}

  -- SendToNode to those that were updated within `limit` seconds, whatever error it has; the count,
  -- and `none` where it panics.
  unfoldable pub send_to_all :
      ℕ
      → ℕ
      → String
      → Items
      → List ServiceInfo
      → NsqManager H
      → World
      → Option (ℕ × NsqManager H × World)
  send_to_all limit now command args [] m w = some (0, m, w)
  send_to_all limit now command args (s ∷ ss) m w = elim (updated_within limit now s) [
    | false ↦ send_to_all limit now command args ss m w
    | true ↦ elim (send_to_node n j now s.node_id command args m w) [
      | none ↦ none
      | some (ok, m1, w1) ↦ elim (send_to_all limit now command args ss m1 w1) [
        | none ↦ none
        | some (count, m2, w2) ↦ some (suc count, m2, w2)
      ]
    ]
  ]

  -- The loop of BroadcastMessage over the types.
  unfoldable pub send_to_types :
      ℕ
      → String
      → Items
      → List String
      → EtcdRegistry t
      → NsqManager H
      → World
      → Option (ℕ × NsqManager H × World)
  unfolding send_to_all
  send_to_types now command args [] r m w = some (0, m, w)
  send_to_types now command args (node_type ∷ types) r m w = elim (get_services t node_type r) [
    | none ↦ send_to_types now command args types r m w
    | some services ↦ elim (send_to_all 60 now command args services m w) [
      | none ↦ none
      | some (count, m1, w1) ↦ elim (send_to_types now command args types r m1 w1) [
        | none ↦ none
        | some (more, m2, w2) ↦ some (count + more, m2, w2)
      ]
    ]
  ]

  -- -1 stands for all nodes.
  unfoldable pub broadcast_message :
      ℕ
      → BroadcastMessageRequest
      → EtcdRegistry t
      → NsqManager H
      → World
      → Option (CommonResponse × NsqManager H × World)
  unfolding send_to_types
  broadcast_message now req r m w =
      if str_eq req.message_type ""
      then some (failed (pos 1001), m, w)
      else if str_eq req.content ""
      then some (failed (pos 1002), m, w)
      else elim req.target_services [
        | [] ↦
            elim (broadcast_system_message n j now req.message_type (broadcast_items now req) m w) [
              | none ↦ none
              | some (ok, m1, w1) ↦ some (succeeded (neg 1), m1, w1)
            ]
        | first ∷ more ↦
            elim (send_to_types now req.message_type (broadcast_items now req) (first ∷ more) r m
              w) [ none ↦ none | some (count, m1, w1) ↦ some (succeeded (pos count), m1, w1) ]
      ]

  -- From the targets on.
  unfoldable pub command_services :
      ℕ
      → String
      → Items
      → List ServiceInfo
      → NsqManager H
      → World
      → Option (CommonResponse × NsqManager H × World)
  unfolding send_to_all
  command_services now command args [] m w = some (failed (pos 1003), m, w)
  command_services now command args (s ∷ ss) m w =
      elim (send_to_all 120 now command args (s ∷ ss) m w) [
        | none ↦ none
        | some (count, m1, w1) ↦ some (succeeded (pos count), m1, w1)
      ]

  -- The bodies of ShutdownService and RestartService, which differ in the command and its reason.
  unfoldable pub operate_service :
      ℕ
      → String
      → String
      → ServiceOperationRequest
      → EtcdRegistry t
      → NsqManager H
      → World
      → Option (CommonResponse × NsqManager H × World)
  unfolding command_services services_with_id
  operate_service now command reason req r m w =
      let args : Items = ("reason", text reason) ∷ ("timestamp", number (pos now)) ∷ [] in
      if str_eq req.service_id "" && str_eq req.service_type ""
      then some (failed (pos 1001), m, w)
      else if str_eq req.service_id ""
      then (elim (get_services t req.service_type r) [
        | none ↦ some (failed (pos 1002), m, w)
        | some services ↦ command_services now command args services m w
      ])
      else command_services now command args (services_with_id t req.service_id node_types r) m w

  unfoldable pub shutdown_service :
      ℕ
      → ServiceOperationRequest
      → EtcdRegistry t
      → NsqManager H
      → World
      → Option (CommonResponse × NsqManager H × World)
  unfolding operate_service
  shutdown_service now req r m w = operate_service now "shutdown" "管理员关闭" req r m w

  unfoldable pub restart_service :
      ℕ
      → ServiceOperationRequest
      → EtcdRegistry t
      → NsqManager H
      → World
      → Option (CommonResponse × NsqManager H × World)
  unfolding operate_service
  restart_service now req r m w = operate_service now "restart" "管理员重启" req r m w
