-- ===== src/Center/Examples.antt =====
-- Runs of the center service of internal/server/center_server.go.
use cogame.Base.{
  ℕ, ◌==◌, ◌%◌, ◌^◌, String, str_eq, eq_iff, true, false, ◌&&◌, List, [], ◌∷◌, none, some, length,
  ◌≡◌, refl, arith, if◌then◌else◌, Bool-cases, inl, inr,
}
use cogame.Base.Dict
use cogame.Discovery.Registry.{get_services}
use cogame.Discovery.Examples.{plain_etcd, full_registry, lobby}
use cogame.Queue.Manager.{NsqManager, started_with}
use cogame.Queue.Messages.{SystemMessage, MessageCodec, MessageCodecLaws}
use cogame.Queue.Examples.{memory_nsq, memory_laws, Memory}
use cogame.Center.Services.{get_service_list, get_cluster_status}
use cogame.Center.Counts.{
  count_if, is_online, is_online_of, stat_of, get_cluster_status-get_service_list,
}
use cogame.Center.Commands.{ServiceOperationRequest, shutdown_service}
use cogame.Center.Delivery.{Commanded, shutdown_service-Commanded}

get_cluster_status-get_service_list_example :
    ((get_cluster_status plain_etcd 50 full_registry).total_services
      ≡ length (get_service_list plain_etcd 50 full_registry).services % 2 ^ 32)
    × ((get_cluster_status plain_etcd 50 full_registry).online_services
        ≡ count_if is_online (get_service_list plain_etcd 50 full_registry).services % 2 ^ 32)
    × ((key : String)
        → stat_of key (get_cluster_status plain_etcd 50 full_registry).service_stats
          ≡ count_if (is_online_of key) (get_service_list plain_etcd 50 full_registry).services
            % 2 ^ 32)
get_cluster_status-get_service_list_example =
    get_cluster_status-get_service_list plain_etcd 50 full_registry

abbrev read_as : String → SystemMessage
read_as command = record {
  kind = "unicast";
  target = "lobby1";
  command = command;
  args = [];
  timestamp = 0;
}

-- A codec of two commands to one node.
abbrev two_commands : MessageCodec
two_commands = record {
  marshal_system = λ m.
      if str_eq m.target "lobby1" && str_eq m.command "shutdown"
      then some (1 ∷ [])
      else if str_eq m.target "lobby1" && str_eq m.command "restart"
      then some (2 ∷ [])
      else none;
  marshal_game = λ m. none;
  marshal_chat = λ m. none;
  unmarshal_system = λ bytes. elim bytes [
    | [] ↦ none
    | b ∷ bs ↦ some (read_as (if b == 1 then "shutdown" else "restart"))
  ];
  unmarshal_game = λ bytes. none;
  unmarshal_chat = λ bytes. none;
}

two_commands_read :
    (m : SystemMessage) (bytes : List ℕ)
    → two_commands.marshal_system m ≡ some bytes
    → (m' : SystemMessage) × (two_commands.unmarshal_system bytes ≡ some m')
      × (m'.target ≡ m.target)
      × (m'.command ≡ m.command)
two_commands_read m bytes e =
    elim (Bool-cases (str_eq m.target "lobby1" && str_eq m.command "shutdown")) [
      | inl down ↦ (
        read_as "shutdown",
        ground (arith, e, down),
        ground (arith, down, eq_iff m.target "lobby1"),
        ground (arith, down, eq_iff m.command "shutdown"),
      )
      | inr not_down ↦ (
        read_as "restart",
        ground (arith, e, not_down),
        ground (arith, e, not_down, eq_iff m.target "lobby1"),
        ground (arith, e, not_down, eq_iff m.command "restart"),
      )
    ]

two_commands_laws : MessageCodecLaws two_commands
two_commands_laws = record { marshal_unmarshal = two_commands_read }

-- A codec of which only the writing is used.
abbrev empty_texts : MessageCodec
empty_texts = record two_commands { marshal_system = λ m. some [] }

abbrev one_producer : NsqManager ℕ
one_producer =
    started_with
      (record {
        nsqd_address = "a:4150";
        nsqlookupd_address = "a:4161";
        cluster_mode = false;
        nsqd_addresses = [];
        nsqlookupd_addresses = [];
        load_balancing = false;
        failover_enabled = false;
      })
      0 (0 ∷ [])

abbrev one_runs : Memory
one_runs = record { producers = true ∷ []; log = [] }

abbrev lobbies : ServiceOperationRequest
lobbies = record { service_id = ""; service_type = "lobby" }

-- The Publish fails, and the answer says that one command was sent.
shutdown_service-Commanded_example :
    Commanded memory_nsq memory_laws empty_texts (lobby "a" 0 ∷ []) 50 one_producer one_runs (
      shutdown_service plain_etcd memory_nsq empty_texts 50 lobbies full_registry one_producer
        one_runs)
unfolding get_services Dict.insert
shutdown_service-Commanded_example =
    shutdown_service-Commanded memory_nsq memory_laws empty_texts plain_etcd 50 lobbies
      full_registry one_producer one_runs (lobby "a" 0) [] refl (λ m. ([], refl)) refl refl
