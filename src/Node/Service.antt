-- ===== src/Node/Service.antt =====
-- internal/server/system_service.go: the gRPC methods of SystemService. The protobuf library, the
-- numbers of the Go runtime and the texts of two messages are parameters.
use cogame.Base.{
  int32, ℕ, suc, ◌-◌, ◌%◌, ◌^◌, ℤ, pos, negsuc, neg, String, Bool, true, false, List, [], Option,
  none, some,
}
use cogame.Security.Limiter.{TokenBuckets}
use cogame.Network.Server as Tcp
use cogame.Actor.System.{get_actor_count}
use cogame.Discovery.Registry.{Etcd}
use cogame.Node.State.{
  BaseServer, Status, initializing, running, stopping, stopped, is_running, calculate_load, returns,
  waits, update_own_load,
}

pub record NodeInfo : Type 0 where
  pub node_id : String
  pub node_type : String
  pub address : String
  pub port : ℤ
  pub online : Bool
  pub load : ℤ
  pub update_time : ℕ

pub record MemoryStats : Type 0 where
  pub alloc : ℕ
  pub total_alloc : ℕ
  pub sys : ℕ
  pub num_gc : ℕ

-- The statistics of the pools are always empty.
pub record ServerStats : Type 0 where
  pub node_id : String
  pub node_type : String
  pub status : String
  pub connections : ℤ
  pub actor_count : ℤ
  pub load : ℤ
  pub goroutines : ℤ
  pub memory : MemoryStats

pub record BaseResponse (H : Type 0) : Type 0 where
  pub header : Option H
  pub code : ℤ
  pub msg : String
  pub content : List ℕ

-- `H` is the header of a request.
pub record SystemCodec : Type 1 where
  pub H : Type 0
  pub marshal_node_info : NodeInfo → Option (List ℕ)
  pub marshal_server_stats : ServerStats → Option (List ℕ)
  pub marshal_response : BaseResponse H → Option (List ℕ)
  pub load_updated : ℕ → String
  pub update_load_failed : String

-- int32 of an int.
abbrev pub int32_of : ℤ → ℤ
int32_of (pos n) = int32 n
int32_of (negsuc n) = int32 (2 ^ 32 - 1 - n % 2 ^ 32)

abbrev pub status_text : Status → String
status_text initializing = "initializing"
status_text running = "running"
status_text stopping = "stopping"
status_text stopped = "stopped"

module _ (t : Etcd) (b : TokenBuckets) (p : SystemCodec) where
  open p use {H}

  -- A call answers, gives the error alone, or waits for ever.
  pub data Answer : Type 0 where
    responds : BaseResponse H → BaseServer t b → Answer
    fails : BaseServer t b → Answer
    hangs : BaseServer t b → Answer

  -- The answer with what was marshalled.
  abbrev pub with_content : Option H → String → Option (List ℕ) → BaseServer t b → Answer
  with_content header msg none s = fails s
  with_content header msg (some bytes) s =
      responds (record { header = header; code = pos 0; msg = msg; content = bytes }) s

  abbrev pub plain_response : Option H → ℤ → String → BaseResponse H
  plain_response header code msg = record { header = header; code = code; msg = msg; content = [] }

  unfoldable pub node_info : ℕ → BaseServer t b → NodeInfo
  node_info now s = record {
    node_id = s.node_id;
    node_type = s.node_type;
    address = "0.0.0.0";
    port = int32_of s.rpc_port;
    online = is_running s.status;
    load = int32 (calculate_load t b s);
    update_time = now % 2 ^ 32;
  }

  unfoldable pub get_server_info : ℕ → Option H → BaseServer t b → Answer
  unfolding node_info
  get_server_info now header s =
      with_content header "success" (p.marshal_node_info (node_info now s)) s

  -- A part that the server does not have counts 0.
  unfoldable pub server_stats : ℕ → MemoryStats → BaseServer t b → ServerStats
  server_stats goroutines memory s = record {
    node_id = s.node_id;
    node_type = s.node_type;
    status = status_text s.status;
    connections = elim s.tcp_server [
      | none ↦ pos 0
      | some tcp ↦ int32 (Tcp.get_connection_count b tcp)
    ];
    actor_count = elim s.actors [ none ↦ pos 0 | some actors ↦ int32 (get_actor_count actors) ];
    load = int32 (calculate_load t b s);
    goroutines = int32 goroutines;
    memory = memory;
  }

  unfoldable pub get_server_stats : ℕ → MemoryStats → Option H → BaseServer t b → Answer
  unfolding server_stats
  get_server_stats goroutines memory header s =
      with_content header "success" (p.marshal_server_stats (server_stats goroutines memory s)) s

  unfoldable pub reload_config : Option H → BaseServer t b → Answer
  reload_config header s = responds (plain_response header (pos 0) "config reloaded--todo") s

  unfoldable pub grpc_update_load : ℕ → Option H → BaseServer t b → Answer
  grpc_update_load now header s = elim (update_own_load t b now s) [
    | waits s1 ↦ hangs s1
    | returns ok s1 ↦ elim ok [
      | true ↦ responds (plain_response header (pos 0) (p.load_updated (calculate_load t b s))) s1
      | false ↦ responds (plain_response header (neg 1) p.update_load_failed) s1
    ]
  ]

  -- Stop is called by a goroutine a second later.
  unfoldable pub grpc_shutdown : Option H → BaseServer t b → Answer
  grpc_shutdown header s =
      responds (plain_response header (pos 0) "Shutdown instruction executed")
        (record s { stops = suc s.stops })

  unfoldable pub get_actor_stats : Option H → BaseServer t b → Answer
  get_actor_stats header s = elim s.actors [
    | none ↦ responds (plain_response header (neg 1) "Actor系统未初始化") s
    | some actors ↦
        with_content header "success--todo"
          (p.marshal_response (plain_response header (pos 0) "success--todo")) s
  ]

  unfoldable pub get_pool_stats : Option H → BaseServer t b → Answer
  get_pool_stats header s =
      with_content header "success--todo"
        (p.marshal_response (plain_response header (pos 0) "success--todo")) s
