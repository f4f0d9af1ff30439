-- ===== src/Node/State.antt =====
-- internal/server/server.go: BaseServer, its start and stop and the turns of loadUpdateLoop. Of its
-- parts it has the TCP server, the actors and the registry of services; the ones of Redis, MongoDB
-- and NSQ, and the logger, are only closed.
use cogame.Base.{
  ℕ, ◌+◌, ℤ, pos, String, Bool, true, false, not, ◌||◌, [], Option, none, some, map_option,
  if◌then◌else◌,
}
use cogame.Security.Limiter.{TokenBuckets}
use cogame.Network.Server as Tcp
use cogame.Network.Server.{TcpServer}
use cogame.Actor.System.{Actors, get_actor_count, shutdown}
use cogame.Discovery.Balance.{ServiceInfo}
use cogame.Discovery.Registry.{
  Etcd, EtcdRegistry, returned, blocked, register, unregister, update_load,
}

pub data Status : Type 0 where
  initializing running stopping stopped : Status

abbrev pub is_initializing : Status → Bool
is_initializing initializing = true
is_initializing _ = false

abbrev pub is_running : Status → Bool
is_running running = true
is_running _ = false

module _ (t : Etcd) (b : TokenBuckets) where
  -- `listening`: the port of gRPC is taken by this process. `stops` are the goroutines that are about
  -- to call Stop.
  pub record BaseServer : Type 0 where
    pub node_id : String
    pub node_type : String
    pub rpc_port : ℤ
    pub status : Status
    pub registry : EtcdRegistry t
    pub tcp_server : Option (TcpServer b)
    pub actors : Option Actors
    pub listening : Bool
    pub stops : ℕ

  -- A call returns, with whether there was no error, or waits for ever in a state.
  pub data Result : Type 0 where
    returns : Bool → BaseServer → Result
    waits : BaseServer → Result

  unfoldable pub calculate_load : BaseServer → ℕ
  calculate_load s =
      (elim s.tcp_server [ none ↦ 0 | some tcp ↦ Tcp.get_connection_count b tcp ])
      + (elim s.actors [ none ↦ 0 | some actors ↦ get_actor_count actors ])

  abbrev pub service_info : ℕ → BaseServer → ServiceInfo
  service_info now s = record {
    node_id = s.node_id;
    node_type = s.node_type;
    address = "127.0.0.1";
    port = s.rpc_port;
    load = pos 0;
    status = "online";
    metadata = [];
    update_time = now;
  }

  -- Start from the registration on.
  unfoldable pub register_service : ℕ → BaseServer → Result
  register_service now s = elim (register t now (service_info now s) s.registry) [
    | blocked ↦ waits s
    | returned ok r ↦
        if ok
        then returns true (record s { registry = r; status = running })
        else returns false (record s { registry = r })
  ]

  -- `free`: no other process has the port.
  unfoldable pub start : Bool → ℕ → BaseServer → Result
  unfolding register_service
  start free now s =
      if not (is_initializing s.status)
      then returns false s
      else if s.listening || not free
      then returns false s
      else register_service now (record s { listening = true })

  -- What Stop does before it comes to the registry. GracefulStop closes the port.
  unfoldable pub stop_parts : BaseServer → BaseServer
  stop_parts s = record s {
    status = stopping;
    tcp_server = map_option (Tcp.stop b) s.tcp_server;
    actors = map_option (λ actors. (shutdown actors).1) s.actors;
    listening = false;
  }

  -- The errors of Unregister are ignored.
  unfoldable pub stop : BaseServer → Result
  unfolding stop_parts
  stop s =
      if not (is_running s.status)
      then returns true s
      else let s1 = stop_parts s in
        elim (unregister t s1.node_id s1.registry) [
          | blocked ↦ waits s1
          | returned ok r ↦ returns true (record s1 { registry = r; status = stopped })
        ]

  -- A turn of loadUpdateLoop. An UpdateLoad that does not return keeps the lock, or waits for it.
  unfoldable pub update_own_load : ℕ → BaseServer → Result
  unfolding calculate_load
  update_own_load now s = elim (update_load t now s.node_id (pos (calculate_load s)) s.registry) [
    | blocked ↦ waits (record s { registry = record (s.registry) { locked = true } })
    | returned ok r ↦ returns ok (record s { registry = r })
  ]
