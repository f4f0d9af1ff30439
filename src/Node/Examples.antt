-- ===== src/Node/Examples.antt =====
-- Runs of the servers of internal/server/server.go with a registry in memory.
use cogame.Base.{pos, true, false, [], ◌∷◌, none, some, ◌≡◌, refl}
use cogame.Base.Dict
use cogame.Discovery.Registry.{Etcd, EtcdRegistry, register}
use cogame.Discovery.Examples.{plain_etcd, empty_registry}
use cogame.Security.Examples.{counting}
use cogame.Node.State.{
  BaseServer, returns, waits, initializing, running, stopping, start, stop, stop_parts,
  update_own_load, service_info,
}
use cogame.Node.Lifecycle.{stop_waits}

abbrev pub new_server : BaseServer plain_etcd counting
new_server = record {
  node_id = "lobby1";
  node_type = "lobby";
  rpc_port = pos 9020;
  status = initializing;
  registry = empty_registry;
  tcp_server = none;
  actors = some [];
  listening = false;
  stops = 0;
}

abbrev registered : EtcdRegistry plain_etcd
registered = record {
  services = ("lobby1", service_info plain_etcd counting 9 new_server) ∷ [];
  store = ("/lufy/services/lobby/lobby1", "lobby1") ∷ [];
  locked = false;
}

abbrev pub started : BaseServer plain_etcd counting
started = record new_server { registry = registered; status = running; listening = true }

new_server-start : start plain_etcd counting true 9 new_server ≡ returns true started
unfolding start register Dict.insert
new_server-start = refl

stop_waits_example :
    (s : BaseServer plain_etcd counting) × (update_own_load plain_etcd counting 39 started
      ≡ waits s)
    × (stop plain_etcd counting s ≡ waits (stop_parts plain_etcd counting s))
    × ((stop_parts plain_etcd counting s).status ≡ stopping)
stop_waits_example = stop_waits plain_etcd counting true 9 39 new_server started new_server-start

-- An etcd that cannot be written.
abbrev read_only_etcd : Etcd
read_only_etcd = record plain_etcd { put = λ key value store. none }
