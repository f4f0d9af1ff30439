-- ===== src/Node/System.antt =====
-- internal/server/system_service.go and RegisterCommonServices of server.go: the commands that
-- nodes send one another.
use cogame.Base.{ℕ, suc, String, Bool, true, none, some}
use cogame.Security.Limiter.{TokenBuckets}
use cogame.Discovery.Registry.{Etcd}
use cogame.Node.State.{BaseServer, returns, waits, update_own_load}
use cogame.Queue.Nsq.{Nsq}
use cogame.Queue.Manager.{NsqManager}
use cogame.Queue.Messages.{
  SystemMessage, SystemMessageHandler, Handler, new_system_message_handler, register_handler,
  subscribe_system_messages,
}

module _ (t : Etcd) (b : TokenBuckets) where
  -- The times of the calls come from the messages' receipt.
  unfoldable pub handle_reload_config : Handler SystemMessage (BaseServer t b)
  handle_reload_config msg s = (some true, s)

  unfoldable pub handle_update_load : ℕ → Handler SystemMessage (BaseServer t b)
  handle_update_load now msg s = elim (update_own_load t b now s) [
    | returns ok s1 ↦ (some ok, s1)
    | waits s1 ↦ (none, s1)
  ]

  -- Stop is called by a goroutine a second later.
  unfoldable pub handle_shutdown : Handler SystemMessage (BaseServer t b)
  handle_shutdown msg s = (some true, record s { stops = suc s.stops })

  -- Each kind of update only logs.
  unfoldable pub handle_hot_update : Handler SystemMessage (BaseServer t b)
  handle_hot_update msg s = (some true, s)

  -- The handlers of RegisterCommonServices.
  unfoldable pub common_handlers : ℕ → String → SystemMessageHandler (BaseServer t b)
  unfolding handle_reload_config handle_update_load handle_shutdown handle_hot_update
      new_system_message_handler register_handler
  common_handlers now node_id = register_handler "hot_update" handle_hot_update (
      register_handler "shutdown" handle_shutdown (
        register_handler "update_load" (handle_update_load now) (
          register_handler "reload_config" handle_reload_config
            (new_system_message_handler node_id))))

  unfoldable pub register_common_services :
      (n : Nsq)
      → ℕ
      → BaseServer t b
      → NsqManager (SystemMessageHandler (BaseServer t b))
      → n.World
      → Bool × NsqManager (SystemMessageHandler (BaseServer t b)) × n.World
  unfolding common_handlers
  register_common_services n now s m w =
      subscribe_system_messages n s.node_id (common_handlers now s.node_id) m w
