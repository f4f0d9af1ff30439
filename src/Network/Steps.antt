-- ===== src/Network/Steps.antt =====
-- What the goroutines of a TCPServer of internal/network/tcp_server.go do, one step at a time.
use cogame.Base.{ℕ, ◌+◌, ◌^◌, ◌<◌, String, List, Option, none, some, lookup, insert, ◌≡◌}
use cogame.Security.Limiter.{TokenBuckets}
use cogame.Pool.Generic.{GenericPool}
use cogame.Network.Connection.{Wire, Connection}
use cogame.Network.Server.{
  incoming_wire, TcpServer, refused, stored, waits, bind_connection, accept, finish_connection,
  heartbeat, stop, broadcast,
}

module _ (t : TokenBuckets) where
  open t use {Rate}

  -- One thing that a goroutine does: acceptLoop, a connection that changes or ends, a tick, Stop.
  pub data Step : TcpServer t → Option (ℕ × Wire) → TcpServer t → Option (ℕ × Wire) → Type 0 where
    refuses :
        (s s' : TcpServer t) (rate : Rate) (now : ℕ) (ip : Option String) (w : Wire)
        → s.conn_counter + 1 < 2 ^ 64
        → accept t rate now (incoming_wire ip w) s ≡ refused s'
        → Step s none s' none
    stores :
        (s s' : TcpServer t) (rate : Rate) (now : ℕ) (ip : Option String) (w : Wire)
        → s.conn_counter + 1 < 2 ^ 64
        → accept t rate now (incoming_wire ip w) s ≡ stored s'
        → Step s none s' none
    starts_wait :
        (s s' : TcpServer t) (rate : Rate) (now id : ℕ) (ip : Option String) (w : Wire)
        → s.conn_counter + 1 < 2 ^ 64
        → accept t rate now (incoming_wire ip w) s ≡ waits id s'
        → Step s none s' (some (id, w))
    binds :
        (s : TcpServer t) (now id : ℕ) (w : Wire) (obj : Connection) (pool : GenericPool Connection)
        → Step s
            (some (id, w))
            (bind_connection t now id w obj (record s { conn_pool = pool }))
            none
    updates :
        (s : TcpServer t) (p : Option (ℕ × Wire)) (id : ℕ) (c c' : Connection)
        → lookup id s.connections ≡ some c
        → c'.id ≡ c.id
        → Step s p (record s { connections = insert id c' s.connections }) p
    finishes :
        (s : TcpServer t) (p : Option (ℕ × Wire)) (c : Connection)
        → Step s p (finish_connection t c s) p
    ticks : (s : TcpServer t) (p : Option (ℕ × Wire)) (now : ℕ) → Step s p (heartbeat t now s) p
    broadcasts :
        (s : TcpServer t) (p : Option (ℕ × Wire)) (now : ℕ) (bytes : List ℕ)
        → Step s p (broadcast t now bytes s) p
    stops : (s : TcpServer t) (p : Option (ℕ × Wire)) → Step s p (stop t s) p

  pub data Reach (start : TcpServer t) : TcpServer t → Option (ℕ × Wire) → Type 0 where
    here : Reach start start none
    next :
        {s s' : TcpServer t} {p p' : Option (ℕ × Wire)}
        → Reach start s p
        → Step s p s' p'
        → Reach start s' p'
