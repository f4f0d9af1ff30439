-- ===== src/Network/Server.antt =====
-- internal/network/tcp_server.go: TCPServer, its connections by id, and what it does with each
-- connection that it accepts. Its limiter and its pool are those of Security and Pool.
use cogame.Base.{
  ℕ, ◌+◌, ◌-◌, ◌%◌, ◌^◌, ◌==◌, ltb, leb, String, Bool, true, false, List, [], ◌∷◌, Option, none,
  some, length, lookup, insert, delete, if◌then◌else◌,
}
use Prim.Native.String.{◌++◌ as str_append}
use cogame.Security.Limiter.{TokenBuckets, Limiters, check_limit}
use cogame.Pool.Generic as Generic
use cogame.Pool.Generic.{GenericPool, object, waiting}
use cogame.Network.Connection.{Wire, Connection, write, close, is_closed, reset}

-- Connections are kept in a sync.Map, which ranges over them in some order: that of the list.
abbrev pub Connections : Type 0
Connections = List (ℕ × Connection)

-- What Accept gives: a connection, with its IP address if it can be split off, or an error.
pub data Accepted : Type 0 where
  incoming_wire : Option String → Wire → Accepted
  accept_error : Accepted

module _ (t : TokenBuckets) where
  open t use {Rate}

  pub record TcpServer : Type 0 where
    pub connections : Connections
    pub conn_counter : ℕ
    pub max_conns : ℕ
    pub conn_pool : GenericPool Connection
    pub limiters : Limiters t
    pub running : Bool

  -- How a turn of acceptLoop goes on: with a panic, without a connection, with one, or with the
  -- second select of connPool.Get.
  pub data Admission : Type 0 where
    panics : Admission
    refused : TcpServer → Admission
    stored : TcpServer → Admission
    waits : ℕ → TcpServer → Admission

  unfoldable pub get_connection_count : TcpServer → ℕ
  get_connection_count s = length s.connections

  -- The object from the pool is bound to the new connection and stored.
  unfoldable pub bind_connection : ℕ → ℕ → Wire → Connection → TcpServer → TcpServer
  unfolding reset
  bind_connection now conn_id w obj s =
      let c = record (reset obj) { id = conn_id; wire = w; last_activity = now } in
      record s { connections = insert conn_id c s.connections }

  -- What the pool gives is bound at once, or waited for.
  unfoldable pub use_object : ℕ → ℕ → Wire → TcpServer → Generic.Got Connection → Admission
  unfolding bind_connection
  use_object now conn_id w s (object obj pool) =
      stored (bind_connection now conn_id w obj (record s { conn_pool = pool }))
  use_object now conn_id w s (waiting pool) = waits conn_id (record s { conn_pool = pool })

  unfoldable pub take_connection : ℕ → ℕ → Wire → TcpServer → Admission
  unfolding use_object
  take_connection now conn_id w s = use_object now conn_id w s (Generic.get s.conn_pool)

  -- The limit of connections and the next id.
  unfoldable pub admit : ℕ → Wire → TcpServer → Admission
  unfolding take_connection get_connection_count
  admit now w s =
      if leb s.max_conns (get_connection_count s)
      then refused s
      else let conn_id = (s.conn_counter + 1) % 2 ^ 64 in
        take_connection now conn_id w (record s { conn_counter = conn_id })

  -- DefaultRatePerIP is 5 per second, in the rates of the parameter.
  unfoldable pub limit_ip : Rate → ℕ → Option String → TcpServer → Bool × TcpServer
  limit_ip rate_per_ip now none s = (true, s)
  limit_ip rate_per_ip now (some client_ip) s =
      let (allowed, limiters) =
        check_limit t (str_append "conn" client_ip) rate_per_ip 5 now s.limiters in
      (allowed, record s { limiters = limiters })

  -- One turn of acceptLoop. The address of the connection is asked for before the error of Accept
  -- is looked at; there is then no connection.
  unfoldable pub accept : Rate → ℕ → Accepted → TcpServer → Admission
  unfolding limit_ip admit
  accept rate_per_ip now accept_error s = panics
  accept rate_per_ip now (incoming_wire client_ip w) s =
      let (allowed, s1) = limit_ip rate_per_ip now client_ip s in
      if allowed then admit now w s1 else refused s1

  -- The deferred calls of handleConnection.
  unfoldable pub finish_connection : Connection → TcpServer → TcpServer
  finish_connection c s = record s {
    connections = delete c.id s.connections;
    conn_pool = Generic.put (close c) s.conn_pool;
  }

  unfoldable pub get_connection : ℕ → TcpServer → Option Connection
  get_connection conn_id s = lookup conn_id s.connections

  -- One minute, in nanoseconds.
  abbrev pub idle_limit : ℕ
  idle_limit = 60000000000

  -- One tick of heartbeatLoop; the second loop closes what the first one found.
  unfoldable pub close_expired : ℕ → Connections → Connections
  close_expired now [] = []
  close_expired now ((id, c) ∷ cs) =
      (id, if ltb idle_limit (now - c.last_activity) then close c else c) ∷ close_expired now cs

  unfoldable pub heartbeat : ℕ → TcpServer → TcpServer
  unfolding close_expired
  heartbeat now s = record s { connections = close_expired now s.connections }

  unfoldable pub close_all : Connections → Connections
  close_all [] = []
  close_all ((id, c) ∷ cs) = (id, close c) ∷ close_all cs

  -- Stop, up to the wait for the goroutines of the connections.
  unfoldable pub stop : TcpServer → TcpServer
  unfolding close_all
  stop s =
      if s.running then record s { running = false; connections = close_all s.connections } else s

  unfoldable pub first_of_user : ℕ → Connections → Option Connection
  first_of_user user [] = none
  first_of_user user ((id, c) ∷ cs) = if c.user_id == user then some c else first_of_user user cs

  -- Each goroutine of Broadcast writes to its own connection.
  unfoldable pub write_all : ℕ → List ℕ → Connections → Connections
  write_all now bytes [] = []
  write_all now bytes ((id, c) ∷ cs) =
      (id, if is_closed c then c else (write now bytes c).1) ∷ write_all now bytes cs

  unfoldable pub broadcast : ℕ → List ℕ → TcpServer → TcpServer
  unfolding write_all
  broadcast now bytes s = record s { connections = write_all now bytes s.connections }

  -- Whether there was no error.
  unfoldable pub send_to_user : ℕ → ℕ → List ℕ → TcpServer → Bool × TcpServer
  unfolding first_of_user
  send_to_user now user bytes s = elim (first_of_user user s.connections) [
    | none ↦ (false, s)
    | some c ↦
        let (ok, c1) = write now bytes c in
        (ok, record s { connections = insert c.id c1 s.connections })
  ]
