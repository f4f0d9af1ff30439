-- ===== src/Network/Limit.antt =====
-- The connections that a TCPServer of internal/network/tcp_server.go keeps, whatever its goroutines
-- do in whatever order.
use cogame.Base.{
  ℕ, suc, ◌+◌, ◌%◌, ◌^◌, ◌≤◌, ◌<◌, leb, String, List, [], ◌∷◌, Option, none, some, length, lookup,
  insert, ◌≡◌, refl, ap, sym, subst, ◌∙◌, arith, Bool-cases, inl, inr, false,
}
use cogame.Security.Limiter.{TokenBuckets}
use cogame.Pool.Generic as Generic
use cogame.Pool.Generic.{GenericPool, object, waiting, Got}
use cogame.Network.Connection.{Wire, Connection}
use cogame.Network.Server.{
  Connections, incoming_wire, TcpServer, Admission, panics, refused, stored, waits, bind_connection,
  use_object, take_connection, admit, limit_ip, accept, finish_connection, heartbeat, stop,
  close_all, broadcast, get_connection_count,
}
use cogame.Network.Steps.{
  Step, refuses, stores, starts_wait, binds, updates, finishes, ticks, broadcasts, stops, Reach,
  here, next,
}
use cogame.Network.Table.{
  ids, IsTable, lookup-ids, ids-insert, ids-delete, IsTable-insert, IsTable-update, IsTable-delete,
  IsTable-lookup, ids-close_expired, ids-close_all, ids-write_all,
}

length-ids : (cs : Connections) → length (ids cs) ≡ length cs
length-ids [] = refl
length-ids (e ∷ cs) = ap suc (length-ids cs)

module _ (t : TokenBuckets) where
  open t use {Rate}

  -- What a server is with a connection that waits in connPool.Get, or without.
  abbrev pub Keeps : ℕ → TcpServer t → Option (ℕ × Wire) → Type 0
  Keeps max s none = IsTable s.conn_counter max (ids s.connections) × (s.max_conns ≡ max)
  Keeps max s (some (id, w)) =
      (n : ℕ) × (size : ℕ) × (suc n ≡ s.conn_counter)
      × (id ≡ suc n)
      × (suc size ≤ max)
      × IsTable n size (ids s.connections)
      × (s.max_conns ≡ max)

  bind_connection-IsTable :
      (now n size : ℕ) (w : Wire) (obj : Connection) (s : TcpServer t)
      → IsTable n size (ids s.connections)
      → IsTable (suc n) (suc size) (ids (bind_connection t now (suc n) w obj s).connections)
  unfolding bind_connection
  bind_connection-IsTable now n size w obj s v =
      subst (IsTable (suc n) (suc size)) (sym (ids-insert (suc n) _ s.connections))
        (IsTable-insert n size (ids s.connections) v)

  IsTable-size :
      (n size size' : ℕ) (m : List (ℕ × ℕ))
      → IsTable n size m
      → length m ≤ size'
      → IsTable n size' m
  IsTable-size n size size' m v h = record {
    numbered = v.numbered;
    distinct = v.distinct;
    bounded = h;
  }

  abbrev Admitted : ℕ → Wire → Admission t → Type 0
  Admitted max w panics = Unit
  Admitted max w (refused s) = Keeps max s none
  Admitted max w (stored s) = Keeps max s none
  Admitted max w (waits id s) = Keeps max s (some (id, w))

  use_object-Admitted :
      (max now n size : ℕ) (w : Wire) (s : TcpServer t) (got : Got Connection)
      → suc n ≡ s.conn_counter
      → suc size ≤ max
      → IsTable n size (ids s.connections)
      → s.max_conns ≡ max
      → Admitted max w (use_object t now (suc n) w s got)
  unfolding use_object bind_connection
  use_object-Admitted max now n size w s (object obj pool) e h v em =
      let made = bind_connection-IsTable now n size w obj (record s { conn_pool = pool }) v in
      (
        subst
            (λ k. IsTable k max (
              ids
                (bind_connection t now (suc n) w obj (record s { conn_pool = pool })).connections))
            e (IsTable-size (suc n) (suc size) max _ made (omega (arith, made.bounded))),
        em,
      )
  use_object-Admitted max now n size w s (waiting pool) e h v em = (n, size, e, refl, h, v, em)

  admit-Admitted :
      (max now : ℕ) (w : Wire) (s : TcpServer t)
      → s.conn_counter + 1 < 2 ^ 64
      → Keeps max s none
      → Admitted max w (admit t now w s)
  unfolding admit take_connection
  admit-Admitted max now w s small (v, em) =
      elim (Bool-cases (leb s.max_conns (length s.connections))) [
        | inl full ↦ rw (full, admit) (v, em)
        | inr room ↦
            let id : (s.conn_counter + 1) % 2 ^ 64 ≡ suc s.conn_counter = omega arith in
            let less : suc (length s.connections) ≤ max = ground (arith, room, em) in
            rw (room, admit, id)
              (use_object-Admitted max now s.conn_counter (length s.connections) w
                (record s { conn_counter = suc s.conn_counter }) (Generic.get s.conn_pool) refl less
                (IsTable-size s.conn_counter max (length s.connections) _ v
                  (omega (arith, length-ids s.connections)))
                em)
      ]

  limit_ip-same :
      (rate : Rate) (now : ℕ) (ip : Option String) (s : TcpServer t)
      → ((limit_ip t rate now ip s).1.connections ≡ s.connections)
        × ((limit_ip t rate now ip s).1.conn_counter ≡ s.conn_counter)
        × ((limit_ip t rate now ip s).1.max_conns ≡ s.max_conns)
  unfolding limit_ip
  limit_ip-same rate now none s = (refl, refl, refl)
  limit_ip-same rate now (some ip) s = (refl, refl, refl)

  accept-Admitted :
      (max : ℕ) (rate : Rate) (now : ℕ) (ip : Option String) (w : Wire) (s : TcpServer t)
      → s.conn_counter + 1 < 2 ^ 64
      → Keeps max s none
      → Admitted max w (accept t rate now (incoming_wire ip w) s)
  unfolding accept
  accept-Admitted max rate now ip w s small v =
      let limited = limit_ip t rate now ip s in
      let (sc, sn, sm) = limit_ip-same rate now ip s in
      let v1 : Keeps max limited.1 none = (rw (sc, sn) v.0, sm ∙ v.1) in
      elim (Bool-cases limited.0) [
        | inl yes_allowed ↦
            rw (yes_allowed, accept) (admit-Admitted max now w limited.1 (omega (arith, sn)) v1)
        | inr denied ↦ rw (denied, accept) v1
      ]

  binds-Keeps :
      (max now id : ℕ) (w : Wire) (obj : Connection) (s : TcpServer t)
      (pool : GenericPool Connection)
      → Keeps max s (some (id, w))
      → Keeps max (bind_connection t now id w obj (record s { conn_pool = pool })) none
  unfolding bind_connection
  binds-Keeps max now id w obj s pool (n, size, en, ei, h, v, em) =
      let s1 = record s { conn_pool = pool } in
      let made = bind_connection-IsTable now n size w obj s1 v in
      let fits = IsTable-size (suc n) (suc size) max _ made (omega (arith, made.bounded)) in
      (
        subst (λ k. IsTable k max (ids (bind_connection t now id w obj s1).connections)) en
            (subst (λ i. IsTable (suc n) max (ids (bind_connection t now i w obj s1).connections))
              (sym ei) fits),
        em,
      )

  Keeps-table :
      (max : ℕ) (s s' : TcpServer t) (p : Option (ℕ × Wire))
      → ((n size : ℕ) → IsTable n size (ids s.connections) → IsTable n size (ids s'.connections))
      → s'.conn_counter ≡ s.conn_counter
      → s'.max_conns ≡ s.max_conns
      → Keeps max s p
      → Keeps max s' p
  Keeps-table max s s' none f ec em v = (rw ec (f s.conn_counter max v.0), em ∙ v.1)
  Keeps-table max s s' (some (id, w)) f ec em (n, size, en, ei, h, v, e) =
      (n, size, en ∙ sym ec, ei, h, f n size v, em ∙ e)

  stop-Keeps :
      (max : ℕ) (s : TcpServer t) (p : Option (ℕ × Wire)) → Keeps max s p → Keeps max (stop t s) p
  unfolding stop
  stop-Keeps max s p v = elim (Bool-cases s.running) [
    | inl up ↦ rw up (
        Keeps-table max s (record s { running = false; connections = close_all t s.connections }) p
          (λ n size. subst (IsTable n size) (sym (ids-close_all t s.connections))) refl refl v)
    | inr down ↦ rw down v
  ]

  updates-IsTable :
      (s : TcpServer t) (id : ℕ) (c c' : Connection)
      → lookup id s.connections ≡ some c
      → c'.id ≡ c.id
      → (n size : ℕ) → IsTable n size (ids s.connections)
      → IsTable n size (ids (insert id c' s.connections))
  updates-IsTable s id c c' found same n size v =
      let listed : lookup id (ids s.connections) ≡ some c.id =
        lookup-ids id s.connections ∙ rw found refl in
      let (eq, le) = IsTable-lookup n size id (ids s.connections) c.id v listed in
      let e : ids (insert id c' s.connections) ≡ insert id id (ids s.connections) =
        ids-insert id c' s.connections ∙ rw (same, eq) refl in
      subst (IsTable n size) (sym e) (IsTable-update n size id (ids s.connections) c.id v listed le)

  Step-Keeps :
      (max : ℕ) {s s' : TcpServer t} {p p' : Option (ℕ × Wire)}
      → Keeps max s p
      → Step t s p s' p'
      → Keeps max s' p'
  unfolding finish_connection heartbeat broadcast stop bind_connection
  Step-Keeps max v (refuses s s' rate now ip w small e) =
      subst (Admitted max w) e (accept-Admitted max rate now ip w s small v)
  Step-Keeps max v (stores s s' rate now ip w small e) =
      subst (Admitted max w) e (accept-Admitted max rate now ip w s small v)
  Step-Keeps max v (starts_wait s s' rate now id ip w small e) =
      subst (Admitted max w) e (accept-Admitted max rate now ip w s small v)
  Step-Keeps max v (binds s now id w obj pool) = binds-Keeps max now id w obj s pool v
  Step-Keeps max v (updates s p id c c' found same) =
      Keeps-table max s (record s { connections = insert id c' s.connections }) p
        (updates-IsTable s id c c' found same) refl refl v
  Step-Keeps max v (finishes s p c) =
      Keeps-table max s (finish_connection t c s) p
        (λ n size v.
          subst (IsTable n size) (sym (ids-delete c.id s.connections))
            (IsTable-delete n size c.id _ v))
        refl refl v
  Step-Keeps max v (ticks s p now) =
      Keeps-table max s (heartbeat t now s) p
        (λ n size. subst (IsTable n size) (sym (ids-close_expired t now s.connections))) refl refl v
  Step-Keeps max v (broadcasts s p now bytes) =
      Keeps-table max s (broadcast t now bytes s) p
        (λ n size. subst (IsTable n size) (sym (ids-write_all t now bytes s.connections))) refl refl
        v
  Step-Keeps max v (stops s p) = stop-Keeps max s p v

  Reach-Keeps :
      (max : ℕ) {start s : TcpServer t} {p : Option (ℕ × Wire)}
      → Keeps max start none
      → Reach t start s p
      → Keeps max s p
  Reach-Keeps max v here = v
  Reach-Keeps max v (next r s) = Step-Keeps max (Reach-Keeps max v r) s

  Keeps-connections :
      (max : ℕ) (s : TcpServer t) (p : Option (ℕ × Wire))
      → Keeps max s p
      → (n : ℕ) × IsTable n max (ids s.connections)
  Keeps-connections max s none v = (s.conn_counter, v.0)
  Keeps-connections max s (some (id, w)) (n, size, en, ei, h, v, em) =
      (n, IsTable-size n size max (ids s.connections) v (omega (arith, v.bounded)))

  -- Of a server that starts without connections, whatever its goroutines do and in whatever order
  -- (one acceptLoop, connections that change and end, ticks, broadcasts, Stop), the connections are
  -- never more than the maximum, and each stands under its own id, which no other has; Accept gives
  -- no error, and the ids stay under 2 ^ 64.
  pub Reach-get_connection_count :
      (start s : TcpServer t) (p : Option (ℕ × Wire))
      → start.connections ≡ []
      → Reach t start s p
      → (get_connection_count t s ≤ start.max_conns)
        × ((id : ℕ) (c : Connection) → lookup id s.connections ≡ some c → c.id ≡ id)
  unfolding get_connection_count
  Reach-get_connection_count start s p empty r =
      let start_table : IsTable start.conn_counter start.max_conns (ids start.connections) =
        rw empty (record { numbered = tt; distinct = tt; bounded = omega arith }) in
      let (n, v) =
        Keeps-connections start.max_conns s p (Reach-Keeps start.max_conns (start_table, refl) r) in
      (
        omega (arith, v.bounded, length-ids s.connections),
        λ id c found.
            (IsTable-lookup n start.max_conns id (ids s.connections) c.id v
              (lookup-ids id s.connections ∙ rw found refl)).0,
      )
