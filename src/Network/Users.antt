-- ===== src/Network/Users.antt =====
-- Connections and their users in internal/network/tcp_server.go.
use cogame.Base.{
  ℕ, ◌==◌, List, [], ◌∷◌, ◌++◌, some, lookup, lookup-insert, ◌≡◌, refl, sym, subst, ◌∙◌, arith,
  Bool-cases, Option-cases, inl, inr, true, false, ==_iff, ==_refl, eq_of_some, ◌&&◌,
}
use cogame.Security.Limiter.{TokenBuckets}
use cogame.Network.Connection.{Wire, Connection, write, is_closed, new_connection}
use cogame.Network.Server.{
  Connections, TcpServer, first_of_user, send_to_user, get_connection, bind_connection,
}
use cogame.Network.Table.{ids, IsTable, Numbered, Distinct, lookup-ids}

abbrev pub with_written : ℕ → List ℕ → Connection → Connection
with_written now bytes c = record c {
  last_activity = now;
  wire = record c.wire { written = c.wire.written ++ (bytes ∷ []) };
}

write-written :
    (now : ℕ) (bytes : List ℕ) (c : Connection)
    → (write now bytes c).0 ≡ true
    → (write now bytes c).1 ≡ with_written now bytes c
unfolding write
write-written now bytes c h = elim (Bool-cases (is_closed c)) [
  | inl flagged ↦ absurd (ground (arith, flagged, h))
  | inr unflagged ↦ elim (Bool-cases (c.wire.opened && c.wire.writable)) [
    | inl up ↦ simp (unflagged, up)
    | inr down ↦ absurd (ground (arith, unflagged, down, h))
  ]
]

module _ (t : TokenBuckets) where
  first_of_user-lookup :
      (user n : ℕ) (cs : Connections) (c : Connection)
      → Numbered n (ids cs)
      → Distinct (ids cs)
      → first_of_user t user cs ≡ some c
      → (lookup c.id cs ≡ some c) × (c.user_id ≡ user)
  unfolding first_of_user lookup
  first_of_user-lookup user n [] c num dis h = absurd (ground arith)
  first_of_user-lookup user n ((key, d) ∷ cs) c num dis h = elim (Bool-cases (d.user_id == user)) [
    | inl hit ↦
        let first : first_of_user t user ((key, d) ∷ cs) ≡ some d = rw (hit, first_of_user) refl in
        let e : d ≡ c = eq_of_some (sym first ∙ h) in
        let same : (key == d.id) ≡ true = (==_iff key d.id).1 num.0.0 in
        let found : lookup d.id ((key, d) ∷ cs) ≡ some d = rw (same, lookup) refl in
        subst (λ (x : Connection). (lookup x.id ((key, d) ∷ cs) ≡ some x) × (x.user_id ≡ user)) e
          (found, (==_iff d.user_id user).0 hit)
    | inr miss ↦
        let skipped : first_of_user t user ((key, d) ∷ cs) ≡ first_of_user t user cs =
          rw (miss, first_of_user) refl in
        let (found, of_user) = first_of_user-lookup user n cs c num.1 dis.1 (sym skipped ∙ h) in
        let listed : lookup c.id (ids cs) ≡ some c.id = lookup-ids c.id cs ∙ rw found refl in
        let other : (key == c.id) ≡ false = ground (arith, dis.0, listed) in
        ((rw (other, lookup) found), of_user)
  ]

  -- Where SendToUser reports no error, the bytes are the last that were written to a connection of
  -- the user that is stored under its id, and no other connection has changed; the connections
  -- stand under different ids.
  pub send_to_user-written :
      (now user n size : ℕ) (bytes : List ℕ) (s : TcpServer t)
      → IsTable n size (ids s.connections)
      → (send_to_user t now user bytes s).0 ≡ true
      → (c : Connection) × (c.user_id ≡ user)
        × (get_connection t c.id s ≡ some c)
        × (get_connection t c.id (send_to_user t now user bytes s).1
            ≡ some (with_written now bytes c))
        × ((j : ℕ)
            → (c.id == j) ≡ false
            → get_connection t j (send_to_user t now user bytes s).1 ≡ get_connection t j s)
  unfolding send_to_user get_connection
  send_to_user-written now user n size bytes s v h =
      elim (Option-cases (first_of_user t user s.connections)) [
        | inl nobody ↦ absurd (ground (arith, nobody, h))
        | inr (c, found) ↦
            let (stored, of_user) =
              first_of_user-lookup user n s.connections c v.numbered v.distinct found in
            let sent : (write now bytes c).0 ≡ true = ground (arith, found, h) in
            let done = write-written now bytes c sent in
            (
              c,
              of_user,
              stored,
              rw (found, send_to_user, done)
                  (lookup-insert c.id c.id (with_written now bytes c) s.connections
                    ∙ rw (==_refl c.id) refl),
              λ j other.
                  rw (found, send_to_user, done)
                    (lookup-insert c.id j (with_written now bytes c) s.connections ∙ rw other refl),
            )
      ]

  -- The connection that is stored for a new client has nothing of the earlier use of its object:
  -- no user, no session, the new net.Conn and the time of now; other connections are as they were.
  pub bind_connection-fresh :
      (now conn_id : ℕ) (w : Wire) (obj : Connection) (s : TcpServer t)
      → (get_connection t conn_id (bind_connection t now conn_id w obj s)
          ≡ some (new_connection conn_id w now))
        × ((j : ℕ)
            → (conn_id == j) ≡ false
            → get_connection t j (bind_connection t now conn_id w obj s) ≡ get_connection t j s)
  unfolding bind_connection get_connection new_connection
  bind_connection-fresh now conn_id w obj s = (
    lookup-insert conn_id conn_id _ s.connections ∙ rw (==_refl conn_id) refl,
    λ j other. lookup-insert conn_id j _ s.connections ∙ rw other refl,
  )
