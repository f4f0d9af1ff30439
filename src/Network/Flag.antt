-- ===== src/Network/Flag.antt =====
-- The flag `closed` of internal/network/tcp_conn.go.
use cogame.Base.{ℕ, List, ◌≡◌, refl, arith, false}
use cogame.Network.Connection.{
  Wire, Connection, new_connection, is_closed, write, read, close, reset,
}

-- The operations on a connection, in any order; its net.Conn may change in any way.
pub data Used : Connection → Type 0 where
  made : (id : ℕ) (w : Wire) (now : ℕ) → Used (new_connection id w now)
  writes : (now : ℕ) (bytes : List ℕ) (c : Connection) → Used c → Used (write now bytes c).1
  reads : (now n : ℕ) (c : Connection) → Used c → Used (read now n c).1
  closes : (c : Connection) → Used c → Used (close c)
  resets : (c : Connection) → Used c → Used (reset c)
  wire_changes : (w : Wire) (c : Connection) → Used c → Used (record c { wire = w })
  logs_in :
      (user now : ℕ) (c : Connection)
      → Used c
      → Used (record c { user_id = user; last_activity = now })

Used-closed : (c : Connection) → Used c → c.closed ≡ 0
unfolding new_connection write read close reset
Used-closed _ (made id w now) = refl
Used-closed _ (writes now bytes c u) = ground (arith, Used-closed c u)
Used-closed _ (reads now n c u) = ground (arith, Used-closed c u)
Used-closed _ (closes c u) = ground (arith, Used-closed c u)
Used-closed _ (resets c u) = refl
Used-closed _ (wire_changes w c u) = Used-closed c u
Used-closed _ (logs_in user now c u) = Used-closed c u

-- No operation sets the flag that tells a closed connection: IsClosed is false of a connection
-- after any operations, also right after Close, which has then closed its net.Conn.
pub close-is_closed :
    (c : Connection)
    → Used c
    → (is_closed c ≡ false) × (is_closed (close c) ≡ false) × ((close c).wire.opened ≡ false)
unfolding close is_closed
close-is_closed c u = ground (arith, Used-closed c u)
