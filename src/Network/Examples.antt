-- ===== src/Network/Examples.antt =====
-- Runs of the TCP server of internal/network.
use cogame.Base.{
  int64, ℕ, ◌+◌, ◌≤◌, true, false, List, [], ◌∷◌, none, some, lookup, ◌≡◌, refl, arith,
}
use cogame.Security.Examples.{counting}
use cogame.Pool.Generic as Generic
use cogame.Network.Connection.{Wire, Connection, new_connection, is_closed}
use cogame.Network.Serve.{encode_length, no_length, handled, turn, serve}
use cogame.Network.Framing.{Sent, segments_of, bodies}
use cogame.Network.Delivery.{after_read, serve-segments_of}
use cogame.Network.Splitting.{turn_split_body}
use cogame.Network.Server.{
  TcpServer, accept, incoming_wire, bind_connection, get_connection_count, stored, take_connection,
}
use cogame.Network.Steps.{Reach, here, next, stores}
use cogame.Network.Limit.{Reach-get_connection_count}

abbrev wire_of : List (List ℕ) → Wire
wire_of segments = record { incoming = segments; written = []; writable = true; opened = true }

abbrev two_messages : List Sent
two_messages =
    record { body = 7 ∷ 8 ∷ []; cut_header = true; cut_body = false }
    ∷ record { body = 9 ∷ []; cut_header = false; cut_body = true }
    ∷ []

-- A handler that counts its messages.
abbrev counts : List ℕ → Connection × ℕ → Connection × ℕ
counts m (c, s) = (c, s + 1)

abbrev client : Connection
client = new_connection 1 (wire_of (segments_of two_messages)) 5

serve-segments_of_example :
    ((serve counts (1 ∷ 2 ∷ 3 ∷ []) client 0).messages ≡ bodies two_messages)
    × ((serve counts (1 ∷ 2 ∷ 3 ∷ []) client 0).why ≡ no_length)
unfolding new_connection is_closed
serve-segments_of_example =
    serve-segments_of counts (λ m c s live. (live, refl)) (1 ∷ 2 ∷ 3 ∷ []) two_messages client 0
      (refl, refl) ((omega arith, omega arith), ((omega arith, omega arith), tt)) refl (omega arith)

abbrev split_client : Connection
split_client = new_connection 1 (wire_of (encode_length 5 ∷ (1 ∷ 2 ∷ []) ∷ (3 ∷ 4 ∷ 5 ∷ []) ∷ [])) 5

turn_split_body_example :
    turn counts 6 split_client 0
    ≡ handled (1 ∷ 2 ∷ 0 ∷ 0 ∷ 0 ∷ []) (after_read 6 split_client ((3 ∷ 4 ∷ 5 ∷ []) ∷ [])) 1
unfolding new_connection is_closed
turn_split_body_example =
    turn_split_body counts 6 split_client 0 (1 ∷ 2 ∷ []) (3 ∷ 4 ∷ 5 ∷ []) [] (refl, refl)
      (omega arith) (omega arith) (omega arith) refl

-- A server of the counting limiters, and after its first connection.
abbrev idle_server : TcpServer counting
idle_server = record {
  connections = [];
  conn_counter = 0;
  max_conns = 2;
  conn_pool = Generic.new 2 (new_connection 0 (wire_of []) 0) none;
  limiters = [];
  running = true;
}

abbrev busy_server : TcpServer counting
busy_server =
    bind_connection counting 5 1 (wire_of []) (new_connection 0 (wire_of []) 0)
      (record idle_server {
        conn_counter = 1;
        conn_pool = record idle_server.conn_pool { created = 1; gotten = 1 };
      })

busy_server-accept :
    accept counting 5 5 (incoming_wire none (wire_of [])) idle_server ≡ stored busy_server
unfolding accept Generic.new Generic.get take_connection int64
busy_server-accept = refl

busy_server-Reach : Reach counting idle_server busy_server none
busy_server-Reach =
    next here
      (stores idle_server busy_server 5 5 none (wire_of []) (omega arith) busy_server-accept)

Reach-get_connection_count_example :
    (get_connection_count counting busy_server ≤ 2)
    × ((id : ℕ) (c : Connection) → lookup id busy_server.connections ≡ some c → c.id ≡ id)
Reach-get_connection_count_example =
    Reach-get_connection_count counting idle_server busy_server none refl busy_server-Reach

abbrev player : Connection
player = record (new_connection 1 (wire_of []) 5) { user_id = 42 }
