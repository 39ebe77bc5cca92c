-- ===== src/TcpServer/Tests.antt =====
-- Runs of the server, and the theorems about it.
use summer.Prelude.{◌≡◌, refl, arith, inl, true, [], ◌∷◌, some}
use summer.Hub.Topics.{same_iff}
use summer.Pool.{Pool}
use summer.Pool.Turns.{IsReady}
use summer.Decimal.{Text, digits}
use summer.TcpServer.{Conn, conn_name, Server, find}
use summer.TcpServer.Connections.{Named}

abbrev pool : Pool
pool = record { base_loop = 0; started = true; num_threads = 2; next = 1; loops = 7 ∷ 8 ∷ [] }

pool-IsReady : IsReady pool
pool-IsReady = record { running = refl; count = refl; place = inl (omega arith) }

abbrev server : Server
server = record {
  name = b's' ∷ [];
  host_port = b'h' ∷ [];
  next_conn_id = 12;
  pool = pool;
  listening = true;
  connections = [];
}

abbrev key : Text
key = conn_name (b's' ∷ []) (b'h' ∷ []) 12

-- s:h-12
prints : key ≡ b's' ∷ b':' ∷ b'h' ∷ b'-' ∷ b'1' ∷ b'2' ∷ []
unfolding conn_name digits
prints = refl

abbrev conn : Conn
conn = record { io_loop = 8; sockfd = 5 }

abbrev busy : Server
busy = record server { next_conn_id = 13; connections = (key, conn) ∷ [] }

busy-Named : Named busy
unfolding find
busy-Named k c e = (12, omega arith, ground (arith, e, same_iff k key))

found : find key busy.connections ≡ some conn
unfolding find
found = ground (arith, same_iff key key)
