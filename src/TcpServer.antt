-- ===== src/TcpServer.antt =====
-- The server of net/TcpServer.h and net/TcpServer.cc: its map of connections. The connections' own
-- states are in Connection.antt, and the choice of their loops in Pool.antt.
pub mod Names
pub mod Connections
mod Tests
use summer.Prelude.{
  ℕ, zero, suc, ◌+◌, ◌*◌, ◌/◌, ◌%◌, Bool, true, false, not, ltb, if◌then◌else◌, List, [], ◌∷◌, ◌++◌,
  Option, none, some, Outcome, ok, ◌>>=◌, ◌>>◌, assert, take,
}
use summer.Codec.{same}
use summer.Decimal.{Text, decimal}
use summer.Pool.{Pool, get_next_loop, start}

-- The name of a connection; `snprintf` cuts what does not fit into 32 bytes with the end.
unfoldable pub conn_name : Text → Text → ℕ → Text
conn_name name host_port id = name ++ take 31 (b':' ∷ (host_port ++ (b'-' ∷ decimal id)))

-- A connection: its loop and its descriptor.
pub record Conn : Type 0 where
  pub io_loop : ℕ
  pub sockfd : ℕ

pub record Server : Type 0 where
  pub name : Text
  pub host_port : Text
  pub next_conn_id : ℕ
  pub pool : Pool
  pub listening : Bool
  pub connections : List (Text × Conn)

pub data Effect : Type 0 where
  -- `acceptor_->listen()`
  listened : Effect
  -- `ioLoop->runInLoop(connectionEstablished)` and `ioLoop->queueInLoop(connectionDestroyed)`
  established : ℕ → Text → Effect
  destroyed : ℕ → Text → Effect

-- `connections_[connName] = conn`
unfoldable pub put : Text → Conn → List (Text × Conn) → List (Text × Conn)
put key c [] = (key, c) ∷ []
put key c ((k, d) ∷ m) = if same key k then (k, c) ∷ m else (k, d) ∷ put key c m

unfoldable pub find : Text → List (Text × Conn) → Option Conn
find key [] = none
find key ((k, d) ∷ m) = if same key k then some d else find key m

unfoldable pub erase : Text → List (Text × Conn) → List (Text × Conn)
erase key [] = []
erase key ((k, d) ∷ m) = let rest = erase key m in if same key k then rest else (k, d) ∷ rest

abbrev pub is_some : Option Conn → Bool
is_some none = false
is_some (some c) = true

unfoldable pub new_connection : Server → ℕ → Outcome (Server × List Effect)
new_connection s sockfd = do
  r ← get_next_loop s.pool
  let key = conn_name s.name s.host_port s.next_conn_id
  let c : Conn = record { io_loop = r.0; sockfd = sockfd }
  ok (
    record s {
      next_conn_id = suc s.next_conn_id;
      pool = r.1;
      connections = put key c s.connections;
    },
    established r.0 key ∷ [],
  )

-- The loop is that of the connection, which its closing hands over.
unfoldable pub remove_connection_in_loop : Server → Text → Conn → Outcome (Server × List Effect)
remove_connection_in_loop s key c = do
  assert (is_some (find key s.connections))
  ok (record s { connections = erase key s.connections }, destroyed c.io_loop key ∷ [])

abbrev pub start_pool : (ℕ → ℕ) → Pool → Outcome Pool
start_pool new_loop p = if p.started then ok p else start new_loop p

unfoldable pub start_server : (ℕ → ℕ) → Server → Outcome (Server × List Effect)
start_server new_loop s = do
  pool ← start_pool new_loop s.pool
  ok (record s { listening = true; pool = pool }, if s.listening then [] else listened ∷ [])
