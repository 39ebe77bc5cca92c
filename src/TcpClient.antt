-- ===== src/TcpClient.antt =====
-- The client of net/TcpClient.h and net/TcpClient.cc: the connection that its connector gets it, and
-- what happens when that closes. The connector is that of Connector.antt, the connection's own state
-- that of Connection.antt.
pub mod World
pub mod Invariant
mod Closing
pub mod Served
pub mod Trying
pub mod Attempts
mod Tests
use summer.Prelude.{
  ℕ, suc, Bool, true, false, ◌&&◌, ◌==◌, if◌then◌else◌, List, [], ◌∷◌, ◌++◌, Option, none, some,
  Outcome, ok, ◌>>=◌, ◌>>◌, assert, take,
}
use summer.Connector
use summer.Connector.{Connector, Errno, restart}
use summer.Decimal.{Text, decimal}

-- `connection` holds the number that the connection got, and `none` is the empty pointer. The
-- connector is built with the client.
pub record Client : Type 0 where
  pub name : Text
  pub connector : Connector
  pub retry : Bool
  pub connect : Bool
  pub next_conn_id : ℕ
  pub connection : Option ℕ

pub data Effect : Type 0 where
  -- what the connector does
  by_connector : Connector.Effect → Effect
  -- `connector_->start()`
  started : Effect
  -- `connectionEstablished` of a new connection, with its descriptor and its name
  established : ℕ → ℕ → Text → Effect
  -- `loop_->queueInLoop(connectionDestroyed)`
  destroyed : ℕ → Effect
  -- `connection_->shutdown()`
  shut_down : ℕ → Effect

unfoldable pub init : Text → Client
init name = record {
  name = name;
  connector = Connector.init;
  retry = false;
  connect = true;
  next_conn_id = 1;
  connection = none;
}

unfoldable pub enable_retry : Client → Client
enable_retry c = record c { retry = true }

unfoldable pub start_connect : Client → Client × List Effect
start_connect c = (record c { connect = true }, started ∷ [])

unfoldable pub disconnect : Client → Client × List Effect
disconnect c = (
  record c { connect = false },
  elim c.connection [ none ↦ [] | some conn ↦ shut_down conn ∷ [] ],
)

-- The name of a connection; `snprintf` cuts what does not fit into 32 bytes with the end.
unfoldable pub client_conn_name : Text → Text → ℕ → Text
client_conn_name name host_port id = name ++ take 31 (host_port ++ (b'#' ∷ decimal id))

-- `newConnection`; `getPeerAddr` has answered with the address.
unfoldable pub connected_to : Client → Text → ℕ → Client × List Effect
connected_to c host_port sockfd = (
  record c { next_conn_id = suc c.next_conn_id; connection = some c.next_conn_id },
  established c.next_conn_id sockfd (client_conn_name c.name host_port c.next_conn_id) ∷ [],
)

-- What the connector did, in order; `newConnectionCallback_` is `newConnection`.
unfoldable pub relay : Client → Text → List Connector.Effect → Client × List Effect
relay c host_port [] = (c, [])
relay c host_port (Connector.new_connection sockfd ∷ es) =
    let now = connected_to c host_port sockfd in
    let later = relay now.0 host_port es in (later.0, now.1 ++ later.1)
relay c host_port (e ∷ es) = let later = relay c host_port es in (later.0, by_connector e ∷ later.1)

abbrev pub is_current : Client → ℕ → Bool
is_current c conn = elim c.connection [ none ↦ false | some current ↦ current == conn ]

-- The end of `removeConnection`, with what the connector did.
unfoldable pub reconnect : Client → ℕ → Errno → Outcome (Client × List Connector.Effect)
reconnect c sockfd errno =
    if c.retry && c.connect
    then (do r ← restart c.connector sockfd errno; ok (record c { connector = r.0 }, r.1))
    else ok (c, [])

-- The socket that the connector creates, and the answer of its `connect`, are arguments.
unfoldable pub forget_connection :
    Client → ℕ → ℕ → Errno → Outcome (Client × List Connector.Effect × List Effect)
forget_connection c conn sockfd errno = do
  assert (is_current c conn)
  r ← reconnect (record c { connection = none }) sockfd errno
  ok (r.0, r.1, destroyed conn ∷ [])
