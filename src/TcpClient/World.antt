-- ===== src/TcpClient/World.antt =====
-- The client in its loop: what is to come, and how an event is served.
use summer.Prelude.{
  ℕ, suc, ◌+◌, ◌-◌, ◌<◌, ◌≡◌, Bool, false, true, List, [], ◌++◌, some, Outcome, ok, ◌>>=◌,
}
use summer.Connector
use summer.Connector.{
  Connector, connecting, disconnected, Errno, start_in_loop, reset_channel, handle_write,
  handle_error,
}
use summer.Connector.World.{count_starts, is_reset}
use summer.Decimal.{Text}
use summer.TcpClient.{
  Client, init, start_connect, disconnect, enable_retry, relay, forget_connection,
}

-- The client with what its loop keeps for the connector, as in Connector/World.
pub record System : Type 0 where
  pub client : Client
  pub starts : ℕ
  pub resetting : Bool

pub data Event : Type 0 where
  connects disconnects enables_retry : Event
  starting : ℕ → Errno → Event
  writable : Bool → Text → Event
  failing resets : Event
  -- one `handleEvent` for POLLERR and POLLOUT: `handleError`, and then `handleWrite`
  failing_writable : Bool → Text → Event
  -- the connection closes
  closing : ℕ → ℕ → Errno → Event

unfoldable pub note : ℕ → Client → Text → Connector × List Connector.Effect → System
note n c host_port r = record {
  client = (relay (record c { connector = r.0 }) host_port r.1).0;
  starts = n + count_starts r.1;
  resetting = is_reset r.1;
}

unfoldable pub serve : System → Event → Outcome System
serve s connects = ok (record s { client = (start_connect s.client).0; starts = suc s.starts })
serve s disconnects = ok (record s { client = (disconnect s.client).0 })
serve s enables_retry = ok (record s { client = enable_retry s.client })
serve s (starting sockfd errno) = do
  r ← start_in_loop s.client.connector sockfd errno
  ok (note (s.starts - 1) s.client [] r)
serve s (writable self host_port) = do
  r ← handle_write s.client.connector self
  ok (note s.starts s.client host_port r)
serve s failing = do r ← handle_error s.client.connector; ok (note s.starts s.client [] r)
serve s (failing_writable self host_port) = do
  r ← handle_error s.client.connector
  r' ← handle_write r.0 self
  ok (note s.starts s.client host_port (r'.0, r.1 ++ r'.1))
serve s resets = ok (record s {
  client = record s.client { connector = reset_channel s.client.connector };
  resetting = false;
})
serve s (closing conn sockfd errno) = do
  r ← forget_connection s.client conn sockfd errno
  ok (note s.starts r.0 [] (r.0.connector, r.1))

-- The functors in the queue run before the loop polls again. `connect` is for a client that has
-- neither a connection nor an attempt.
abbrev pub Enabled : System → Event → Type 0
Enabled s connects = (s.starts ≡ 0) × (s.client.connector.state ≡ disconnected)
Enabled s disconnects = Unit {0}
Enabled s enables_retry = Unit {0}
Enabled s (starting sockfd errno) = (0 < s.starts) × (s.resetting ≡ false)
Enabled s (writable self host_port) =
    (s.client.connector.state ≡ connecting) × (s.resetting ≡ false)
Enabled s failing = (s.client.connector.state ≡ connecting) × (s.resetting ≡ false)
Enabled s (failing_writable self host_port) =
    (s.client.connector.state ≡ connecting) × (s.resetting ≡ false)
Enabled s resets = s.resetting ≡ true
Enabled s (closing conn sockfd errno) = (s.client.connection ≡ some conn) × (s.resetting ≡ false)

unfoldable pub built : Text → System
built name = record { client = init name; starts = 0; resetting = false }

-- The systems that a client gets into.
pub data Reach (s : System) : System → Type 0 where
  here : Reach s s
  next : {u t : System} → Reach s u → (e : Event) → Enabled u e → serve u e ≡ ok t → Reach s t
