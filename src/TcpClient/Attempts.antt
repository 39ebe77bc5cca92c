-- ===== src/TcpClient/Attempts.antt =====
-- A client that is to reconnect goes on trying; one that is not cannot be told to connect again.
use summer.Prelude.{
  ℕ, ◌+◌, ◌≡◌, refl, arith, inl, false, ◌&&◌, none, ok, aborted, ◌>>=◌, Returns, of_returns,
}
use summer.Connector
use summer.Connector.{
  Connector, connected, connecting, disconnected, Errno, start_in_loop, restart, on_connect,
  start_connecting, retry, handle_write, handle_error, remove_and_reset_channel, on_writable,
}
use summer.Decimal.{Text}
use summer.TcpClient.{init, start_connect, enable_retry, relay, reconnect, forget_connection}
use summer.TcpClient.World.{
  System, Event, connects, enables_retry, starting, closing, note, serve, Enabled, built, Reach,
  here, next,
}
use summer.TcpClient.Invariant.{IsServed}
use summer.TcpClient.Closing.{connected_of}
use summer.TcpClient.Served.{serve-IsServed, Reach-IsServed}
use summer.TcpClient.Trying.{IsPersistent, IsTrying, IsAsked, step-IsTrying}

-- The systems that a client gets into from `s` that is not told to disconnect, and is not given up.
pub data Kept (s : System) : System → Type 0 where
  start : Kept s s
  later :
      {u t : System}
      → Kept s u
      → (e : Event) → Enabled u e
      → IsPersistent e
      → serve u e ≡ ok t
      → Kept s t

-- A client after `enableRetry` and `connect`.
unfoldable pub asked : Text → System
asked name = record {
  client = (start_connect (enable_retry (init name))).0;
  starts = 1;
  resetting = false;
}

asked-IsServed : (name : Text) → IsServed (asked name)
unfolding asked built serve init enable_retry start_connect Connector.init
asked-IsServed name = Reach-IsServed name {s = asked name} (
    next {u = record (built name) { client = enable_retry (init name) }}
      (next here enables_retry tt refl) connects (refl, refl) refl)

Kept-IsServed :
    (name : Text) {s : System} → Kept (asked name) s → IsServed s × IsTrying s × IsAsked s
unfolding asked start_connect enable_retry
Kept-IsServed name start = (asked-IsServed name, inl (omega arith), (refl, refl))
Kept-IsServed name (later {u} {t} q e h p run) =
    let (v, w, a) = Kept-IsServed name q in
    let (w', a') = step-IsTrying u t e v w a h p run in
    (of_returns t (serve-IsServed u e v h) run, w', a')

-- A client that was told to retry and to connect, and is not told to disconnect, has an attempt to
-- come or under way, or has a connection, at all times, as long as `connect` answers with no error
-- that the connector gives up on.
pub Kept-IsTrying : (name : Text) {s : System} → Kept (asked name) s → IsTrying s
Kept-IsTrying name q = (Kept-IsServed name q).1

-- When its connection closes and it does not retry, a client returns from that, but the attempt of a
-- later `connect` fails an assertion: the connector still counts as connected.
pub connects-aborted :
    (name : Text) {s : System} (conn : ℕ) (sockfd next_fd : ℕ) (errno next_errno : Errno)
    → Reach (built name) s
    → Enabled s (closing conn sockfd errno)
    → s.client.retry && s.client.connect ≡ false
    → Returns
        (λ t.
          (t.client.connection ≡ none)
          × ((serve t connects >>= (λ u. serve u (starting next_fd next_errno))) ≡ aborted))
        (serve s (closing conn sockfd errno))
connects-aborted name {s} conn sockfd next_fd errno next_errno r (e, quiet) rests =
    let (up, none_left) = connected_of s conn (Reach-IsServed name r) e in
    (
      record {
        client = record s.client { connection = none };
        starts = s.starts + 0;
        resetting = false;
      },
      unfold serve forget_connection reconnect note relay in ground (arith, e, rests),
      (refl, unfold serve start_connect start_in_loop in ground (arith, up)),
    )
