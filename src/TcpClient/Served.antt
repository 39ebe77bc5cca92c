-- ===== src/TcpClient/Served.antt =====
-- The client in its loop: no assertion fails, in the client or in its connector, and there is never
-- more than one connection.
use summer.Prelude.{
  ℕ, suc, ◌-◌, refl, ap, ◌∙◌, subst, arith, inl, inr, Bool, true, false, [], append-nil, none,
  Returns, of_returns, >>=-eq-ok, Bool-cases, ◌&&◌,
}
use summer.Connector
use summer.Connector.{
  Connector, connected, connecting, disconnected, Errno, init_retry_delay_ms, max_retry_delay_ms,
  start_in_loop, restart, on_connect, start_connecting, retry, handle_write, handle_error,
  remove_and_reset_channel, on_writable,
}
use summer.Connector.World
use summer.Connector.World.{World, is_reset}
use summer.Connector.Safety
use summer.Decimal.{Text}
use summer.TcpClient.{start_connect, disconnect, enable_retry}
use summer.TcpClient.World.{
  System, Event, connects, disconnects, enables_retry, starting, writable, failing,
  failing_writable, resets, closing, note, serve, Enabled, built, Reach, here, next,
}
use summer.TcpClient.Invariant.{
  view, IsServed, built-IsServed, start_in_loop-attempts, handle_error-attempts, handle_write-error,
  handle_write-attempts, handle_write-connects, note-IsServed, none_of, view-note, relay-connector,
}
use summer.TcpClient.Closing.{closing_retries, closing_rests}

serve_starting :
    (s : System) (sockfd : ℕ) (errno : Errno)
    → IsServed s
    → Enabled s (starting sockfd errno)
    → Returns IsServed (serve s (starting sockfd errno))
unfolding serve Connector.World.serve
serve_starting s sockfd errno v (left, quiet) =
    let (w, run, safe) =
      Connector.Safety.serve-IsSafe (view s) (Connector.World.starting sockfd errno) v.safe
        (left, quiet) in
    let (r, step, e) = >>=-eq-ok (start_in_loop s.client.connector sockfd errno) _ run in
    (
      note (s.starts - 1) s.client [] r,
      rw step refl,
      note-IsServed (s.starts - 1) s.client [] r (subst Connector.Safety.IsSafe (cc e) safe)
          (start_in_loop-attempts s.client.connector sockfd errno r step)
          (none_of s v (cc (v.safe.idle left))),
    )

serve_failing : (s : System) → IsServed s → Enabled s failing → Returns IsServed (serve s failing)
unfolding serve Connector.World.serve
serve_failing s v (busy, quiet) =
    let (w, run, safe) =
      Connector.Safety.serve-IsSafe (view s) Connector.World.failing v.safe (busy, quiet) in
    let (r, step, e) = >>=-eq-ok (handle_error s.client.connector) _ run in
    (
      note s.starts s.client [] r,
      rw step refl,
      note-IsServed s.starts s.client [] r (subst Connector.Safety.IsSafe (cc e) safe)
          (handle_error-attempts s.client.connector r step) (none_of s v (cc busy)),
    )

serve_failing_writable :
    (s : System) (self : Bool) (host_port : Text)
    → IsServed s
    → Enabled s (failing_writable self host_port)
    → Returns IsServed (serve s (failing_writable self host_port))
unfolding serve Connector.World.serve
serve_failing_writable s self host_port v (busy, quiet) =
    let (w, run, safe) =
      Connector.Safety.serve-IsSafe (view s) Connector.World.failing v.safe (busy, quiet) in
    let (r, step, e) = >>=-eq-ok (handle_error s.client.connector) _ run in
    (
      note s.starts s.client host_port r,
      rw (step, handle_write-error s.client.connector self r step, append-nil r.1) refl,
      note-IsServed s.starts s.client host_port r (subst Connector.Safety.IsSafe (cc e) safe)
          (handle_error-attempts s.client.connector r step) (none_of s v (cc busy)),
    )

serve_writable :
    (s : System) (self : Bool) (host_port : Text)
    → IsServed s
    → Enabled s (writable self host_port)
    → Returns IsServed (serve s (writable self host_port))
unfolding serve Connector.World.serve
serve_writable s true host_port v (busy, quiet) =
    let (w, run, safe) =
      Connector.Safety.serve-IsSafe (view s) (Connector.World.writable true) v.safe (busy, quiet) in
    let (r, step, e) = >>=-eq-ok (handle_write s.client.connector true) _ run in
    (
      note s.starts s.client host_port r,
      rw step refl,
      note-IsServed s.starts s.client host_port r (subst Connector.Safety.IsSafe (cc e) safe)
          (handle_write-attempts s.client.connector r step busy) (none_of s v (cc busy)),
    )
serve_writable s false host_port v (busy, quiet) =
    let (w, run, safe) =
      Connector.Safety.serve-IsSafe (view s) (Connector.World.writable false) v.safe
        (busy, quiet) in
    let (r, step, e) = >>=-eq-ok (handle_write s.client.connector false) _ run in
    let (up, told) = handle_write-connects s.client.connector r step busy in
    (
      note s.starts s.client host_port r,
      rw step refl,
      record {
        safe = subst Connector.Safety.IsSafe (cc (e, view-note s.starts s.client host_port r)) safe;
        current = unfold note in inr (ap Connector.state (relay-connector _ host_port r.1) ∙ up);
        cleared = unfold note in λ h k. cc (told, k);
      },
    )

serve_resets : (s : System) → IsServed s → Enabled s resets → Returns IsServed (serve s resets)
unfolding serve Connector.World.serve Connector.reset_channel
serve_resets s v h =
    let (w, run, safe) = Connector.Safety.serve-IsSafe (view s) Connector.World.resets v.safe h in
    (
      record s {
        client = record s.client { connector = record s.client.connector { channel = none } };
        resetting = false;
      },
      refl,
      record {
        safe = subst Connector.Safety.IsSafe (cc run) safe;
        current = v.current;
        cleared = λ k l. refl;
      },
    )

serve_connects :
    (s : System) → IsServed s → Enabled s connects → Returns IsServed (serve s connects)
unfolding serve start_connect
serve_connects s v (none_left, idle) = (
  record s { client = record s.client { connect = true }; starts = suc s.starts },
  refl,
  record {
    safe = record {
      one = omega (arith, none_left);
      idle = λ h. idle;
      set = v.safe.set;
      unset = v.safe.unset;
      low = v.safe.low;
      high = v.safe.high;
    };
    current = v.current;
    cleared = v.cleared;
  },
)

-- A served client serves every event that can come, and is one that is served again.
pub serve-IsServed :
    (s : System) (e : Event) → IsServed s → Enabled s e → Returns IsServed (serve s e)
serve-IsServed s connects v h = serve_connects s v h
serve-IsServed s disconnects v h =
    unfold serve disconnect in
    (
      record s { client = record s.client { connect = false } },
      refl,
      record { safe = v.safe; current = v.current; cleared = v.cleared },
    )
serve-IsServed s enables_retry v h =
    unfold serve enable_retry in
    (
      record s { client = record s.client { retry = true } },
      refl,
      record { safe = v.safe; current = v.current; cleared = v.cleared },
    )
serve-IsServed s (starting sockfd errno) v h = serve_starting s sockfd errno v h
serve-IsServed s (writable self host_port) v h = serve_writable s self host_port v h
serve-IsServed s failing v h = serve_failing s v h
serve-IsServed s (failing_writable self host_port) v h = serve_failing_writable s self host_port v h
serve-IsServed s resets v h = serve_resets s v h
serve-IsServed s (closing conn sockfd errno) v h =
    elim (Bool-cases (s.client.retry && s.client.connect)) [
      | inl again ↦ closing_retries s conn sockfd errno v h again
      | inr rests ↦ closing_rests s conn sockfd errno v h rests
    ]

pub Reach-IsServed : (name : Text) {s : System} → Reach (built name) s → IsServed s
Reach-IsServed name here = built-IsServed name
Reach-IsServed name (next {u} {t} q f k run) =
    of_returns t (serve-IsServed u f (Reach-IsServed name q) k) run
