-- ===== src/TcpClient/Closing.antt =====
-- The client when its connection closes.
use summer.Prelude.{
  ℕ, ◌+◌, ◌≡◌, refl, sym, ap, ◌∙◌, subst, arith, inl, inr, true, false, [], none, some, Returns,
  >>=-eq-ok, ◌&&◌,
}
use summer.Connector
use summer.Connector.{
  Connector, connected, connecting, disconnected, Errno, init_retry_delay_ms, max_retry_delay_ms,
  start_in_loop, restart, on_connect, start_connecting, retry, handle_write, handle_error,
  remove_and_reset_channel, on_writable,
}
use summer.Connector.World
use summer.Connector.World.{World, is_reset}
use summer.Connector.Safety
use summer.TcpClient.{Client, relay, reconnect, forget_connection}
use summer.TcpClient.World.{System, closing, note, serve, Enabled}
use summer.TcpClient.Invariant.{IsServed, start_in_loop-attempts, note-IsServed}

-- A connector that is connected starts again as a new one does.
restarting : System → World
restarting s = record {
  connector = record s.client.connector {
    state = disconnected;
    retry_delay_ms = init_retry_delay_ms;
  };
  starts = 1;
  resetting = false;
}

restarting-IsSafe :
    (s : System)
    → IsServed s
    → s.client.connector.state ≡ connected
    → s.resetting ≡ false
    → Connector.Safety.IsSafe (restarting s)
unfolding restarting
restarting-IsSafe s v up quiet = record {
  one = omega arith;
  idle = λ h. refl;
  set = λ h. cc;
  unset = λ h k. v.cleared up quiet;
  low = omega arith;
  high = omega arith;
}

pub connected_of :
    (s : System) (conn : ℕ)
    → IsServed s
    → s.client.connection ≡ some conn
    → (s.client.connector.state ≡ connected) × (s.starts ≡ 0)
connected_of s conn v e = elim v.current [
  | inl f ↦ absurd (ground (arith, e, f))
  | inr f ↦ (f, ground (arith, f, v.safe.idle))
]

pub closing_retries :
    (s : System) (conn sockfd : ℕ) (errno : Errno)
    → IsServed s
    → Enabled s (closing conn sockfd errno)
    → s.client.retry && s.client.connect ≡ true
    → Returns IsServed (serve s (closing conn sockfd errno))
unfolding serve forget_connection reconnect restart Connector.World.serve restarting
closing_retries s conn sockfd errno v (e, quiet) again =
    let (up, none_left) = connected_of s conn v e in
    let (w, run, safe) =
      Connector.Safety.serve-IsSafe (restarting s) (Connector.World.starting sockfd errno)
        (restarting-IsSafe s v up quiet) (omega arith, refl) in
    let (r, step, f) = >>=-eq-ok (start_in_loop (restarting s).connector sockfd errno) _ run in
    let c : Client = record s.client { connection = none; connector = r.0 } in
    (
      note s.starts c [] r,
      ground (arith, e, again, step),
      note-IsServed s.starts c [] r
          (subst Connector.Safety.IsSafe
            (sym (cc f) ∙ ap (λ n. Connector.World.note n r) (sym none_left)) safe)
          (start_in_loop-attempts (restarting s).connector sockfd errno r step) refl,
    )

pub closing_rests :
    (s : System) (conn sockfd : ℕ) (errno : Errno)
    → IsServed s
    → Enabled s (closing conn sockfd errno)
    → s.client.retry && s.client.connect ≡ false
    → Returns IsServed (serve s (closing conn sockfd errno))
unfolding serve forget_connection reconnect note relay
closing_rests s conn sockfd errno v (e, quiet) rests =
    let (up, none_left) = connected_of s conn v e in
    (
      record {
        client = record s.client { connection = none };
        starts = s.starts + 0;
        resetting = false;
      },
      ground (arith, e, rests),
      record {
        safe = record {
          one = omega (arith, none_left);
          idle = λ h. absurd (omega (arith, none_left));
          set = λ h. cc (up, h);
          unset = λ h. cc (up, h);
          low = v.safe.low;
          high = v.safe.high;
        };
        current = inl refl;
        cleared = λ h k. v.cleared up quiet;
      },
    )
