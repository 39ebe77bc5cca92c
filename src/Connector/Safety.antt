-- ===== src/Connector/Safety.antt =====
-- The connector in its loop: no assertion fails and no empty pointer is used, whatever `connect`
-- answers and in whatever order the events come that can come.
use summer.Prelude.{
  ℕ, ◌+◌, ◌-◌, ◌≤◌, ◌<◌, ◌≡◌, refl, arith, ◌⊎◌, inl, inr, Bool, true, false, [], ◌∷◌, none, some,
  ok, Returns, of_returns,
}
use summer.Connector.{
  Connector, connected, connecting, disconnected, closed, removed, queued_reset, Errno, init,
  init_retry_delay_ms, max_retry_delay_ms, start_connecting, retry, on_connect, start_in_loop,
  remove_and_reset_channel, reset_channel, on_writable, handle_write, handle_error, is_none,
}
use summer.Connector.World.{
  World, Event, starting, writable, failing, failing_writable, resets, Enabled, note, serve,
  started,
}

-- At most one start is to come, and then the connector is idle; the channel is set while connecting
-- or until it is reset.
pub record IsSafe (w : World) : Type 0 where
  pub one : w.starts ≤ 1
  pub idle : 0 < w.starts → w.connector.state ≡ disconnected
  pub set :
      w.connector.state ≡ connecting → (w.resetting ≡ false) × (is_none w.connector.channel ≡ false)
  pub unset : w.connector.state ≡ disconnected → w.resetting ≡ false → w.connector.channel ≡ none
  pub low : init_retry_delay_ms ≤ w.connector.retry_delay_ms
  pub high : w.connector.retry_delay_ms ≤ max_retry_delay_ms

on_connect_cases :
    (c : Connector) (sockfd : ℕ) (errno : Errno)
    → (on_connect c sockfd errno ≡ start_connecting c sockfd)
      ⊎ (on_connect c sockfd errno ≡ ok (retry c sockfd))
      ⊎ (on_connect c sockfd errno ≡ ok (c, closed sockfd ∷ []))
unfolding on_connect
on_connect_cases c sockfd errno = ground arith

-- The new socket is watched, retried later or given up.
serve_starting :
    (w : World) (sockfd : ℕ) (errno : Errno)
    → IsSafe w
    → Enabled w (starting sockfd errno)
    → Returns IsSafe (serve w (starting sockfd errno))
unfolding serve start_in_loop
serve_starting w sockfd errno v (some_left, quiet) =
    elim (on_connect_cases w.connector sockfd errno) [
      | inl begins ↦ (
        record {
          connector = record w.connector { state = connecting; channel = some sockfd };
          starts = w.starts - 1 + 0;
          resetting = false;
        },
        unfold start_connecting in
            ground (arith, v.idle some_left, v.unset (v.idle some_left) quiet, begins),
        record {
          one = omega arith;
          idle = λ h. absurd (omega arith);
          set = λ h. (refl, refl);
          unset = λ h. cc;
          low = v.low;
          high = v.high;
        },
      )
      | inr (inl retries) ↦ (
        note (w.starts - 1) (retry w.connector sockfd),
        ground (arith, v.idle some_left, retries),
        unfold retry in
            record {
              one = omega arith;
              idle = λ h. refl;
              set = λ h. cc;
              unset = λ h k. v.unset (v.idle some_left) quiet;
              low = omega arith;
              high = omega arith;
            },
      )
      | inr (inr gives_up) ↦ (
        record w { starts = w.starts - 1 + 0; resetting = false },
        ground (arith, v.idle some_left, gives_up),
        record {
          one = omega arith;
          idle = λ h. absurd (omega arith);
          set = λ h. ground (arith, v.idle some_left);
          unset = λ h k. v.unset h quiet;
          low = v.low;
          high = v.high;
        },
      )
    ]

-- A connector that is connecting has its channel.
channel_of :
    (w : World)
    → IsSafe w
    → w.connector.state ≡ connecting
    → (sockfd : ℕ) × (w.connector.channel ≡ some sockfd)
channel_of w v e = ground (arith, v.set e)

no_starts : (w : World) → IsSafe w → w.connector.state ≡ connecting → w.starts ≡ 0
no_starts w v e = ground (arith, v.idle)

retried-IsSafe :
    (w : World) (sockfd : ℕ)
    → IsSafe w
    → w.connector.state ≡ connecting
    → IsSafe (
        note w.starts (
          (retry w.connector sockfd).0,
          removed sockfd ∷ queued_reset ∷ (retry w.connector sockfd).1,
        ))
unfolding retry
retried-IsSafe w sockfd v e = record {
  one = omega (arith, no_starts w v e);
  idle = λ h. refl;
  set = λ h. cc;
  unset = λ h k. cc;
  low = omega arith;
  high = omega arith;
}

serve_writable :
    (w : World) (self : Bool)
    → IsSafe w
    → Enabled w (writable self)
    → Returns IsSafe (serve w (writable self))
unfolding serve handle_write remove_and_reset_channel on_writable
serve_writable w true v (e, quiet) =
    let (sockfd, f) = channel_of w v e in
    (
      note w.starts (
        (retry w.connector sockfd).0,
        removed sockfd ∷ queued_reset ∷ (retry w.connector sockfd).1,
      ),
      rw (e, f) refl,
      retried-IsSafe w sockfd v e,
    )
serve_writable w false v (e, quiet) =
    let (sockfd, f) = channel_of w v e in
    (
      record {
        connector = record w.connector { state = connected };
        starts = w.starts + 0;
        resetting = true;
      },
      rw (e, f) refl,
      record {
        one = omega (arith, no_starts w v e);
        idle = λ h. absurd (omega (arith, no_starts w v e));
        set = λ h. cc;
        unset = λ h k. cc;
        low = v.low;
        high = v.high;
      },
    )

serve_failing : (w : World) → IsSafe w → Enabled w failing → Returns IsSafe (serve w failing)
unfolding serve handle_error remove_and_reset_channel
serve_failing w v (e, quiet) =
    let (sockfd, f) = channel_of w v e in
    (
      note w.starts (
        (retry w.connector sockfd).0,
        removed sockfd ∷ queued_reset ∷ (retry w.connector sockfd).1,
      ),
      rw (e, f) refl,
      retried-IsSafe w sockfd v e,
    )

-- Behind an error there is nothing to write: the connector is not connecting any more.
serve_failing_writable :
    (w : World) (self : Bool)
    → IsSafe w
    → Enabled w (failing_writable self)
    → Returns IsSafe (serve w (failing_writable self))
unfolding serve handle_error handle_write remove_and_reset_channel retry
serve_failing_writable w self v (e, quiet) =
    let (sockfd, f) = channel_of w v e in
    (
      note w.starts (
        (retry w.connector sockfd).0,
        removed sockfd ∷ queued_reset ∷ (retry w.connector sockfd).1,
      ),
      rw (e, f) refl,
      retried-IsSafe w sockfd v e,
    )

serve_resets : (w : World) → IsSafe w → Enabled w resets → Returns IsSafe (serve w resets)
unfolding serve reset_channel
serve_resets w v h = (
  record w { connector = record w.connector { channel = none }; resetting = false },
  refl,
  record {
    one = v.one;
    idle = v.idle;
    set = λ e. cc ((v.set e).0);
    unset = λ e k. refl;
    low = v.low;
    high = v.high;
  },
)

-- In a safe world every event that can come is served: no assertion fails, the channel is there
-- where it is used, and the world is safe again.
pub serve-IsSafe : (w : World) (e : Event) → IsSafe w → Enabled w e → Returns IsSafe (serve w e)
serve-IsSafe w (starting sockfd errno) v h = serve_starting w sockfd errno v h
serve-IsSafe w (writable self) v h = serve_writable w self v h
serve-IsSafe w failing v h = serve_failing w v h
serve-IsSafe w (failing_writable self) v h = serve_failing_writable w self v h
serve-IsSafe w resets v h = serve_resets w v h

-- The worlds that a connector gets into.
pub data Reach (w : World) : World → Type 0 where
  here : Reach w w
  next : {u t : World} → Reach w u → (e : Event) → Enabled u e → serve u e ≡ ok t → Reach w t

started-IsSafe : IsSafe started
unfolding started init
started-IsSafe = record {
  one = omega arith;
  idle = λ h. refl;
  set = λ h. cc;
  unset = λ h k. refl;
  low = omega arith;
  high = omega arith;
}

-- Whatever has happened to a started connector, each event that can come next is served without a
-- failed assertion or a use of the empty pointer; at most one call of `startInLoop` is to come, and
-- the retry delay lies between its bounds.
pub Reach-served :
    {w : World} (e : Event) → Reach started w → Enabled w e → Returns IsSafe (serve w e) × IsSafe w
Reach-served {w} e r h = (serve-IsSafe w e safe h, safe)
  where
    reached : {u : World} → Reach started u → IsSafe u
    reached here = started-IsSafe
    reached (next {u} {t} q f k run) = of_returns t (serve-IsSafe u f (reached q) k) run

    safe : IsSafe w
    safe = reached r
