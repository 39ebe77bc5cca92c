-- ===== src/Connector/World.antt =====
-- The connector in its loop: what is to come, and how an event is served.
use summer.Prelude.{
  ℕ, suc, ◌+◌, ◌-◌, ◌<◌, ◌≡◌, Bool, true, false, List, [], ◌∷◌, ◌++◌, Outcome, ok, ◌>>=◌,
}
use summer.Connector.{
  Connector, connecting, Effect, scheduled, queued_reset, Errno, init, start_in_loop, reset_channel,
  handle_write, handle_error,
}

-- The connector with what the loop keeps for it: how many calls of `startInLoop` are to come, and
-- whether `resetChannel` is in the queue.
pub record World : Type 0 where
  pub connector : Connector
  pub starts : ℕ
  pub resetting : Bool

pub data Event : Type 0 where
  starting : ℕ → Errno → Event
  writable : Bool → Event
  failing : Event
  -- one `handleEvent` for POLLERR and POLLOUT: `handleError`, and then `handleWrite`
  failing_writable : Bool → Event
  resets : Event

-- The functors in the queue run before the loop polls again, so a timer or the descriptor is served
-- only when `resetChannel` is not in the queue; the descriptor is watched while connecting.
abbrev pub Enabled : World → Event → Type 0
Enabled w (starting sockfd errno) = (0 < w.starts) × (w.resetting ≡ false)
Enabled w (writable self) = (w.connector.state ≡ connecting) × (w.resetting ≡ false)
Enabled w failing = (w.connector.state ≡ connecting) × (w.resetting ≡ false)
Enabled w (failing_writable self) = (w.connector.state ≡ connecting) × (w.resetting ≡ false)
Enabled w resets = w.resetting ≡ true

abbrev pub count_starts : List Effect → ℕ
count_starts [] = 0
count_starts (scheduled d ∷ es) = suc (count_starts es)
count_starts (_ ∷ es) = count_starts es

abbrev pub is_reset : List Effect → Bool
is_reset [] = false
is_reset (queued_reset ∷ es) = true
is_reset (_ ∷ es) = is_reset es

-- The loop takes note of what a handler did; `n` calls of `startInLoop` were left before.
abbrev pub note : ℕ → Connector × List Effect → World
note n r = record { connector = r.0; starts = n + count_starts r.1; resetting = is_reset r.1 }

unfoldable pub serve : World → Event → Outcome World
serve w (starting sockfd errno) = do
  r ← start_in_loop w.connector sockfd errno
  ok (note (w.starts - 1) r)
serve w (writable self) = do r ← handle_write w.connector self; ok (note w.starts r)
serve w failing = do r ← handle_error w.connector; ok (note w.starts r)
serve w (failing_writable self) = do
  r ← handle_error w.connector
  r' ← handle_write r.0 self
  ok (note w.starts (r'.0, r.1 ++ r'.1))
serve w resets = ok (record w { connector = reset_channel w.connector; resetting = false })

-- `start` of a new connector, with its call of `startInLoop` still to come.
unfoldable pub started : World
started = record { connector = init; starts = 1; resetting = false }
