-- ===== src/Channel/Dispatch.antt =====
-- `handleEvent`: which callbacks run for which events.
use summer.Prelude.{ℕ, suc, ◌≤◌, true, false, ◌≡◌, ◌⊎◌, List, [], ◌∷◌, arith}
use summer.Channel.{Channel, Callback, close, error, read, write, handle_event}

abbrev pub Calls : Callback → List Callback → Type 0
Calls c [] = ⊥
Calls c (x ∷ xs) = (x ≡ c) ⊎ Calls c xs

-- A peer that hung up with nothing left to read is closed and not read.
pub handle_event-hangup :
    (c : Channel)
    → c.revents.pollhup ≡ true
    → c.revents.pollin ≡ false
    → c.revents.pollpri ≡ false
    → c.revents.pollrdhup ≡ false
    → c.has_close ≡ true
    → Calls close (handle_event c).0 × ¬ Calls read (handle_event c).0
unfolding handle_event
handle_event-hangup c h i p r k = ground arith

abbrev pub rank : Callback → ℕ
rank close = 0
rank error = 1
rank read = 2
rank write = 3

-- The callbacks come in the order of `rank`, and none comes twice.
abbrev pub Ascending : ℕ → List Callback → Type 0
Ascending n [] = Unit {0}
Ascending n (x ∷ xs) = (n ≤ rank x) × Ascending (suc (rank x)) xs

-- Whatever happened on the descriptor, the callbacks run in the order close, error, read, write,
-- each at most once, and the mark that an event is being handled is off afterwards.
pub handle_event-Ascending :
    (c : Channel)
    → Ascending 0 (handle_event c).0 × ((handle_event c).1 ≡ record c { event_handling = false })
unfolding handle_event
handle_event-Ascending c = ground arith

-- A descriptor whose peer hung up while input waits is read and not closed.
pub handle_event-read_first :
    (c : Channel)
    → c.revents.pollhup ≡ true
    → c.revents.pollin ≡ true
    → c.has_read ≡ true
    → Calls read (handle_event c).0 × ¬ Calls close (handle_event c).0
unfolding handle_event
handle_event-read_first c h i r = ground arith
