-- ===== src/TimerQueue/Cancelling.antt =====
-- `cancel` of a timer while its callback runs.
use summer.Prelude.{
  ℕ, ◌≡◌, arith, true, Bool-cases, inl, inr, List, [], ◌∷◌, ok, invalid, of_returns,
}
use summer.Prelude.Pairs.{Pair, same_pair, has}
use summer.TimerQueue.{TimerQueue, cancel_in_loop, get_expired}
use summer.TimerQueue.Invariant.{IsValid, IsIdle}
use summer.TimerQueue.Calls.{cancel_in_loop-invalid}
use summer.TimerQueue.Expiry.{Idle, get_expired_lem}

-- A timer of the list is in neither set.
Idle-IsIdle :
    (q : TimerQueue) (es : List Pair) (when timer : ℕ)
    → Idle q es
    → has (when, timer) es ≡ true
    → IsIdle q timer
unfolding has
Idle-IsIdle q [] when timer i h = absurd (ground (arith, h))
Idle-IsIdle q ((first, other) ∷ es) when timer (t, small, idle, absent, rest) h =
    elim (Bool-cases (same_pair (when, timer) (first, other))) [
      | inl same ↦ λ s. ground (arith, idle s, same)
      | inr others ↦ Idle-IsIdle q es when timer rest (ground (arith, h, others))
    ]

-- On valid sets, when `getExpired` has returned, a timer that has expired and is cancelled from the
-- callbacks, before any of them changes the sets, by whatever number, is no longer active, so that
-- `cancelInLoop` reads through the end of the set: it never notes the timer in `cancelTimers_`.
pub cancel_in_loop-expired :
    (q : TimerQueue) (now : ℕ) (r : List Pair × TimerQueue) (when timer sequence : ℕ)
    → IsValid q
    → get_expired q now ≡ ok r
    → has (when, timer) r.0 ≡ true
    → cancel_in_loop (record r.1 { doing_expired = true; cancelled = [] }) (timer, sequence)
      ≡ invalid
cancel_in_loop-expired q now r when timer sequence v run h =
    let (w, parts, due, later, idle) = of_returns r (get_expired_lem q now v) run in
    cancel_in_loop-invalid (record r.1 { doing_expired = true; cancelled = [] }) (timer, sequence)
      (record {
        timers_sorted = w.timers_sorted;
        active_sorted = w.active_sorted;
        sized = w.sized;
        filed = w.filed;
        named = w.named;
      })
      (Idle-IsIdle r.1 r.0 when timer idle h sequence)
