-- ===== src/EventLoop/Timers.antt =====
-- The calls of an event loop that set and cancel timers, in the loop's thread.
use summer.Prelude.{
  ℕ, ◌<◌, ◌≡◌, ap, ◌∙◌, not, ◌&&◌, ◌||◌, arith, Bool, true, false, List, none, Outcome, ◌>>=◌,
  Returns,
}
use summer.Prelude.Pairs.{Pair, same_pair, has}
use summer.TimerQueue.{Timer, TimerQueue, Effect, add_time, add_timer, cancel_in_loop, uintptr_max}
use summer.TimerQueue.Invariant.{IsValid, unallocated-IsIdle}
use summer.TimerQueue.Calls.{add_timer_lem, cancel_in_loop_lem}

-- The constructor of a timer, with the number that `numCreated_` gives it. The `double` interval is given
-- by its microseconds and by whether it is above 0, which it may be below one microsecond.
unfoldable pub new_timer : ℕ → ℕ → Bool → ℕ → Timer
new_timer when interval positive sequence = record {
  expiration = when;
  repeat = positive;
  delay = interval;
  sequence = sequence;
}

module _ (q : TimerQueue) (timer sequence : ℕ) where
  unfoldable pub run_at : ℕ → Outcome (TimerQueue × List Effect)
  run_at when = add_timer q timer (new_timer when 0 false sequence)

  unfoldable pub run_after : ℕ → ℕ → Outcome (TimerQueue × List Effect)
  run_after now delay = run_at (add_time now delay)

  unfoldable pub run_every : ℕ → ℕ → Bool → Outcome (TimerQueue × List Effect)
  run_every now interval positive =
      add_timer q timer (new_timer (add_time now interval) interval positive sequence)

unfoldable pub cancel_timer : TimerQueue → Pair → Outcome TimerQueue
cancel_timer q id = cancel_in_loop q id

-- The sets are valid, and the active timers and what is allocated as they were.
abbrev pub Restored : TimerQueue → TimerQueue → Type 0
Restored q u =
    IsValid u × ((d : Pair) → has d u.active ≡ has d q.active) × ((k : ℕ) → u.heap k ≡ q.heap k)

taken_off : (a b : Bool) → (a ≡ true → b ≡ false) → (not a && (a || b)) ≡ b
taken_off a b h = ground (arith, h)

unlisted :
    (q : TimerQueue) (timer sequence : ℕ) (d : Pair)
    → IsValid q
    → q.heap timer ≡ none
    → same_pair d (timer, sequence) ≡ true
    → has d q.active ≡ false
unlisted q timer sequence (other, number) v e h =
    let same : other ≡ timer = ground (arith, h) in
    ap (λ k. has (k, number) q.active) same ∙ unallocated-IsIdle q timer v e number

cancelled_after :
    (q : TimerQueue) (timer : ℕ) (t : Timer)
    → IsValid q
    → q.heap timer ≡ none
    → timer < uintptr_max
    → Returns (Restored q) (do r ← add_timer q timer t; cancel_timer r.0 (timer, t.sequence))
unfolding cancel_timer
cancelled_after q timer t v e small =
    let (r, run, (valid, timers, active, heap, rearmed)) = add_timer_lem q timer t v e small in
    let (u, done, (valid', idle, heap', active')) =
      cancel_in_loop_lem r.0 timer t.sequence valid (ground (arith, active (timer, t.sequence))) in
    (
      u,
      rw run done,
      (
        valid',
        λ d.
            active' d
            ∙ ap (λ b. not (same_pair d (timer, t.sequence)) && b) (active d)
            ∙ taken_off (same_pair d (timer, t.sequence)) (has d q.active)
                (unlisted q timer t.sequence d v e),
        λ k. ground (arith, heap k, heap' k, e),
      ),
    )

-- On valid sets, where nothing is allocated, a timer that is set to run after a delay, every so often, or
-- at a time, and is cancelled with its number, leaves the active timers and what is allocated as they were,
-- and the sets valid.
pub cancel_timer-run :
    (q : TimerQueue) (timer sequence now delay : ℕ) (positive : Bool)
    → IsValid q
    → q.heap timer ≡ none
    → timer < uintptr_max
    → Returns
        (Restored q)
        (do r ← run_after q timer sequence now delay; cancel_timer r.0 (timer, sequence))
      × Returns
          (Restored q)
          (do r ← run_every q timer sequence now delay positive; cancel_timer r.0 (timer, sequence))
      × Returns
          (Restored q)
          (do r ← run_at q timer sequence now; cancel_timer r.0 (timer, sequence))
unfolding run_at run_after run_every new_timer
cancel_timer-run q timer sequence now delay positive v e small = (
  cancelled_after q timer (new_timer (add_time now delay) 0 false sequence) v e small,
  cancelled_after q timer (new_timer (add_time now delay) delay positive sequence) v e small,
  cancelled_after q timer (new_timer now 0 false sequence) v e small,
)
