-- ===== src/TimerQueue/Tests.antt =====
-- Runs of the timers, and the theorems about them.
use summer.Prelude.{
  ℤ, pos, negsuc, ◌+◌, ◌-◌, ◌*◌, ◌==◌, ℕ, ◌<◌, ◌≡◌, refl, arith, true, false, ◌||◌, ltb,
  if◌then◌else◌, List, [], ◌∷◌, ◌++◌, some, ok, invalid, Returns, of_returns,
}
use summer.Prelude.Pairs.{Pair, same_pair, has, put, delete}
use summer.TimerQueue.{
  Timer, TimerQueue, Effect, armed, store, init, uintptr_max, before, from, erase_active,
  cancel_in_loop, get_expired, reset, next_expired, Call, adding, handle_read, restart,
}
use summer.TimerQueue.Invariant.{IsValid, init-IsValid, store-IsValid, inserted, inserted-IsValid}
use summer.TimerQueue.Cancelling.{cancel_in_loop-expired}
use summer.TimerQueue.Expiry.{Due, Later, Idle, get_expired_lem}
use summer.TimerQueue.Reset.{rescheduled, settled, reset_lem}
use summer.TimerQueue.Callbacks.{RunsAllowed, handle_read_lem}
use summer.TimerQueue.Arming
use summer.TimerQueue.Arming.{Timespec, reset_timerfd, reset_timerfd-arms}

small : (n : ℕ) → n < 100 → n < uintptr_max
unfolding uintptr_max
small n h = omega arith

abbrev ticking : Timer
ticking = record { expiration = 100; repeat = true; delay = 50; sequence = 1 }

abbrev late : Timer
late = record { expiration = 300; repeat = false; delay = 0; sequence = 2 }

-- A repeating timer stands in the queue.
abbrev queue : TimerQueue
queue = inserted (store init 7 (some ticking)) 7 ticking

queue-IsValid : IsValid queue
unfolding init has
queue-IsValid =
    inserted-IsValid (store init 7 (some ticking)) 7 ticking
      (store-IsValid init 7 (some ticking) init-IsValid (λ s. refl)) refl (λ s. refl)
      (small 7 (omega arith))

-- The timer has left the sets.
abbrev running : TimerQueue
running = store init 7 (some ticking)

-- The timer has expired, and its callback cancels it.
expired_now : get_expired queue 120 ≡ ok ((100, 7) ∷ [], running)
unfolding get_expired before from erase_active init has put delete uintptr_max
expired_now = refl

cancel_in_loop-expired_example :
    cancel_in_loop (record running { doing_expired = true; cancelled = [] }) (7, 1) ≡ invalid
unfolding has
cancel_in_loop-expired_example =
    cancel_in_loop-expired queue 120 ((100, 7) ∷ [], running) 100 7 1 queue-IsValid expired_now refl

get_expired_example :
    Returns
      (λ r.
        IsValid r.1
        × (r.0 ++ r.1.timers ≡ queue.timers)
        × Due 120 r.0
        × Later 120 r.1.timers
        × Idle r.1 r.0)
      (get_expired queue 120)
get_expired_example = get_expired_lem queue 120 queue-IsValid

reset_example :
    Returns
      (λ r.
        IsValid r.0
        × ((d : Pair)
            → has d r.0.timers
              ≡ (rescheduled running 120 ((100, 7) ∷ []) d || has d running.timers))
        × ((k : ℕ) → r.0.heap k ≡ settled running 120 ((100, 7) ∷ []) k)
        × (r.1 ≡ (
            if ltb 0 (next_expired r.0.timers) then armed (next_expired r.0.timers) ∷ [] else [])))
      (reset running ((100, 7) ∷ []) 120)
unfolding init has
reset_example =
    reset_lem running 120 ((100, 7) ∷ [])
      (store-IsValid init 7 (some ticking) init-IsValid (λ s. refl))
      ((ticking, refl, refl), small 7 (omega arith), (λ s. refl), tt, tt)

starts_again : (d : Pair) → rescheduled running 120 ((100, 7) ∷ []) d ≡ same_pair d (170, 7)
unfolding init restart has
starts_again d = ground arith

-- The callback adds a timer that fires once.
abbrev callback : ℕ → List Call
callback timer = adding 8 late ∷ []

abbrev started : List Pair × TimerQueue → TimerQueue
started r = record r.1 { doing_expired = true; cancelled = [] }

allowed :
    (r : List Pair × TimerQueue)
    → get_expired queue 120 ≡ ok r
    → RunsAllowed callback (started r) r.0
unfolding get_expired init put before from erase_active has uintptr_max delete
allowed r e =
    of_returns {P = λ r. RunsAllowed callback (started r) r.0} r
      (((100, 7) ∷ [], running), refl, (((refl, small 8 (omega arith)), λ s f. tt), λ s f. tt)) e

handle_read_example :
    Returns
      (λ r.
        IsValid r.0
        × ((es : List Effect) × (r.1
              ≡ es
                ++ (if ltb 0 (next_expired r.0.timers)
                    then armed (next_expired r.0.timers) ∷ []
                    else []))))
      (handle_read callback queue 120)
handle_read_example = handle_read_lem callback queue 120 queue-IsValid allowed

-- A descriptor as its manual says.
abbrev settime : ℤ → ℤ → Arming.Armed
settime (pos sec) (pos nsec) =
    if 0 == sec + nsec
    then Arming.disarmed
    else if ltb nsec 1000000000
    then Arming.armed (sec * 1000000000 + nsec)
    else Arming.refused
settime (negsuc sec) nsec = Arming.refused
settime (pos sec) (negsuc nsec) = Arming.refused

settime-IsDocumented : Arming.IsDocumented (λ ts. settime ts.tv_sec ts.tv_nsec)
settime-IsDocumented = record {
  positive = λ sec nsec h k. ground arith;
  nothing = refl;
  negative_sec = λ sec nsec. refl;
  negative_nsec = λ sec nsec. ground arith;
}

abbrev present : ℕ
present = 90

abbrev soon : ℕ
soon = 100

reset_timerfd-arms_example :
    (present < soon
      → reset_timerfd (λ ts. settime ts.tv_sec ts.tv_nsec) present soon
        ≡ Arming.armed ((soon - present) * 1000))
    × (soon ≡ present
        → reset_timerfd (λ ts. settime ts.tv_sec ts.tv_nsec) present soon ≡ Arming.disarmed)
    × (soon < present
        → reset_timerfd (λ ts. settime ts.tv_sec ts.tv_nsec) present soon ≡ Arming.refused)
reset_timerfd-arms_example =
    reset_timerfd-arms (λ ts. settime ts.tv_sec ts.tv_nsec) settime-IsDocumented present soon
