-- ===== src/EventLoop/Tests.antt =====
-- Runs of the loop, and the theorems about them.
use summer.Prelude.{
  ℕ, none, ok, ◌↔◌, ◌>>=◌, Returns, arith, ◌<◌, ◌≡◌, ◌⊎◌, refl, true, false, List, [], ◌∷◌, ◌++◌,
  some,
}
use summer.EventLoop.{
  polling, handling, calling, Loop, init, Effect, queued, ran, wakeup, queue_in_loop, run_in_loop,
  start_loop, end_round, finish_run, tests, wakes, swap_pending, starts, polled, queues, swaps,
  calls, other_queues, other_runs, step, Event,
}
use summer.EventLoop.Pending.{all_ran, all_queued, to_call, run, run-fifo}
use summer.EventLoop.Wakeups.{Reach, here, next, Reach-told}
use summer.EventLoop.Owners
use summer.EventLoop.Owners.{
  Loops, none_built, builds, build, create_eventfd, get_event_of_current_thread,
  assert_in_loop_thread,
}
use summer.EventLoop.Single.{Reach-single}
use summer.TimerQueue
use summer.TimerQueue.{TimerQueue, next_expired, uintptr_max}
use summer.TimerQueue.Invariant.{init-IsValid}
use summer.EventLoop.Timers.{run_after, run_every, run_at, cancel_timer, Restored, cancel_timer-run}

abbrev events : List Event
events = starts ∷ tests ∷ other_runs 1 ∷ wakes ∷ polled ∷ queues 2 ∷ swaps ∷ calls ∷ queues 3 ∷ []

-- Functor 1 has run, 2 is to run in this round, and 3 in the next.
abbrev busy : Loop × List Effect
busy = (
  record { phase = calling (2 ∷ []); quit = false; pending = 3 ∷ []; wakeups = 2; waking = 0 },
  queued 1 ∷ queued 2 ∷ ran 1 ∷ queued 3 ∷ [],
)

busy-run : run init events ≡ some busy
unfolding run init step start_loop end_round finish_run run_in_loop queue_in_loop wakeup
    swap_pending
busy-run = refl

run-fifo_example : all_ran busy.1 ++ to_call busy.0 ≡ to_call init ++ all_queued busy.1
run-fifo_example = run-fifo init events busy busy-run

abbrev ready : Loop
ready = record { phase = handling; quit = true; pending = 4 ∷ 5 ∷ []; wakeups = 0; waking = 0 }

-- Another thread has queued functor 1, and has still to write.
abbrev told : Loop
told = record { phase = polling; quit = false; pending = 1 ∷ []; wakeups = 0; waking = 1 }

told-Reach : Reach init told
unfolding init step start_loop end_round run_in_loop queue_in_loop wakeup
told-Reach =
    next {m = record init { phase = polling }}
      (next (next here starts (start_loop init, []) tt refl) tests
        (record init { phase = polling }, []) tt refl)
      (other_runs 1) (told, queued 1 ∷ []) tt refl

Reach-told_example :
    (told.pending ≡ [])
    ⊎ (0 < told.wakeups)
    ⊎ (r : Loop × List Effect) × (step told wakes ≡ some r)
      × (r.0.phase ≡ polling)
      × (r.0.pending ≡ told.pending)
      × (0 < r.0.wakeups)
Reach-told_example = Reach-told told-Reach refl

-- A functor that another thread queues while the loop waits goes untold.
untold :
    run init (starts ∷ tests ∷ other_queues 1 ∷ [])
    ≡ some (
      record { phase = polling; quit = false; pending = 1 ∷ []; wakeups = 0; waking = 0 },
      queued 1 ∷ [],
    )
unfolding run init step start_loop end_round queue_in_loop
untold = refl

-- Thread 4 has built loop 0.
abbrev one_loop : Loops
one_loop = record {
  next = 1;
  owner = Owners.set (λ l. none) 0 (some 4);
  slot = Owners.set (λ t. none) 4 (some 0);
}

one_loop-Reach : Owners.Reach none_built one_loop
unfolding none_built build create_eventfd
one_loop-Reach = Owners.next {t = none_built} Owners.here (builds 4 true) tt refl

Reach-single_example :
    (get_event_of_current_thread one_loop 4 ≡ some 0)
    × ((other : ℕ) → one_loop.owner other ≡ some 4 → other ≡ 0)
    × ((current : ℕ) → (assert_in_loop_thread one_loop 0 current ≡ ok tt) ↔ (current ≡ 4))
Reach-single_example = Reach-single 0 4 one_loop-Reach refl

cancel_timer-run_example :
    Returns
      (Restored TimerQueue.init)
      (do r ← run_after TimerQueue.init 5 1 100 20; cancel_timer r.0 (5, 1))
    × Returns
        (Restored TimerQueue.init)
        (do r ← run_every TimerQueue.init 5 1 100 20 true; cancel_timer r.0 (5, 1))
    × Returns
        (Restored TimerQueue.init)
        (do r ← run_at TimerQueue.init 5 1 100; cancel_timer r.0 (5, 1))
cancel_timer-run_example =
    cancel_timer-run TimerQueue.init 5 1 100 20 true init-IsValid (unfold TimerQueue.init in refl)
      (unfold uintptr_max in omega arith)
