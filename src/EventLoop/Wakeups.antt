-- ===== src/EventLoop/Wakeups.antt =====
-- When the loop waits in `poll`, its wake-up descriptor tells of the functors that are pending, or is
-- about to.
use summer.Prelude.{◌<◌, ◌≡◌, ◌≢◌, ◌⊎◌, refl, arith, inl, inr, List, [], some}
use summer.EventLoop.{
  outside, polling, handling, Loop, init, Effect, wakeup, handle_read, queue_in_loop, run_in_loop,
  finish_run, set_quit, start_loop, swap_pending, end_round, Event, starts, tests, polled, reads,
  queues, runs, swaps, calls, ends, other_queues, other_runs, wakes, quits, step,
}

-- No other thread calls `queueInLoop`, and the loop's thread does so only within `loop`.
abbrev pub Allowed : Loop → Event → Type 0
Allowed l (queues f) = l.phase ≢ outside
Allowed l (other_queues f) = ⊥
Allowed l _ = Unit {0}

-- The handlers come before the pending functors, so that nothing need be told while they run. Else a
-- thread that has queued a functor has written, or has it still to do.
abbrev pub Told : Loop → Type 0
Told l = (l.phase ≡ handling) ⊎ (l.pending ≡ []) ⊎ (0 < l.wakeups) ⊎ (0 < l.waking)

step-Told :
    (l : Loop) (e : Event) (r : Loop × List Effect)
    → Told l
    → Allowed l e
    → step l e ≡ some r
    → Told r.0
unfolding step queue_in_loop run_in_loop finish_run wakeup handle_read set_quit start_loop
    swap_pending end_round
step-Told l starts r t a h = ground (arith, t, h)
step-Told l tests r t a h = ground (arith, t, h)
step-Told l polled r t a h = ground (arith, t, h)
step-Told l reads r t a h = ground (arith, t, h)
step-Told l (queues f) r t a h = ground (arith, t, a, h)
step-Told l (runs f) r t a h = ground (arith, t, h)
step-Told l swaps r t a h = ground (arith, t, h)
step-Told l calls r t a h = ground (arith, t, h)
step-Told l ends r t a h = ground (arith, t, h)
step-Told l (other_queues f) r t a h = absurd a
step-Told l (other_runs f) r t a h = ground (arith, t, h)
step-Told l wakes r t a h = ground (arith, t, h)
step-Told l quits r t a h = ground (arith, t, h)

-- The loops that steps of this kind lead to.
pub data Reach (l : Loop) : Loop → Type 0 where
  here : Reach l l
  next :
      {m : Loop}
      → Reach l m
      → (e : Event) (r : Loop × List Effect) → Allowed m e
      → step m e ≡ some r
      → Reach l r.0

-- As long as other threads use `runInLoop` and not `queueInLoop`, and the loop's thread does not queue
-- before `loop`, a loop that waits in `poll` while a functor is pending has its wake-up descriptor
-- readable, so that `poll` returns at once, or another thread is on its way from `queueInLoop` to
-- `wakeup`, and its next step makes the descriptor readable.
pub Reach-told :
    {l : Loop}
    → Reach init l
    → l.phase ≡ polling
    → (l.pending ≡ [])
      ⊎ (0 < l.wakeups)
      ⊎ (r : Loop × List Effect) × (step l wakes ≡ some r)
        × (r.0.phase ≡ polling)
        × (r.0.pending ≡ l.pending)
        × (0 < r.0.wakeups)
unfolding init step finish_run wakeup
Reach-told {l} r h = elim (told r) [
  | inl e ↦ absurd (ground (arith, e, h))
  | inr (inl none_pending) ↦ inl none_pending
  | inr (inr (inl readable)) ↦ inr (inl readable)
  | inr (inr (inr some_waking)) ↦
      inr (inr ((finish_run l, []), ground (arith, some_waking), h, refl, ground arith))
]
  where
    told : {m : Loop} → Reach init m → Told m
    told here = inr (inl refl)
    told (next {m} q e s a f) = step-Told m e s (told q) a f
