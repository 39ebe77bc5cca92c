-- ===== src/EventLoop/Pending.antt =====
-- Every functor that is queued is called once, in the order of queueing.
use summer.Prelude.{
  ℕ, ◌≡◌, refl, sym, ap, ◌∙◌, arith, if◌then◌else◌, List, [], ◌∷◌, ◌++◌, append-nil, append_assoc,
  Option, none, some, Option-cases, inl, inr, map,
}
use summer.EventLoop.{
  Phase, outside, polling, handling, calling, Loop, Effect, queued, ran, called, wakeup,
  handle_read, queue_in_loop, run_in_loop, finish_run, set_quit, start_loop, swap_pending,
  end_round, Event, starts, tests, polled, reads, queues, runs, swaps, calls, ends, other_queues,
  other_runs, wakes, quits, step,
}

-- The functors that were called out of the list, and those that were put there.
abbrev pub all_ran : List Effect → List ℕ
all_ran [] = []
all_ran (ran f ∷ es) = f ∷ all_ran es
all_ran (queued f ∷ es) = all_ran es
all_ran (called f ∷ es) = all_ran es

abbrev pub all_queued : List Effect → List ℕ
all_queued [] = []
all_queued (ran f ∷ es) = all_queued es
all_queued (queued f ∷ es) = f ∷ all_queued es
all_queued (called f ∷ es) = all_queued es

-- What has still to be called: the rest of the swapped list, and the pending functors.
abbrev pub batch : Phase → List ℕ
batch (calling fs) = fs
batch _ = []

abbrev pub to_call : Loop → List ℕ
to_call l = batch l.phase ++ l.pending

-- A run of steps.
unfoldable pub run : Loop → List Event → Option (Loop × List Effect)
run l [] = some (l, [])
run l (e ∷ es) = elim (step l e) [
  | none ↦ none
  | some r ↦ elim (run r.0 es) [ none ↦ none | some s ↦ some (s.0, r.1 ++ s.1) ]
]

step-fifo :
    (l : Loop) (e : Event) (r : Loop × List Effect)
    → step l e ≡ some r
    → all_ran r.1 ++ to_call r.0 ≡ to_call l ++ all_queued r.1
unfolding step queue_in_loop run_in_loop finish_run wakeup handle_read set_quit start_loop
    swap_pending end_round
step-fifo l starts r h = ground (arith, h, append-nil l.pending)
step-fifo l tests r h = ground (arith, h, append-nil l.pending)
step-fifo l polled r h = ground (arith, h, append-nil l.pending)
step-fifo l reads r h = ground (arith, h, append-nil l.pending)
step-fifo l (queues f) r h = ground (arith, h, append_assoc (batch l.phase) l.pending (f ∷ []))
step-fifo l (runs f) r h = ground (arith, h, append-nil (to_call l))
step-fifo l swaps r h = ground (arith, h, append-nil l.pending)
step-fifo l calls r h = ground (arith, h, append-nil (to_call l))
step-fifo l ends r h = ground (arith, h, append-nil l.pending)
step-fifo l (other_queues f) r h =
    ground (arith, h, append_assoc (batch l.phase) l.pending (f ∷ []))
step-fifo l (other_runs f) r h = ground (arith, h, append_assoc (batch l.phase) l.pending (f ∷ []))
step-fifo l wakes r h = ground (arith, h, append-nil (to_call l))
step-fifo l quits r h = ground (arith, h, append-nil (to_call l))

all_ran-append : (xs ys : List Effect) → all_ran (xs ++ ys) ≡ all_ran xs ++ all_ran ys
all_ran-append [] ys = refl
all_ran-append (queued f ∷ xs) ys = all_ran-append xs ys
all_ran-append (ran f ∷ xs) ys = ap (◌∷◌ f) (all_ran-append xs ys)
all_ran-append (called f ∷ xs) ys = all_ran-append xs ys

all_queued-append : (xs ys : List Effect) → all_queued (xs ++ ys) ≡ all_queued xs ++ all_queued ys
all_queued-append [] ys = refl
all_queued-append (queued f ∷ xs) ys = ap (◌∷◌ f) (all_queued-append xs ys)
all_queued-append (ran f ∷ xs) ys = all_queued-append xs ys
all_queued-append (called f ∷ xs) ys = all_queued-append xs ys

-- A run that starts with a step is that step and the rest.
run_cons :
    (l : Loop) (e : Event) (es : List Event) (r : Loop × List Effect)
    → run l (e ∷ es) ≡ some r
    → (q : Loop × List Effect) × (step l e ≡ some q)
      × (s : Loop × List Effect) × (run q.0 es ≡ some s)
      × (r ≡ (s.0, q.1 ++ s.1))
unfolding run
run_cons l e es r h = elim (Option-cases (step l e)) [
  | inl n ↦ absurd (ground (arith, h, n))
  | inr (q, n) ↦ elim (Option-cases (run q.0 es)) [
    | inl m ↦ absurd (ground (arith, h, n, m))
    | inr (s, m) ↦ (q, n, s, m, ground (arith, h, n, m))
  ]
]

-- Whatever the threads do, the functors that the loop has called, followed by those that it has still
-- to call, are those that were to be called at first, followed by those that were queued: each functor
-- that is queued is called at most once, in the order of queueing, and none is lost.
pub run-fifo :
    (l : Loop) (es : List Event) (r : Loop × List Effect)
    → run l es ≡ some r
    → all_ran r.1 ++ to_call r.0 ≡ to_call l ++ all_queued r.1
unfolding run
run-fifo l [] r h = ground (arith, h, append-nil (to_call l))
run-fifo l (e ∷ es) r h =
    let (q, first, s, rest, split) = run_cons l e es r h in
    let a = step-fifo l e q first in
    let b = run-fifo q.0 es s rest in
    rw split (
      ap (λ t. t ++ to_call s.0) (all_ran-append q.1 s.1)
      ∙ append_assoc (all_ran q.1) (all_ran s.1) (to_call s.0)
      ∙ ap (◌++◌ (all_ran q.1)) b
      ∙ sym (append_assoc (all_ran q.1) (to_call q.0) (all_queued s.1))
      ∙ ap (λ t. t ++ all_queued s.1) a
      ∙ append_assoc (to_call l) (all_queued q.1) (all_queued s.1)
      ∙ ap (◌++◌ (to_call l)) (sym (all_queued-append q.1 s.1)))

-- The steps of `doPendingFunctor` behind the swap, with nobody else in between.
abbrev pub call_each : List ℕ → List Event
call_each [] = ends ∷ []
call_each (f ∷ fs) = calls ∷ call_each fs

call_all :
    (l : Loop) (fs : List ℕ)
    → run (record l { phase = calling fs }) (call_each fs)
      ≡ some (record l { phase = if l.quit then outside else polling }, map (λ f. ran f) fs)
unfolding run step end_round
call_all l [] = refl
call_all l (f ∷ fs) = rw (call_all l fs) refl

swap_step : (l : Loop) → l.phase ≡ handling → step l swaps ≡ some (swap_pending l, [])
unfolding step
swap_step l h = ground (arith, h)

-- `doPendingFunctor` ends: it calls every functor that is pending when it begins, once and in order,
-- and goes back to `poll`, or out of `loop` if `quit` was called.
pub run-pending :
    (l : Loop)
    → l.phase ≡ handling
    → run l (swaps ∷ call_each l.pending)
      ≡ some (
        record l { phase = if l.quit then outside else polling; pending = [] },
        map (λ f. ran f) l.pending,
      )
unfolding run swap_pending
run-pending l h = rw (run, swap_step l h, call_all (record l { pending = [] }) l.pending) refl
