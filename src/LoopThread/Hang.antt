-- ===== src/LoopThread/Hang.antt =====
-- The destructor and a loop that has not begun yet.
use summer.Prelude.{
  ◌≡◌, ◌≢◌, refl, subst, arith, inl, inr, true, false, List, [], ◌∷◌, some, Option-cases,
}
use summer.LoopThread.{
  nobody, joining, looping, finished, LoopThread, init, Event, starts, locks, tests, unlocks, reads,
  destroys, quits, thread_locks, sets, notifies, thread_unlocks, enters, start_loop, caller_step,
  thread_step, step, Reach, here, next,
}
use summer.LoopThread.Invariant.{IsQuiet}
use summer.LoopThread.Start.{run, Reach-stuck}

abbrev pub AllQuiet : List Event → Type 0
AllQuiet [] = Unit {0}
AllQuiet (e ∷ es) = IsQuiet e × AllQuiet es

run_cases :
    (s t : LoopThread) (e : Event) (es : List Event)
    → run s (e ∷ es) ≡ some t
    → (u : LoopThread) × (step s e ≡ some u) × (run u es ≡ some t)
run_cases s t e es h = elim (Option-cases (step s e)) [
  | inl f ↦ absurd (ground (arith, f, h))
  | inr (u, f) ↦ (u, f, ground (arith, f, h))
]

-- A run is a way to its end.
pub run-Reach :
    {r : LoopThread} (s t : LoopThread) (es : List Event)
    → Reach IsQuiet r s
    → AllQuiet es
    → run s es ≡ some t
    → Reach IsQuiet r t
run-Reach {r} s t [] q quiet h = subst (Reach IsQuiet r) (cc h) q
run-Reach {r} s t (e ∷ es) q (quiet, later) h =
    let (u, f, g) = run_cases s t e es h in run-Reach u t es (next q e quiet f) later g

-- The thread is started, and the result of `startLoop` is taken; then the object is destroyed before the
-- thread comes to `loop`.
abbrev pub hurried : List Event
hurried =
    starts ∷ thread_locks ∷ sets ∷ notifies ∷ thread_unlocks ∷ locks ∷ tests ∷ unlocks ∷ reads
    ∷ destroys ∷ quits ∷ enters ∷ []

abbrev pub hanging : LoopThread
hanging = record {
  caller = joining;
  thread = looping;
  owner = nobody;
  loop = true;
  quit = false;
  started = true;
  exiting = true;
}

hurried-quiet : AllQuiet hurried
hurried-quiet = ground arith

hanging-Reach : Reach IsQuiet init hanging
unfolding init step caller_step thread_step start_loop
hanging-Reach = run-Reach init hanging hurried here hurried-quiet refl

-- There is a run of `startLoop`, the destructor and `threadFunc` behind which, as long as nobody else
-- quits the loop, the destructor waits in `join` for good: `loop` resets `quit_` after the destructor
-- has set it.
pub destructor_hangs :
    (s : LoopThread) × Reach IsQuiet init s
    × ((t : LoopThread) → Reach IsQuiet s t → (t.caller ≡ joining) × (t.thread ≢ finished))
destructor_hangs = (hanging, hanging-Reach, λ t r. ground (arith, Reach-stuck (refl, refl, refl) r))
