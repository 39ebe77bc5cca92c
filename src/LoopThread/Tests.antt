-- ===== src/LoopThread/Tests.antt =====
-- Runs of a thread with its loop, and the theorems about them.
use summer.Prelude.{◌≡◌, ◌≢◌, refl, Bool, true, false, [], ◌∷◌, some}
use summer.LoopThread.{
  nobody, starting, holding, joined, crashed, entering, finished, LoopThread, init, starts, locks,
  tests, unlocks, reads, thread_locks, sets, notifies, thread_unlocks, enters, ends, clears,
  other_quits, start_loop, caller_step, thread_step, step, Reach, here,
}
use summer.LoopThread.Invariant.{IsQuiet}
use summer.LoopThread.Start.{run, Reach-holding, start_loop-returns}
use summer.LoopThread.Hang.{run-Reach}

-- The loop is there, and the caller has not looked for it yet.
abbrev ready_loop : LoopThread
ready_loop = record {
  caller = starting;
  thread = entering;
  owner = nobody;
  loop = true;
  quit = false;
  started = true;
  exiting = false;
}

ready_loop-Reach : Reach IsQuiet init ready_loop
unfolding init step caller_step thread_step start_loop
ready_loop-Reach =
    run-Reach init ready_loop (starts ∷ thread_locks ∷ sets ∷ notifies ∷ thread_unlocks ∷ []) here
      (tt, (tt, (tt, (tt, (tt, tt))))) refl

start_loop-returns_example :
    run ready_loop (locks ∷ tests ∷ unlocks ∷ reads ∷ [])
    ≡ some (record ready_loop { caller = holding true })
start_loop-returns_example = start_loop-returns ready_loop-Reach refl refl refl

Reach-holding_example :
    ((b : Bool) → ready_loop.caller ≡ holding b → b ≡ true)
    × (ready_loop.caller ≢ crashed)
    × (ready_loop.caller ≡ joined → ready_loop.thread ≡ finished)
Reach-holding_example = Reach-holding ready_loop-Reach

-- When somebody else quits the loop early, `startLoop` reads `loop_` behind the lock and returns NULL.
returns_null :
    run ready_loop (locks ∷ tests ∷ unlocks ∷ enters ∷ other_quits ∷ ends ∷ clears ∷ reads ∷ [])
    ≡ some
        (record ready_loop { caller = holding false; thread = finished; loop = false; quit = true })
unfolding step caller_step thread_step
returns_null = refl
