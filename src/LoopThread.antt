-- ===== src/LoopThread.antt =====
-- The thread of an event loop, of net/EventLoopThread.h and net/EventLoopThread.cc: the thread that
-- builds, starts and destroys the object, and the new thread, whose steps may come in any order. The
-- lock and the condition are those of base/Mutex.h and base/Condition.h; the loop itself is in
-- EventLoop.antt.
pub mod Invariant
pub mod Start
pub mod Hang
mod Tests
use summer.Prelude.{ℕ, ◌==◌, ◌≡◌, Bool, true, false, if◌then◌else◌, Option, none, some}

pub data Owner : Type 0 where
  nobody by_caller by_thread : Owner

pub data Caller : Type 0 where
  -- before `startLoop`; in it, before the lock is taken
  ready starting : Caller
  -- at the test of the loop; before `cond_.wait()`; blocked in it, and woken, without the lock
  testing dozing sleeping waking : Caller
  -- behind the loop, with the lock; before `loop_` is read for the result; with the result, which may be
  -- NULL
  leaving reading : Caller
  holding : Bool → Caller
  -- in the destructor: before `loop_->quit()`, in `join`, and behind it; `crashed` is a call through NULL
  quitting joining joined gone crashed : Caller

pub data Thread : Type 0 where
  -- before it is created; before the lock is taken; before `loop_ = &loop`, with the lock
  absent locking setting : Thread
  -- before `cond_.notify()`; before the lock is given back
  notifying unlocking : Thread
  -- before `loop.loop()` resets `quit_`; in the loop; behind it; behind `loop_ = NULL`
  entering looping ended finished : Thread

-- `loop` tells whether `loop_` is set, `quit` is `quit_` of the loop, `started` is `started_` of the
-- thread.
pub record LoopThread : Type 0 where
  pub caller : Caller
  pub thread : Thread
  pub owner : Owner
  pub loop : Bool
  pub quit : Bool
  pub started : Bool
  pub exiting : Bool

unfoldable pub init : LoopThread
init = record {
  caller = ready;
  thread = absent;
  owner = nobody;
  loop = false;
  quit = false;
  started = false;
  exiting = false;
}

pub data Event : Type 0 where
  -- `startLoop`, with `wakes` a wake-up for no reason
  starts locks tests sleeps wakes unlocks reads : Event
  -- the destructor
  destroys quits joins : Event
  -- `threadFunc`
  thread_locks sets notifies thread_unlocks enters ends clears : Event
  -- somebody else calls `quit` of the loop
  other_quits : Event

abbrev pub woken : Caller → Caller
woken sleeping = waking
woken c = c

abbrev pub is_free : Owner → Bool
is_free nobody = true
is_free by_caller = false
is_free by_thread = false

-- The steps of the caller by its place.
unfoldable pub start_loop : LoopThread → Option LoopThread
start_loop s = elim s.started [
  | true ↦ none
  | false ↦ some (record s { caller = starting; thread = locking; started = true })
]

abbrev pub asks : Caller → Bool
asks starting = true
asks waking = true
asks _ = false

abbrev pub is_testing : Caller → Bool
is_testing testing = true
is_testing _ = false

abbrev pub is_dozing : Caller → Bool
is_dozing dozing = true
is_dozing _ = false

abbrev pub is_sleeping : Caller → Bool
is_sleeping sleeping = true
is_sleeping _ = false

abbrev pub is_leaving : Caller → Bool
is_leaving leaving = true
is_leaving _ = false

abbrev pub is_reading : Caller → Bool
is_reading reading = true
is_reading _ = false

abbrev pub is_ready : Caller → Bool
is_ready ready = true
is_ready _ = false

abbrev pub is_alive : Caller → Bool
is_alive ready = true
is_alive (holding b) = true
is_alive _ = false

abbrev pub is_quitting : Caller → Bool
is_quitting quitting = true
is_quitting _ = false

abbrev pub is_joining : Caller → Bool
is_joining joining = true
is_joining _ = false

abbrev pub guarded : Bool → LoopThread → Option LoopThread
guarded b s = if b then some s else none

abbrev pub place : Thread → ℕ
place absent = 0
place locking = 1
place setting = 2
place notifying = 3
place unlocking = 4
place entering = 5
place looping = 6
place ended = 7
place finished = 8

-- The thread stands at this place.
abbrev pub at : LoopThread → Thread → Bool
at s t = place s.thread == place t

unfoldable pub caller_step : LoopThread → Event → Option LoopThread
caller_step s starts = if is_ready s.caller then start_loop s else none
caller_step s locks =
    if is_free s.owner
    then guarded (asks s.caller) (record s { caller = testing; owner = by_caller })
    else none
caller_step s tests =
    guarded (is_testing s.caller) (record s { caller = if s.loop then leaving else dozing })
caller_step s sleeps = guarded (is_dozing s.caller) (record s { caller = sleeping; owner = nobody })
caller_step s wakes = guarded (is_sleeping s.caller) (record s { caller = waking })
caller_step s unlocks =
    guarded (is_leaving s.caller) (record s { caller = reading; owner = nobody })
caller_step s reads = guarded (is_reading s.caller) (record s { caller = holding s.loop })
caller_step s destroys =
    guarded (is_alive s.caller)
      (record s { caller = if s.loop then quitting else gone; exiting = true })
caller_step s quits =
    guarded (is_quitting s.caller)
      (if s.loop then record s { caller = joining; quit = true } else record s { caller = crashed })
caller_step s joins =
    if at s finished
    then guarded (is_joining s.caller) (record s { caller = joined; started = false })
    else none
caller_step s _ = none

unfoldable pub thread_step : LoopThread → Event → Option LoopThread
thread_step s thread_locks =
    if is_free s.owner
    then guarded (at s locking) (record s { thread = setting; owner = by_thread })
    else none
thread_step s sets = guarded (at s setting) (record s { thread = notifying; loop = true })
thread_step s notifies =
    guarded (at s notifying) (record s { thread = unlocking; caller = woken s.caller })
thread_step s thread_unlocks =
    guarded (at s unlocking) (record s { thread = entering; owner = nobody })
thread_step s enters = guarded (at s entering) (record s { thread = looping; quit = false })
thread_step s ends = if s.quit then guarded (at s looping) (record s { thread = ended }) else none
thread_step s clears = guarded (at s ended) (record s { thread = finished; loop = false })
thread_step s _ = none

unfoldable pub step : LoopThread → Event → Option LoopThread
step s starts = caller_step s starts
step s locks = caller_step s locks
step s tests = caller_step s tests
step s sleeps = caller_step s sleeps
step s wakes = caller_step s wakes
step s unlocks = caller_step s unlocks
step s reads = caller_step s reads
step s destroys = caller_step s destroys
step s quits = caller_step s quits
step s joins = caller_step s joins
step s other_quits = guarded s.loop (record s { quit = true })
step s e = thread_step s e

-- The states that steps with this property lead to.
pub data Reach (P : Event → Type 0) (s : LoopThread) : LoopThread → Type 0 where
  here : Reach P s s
  next : {t u : LoopThread} → Reach P s t → (e : Event) → P e → step t e ≡ some u → Reach P s u
