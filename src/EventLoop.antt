-- ===== src/EventLoop.antt =====
-- The event loop of net/EventLoop.h and net/EventLoop.cc: the rounds of `loop`, the calls that are
-- pending, and the wake-ups, as steps of the loop's thread and of other threads. A functor is a
-- number; what it does to the loop are steps of the loop's thread while it is called.
pub mod Pending
pub mod Wakeups
pub mod Timers
pub mod Owners
pub mod Single
mod Tests
use summer.Prelude.{
  ℕ, suc, ◌-◌, ltb, Bool, true, false, not, ◌&&◌, if◌then◌else◌, List, [], ◌∷◌, ◌++◌, Option, none,
  some,
}

-- Where the loop's thread is: outside of `loop`, before its first test of `quit_`, in `poll`, in the handlers of the active channels, or
-- in `doPendingFunctor`, with the functors that it has still to call.
pub data Phase : Type 0 where
  outside starting polling handling : Phase
  calling : List ℕ → Phase

-- `wakeups` is the counter of the eventfd, and `waking` is how many other threads are in `runInLoop`
-- between `queueInLoop` and `wakeup`. `looping_` and `callingPendingFunctor_` are told by the phase.
pub record Loop : Type 0 where
  pub phase : Phase
  pub quit : Bool
  pub pending : List ℕ
  pub wakeups : ℕ
  pub waking : ℕ

unfoldable pub init : Loop
init = record { phase = outside; quit = false; pending = []; wakeups = 0; waking = 0 }

abbrev pub calling_pending_functor : Loop → Bool
calling_pending_functor l = elim l.phase [
  | outside ↦ false
  | starting ↦ false
  | polling ↦ false
  | handling ↦ false
  | calling fs ↦ true
]

pub data Effect : Type 0 where
  -- a functor goes to the end of `pendingFunctors_`
  queued : ℕ → Effect
  -- a pending functor is called by the loop
  ran : ℕ → Effect
  -- a functor is called at once, in `runInLoop`
  called : ℕ → Effect

unfoldable pub wakeup : Loop → Loop
wakeup l = record l { wakeups = suc l.wakeups }

unfoldable pub handle_read : Loop → Loop
handle_read l = record l { wakeups = 0 }

-- The first argument says whether the caller is the loop's thread. The lock is free again when
-- `queueInLoop` and `runInLoop` write to the eventfd: another thread does that in a step of its own.
unfoldable pub queue_in_loop : Bool → Loop → ℕ → Loop
queue_in_loop in_loop l f =
    let l' = record l { pending = l.pending ++ (f ∷ []) } in
    if in_loop && calling_pending_functor l then wakeup l' else l'

unfoldable pub run_in_loop : Bool → Loop → ℕ → Loop × List Effect
run_in_loop true l f = (l, called f ∷ [])
run_in_loop false l f =
    let l' = queue_in_loop false l f in (record l' { waking = suc l.waking }, queued f ∷ [])

-- The end of `runInLoop` in another thread.
unfoldable pub finish_run : Loop → Loop
finish_run l = wakeup (record l { waking = l.waking - 1 })

unfoldable pub set_quit : Loop → Loop
set_quit l = record l { quit = true }

-- `loop` up to the first test of `quit_`.
unfoldable pub start_loop : Loop → Loop
start_loop l = record l { phase = starting; quit = false }

-- `doPendingFunctor` up to the swap.
unfoldable pub swap_pending : Loop → Loop
swap_pending l = record l { phase = calling l.pending; pending = [] }

-- The test of `quit_`, at first and at the end of a round: the loop goes on or ends.
unfoldable pub end_round : Loop → Loop
end_round l = record l { phase = if l.quit then outside else polling }

pub data Event : Type 0 where
  -- the loop's thread: `loop` begins, tests `quit_` at first, `poll` returns, the wake-up channel is read
  starts tests polled reads : Event
  -- a handler or a functor in the loop's thread calls `queueInLoop` or `runInLoop`
  queues runs : ℕ → Event
  -- `doPendingFunctor` begins, calls the next functor, and ends
  swaps calls ends : Event
  -- another thread calls `queueInLoop` or `runInLoop`, and wakes the loop up from there; some thread
  -- calls `quit`
  other_queues other_runs : ℕ → Event
  wakes quits : Event

abbrev pub in_handler : Phase → Bool
in_handler outside = true
in_handler starting = false
in_handler polling = false
in_handler handling = true
in_handler (calling fs) = true

-- A step, where it can happen.
unfoldable pub step : Loop → Event → Option (Loop × List Effect)
step l starts = elim l.phase [
  | outside ↦ some (start_loop l, [])
  | starting ↦ none
  | polling ↦ none
  | handling ↦ none
  | calling fs ↦ none
]
step l tests = elim l.phase [
  | outside ↦ none
  | starting ↦ some (end_round l, [])
  | polling ↦ none
  | handling ↦ none
  | calling fs ↦ none
]
step l polled = elim l.phase [
  | outside ↦ none
  | starting ↦ none
  | polling ↦ some (record l { phase = handling }, [])
  | handling ↦ none
  | calling fs ↦ none
]
step l reads = elim l.phase [
  | outside ↦ none
  | starting ↦ none
  | polling ↦ none
  | handling ↦ some (handle_read l, [])
  | calling fs ↦ none
]
step l (queues f) =
    if in_handler l.phase then some (queue_in_loop true l f, queued f ∷ []) else none
step l (runs f) = if in_handler l.phase then some (run_in_loop true l f) else none
step l swaps = elim l.phase [
  | outside ↦ none
  | starting ↦ none
  | polling ↦ none
  | handling ↦ some (swap_pending l, [])
  | calling fs ↦ none
]
step l calls = elim l.phase [
  | outside ↦ none
  | starting ↦ none
  | polling ↦ none
  | handling ↦ none
  | calling fs ↦ elim fs [
    | [] ↦ none
    | f ∷ rest ↦ some (record l { phase = calling rest }, ran f ∷ [])
  ]
]
step l ends = elim l.phase [
  | outside ↦ none
  | starting ↦ none
  | polling ↦ none
  | handling ↦ none
  | calling fs ↦ elim fs [ [] ↦ some (end_round l, []) | f ∷ rest ↦ none ]
]
step l (other_queues f) = some (queue_in_loop false l f, queued f ∷ [])
step l (other_runs f) = some (run_in_loop false l f)
step l wakes = if ltb 0 l.waking then some (finish_run l, []) else none
step l quits = some (set_quit l, [])
