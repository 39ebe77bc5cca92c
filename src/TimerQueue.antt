-- ===== src/TimerQueue.antt =====
-- The timers of net/TimerQueue.h, net/TimerQueue.cc, net/Timer.h and net/Timer.cc, over the time
-- stamps of base/Timestamp.h. A `Timer*` is a number; `heap` has what stands there, `none` where
-- nothing is allocated. A time stamp is its number of microseconds, from 0 on.
pub mod Invariant
pub mod Calls
pub mod Expiry
pub mod Reset
pub mod Callbacks
pub mod Arming
pub mod Cancelling
mod Tests
use summer.Prelude.{
  ℕ, ◌+◌, ◌-◌, ◌^◌, Bool, true, false, not, ◌&&◌, ◌||◌, ◌==◌, ltb, if◌then◌else◌, List, [], ◌∷◌,
  ◌++◌, Option, none, some, Outcome, ok, aborted, invalid, ◌>>=◌, ◌>>◌, assert, length,
}
use summer.Prelude.Pairs.{Pair, less, has, put, delete}

-- `addTime` and `valid` of a time stamp. The delay is `kMicroSecondPerSecond * interval`, cut to a number.
abbrev pub add_time : ℕ → ℕ → ℕ
add_time timestamp delay = timestamp + delay

abbrev pub invalid_time : ℕ
invalid_time = 0

abbrev pub valid : ℕ → Bool
valid timestamp = ltb 0 timestamp

-- A timer's callback is an argument of `handle_read`: the list of the calls that it makes.
pub record Timer : Type 0 where
  pub expiration : ℕ
  pub repeat : Bool
  pub delay : ℕ
  pub sequence : ℕ

unfoldable pub restart : Timer → ℕ → Timer
restart t now = record t { expiration = if t.repeat then add_time now t.delay else invalid_time }

-- `timers_` has pairs of a time and a timer, the other two sets pairs of a timer and its number.
pub record TimerQueue : Type 0 where
  pub timers : List Pair
  pub active : List Pair
  pub cancelled : List Pair
  pub doing_expired : Bool
  pub heap : ℕ → Option Timer

-- `resetTimerfd(timerfd_, when)`
pub data Effect : Type 0 where
  armed : ℕ → Effect

abbrev pub deref : Option Timer → Outcome Timer
deref none = invalid
deref (some t) = ok t

abbrev pub store : TimerQueue → ℕ → Option Timer → TimerQueue
store q timer t = record q { heap = λ k. if k == timer then t else q.heap k }

unfoldable pub init : TimerQueue
init = record { timers = []; active = []; cancelled = []; doing_expired = false; heap = λ k. none }

-- `earliestTimerChanged`. The source reads `first` through `begin()` of an empty set too, and does
-- not use it then.
abbrev pub is_earliest : ℕ → List Pair → Bool
is_earliest when [] = true
is_earliest when ((first, timer) ∷ rest) = ltb when first

abbrev pub same_size : List Pair → List Pair → Bool
same_size xs ys = length xs == length ys

unfoldable pub insert : TimerQueue → ℕ → Outcome (TimerQueue × Bool)
insert q timer = do
  assert (same_size q.timers q.active)
  t ← deref (q.heap timer)
  assert (not (has (t.expiration, timer) q.timers))
  let timers = put (t.expiration, timer) q.timers
  assert (not (has (timer, t.sequence) q.active))
  let active = put (timer, t.sequence) q.active
  assert (same_size active timers)
  ok (record q { timers = timers; active = active }, is_earliest t.expiration q.timers)

unfoldable pub add_timer_in_loop : TimerQueue → ℕ → Outcome (TimerQueue × List Effect)
add_timer_in_loop q timer = do
  r ← insert q timer
  t ← deref (r.0.heap timer)
  ok (r.0, if r.1 then armed t.expiration ∷ [] else [])

-- `addTimer` in the loop's thread; `timer` is where `new` has put the new timer.
unfoldable pub add_timer : TimerQueue → ℕ → Timer → Outcome (TimerQueue × List Effect)
add_timer q timer t = add_timer_in_loop (store q timer (some t)) timer

-- `it->first` is read before `it` is compared with `end()`, so that the branch of
-- `doingExpiredTimers_` is never come to with an iterator that may be read.
unfoldable pub cancel_in_loop : TimerQueue → Pair → Outcome TimerQueue
cancel_in_loop q id = do
  assert (same_size q.timers q.active)
  if has id q.active
      then (do
        t ← deref (q.heap id.0)
        assert (has (t.expiration, id.0) q.timers)
        let timers = delete (t.expiration, id.0) q.timers
        let active = delete id q.active
        assert (same_size timers active)
        ok (store (record q { timers = timers; active = active }) id.0 none))
      else invalid

-- `[begin(), lower_bound(e))` and `[lower_bound(e), end())`
unfoldable pub before : Pair → List Pair → List Pair
before e [] = []
before e (x ∷ xs) = if less x e then x ∷ before e xs else []

unfoldable pub from : Pair → List Pair → List Pair
from e [] = []
from e (x ∷ xs) = if less x e then from e xs else x ∷ xs

-- `UINTPTR_MAX`
unfoldable pub uintptr_max : ℕ
uintptr_max = 2 ^ 64 - 1

-- The loop of `getExpired`.
unfoldable pub erase_active : (ℕ → Option Timer) → List Pair → List Pair → Outcome (List Pair)
erase_active heap [] active = ok active
erase_active heap ((when, timer) ∷ expired) active = do
  t ← deref (heap timer)
  assert (has (timer, t.sequence) active)
  erase_active heap expired (delete (timer, t.sequence) active)

abbrev pub is_later : ℕ → List Pair → Bool
is_later now [] = true
is_later now ((first, timer) ∷ rest) = ltb now first

unfoldable pub get_expired : TimerQueue → ℕ → Outcome (List Pair × TimerQueue)
get_expired q now = do
  assert (same_size q.timers q.active)
  assert (is_later now (from (now, uintptr_max) q.timers))
  let expired = before (now, uintptr_max) q.timers
  let timers = from (now, uintptr_max) q.timers
  active ← erase_active q.heap expired q.active
  assert (same_size timers active)
  ok (expired, record q { timers = timers; active = active })

-- A round of the loop of `reset`.
unfoldable pub reset_one : TimerQueue → ℕ → ℕ → Outcome TimerQueue
reset_one q now timer = do
  t ← deref (q.heap timer)
  if t.repeat && not (has (timer, t.sequence) q.cancelled)
      then (do r ← insert (store q timer (some (restart t now))) timer; ok r.0)
      else ok (store q timer none)

unfoldable pub reset_all : TimerQueue → ℕ → List Pair → Outcome TimerQueue
reset_all q now [] = ok q
reset_all q now ((when, timer) ∷ expired) = do q' ← reset_one q now timer; reset_all q' now expired

-- `nextExpired`, which is invalid where no timer is left.
abbrev pub next_expired : List Pair → ℕ
next_expired [] = invalid_time
next_expired ((when, timer) ∷ rest) = when

unfoldable pub reset : TimerQueue → List Pair → ℕ → Outcome (TimerQueue × List Effect)
reset q expired now = do
  q' ← reset_all q now expired
  let next = next_expired q'.timers
  ok (q', if valid next then armed next ∷ [] else [])

-- What a timer's callback may do to the queue.
pub data Call : Type 0 where
  adding : ℕ → Timer → Call
  cancelling : Pair → Call

unfoldable pub call : TimerQueue → Call → Outcome (TimerQueue × List Effect)
call q (adding timer t) = add_timer q timer t
call q (cancelling id) = do q' ← cancel_in_loop q id; ok (q', [])

unfoldable pub calls : TimerQueue → List Call → Outcome (TimerQueue × List Effect)
calls q [] = ok (q, [])
calls q (c ∷ cs) = do r ← call q c; s ← calls r.0 cs; ok (s.0, r.1 ++ s.1)

-- The timers that have expired run, each one its callback; a timer that was deleted is not run.
unfoldable pub run_all :
    (ℕ → List Call) → TimerQueue → List Pair → Outcome (TimerQueue × List Effect)
run_all callback q [] = ok (q, [])
run_all callback q ((when, timer) ∷ expired) = do
  t ← deref (q.heap timer)
  r ← calls q (callback timer)
  s ← run_all callback r.0 expired
  ok (s.0, r.1 ++ s.1)

unfoldable pub handle_read : (ℕ → List Call) → TimerQueue → ℕ → Outcome (TimerQueue × List Effect)
handle_read callback q now = do
  r ← get_expired q now
  s ← run_all callback (record r.1 { doing_expired = true; cancelled = [] }) r.0
  u ← reset (record s.0 { doing_expired = false }) r.0 now
  ok (u.0, s.1 ++ u.1)
