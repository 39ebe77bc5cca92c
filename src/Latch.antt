-- ===== src/Latch.antt =====
-- The latch of base/CountDownLatch.h and base/CountDownLatch.cc, over the lock of base/Mutex.h and the
-- condition of base/Condition.h: the steps of any number of threads, between which the others may run. A
-- thread is a number.
pub mod Invariant
mod Waits
mod Steps
pub mod Contract
mod Tests
use summer.Prelude.{
  ℤ, pos, negsuc, ℕ, zero, suc, ◌≡◌, Bool, true, false, ◌==◌, if◌then◌else◌, Option, none, some,
}

-- `--count_` of an `int` that does not overflow.
abbrev pub pred : ℤ → ℤ
pred (pos zero) = negsuc 0
pred (pos (suc n)) = pos n
pred (negsuc n) = negsuc (suc n)

abbrev pub is_positive : ℤ → Bool
is_positive (pos zero) = false
is_positive (pos (suc n)) = true
is_positive (negsuc n) = false

abbrev pub is_zero : ℤ → Bool
is_zero (pos zero) = true
is_zero (pos (suc n)) = false
is_zero (negsuc n) = false

-- Where a thread is: outside, or in `wait`, or in `countDown`.
pub data Pc : Type 0 where
  idle : Pc
  -- before the lock is taken in `wait`; at the test of the loop; before `condition_.wait()`
  entering testing dozing : Pc
  -- in `pthread_cond_wait`: blocked, without the lock, and woken, before the lock is taken again
  sleeping waking : Pc
  -- behind the loop, and behind `wait`
  leaving returned : Pc
  -- before the lock is taken in `countDown`; before `--count_`; before `notifyAll`; at the end
  coming counting notifying finishing : Pc

-- `downs` counts the times that `--count_` was done; `owner` is the thread that has the lock.
pub record Latch : Type 0 where
  pub count : ℤ
  pub downs : ℕ
  pub owner : Option ℕ
  pub pc : ℕ → Pc

unfoldable pub init : ℤ → Latch
init count = record { count = count; downs = 0; owner = none; pc = λ i. idle }

abbrev pub put : (ℕ → Pc) → ℕ → Pc → ℕ → Pc
put pc i p j = if i == j then p else pc j

abbrev pub woken : Pc → Pc
woken sleeping = waking
woken p = p

pub data Event : Type 0 where
  -- a thread calls `wait` or `countDown`
  calls_wait calls_down : ℕ → Event
  -- it takes the lock, and gives it back when the guard is left
  locks unlocks : ℕ → Event
  -- the steps of `wait`; `wakes` is a wake-up for no reason
  tests sleeps wakes : ℕ → Event
  -- the steps of `countDown`
  counts notifies : ℕ → Event

-- The lock is taken where a thread asks for it.
unfoldable pub taken : Latch → ℕ → Option Latch
taken l i = elim (l.pc i) [
  | idle ↦ none
  | entering ↦ some (record l { owner = some i; pc = put l.pc i testing })
  | testing ↦ none
  | dozing ↦ none
  | sleeping ↦ none
  | waking ↦ some (record l { owner = some i; pc = put l.pc i testing })
  | leaving ↦ none
  | returned ↦ none
  | coming ↦ some (record l { owner = some i; pc = put l.pc i counting })
  | counting ↦ none
  | notifying ↦ none
  | finishing ↦ none
]

abbrev pub is_outside : Pc → Bool
is_outside idle = true
is_outside returned = true
is_outside _ = false

abbrev pub is_testing : Pc → Bool
is_testing testing = true
is_testing _ = false

abbrev pub is_dozing : Pc → Bool
is_dozing dozing = true
is_dozing _ = false

abbrev pub is_sleeping : Pc → Bool
is_sleeping sleeping = true
is_sleeping _ = false

abbrev pub is_counting : Pc → Bool
is_counting counting = true
is_counting _ = false

abbrev pub is_notifying : Pc → Bool
is_notifying notifying = true
is_notifying _ = false

-- `--count_`, and the test behind it.
unfoldable pub count_down : Latch → ℕ → Latch
count_down l i =
    let count = pred l.count in
    record l {
      count = count;
      downs = suc l.downs;
      pc = put l.pc i (if is_zero count then notifying else finishing);
    }

unfoldable pub notify_all : Latch → ℕ → Latch
notify_all l i = record l { pc = put (λ j. woken (l.pc j)) i finishing }

unfoldable pub step : Latch → Event → Option Latch
step l (calls_wait i) =
    if is_outside (l.pc i) then some (record l { pc = put l.pc i entering }) else none
step l (calls_down i) =
    if is_outside (l.pc i) then some (record l { pc = put l.pc i coming }) else none
step l (locks i) = elim l.owner [ none ↦ taken l i | some j ↦ none ]
step l (unlocks i) = elim (l.pc i) [
  | idle ↦ none
  | entering ↦ none
  | testing ↦ none
  | dozing ↦ none
  | sleeping ↦ none
  | waking ↦ none
  | leaving ↦ some (record l { owner = none; pc = put l.pc i returned })
  | returned ↦ none
  | coming ↦ none
  | counting ↦ none
  | notifying ↦ none
  | finishing ↦ some (record l { owner = none; pc = put l.pc i idle })
]
step l (tests i) =
    if is_testing (l.pc i)
    then some (record l { pc = put l.pc i (if is_positive l.count then dozing else leaving) })
    else none
step l (sleeps i) =
    if is_dozing (l.pc i) then some (record l { owner = none; pc = put l.pc i sleeping }) else none
step l (wakes i) = if is_sleeping (l.pc i) then some (record l { pc = put l.pc i waking }) else none
step l (counts i) = if is_counting (l.pc i) then some (count_down l i) else none
step l (notifies i) = if is_notifying (l.pc i) then some (notify_all l i) else none

-- The latches that the steps lead to.
pub data Reach (l : Latch) : Latch → Type 0 where
  here : Reach l l
  next : {m k : Latch} → Reach l m → (e : Event) → step m e ≡ some k → Reach l k
