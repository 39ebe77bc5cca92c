-- ===== src/LoopThread/Start.antt =====
-- What `startLoop` and the destructor do for their callers.
use summer.Prelude.{◌≡◌, ◌≢◌, arith, inl, inr, Bool, true, false, List, [], ◌∷◌, Option, none, some}
use summer.LoopThread.{
  nobody, Caller, starting, sleeping, waking, holding, joining, joined, crashed, looping, finished,
  LoopThread, init, Event, locks, tests, unlocks, reads, start_loop, caller_step, thread_step, step,
  Reach, here, next,
}
use summer.LoopThread.Invariant.{IsQuiet, IsSound, Reach-IsSound}

-- As long as nobody but the destructor quits the loop, `startLoop` returns the loop and not NULL, the
-- destructor does not call through NULL, and where it has joined the thread, that has ended.
pub Reach-holding :
    {s : LoopThread}
    → Reach IsQuiet init s
    → ((b : Bool) → s.caller ≡ holding b → b ≡ true)
      × (s.caller ≢ crashed)
      × (s.caller ≡ joined → s.thread ≡ finished)
Reach-holding r = let v = Reach-IsSound r in (v.result, v.whole, v.joined)

abbrev pub run : LoopThread → List Event → Option LoopThread
run s [] = some s
run s (e ∷ es) = elim (step s e) [ none ↦ none | some t ↦ run t es ]

run_next :
    (s t : LoopThread) (e : Event) (es : List Event) → step s e ≡ some t → run s (e ∷ es) ≡ run t es
run_next s t e es h = ground (arith, h)

-- The caller is in `startLoop`, at a place where it does not have the lock.
abbrev pub is_waiting : Caller → Bool
is_waiting starting = true
is_waiting sleeping = true
is_waiting waking = true
is_waiting _ = false

awake : (s : LoopThread) → IsSound s → s.loop ≡ true → s.owner ≡ nobody → s.caller ≢ sleeping
awake s v set free e = elim (v.told e) [
  | inl unset ↦ absurd (cc (set, unset))
  | inr f ↦ absurd (ground (arith, f, free, v.thread_locks))
]

returns :
    (s : LoopThread)
    → s.loop ≡ true
    → s.owner ≡ nobody
    → is_waiting s.caller ≡ true
    → s.caller ≢ sleeping
    → run s (locks ∷ tests ∷ unlocks ∷ reads ∷ []) ≡ some (record s { caller = holding true })
unfolding step caller_step
returns s set free waits up = ground (arith, set, free, waits, up)

-- Once `loop_` is set, and as long as nobody but the destructor quits the loop, a caller of `startLoop` is
-- not blocked while the lock is free: its next four steps return the loop.
pub start_loop-returns :
    {s : LoopThread}
    → Reach IsQuiet init s
    → s.loop ≡ true
    → s.owner ≡ nobody
    → is_waiting s.caller ≡ true
    → run s (locks ∷ tests ∷ unlocks ∷ reads ∷ []) ≡ some (record s { caller = holding true })
start_loop-returns {s} r set free waits =
    returns s set free waits (awake s (Reach-IsSound r) set free)

stuck :
    (s t : LoopThread) (e : Event)
    → IsQuiet e
    → step s e ≡ some t
    → (s.caller ≡ joining) × (s.thread ≡ looping) × (s.quit ≡ false)
    → (t.caller ≡ joining) × (t.thread ≡ looping) × (t.quit ≡ false)
unfolding step caller_step thread_step start_loop
stuck s t e q h v = ground (arith, q, h, v)

-- A destructor that joins a thread whose loop has taken back the request to quit never ends, unless
-- somebody else quits the loop.
pub Reach-stuck :
    {s t : LoopThread}
    → (s.caller ≡ joining) × (s.thread ≡ looping) × (s.quit ≡ false)
    → Reach IsQuiet s t
    → (t.caller ≡ joining) × (t.thread ≡ looping) × (t.quit ≡ false)
Reach-stuck v here = v
Reach-stuck v (next {t} {u} r e q h) = stuck t u e q h (Reach-stuck v r)
