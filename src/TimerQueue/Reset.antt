-- ===== src/TimerQueue/Reset.antt =====
-- `reset`: what becomes of the timers that have run.
use summer.Prelude.{
  ℕ, ◌+◌, ◌<◌, ◌≡◌, refl, ap, ap₂, ◌∙◌, arith, Bool, true, false, Bool-cases, inl, inr, not, ◌&&◌,
  ◌||◌, ◌==◌, ltb, if◌then◌else◌, List, [], ◌∷◌, Option, none, some, Returns,
}
use summer.Prelude.Pairs.{Pair, same_pair, has, has-put}
use summer.TimerQueue.{
  Timer, TimerQueue, armed, store, restart, uintptr_max, reset_one, reset_all, next_expired, reset,
}
use summer.TimerQueue.Invariant.{
  IsValid, IsIdle, store-IsValid, inserted, inserted-IsValid, insert_lem,
}
use summer.TimerQueue.Expiry.{Idle, Absent}

-- The timer as it stands in the sets again.
abbrev pub delayed : Timer → ℕ → Timer
delayed t now = record t { expiration = now + t.delay }

restart-delayed : (t : Timer) (now : ℕ) → t.repeat ≡ true → restart t now ≡ delayed t now
unfolding restart
restart-delayed t now h = rw h refl

-- A timer that repeats and was not cancelled while it ran starts again, every other one is freed.
abbrev pub fate_of : List Pair → Option Timer → ℕ → ℕ → Option Timer
fate_of cancelled none now timer = none
fate_of cancelled (some t) now timer =
    if t.repeat && not (has (timer, t.sequence) cancelled) then some (delayed t now) else none

abbrev pub fate : TimerQueue → ℕ → ℕ → Option Timer
fate q now timer = fate_of q.cancelled (q.heap timer) now timer

abbrev pub entered : Option Timer → ℕ → Pair → Bool
entered none timer d = false
entered (some t) timer d = same_pair d (t.expiration, timer)

-- The pair is that of a timer of the list that starts again.
abbrev pub rescheduled : TimerQueue → ℕ → List Pair → Pair → Bool
rescheduled q now [] d = false
rescheduled q now ((when, timer) ∷ es) d =
    entered (fate q now timer) timer d || rescheduled q now es d

-- What is allocated afterwards.
abbrev pub settled : TimerQueue → ℕ → List Pair → ℕ → Option Timer
settled q now [] k = q.heap k
settled q now ((when, timer) ∷ es) k = if k == timer then fate q now timer else settled q now es k

-- A round: the timer meets its fate, and nothing else changes.
abbrev Turned : TimerQueue → ℕ → ℕ → TimerQueue → Type 0
Turned q now timer r =
    IsValid r
    × (r.cancelled ≡ q.cancelled)
    × ((k : ℕ) → r.heap k ≡ (if k == timer then fate q now timer else q.heap k))
    × ((d : Pair) → has d r.timers ≡ (entered (fate q now timer) timer d || has d q.timers))
    × ((k s : ℕ) → k == timer ≡ false → has (k, s) r.active ≡ has (k, s) q.active)

module _ (q : TimerQueue) (now timer : ℕ) (t : Timer) (v : IsValid q) (e : q.heap timer ≡ some t)
    (i : IsIdle q timer) (small : timer < uintptr_max) where
  again : TimerQueue
  again = store q timer (some (delayed t now))

  again-heap : again.heap timer ≡ some (delayed t now)
  unfolding again
  again-heap = ground arith

  again-IsValid : IsValid again
  unfolding again
  again-IsValid = store-IsValid q timer (some (delayed t now)) v i

  again-IsIdle : IsIdle again timer
  unfolding again
  again-IsIdle = i

  fate_again :
      (t.repeat && not (has (timer, t.sequence) q.cancelled)) ≡ true
      → fate q now timer ≡ some (delayed t now)
  fate_again h = ap (λ x. fate_of q.cancelled x now timer) e ∙ rw h refl

  fate_over :
      (t.repeat && not (has (timer, t.sequence) q.cancelled)) ≡ false → fate q now timer ≡ none
  fate_over h = ap (λ x. fate_of q.cancelled x now timer) e ∙ rw h refl

  restarts :
      (t.repeat && not (has (timer, t.sequence) q.cancelled)) ≡ true → restart t now ≡ delayed t now
  restarts h = restart-delayed t now (ground arith)

  reset_one-Turned : Returns (Turned q now timer) (reset_one q now timer)
  unfolding reset_one again
  reset_one-Turned = elim (Bool-cases (t.repeat && not (has (timer, t.sequence) q.cancelled))) [
    | inl h ↦ (
      inserted again timer (delayed t now),
      rw
          (
            e,
            h,
            restarts h,
            insert_lem again timer (delayed t now) again-IsValid again-heap again-IsIdle,
          )
          refl,
      (
        inserted-IsValid again timer (delayed t now) again-IsValid again-heap again-IsIdle small,
        refl,
        λ k. rw (fate_again h) refl,
        λ d. rw (fate_again h) (has-put d ((delayed t now).expiration, timer) q.timers),
        λ k s n. ground (arith, n, has-put (k, s) (timer, (delayed t now).sequence) q.active),
      ),
    )
    | inr h ↦ (
      store q timer none,
      rw (e, h) refl,
      (
        store-IsValid q timer none v i,
        refl,
        λ k. rw (fate_over h) refl,
        λ d. rw (fate_over h) refl,
        λ k s n. refl,
      ),
    )
  ]

Idle-Turned :
    (q r : TimerQueue) (now timer : ℕ) (es : List Pair)
    → Turned q now timer r
    → Absent timer es
    → Idle q es
    → Idle r es
Idle-Turned q r now timer [] c a i = tt
Idle-Turned q r now timer ((when, k) ∷ es) (w, same_cancelled, heap, timers, active) a
      ((t, e, n), small, idle, absent, rest) =
    (
      (t, rw (heap k, a.0) e, n),
      small,
      λ s. active k s a.0 ∙ idle s,
      absent,
      Idle-Turned q r now timer es (w, same_cancelled, heap, timers, active) a.1 rest,
    )

fate-Turned :
    (q r : TimerQueue) (now timer k : ℕ)
    → Turned q now timer r
    → k == timer ≡ false
    → fate r now k ≡ fate q now k
fate-Turned q r now timer k (w, same_cancelled, heap, others, active) n =
    let same_heap : r.heap k ≡ q.heap k = ground (arith, heap k, n) in
    ap₂ (λ c x. fate_of c x now k) same_cancelled same_heap

rescheduled-Turned :
    (q r : TimerQueue) (now timer : ℕ) (es : List Pair) (d : Pair)
    → Turned q now timer r
    → Absent timer es
    → rescheduled r now es d ≡ rescheduled q now es d
rescheduled-Turned q r now timer [] d c a = refl
rescheduled-Turned q r now timer ((when, k) ∷ es) d c a =
    ap₂ (λ f b. entered f k d || b) (fate-Turned q r now timer k c a.0)
      (rescheduled-Turned q r now timer es d c a.1)

settled-Turned :
    (q r : TimerQueue) (now timer : ℕ) (es : List Pair) (k : ℕ)
    → Turned q now timer r
    → Absent timer es
    → settled r now es k ≡ (if k == timer then fate q now timer else settled q now es k)
settled-Turned q r now timer [] k c a = c.2 k
settled-Turned q r now timer ((when, j) ∷ es) k c a =
    ground (arith, fate-Turned q r now timer j c a.0, settled-Turned q r now timer es k c a.1, a.0)

-- What the loop of `reset` makes of the queue.
abbrev pub Settles : TimerQueue → ℕ → List Pair → TimerQueue → Type 0
Settles q now es r =
    IsValid r
    × ((d : Pair) → has d r.timers ≡ (rescheduled q now es d || has d q.timers))
    × ((k : ℕ) → r.heap k ≡ settled q now es k)

reset_all-Settles :
    (q : TimerQueue) (now : ℕ) (es : List Pair)
    → IsValid q
    → Idle q es
    → Returns (Settles q now es) (reset_all q now es)
unfolding reset_all
reset_all-Settles q now [] v i = (q, refl, (v, λ d. refl, λ k. refl))
reset_all-Settles q now ((when, timer) ∷ es) v ((t, e, n), small, idle, absent, rest) =
    let (r, turn, c) = reset_one-Turned q now timer t v e idle small in
    let (s, run, (w, timers, heap)) =
      reset_all-Settles r now es c.0 (Idle-Turned q r now timer es c absent rest) in
    (
      s,
      rw turn run,
      (
        w,
        λ d. ground (arith, timers d, rescheduled-Turned q r now timer es d c absent, c.3 d),
        λ k. heap k ∙ settled-Turned q r now timer es k c absent,
      ),
    )

-- `reset` of expired timers that are idle returns on valid sets: the timers that repeat and were not
-- cancelled stand in the sets again, with the time now + their delay, the others are freed, nothing else
-- changes, and the descriptor is armed for the first timer, if there is one with a valid time.
pub reset_lem :
    (q : TimerQueue) (now : ℕ) (es : List Pair)
    → IsValid q
    → Idle q es
    → Returns
        (λ r.
          IsValid r.0
          × ((d : Pair) → has d r.0.timers ≡ (rescheduled q now es d || has d q.timers))
          × ((k : ℕ) → r.0.heap k ≡ settled q now es k)
          × (r.1 ≡ (
              if ltb 0 (next_expired r.0.timers)
              then armed (next_expired r.0.timers) ∷ []
              else [])))
        (reset q es now)
unfolding reset
reset_lem q now es v i =
    let (r, run, (w, timers, heap)) = reset_all-Settles q now es v i in
    (
      (r, if ltb 0 (next_expired r.timers) then armed (next_expired r.timers) ∷ [] else []),
      rw run refl,
      (w, timers, heap, refl),
    )
