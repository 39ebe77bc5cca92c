-- ===== src/TimerQueue/Calls.antt =====
-- `addTimer` and `cancel` in the loop's thread.
use summer.Prelude.{
  ℕ, ◌<◌, ◌≡◌, ◌⊎◌, refl, ap, ◌∙◌, arith, true, false, inl, not, ◌&&◌, ◌||◌, ◌==◌, if◌then◌else◌,
  List, [], ◌∷◌, none, some, invalid, Returns,
}
use summer.Prelude.Pairs.{Pair, same_pair, has, put, has-put, has-delete}
use summer.TimerQueue.{
  Timer, TimerQueue, Effect, armed, store, is_earliest, add_timer_in_loop, add_timer,
  cancel_in_loop, next_expired, uintptr_max,
}
use summer.TimerQueue.Invariant.{
  IsValid, IsIdle, unallocated-IsIdle, store-IsValid, inserted, inserted-IsValid, insert_lem,
  deleted, active_filed, deleted-sized, deleted-IsValid, deleted-IsIdle,
}

-- The descriptor is armed for the first timer, or the first timer is still the one it was armed for.
abbrev pub Rearmed : List Pair → List Pair → List Effect → Type 0
Rearmed old new es =
    (es ≡ armed (next_expired new) ∷ []) ⊎ ((es ≡ []) × (next_expired new ≡ next_expired old))

put-Rearmed :
    (when timer : ℕ) (xs : List Pair)
    → Rearmed xs (put (when, timer) xs) (if is_earliest when xs then armed when ∷ [] else [])
unfolding put
put-Rearmed when timer [] = inl refl
put-Rearmed when timer ((first, other) ∷ xs) = ground arith

-- Adding a new timer returns: it stands in both sets, what stood there still does, the sets stay
-- valid, and the descriptor is armed for the first timer unless that has the time it had.
pub add_timer_lem :
    (q : TimerQueue) (timer : ℕ) (t : Timer)
    → IsValid q
    → q.heap timer ≡ none
    → timer < uintptr_max
    → Returns
        (λ r.
          IsValid r.0
          × ((d : Pair) → has d r.0.timers ≡ (same_pair d (t.expiration, timer) || has d q.timers))
          × ((d : Pair) → has d r.0.active ≡ (same_pair d (timer, t.sequence) || has d q.active))
          × ((k : ℕ) → r.0.heap k ≡ (if k == timer then some t else q.heap k))
          × Rearmed q.timers r.0.timers r.1)
        (add_timer q timer t)
unfolding add_timer add_timer_in_loop
add_timer_lem q timer t v e small =
    let idle = unallocated-IsIdle q timer v e in
    let q' = store q timer (some t) in
    let w = store-IsValid q timer (some t) v idle in
    let here : q'.heap timer ≡ some t = ground arith in
    (
      (
        inserted q' timer t,
        if is_earliest t.expiration q.timers then armed t.expiration ∷ [] else [],
      ),
      rw (insert_lem q' timer t w here idle, here) refl,
      (
        inserted-IsValid q' timer t w here idle small,
        λ d. has-put d (t.expiration, timer) q.timers,
        λ d. has-put d (timer, t.sequence) q.active,
        λ k. refl,
        put-Rearmed t.expiration timer q.timers,
      ),
    )

-- Cancelling an active timer returns: it is in neither set and is freed, every other timer that was
-- active still is, and the sets stay valid.
pub cancel_in_loop_lem :
    (q : TimerQueue) (timer sequence : ℕ)
    → IsValid q
    → has (timer, sequence) q.active ≡ true
    → Returns
        (λ r.
          IsValid r
          × IsIdle r timer
          × ((k : ℕ) → r.heap k ≡ (if k == timer then none else q.heap k))
          × ((d : Pair) → has d r.active ≡ (not (same_pair d (timer, sequence)) && has d q.active)))
        (cancel_in_loop q (timer, sequence))
unfolding cancel_in_loop
cancel_in_loop_lem q timer sequence v h =
    let (t, e, n, g) = v.named timer sequence h in
    let here = ap (λ s. has (timer, s) q.active) n ∙ h in
    let idle = deleted-IsIdle q timer t v e here in
    (
      store (deleted q timer t) timer none,
      ground (
        arith,
        v.sized,
        h,
        e,
        n,
        active_filed q timer t v e here,
        deleted-sized q timer t v e here,
      ),
      (
        store-IsValid (deleted q timer t) timer none (deleted-IsValid q timer t v e here) idle,
        idle,
        λ k. refl,
        λ d.
            has-delete d (timer, t.sequence) q.active v.active_sorted
            ∙ ap (λ s. not (same_pair d (timer, s)) && has d q.active) n,
      ),
    )

-- Cancelling a timer that is not active reads through the end of the set.
pub cancel_in_loop-invalid :
    (q : TimerQueue) (id : Pair)
    → IsValid q
    → has id q.active ≡ false
    → cancel_in_loop q id ≡ invalid
unfolding cancel_in_loop
cancel_in_loop-invalid q id v h = ground (arith, v.sized, h)
