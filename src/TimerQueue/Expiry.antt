-- ===== src/TimerQueue/Expiry.antt =====
-- `getExpired`: the timers whose time has come leave both sets.
use summer.Prelude.{
  ℕ, ◌≤◌, ◌<◌, ◌≡◌, refl, ap, arith, subst, Bool, true, false, Bool-cases, inl, inr, ◌==◌, List, [],
  ◌∷◌, ◌++◌, Option, some, Returns,
}
use summer.Prelude.Pairs.{Pair, less, has, delete, Above, Sorted, has-delete}
use summer.TimerQueue.{
  Timer, TimerQueue, before, from, uintptr_max, erase_active, is_later, get_expired,
}
use summer.TimerQueue.Invariant.{
  IsValid, IsIdle, idle_not_filed, deleted, deleted-IsValid, deleted-IsIdle,
}

-- Every time has come; no time has come.
abbrev pub Due : ℕ → List Pair → Type 0
Due now [] = Unit {0}
Due now ((when, timer) ∷ es) = (when ≤ now) × Due now es

abbrev pub Later : ℕ → List Pair → Type 0
Later now [] = Unit {0}
Later now ((when, timer) ∷ es) = (now < when) × Later now es

abbrev pub Absent : ℕ → List Pair → Type 0
Absent timer [] = Unit {0}
Absent timer ((when, other) ∷ es) = (other == timer ≡ false) × Absent timer es

-- The timers are allocated, of these times, in neither set and different from each other.
abbrev pub Idle : TimerQueue → List Pair → Type 0
Idle q [] = Unit {0}
Idle q ((when, timer) ∷ es) =
    ((t : Timer) × (q.heap timer ≡ some t) × (t.expiration ≡ when))
    × (timer < uintptr_max)
    × IsIdle q timer
    × Absent timer es
    × Idle q es

before_from : (e : Pair) (xs : List Pair) → before e xs ++ from e xs ≡ xs
unfolding before from
before_from e [] = refl
before_from e (x ∷ xs) = elim (Bool-cases (less x e)) [
  | inl h ↦ rw h (ap (◌∷◌ x) (before_from e xs))
  | inr h ↦ rw h refl
]

before-Due : (now : ℕ) (xs : List Pair) → Due now (before (now, uintptr_max) xs)
unfolding before
before-Due now [] = tt
before-Due now ((when, timer) ∷ xs) = ground (arith, before-Due now xs)

Above-Later :
    (now : ℕ) (when timer : ℕ) (xs : List Pair) → now < when → Above (when, timer) xs → Later now xs
Above-Later now when timer [] h a = tt
Above-Later now when timer ((first, other) ∷ xs) h a =
    (ground (arith, a.0), Above-Later now when timer xs h a.1)

from-Later :
    (now : ℕ) (xs : List Pair)
    → Sorted xs
    → ((when timer : ℕ) → has (when, timer) xs ≡ true → timer < uintptr_max)
    → Later now (from (now, uintptr_max) xs)
unfolding from has
from-Later now [] s small = tt
from-Later now ((when, timer) ∷ xs) s small =
    elim (Bool-cases (less (when, timer) (now, uintptr_max))) [
      | inl h ↦ rw h (from-Later now xs s.1 (λ w k j. small w k (ground (arith, j))))
      | inr h ↦
          let past : now < when = ground (arith, h, small when timer (ground arith)) in
          rw h (past, Above-Later now when timer xs past s.0)
    ]

Later-is_later : (now : ℕ) (xs : List Pair) → Later now xs → is_later now xs ≡ true
Later-is_later now [] l = refl
Later-is_later now ((when, timer) ∷ xs) l = ground (arith, l.0)

Absent-before :
    (e : Pair) (timer : ℕ) (xs : List Pair)
    → ((when : ℕ) → has (when, timer) xs ≡ false)
    → Absent timer (before e xs)
unfolding before has
Absent-before e timer [] h = tt
Absent-before e timer ((when, other) ∷ xs) h =
    let tail = Absent-before e timer xs (λ w. ground (arith, h w)) in ground (arith, h when, tail)

has_head : (when timer : ℕ) (xs : List Pair) → has (when, timer) ((when, timer) ∷ xs) ≡ true
unfolding has
has_head when timer xs = ground arith

module _ (now : ℕ) (cancelled : List Pair) (doing : Bool) (heap : ℕ → Option Timer) where
  abbrev of_sets : List Pair → List Pair → TimerQueue
  of_sets timers active = record {
    timers = timers;
    active = active;
    cancelled = cancelled;
    doing_expired = doing;
    heap = heap;
  }

  delete_head :
      (when timer : ℕ) (t : Timer) (xs active : List Pair)
      → t.expiration ≡ when
      → IsValid (deleted (of_sets ((when, timer) ∷ xs) active) timer t)
      → IsValid (of_sets xs (delete (timer, t.sequence) active))
  unfolding delete
  delete_head when timer t xs active e v =
      subst (λ l. IsValid (of_sets l (delete (timer, t.sequence) active)))
        {x = delete (t.expiration, timer) ((when, timer) ∷ xs)} {y = xs} (ground (arith, e)) v

  abbrev limit : Pair
  limit = (now, uintptr_max)

  -- What is left of the sets when the timers before the limit are gone.
  abbrev Leaves : List Pair → List Pair → List Pair → Type 0
  Leaves xs active left =
      IsValid (of_sets (from limit xs) left)
      × Idle (of_sets (from limit xs) left) (before limit xs)
      × ((d : Pair) → has d left ≡ true → has d active ≡ true)

  erase_active-Leaves :
      (xs active : List Pair)
      → IsValid (of_sets xs active)
      → Returns (Leaves xs active) (erase_active heap (before limit xs) active)
  unfolding erase_active before from
  erase_active-Leaves [] active v = (active, refl, (v, tt, λ d h. h))
  erase_active-Leaves ((when, timer) ∷ xs) active v = elim (Bool-cases (less (when, timer) limit)) [
    | inr h ↦ rw (Returns, Leaves, erase_active, before, from, h) (active, refl, (v, tt, λ d j. j))
    | inl h ↦
        let (t, e, n, g, small) = v.filed when timer (has_head when timer xs) in
        let rest = delete (timer, t.sequence) active in
        let q = of_sets ((when, timer) ∷ xs) active in
        let idle = deleted-IsIdle q timer t v e g in
        let w = delete_head when timer t xs active n (deleted-IsValid q timer t v e g) in
        let (left, run, (valid_left, others, kept)) = erase_active-Leaves xs rest w in
        rw (Returns, Leaves, erase_active, before, from, h)
          (
            left,
            rw (e, g) run,
            (
              valid_left,
              (
                (t, e, n),
                small,
                λ s. ground (arith, kept (timer, s), idle s),
                Absent-before limit timer xs (λ k. idle_not_filed (of_sets xs rest) timer k w idle),
                others,
              ),
              λ d j.
                  ground (arith, kept d j, has-delete d (timer, t.sequence) active v.active_sorted),
            ),
          )
  ]

-- On valid sets `getExpired` returns: what it answers is the front of `timers_`, all of it due, and
-- what it leaves is later; the sets stay valid, and the expired timers are in neither of them.
pub get_expired_lem :
    (q : TimerQueue) (now : ℕ)
    → IsValid q
    → Returns
        (λ r.
          IsValid r.1
          × (r.0 ++ r.1.timers ≡ q.timers)
          × Due now r.0
          × Later now r.1.timers
          × Idle r.1 r.0)
        (get_expired q now)
unfolding get_expired
get_expired_lem q now v =
    let (left, run, (w, idle, kept)) =
      erase_active-Leaves now q.cancelled q.doing_expired q.heap q.timers q.active v in
    let later =
      from-Later now q.timers v.timers_sorted (λ when timer h. (v.filed when timer h).4) in
    let limit : Pair = (now, uintptr_max) in
    (
      (before limit q.timers, record q { timers = from limit q.timers; active = left }),
      ground (arith, v.sized, w.sized, run, Later-is_later now (from limit q.timers) later),
      (w, before_from limit q.timers, before-Due now q.timers, later, idle),
    )
