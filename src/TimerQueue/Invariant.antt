-- ===== src/TimerQueue/Invariant.antt =====
-- The two sets of timers agree with each other and with the timers that are allocated.
use summer.Prelude.{
  ℕ, suc, ◌<◌, ◌≡◌, refl, sym, ap, ◌∙◌, arith, true, false, Bool-cases, inl, inr, Option, none,
  some, ok, length,
}
use summer.Prelude.Pairs.{
  same_pair, has, put, delete, Sorted, has-put, has-delete, put-Sorted, delete-Sorted, length-put,
  length-delete,
}
use summer.TimerQueue.{Timer, TimerQueue, init, store, is_earliest, insert, uintptr_max}

-- A timer stands in `timers_` under its time just where it stands in `activeTimers_` under its number.
pub record IsValid (q : TimerQueue) : Type 0 where
  pub timers_sorted : Sorted q.timers
  pub active_sorted : Sorted q.active
  pub sized : length q.timers ≡ length q.active
  pub filed :
      (when timer : ℕ)
      → has (when, timer) q.timers ≡ true
      → (t : Timer) × (q.heap timer ≡ some t)
        × (t.expiration ≡ when)
        × (has (timer, t.sequence) q.active ≡ true)
        × (timer < uintptr_max)
  pub named :
      (timer sequence : ℕ)
      → has (timer, sequence) q.active ≡ true
      → (t : Timer) × (q.heap timer ≡ some t)
        × (t.sequence ≡ sequence)
        × (has (t.expiration, timer) q.timers ≡ true)

pub init-IsValid : IsValid init
unfolding init has
init-IsValid = record {
  timers_sorted = tt;
  active_sorted = tt;
  sized = refl;
  filed = λ when timer h. cc;
  named = λ timer sequence h. cc;
}

-- The timer is in neither set.
abbrev pub IsIdle : TimerQueue → ℕ → Type 0
IsIdle q timer = (sequence : ℕ) → has (timer, sequence) q.active ≡ false

-- Where nothing is allocated there is no timer in the sets.
pub unallocated-IsIdle :
    (q : TimerQueue) (timer : ℕ) → IsValid q → q.heap timer ≡ none → IsIdle q timer
unallocated-IsIdle q timer v e sequence = elim (Bool-cases (has (timer, sequence) q.active)) [
  | inl h ↦ (let (t, f, n, g) = v.named timer sequence h in absurd cc)
  | inr h ↦ h
]

pub idle_not_filed :
    (q : TimerQueue) (timer when : ℕ)
    → IsValid q
    → IsIdle q timer
    → has (when, timer) q.timers ≡ false
idle_not_filed q timer when v i = elim (Bool-cases (has (when, timer) q.timers)) [
  | inl h ↦ (let (t, f, n, g, b) = v.filed when timer h in let j = i t.sequence in absurd cc)
  | inr h ↦ h
]

-- What an idle timer is does not matter.
pub store-IsValid :
    (q : TimerQueue) (timer : ℕ) (x : Option Timer)
    → IsValid q
    → IsIdle q timer
    → IsValid (store q timer x)
store-IsValid q timer x v i = record {
  timers_sorted = v.timers_sorted;
  active_sorted = v.active_sorted;
  sized = v.sized;
  filed = λ when k h.
      let (t, f, n, g, b) = v.filed when k h in
      (t, ground (arith, f, h, idle_not_filed q timer when v i), n, g, b);
  named = λ k sequence h.
      let (t, f, n, g) = v.named k sequence h in (t, ground (arith, f, h, i sequence), n, g);
}

abbrev pub inserted : TimerQueue → ℕ → Timer → TimerQueue
inserted q timer t = record q {
  timers = put (t.expiration, timer) q.timers;
  active = put (timer, t.sequence) q.active;
}

module _ (q : TimerQueue) (timer : ℕ) (t : Timer) (v : IsValid q) (e : q.heap timer ≡ some t)
    (i : IsIdle q timer) where
  pub inserted-IsValid : timer < uintptr_max → IsValid (inserted q timer t)
  inserted-IsValid small = record {
    timers_sorted = put-Sorted (t.expiration, timer) q.timers v.timers_sorted;
    active_sorted = put-Sorted (timer, t.sequence) q.active v.active_sorted;
    sized =
        length-put (t.expiration, timer) q.timers (idle_not_filed q timer t.expiration v i)
        ∙ ap suc v.sized
        ∙ sym (length-put (timer, t.sequence) q.active (i t.sequence));
    filed = λ when k h. elim (Bool-cases (same_pair (when, k) (t.expiration, timer))) [
      | inl s ↦ (
        t,
        ground (arith, s, e),
        ground (arith, s),
        ground (arith, s, has-put (k, t.sequence) (timer, t.sequence) q.active),
        ground (arith, s),
      )
      | inr s ↦
          let (u, f, n, g, b) =
            v.filed when k
              (ground (arith, s, h, has-put (when, k) (t.expiration, timer) q.timers)) in
          (u, f, n, ground (arith, g, has-put (k, u.sequence) (timer, t.sequence) q.active), b)
    ];
    named = λ k sequence h. elim (Bool-cases (same_pair (k, sequence) (timer, t.sequence))) [
      | inl s ↦ (
        t,
        ground (arith, s, e),
        ground (arith, s),
        ground (arith, s, has-put (t.expiration, k) (t.expiration, timer) q.timers),
      )
      | inr s ↦
          let (u, f, n, g) =
            v.named k sequence
              (ground (arith, s, h, has-put (k, sequence) (timer, t.sequence) q.active)) in
          (u, f, n, ground (arith, g, has-put (u.expiration, k) (t.expiration, timer) q.timers))
    ];
  }

  -- An idle timer goes into both sets, and no assertion fails.
  pub insert_lem : insert q timer ≡ ok (inserted q timer t, is_earliest t.expiration q.timers)
  unfolding insert
  insert_lem = ground (
    arith,
    e,
    v.sized,
    idle_not_filed q timer t.expiration v i,
    i t.sequence,
    length-put (t.expiration, timer) q.timers,
    length-put (timer, t.sequence) q.active,
  )

abbrev pub deleted : TimerQueue → ℕ → Timer → TimerQueue
deleted q timer t = record q {
  timers = delete (t.expiration, timer) q.timers;
  active = delete (timer, t.sequence) q.active;
}

module _ (q : TimerQueue) (timer : ℕ) (t : Timer) (v : IsValid q) (e : q.heap timer ≡ some t)
    (h : has (timer, t.sequence) q.active ≡ true) where
  -- An active timer stands in `timers_` under its time.
  pub active_filed : has (t.expiration, timer) q.timers ≡ true
  active_filed = let (u, f, n, g) = v.named timer t.sequence h in ground (arith, e, f, g)

  pub deleted-sized : length (deleted q timer t).timers ≡ length (deleted q timer t).active
  deleted-sized = omega (
    arith,
    v.sized,
    length-delete (t.expiration, timer) q.timers active_filed,
    length-delete (timer, t.sequence) q.active h,
  )

  -- Taking a timer off both sets keeps them valid, and the timer is idle then.
  pub deleted-IsValid : IsValid (deleted q timer t)
  deleted-IsValid = record {
    timers_sorted = delete-Sorted (t.expiration, timer) q.timers v.timers_sorted;
    active_sorted = delete-Sorted (timer, t.sequence) q.active v.active_sorted;
    sized = deleted-sized;
    filed = λ when k j.
        let i = has-delete (when, k) (t.expiration, timer) q.timers v.timers_sorted in
        let (u, f, n, g, b) = v.filed when k (ground (arith, i, j)) in
        (
          u,
          f,
          n,
          ground (
            arith,
            e,
            f,
            n,
            g,
            i,
            j,
            has-delete (k, u.sequence) (timer, t.sequence) q.active v.active_sorted,
          ),
          b,
        );
    named = λ k sequence j.
        let i = has-delete (k, sequence) (timer, t.sequence) q.active v.active_sorted in
        let (u, f, n, g) = v.named k sequence (ground (arith, i, j)) in
        (
          u,
          f,
          n,
          ground (
            arith,
            e,
            f,
            n,
            g,
            i,
            j,
            has-delete (u.expiration, k) (t.expiration, timer) q.timers v.timers_sorted,
          ),
        );
  }

  pub deleted-IsIdle : IsIdle (deleted q timer t) timer
  deleted-IsIdle sequence =
      rw (has-delete (timer, sequence) (timer, t.sequence) q.active v.active_sorted)
        (elim (Bool-cases (has (timer, sequence) q.active)) [
          | inl j ↦ (let (u, f, n, g) = v.named timer sequence j in ground (arith, e, f, n))
          | inr j ↦ rw j (ground arith)
        ])
