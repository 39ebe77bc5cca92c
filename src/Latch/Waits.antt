-- ===== src/Latch/Waits.antt =====
-- The calls, the lock and the steps of `wait` keep what holds of a latch.
use summer.Prelude.{
  ℕ, ◌≡◌, ◌≢◌, refl, arith, true, false, ◌⊎◌, inl, inr, if◌then◌else◌, Bool-cases, subst, none,
  some,
}
use summer.Latch.{
  is_positive, Pc, idle, entering, testing, dozing, sleeping, waking, leaving, returned, coming,
  counting, notifying, finishing, Latch, put, calls_wait, calls_down, locks, unlocks, tests, sleeps,
  wakes, taken, step, is_outside,
}
use summer.Latch.Invariant.{is_inside, IsSound, moved, stays}

pub step_calls_wait :
    (n : ℕ) (l k : Latch) (i : ℕ) → IsSound n l → step l (calls_wait i) ≡ some k → IsSound n k
unfolding step
step_calls_wait n l k i v h =
    let outside : is_outside (l.pc i) ≡ true = ground (arith, h) in
    let same : record l { pc = put l.pc i entering } ≡ k = ground (arith, h, outside) in
    subst (IsSound n) same (
      moved n l i entering l.owner v (ground (arith, outside)) (λ j e. ground (arith, e, v.held j))
        (λ e. cc) (λ e. cc) (λ e. cc))

pub step_calls_down :
    (n : ℕ) (l k : Latch) (i : ℕ) → IsSound n l → step l (calls_down i) ≡ some k → IsSound n k
unfolding step
step_calls_down n l k i v h =
    let outside : is_outside (l.pc i) ≡ true = ground (arith, h) in
    let same : record l { pc = put l.pc i coming } ≡ k = ground (arith, h, outside) in
    subst (IsSound n) same (
      moved n l i coming l.owner v (ground (arith, outside)) (λ j e. ground (arith, e, v.held j))
        (λ e. cc) (λ e. cc) (λ e. cc))

-- With the lock free, nobody is inside.
nobody : (n : ℕ) (l : Latch) (j : ℕ) → IsSound n l → l.owner ≡ none → is_inside (l.pc j) ≡ false
nobody n l j v e = elim (Bool-cases (is_inside (l.pc j))) [
  | inl inside ↦ absurd (ground (arith, e, v.held j inside))
  | inr outside ↦ outside
]

locked :
    (n : ℕ) (l : Latch) (i : ℕ) (p : Pc)
    → IsSound n l
    → l.owner ≡ none
    → (p ≡ testing) ⊎ (p ≡ counting)
    → l.pc i ≢ notifying
    → IsSound n (record l { owner = some i; pc = put l.pc i p })
locked n l i p v free q quiet =
    moved n l i p (some i) v quiet (λ j e. ground (arith, e, nobody n l j v free))
      (λ e. ground (arith, e, q)) (λ e. ground (arith, e, q)) (λ e. ground (arith, e, q))

taken_cases :
    (l k : Latch) (i : ℕ)
    → taken l i ≡ some k
    → ((record l { owner = some i; pc = put l.pc i testing } ≡ k)
        ⊎ (record l { owner = some i; pc = put l.pc i counting } ≡ k))
      × (l.pc i ≢ notifying)
unfolding taken
taken_cases l k i h = ground (arith, h)

pub step_locks :
    (n : ℕ) (l k : Latch) (i : ℕ) → IsSound n l → step l (locks i) ≡ some k → IsSound n k
unfolding step
step_locks n l k i v h =
    let free : l.owner ≡ none = ground (arith, h) in
    let (cases, quiet) = taken_cases l k i (ground (arith, h, free)) in
    elim cases [
      | inl same ↦ subst (IsSound n) same (locked n l i testing v free (inl refl) quiet)
      | inr same ↦ subst (IsSound n) same (locked n l i counting v free (inr refl) quiet)
    ]

unlocks_cases :
    (l k : Latch) (i : ℕ)
    → step l (unlocks i) ≡ some k
    → ((l.pc i ≡ leaving) × (record l { owner = none; pc = put l.pc i returned } ≡ k))
      ⊎ ((l.pc i ≡ finishing) × (record l { owner = none; pc = put l.pc i idle } ≡ k))
unfolding step
unlocks_cases l k i h = ground (arith, h)

pub step_unlocks :
    (n : ℕ) (l k : Latch) (i : ℕ) → IsSound n l → step l (unlocks i) ≡ some k → IsSound n k
step_unlocks n l k i v h = elim (unlocks_cases l k i h) [
  | inl (at, same) ↦ subst (IsSound n) same (
      moved n l i returned none v (ground (arith, at))
        (λ j e. absurd (ground (arith, stays n l i returned j v (ground (arith, at)) e))) (λ e. cc)
        (λ e. v.left i (ground (arith, at))) (λ e. cc))
  | inr (at, same) ↦ subst (IsSound n) same (
      moved n l i idle none v (ground (arith, at))
        (λ j e. absurd (ground (arith, stays n l i idle j v (ground (arith, at)) e))) (λ e. cc)
        (λ e. cc) (λ e. cc))
]

pub step_tests :
    (n : ℕ) (l k : Latch) (i : ℕ) → IsSound n l → step l (tests i) ≡ some k → IsSound n k
unfolding step
step_tests n l k i v h =
    let at : l.pc i ≡ testing = ground (arith, h) in
    let p : Pc = if is_positive l.count then dozing else leaving in
    let same : record l { pc = put l.pc i p } ≡ k = ground (arith, h, at) in
    subst (IsSound n) same (
      moved n l i p l.owner v (ground (arith, at))
        (λ j e. ground (arith, at, v.held i, stays n l i p j v (ground (arith, at)) e))
        (λ e. ground (arith, e)) (λ e. ground (arith, e)) (λ e. ground (arith, e)))

pub step_sleeps :
    (n : ℕ) (l k : Latch) (i : ℕ) → IsSound n l → step l (sleeps i) ≡ some k → IsSound n k
unfolding step
step_sleeps n l k i v h =
    let at : l.pc i ≡ dozing = ground (arith, h) in
    let same : record l { owner = none; pc = put l.pc i sleeping } ≡ k = ground (arith, h, at) in
    subst (IsSound n) same (
      moved n l i sleeping none v (ground (arith, at))
        (λ j e. absurd (ground (arith, stays n l i sleeping j v (ground (arith, at)) e))) (λ e. cc)
        (λ e. cc) (λ e. v.dozes i at))

pub step_wakes :
    (n : ℕ) (l k : Latch) (i : ℕ) → IsSound n l → step l (wakes i) ≡ some k → IsSound n k
unfolding step
step_wakes n l k i v h =
    let at : l.pc i ≡ sleeping = ground (arith, h) in
    let same : record l { pc = put l.pc i waking } ≡ k = ground (arith, h, at) in
    subst (IsSound n) same (
      moved n l i waking l.owner v (ground (arith, at)) (λ j e. ground (arith, e, v.held j))
        (λ e. cc) (λ e. cc) (λ e. cc))
