-- ===== src/Latch/Steps.antt =====
-- The steps of `countDown` keep what holds of a latch, and so does every run.
use summer.Prelude.{
  ℤ, pos, ℕ, suc, ◌≡◌, arith, true, false, ◌⊎◌, inl, inr, if◌then◌else◌, Bool-cases, subst, some,
}
use summer.Latch.{
  pred, is_positive, is_zero, Pc, counting, notifying, finishing, Latch, put, woken, Event,
  calls_wait, calls_down, locks, unlocks, tests, sleeps, wakes, counts, notifies, count_down,
  notify_all, step, init, Reach, here, next,
}
use summer.Latch.Invariant.{Counted, IsSound, others, stays}
use summer.Latch.Waits.{
  step_calls_wait, step_calls_down, step_locks, step_unlocks, step_tests, step_sleeps, step_wakes,
}

Counted-down : (n : ℕ) (c : ℤ) (d : ℕ) → Counted n c d → Counted n (pred c) (suc d)
Counted-down n c d h = ground (arith, h)

rests : (c : ℤ) → is_positive c ≡ false → is_positive (pred c) ≡ false
rests c h = ground (arith, h)

-- Unless it comes to 0, the count is positive behind a step if it was before.
down : (c : ℤ) → is_zero (pred c) ≡ false → (is_positive (pred c) ≡ true) ⊎ (is_positive c ≡ false)
down c h = ground (arith, h)

step_counts : (n : ℕ) (l k : Latch) (i : ℕ) → IsSound n l → step l (counts i) ≡ some k → IsSound n k
unfolding step count_down
step_counts n l k i v h =
    let at : l.pc i ≡ counting = ground (arith, h) in
    let p : Pc = if is_zero (pred l.count) then notifying else finishing in
    let same : record l { count = pred l.count; downs = suc l.downs; pc = put l.pc i p } ≡ k =
      ground (arith, h, at) in
    subst (IsSound n) same (record {
      counted = Counted-down n l.count l.downs v.counted;
      held = λ j e. ground (arith, at, v.held i, stays n l i p j v (ground (arith, at)) e);
      dozes = λ j e.
          absurd (ground (arith, e, stays n l i p j v (ground (arith, at)) (ground (arith, e))));
      left = λ j e. ground (arith, e, v.left j, rests l.count);
      told = λ j e. elim (Bool-cases (is_zero (pred l.count))) [
        | inl z ↦ inr (i, ground (arith, z))
        | inr z ↦ elim (down l.count z) [
          | inl more ↦ inl more
          | inr less ↦ elim (v.told j (ground (arith, e, z))) [
            | inl more ↦ absurd (cc (more, less))
            | inr (m, f) ↦
                absurd
                  (ground (arith, f, at, others n l i m v (ground (arith, at)) (ground (arith, f))))
          ]
        ]
      ];
    })

step_notifies :
    (n : ℕ) (l k : Latch) (i : ℕ) → IsSound n l → step l (notifies i) ≡ some k → IsSound n k
unfolding step notify_all
step_notifies n l k i v h =
    let at : l.pc i ≡ notifying = ground (arith, h) in
    let same : record l { pc = put (λ j. woken (l.pc j)) i finishing } ≡ k =
      ground (arith, h, at) in
    subst (IsSound n) same (record {
      counted = v.counted;
      held = λ j e. ground (arith, at, e, v.held i, v.held j);
      dozes = λ j e. ground (arith, e, v.dozes j);
      left = λ j e. ground (arith, e, v.left j);
      told = λ j e. absurd (ground (arith, e));
    })

-- Every step keeps this.
pub step-IsSound : (n : ℕ) (l k : Latch) (e : Event) → IsSound n l → step l e ≡ some k → IsSound n k
step-IsSound n l k (calls_wait i) v h = step_calls_wait n l k i v h
step-IsSound n l k (calls_down i) v h = step_calls_down n l k i v h
step-IsSound n l k (locks i) v h = step_locks n l k i v h
step-IsSound n l k (unlocks i) v h = step_unlocks n l k i v h
step-IsSound n l k (tests i) v h = step_tests n l k i v h
step-IsSound n l k (sleeps i) v h = step_sleeps n l k i v h
step-IsSound n l k (wakes i) v h = step_wakes n l k i v h
step-IsSound n l k (counts i) v h = step_counts n l k i v h
step-IsSound n l k (notifies i) v h = step_notifies n l k i v h

init-IsSound : (n : ℕ) → IsSound n (init (pos n))
unfolding init
init-IsSound n = record {
  counted = omega arith;
  held = λ i e. cc;
  dozes = λ i e. cc;
  left = λ i e. cc;
  told = λ i e. cc;
}

pub Reach-IsSound : (n : ℕ) {l : Latch} → Reach (init (pos n)) l → IsSound n l
Reach-IsSound n here = init-IsSound n
Reach-IsSound n (next {m} {k} q e h) = step-IsSound n m k e (Reach-IsSound n q) h
