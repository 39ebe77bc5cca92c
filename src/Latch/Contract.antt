-- ===== src/Latch/Contract.antt =====
-- What the latch promises to the threads that wait for it.
use summer.Prelude.{
  ℤ, pos, ℕ, ◌<◌, ◌≤◌, ◌≡◌, ◌≢◌, ◌∙◌, arith, Bool, true, false, inl, inr, List, [], ◌∷◌, Option,
  none, some, ◌↔◌,
}
use summer.Latch.{
  is_positive, Pc, entering, testing, sleeping, waking, leaving, returned, Latch, put, Event, locks,
  unlocks, tests, init, step, taken, Reach,
}
use summer.Latch.Invariant.{is_inside, Counted, IsSound, others}
use summer.Latch.Steps.{Reach-IsSound}

-- The lock keeps all but one thread out.
pub is_inside-exclusive :
    (n : ℕ) {l : Latch} (i j : ℕ)
    → Reach (init (pos n)) l
    → is_inside (l.pc i) ≡ true
    → is_inside (l.pc j) ≡ true
    → i ≡ j
is_inside-exclusive n {l} i j r = others n l i j (Reach-IsSound n r)

count_of : (n : ℕ) (c : ℤ) (d : ℕ) → Counted n c d → (is_positive c ≡ true) ↔ (d < n)
count_of n c d h = ground (arith, h)

-- A call of `wait` has returned only if the latch was counted down at least as often as it was built for.
pub returned-counted :
    (n : ℕ) {l : Latch} (i : ℕ) → Reach (init (pos n)) l → l.pc i ≡ returned → n ≤ l.downs
returned-counted n {l} i r e =
    let v = Reach-IsSound n r in
    ground (arith, v.left i (ground (arith, e)), count_of n l.count l.downs v.counted)

abbrev pub run : Latch → List Event → Option Latch
run l [] = some l
run l (e ∷ es) = elim (step l e) [ none ↦ none | some m ↦ run m es ]

-- A thread is in `wait`, at a place where it does not have the lock.
abbrev pub is_waiting : Pc → Bool
is_waiting entering = true
is_waiting sleeping = true
is_waiting waking = true
is_waiting _ = false

awake : (n : ℕ) (l : Latch) (i : ℕ) → IsSound n l → n ≤ l.downs → l.owner ≡ none → l.pc i ≢ sleeping
awake n l i v enough free e = elim (v.told i e) [
  | inl more ↦ absurd (omega (arith, (count_of n l.count l.downs v.counted).0 more))
  | inr (j, f) ↦ absurd (ground (arith, f, free, v.held j))
]

run_next :
    (l m : Latch) (e : Event) (es : List Event) → step l e ≡ some m → run l (e ∷ es) ≡ run m es
run_next l m e es h = ground (arith, h)

locks_waiting :
    (l : Latch) (i : ℕ)
    → l.owner ≡ none
    → is_waiting (l.pc i) ≡ true
    → l.pc i ≢ sleeping
    → step l (locks i) ≡ some (record l { owner = some i; pc = put l.pc i testing })
unfolding step taken
locks_waiting l i free waits up = ground (arith, free, waits, up)

tests_last :
    (l : Latch) (i : ℕ)
    → l.pc i ≡ testing
    → is_positive l.count ≡ false
    → step l (tests i) ≡ some (record l { pc = put l.pc i leaving })
unfolding step
tests_last l i at none_left = ground (arith, at, none_left)

unlocks_leaving :
    (l : Latch) (i : ℕ)
    → l.pc i ≡ leaving
    → step l (unlocks i) ≡ some (record l { owner = none; pc = put l.pc i returned })
unfolding step
unlocks_leaving l i at = ground (arith, at)

-- Once the latch was counted down as often as it was built for, a thread in `wait` is not blocked while the
-- lock is free: its next three steps take the lock, find that the test fails, and return.
pub wait-ends :
    (n : ℕ) {l : Latch} (i : ℕ)
    → Reach (init (pos n)) l
    → n ≤ l.downs
    → l.owner ≡ none
    → is_waiting (l.pc i) ≡ true
    → (k : Latch) × (run l (locks i ∷ tests i ∷ unlocks i ∷ []) ≡ some k) × (k.pc i ≡ returned)
wait-ends n {l} i r enough free waits =
    let v = Reach-IsSound n r in
    let none_left : is_positive l.count ≡ false =
      ground (arith, count_of n l.count l.downs v.counted) in
    let l1 : Latch = record l { owner = some i; pc = put l.pc i testing } in
    let l2 : Latch = record l { owner = some i; pc = put l1.pc i leaving } in
    (
      record l { owner = none; pc = put l2.pc i returned },
      run_next l l1 (locks i) (tests i ∷ unlocks i ∷ [])
            (locks_waiting l i free waits (awake n l i v enough free))
          ∙ run_next l1 l2 (tests i) (unlocks i ∷ []) (tests_last l1 i (ground arith) none_left)
          ∙ run_next l2 (record l { owner = none; pc = put l2.pc i returned }) (unlocks i) []
              (unlocks_leaving l2 i (ground arith)),
      ground arith,
    )
