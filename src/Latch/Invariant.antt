-- ===== src/Latch/Invariant.antt =====
-- What holds of a latch whatever its threads do.
use summer.Prelude.{
  ℤ, pos, negsuc, ℕ, suc, ◌+◌, ◌≡◌, ◌≢◌, arith, Bool, true, false, ◌==◌, ◌⊎◌, inl, inr, Bool-cases,
  Option, some,
}
use summer.Latch.{
  is_positive, Pc, testing, dozing, sleeping, leaving, returned, counting, notifying, finishing,
  Latch, put,
}

-- The places where a thread has the lock.
abbrev pub is_inside : Pc → Bool
is_inside testing = true
is_inside dozing = true
is_inside leaving = true
is_inside counting = true
is_inside notifying = true
is_inside finishing = true
is_inside _ = false

abbrev pub has_left : Pc → Bool
has_left leaving = true
has_left returned = true
has_left _ = false

-- The count is `n` less what was counted down.
abbrev pub Counted : ℕ → ℤ → ℕ → Type 0
Counted n (pos m) d = m + d ≡ n
Counted n (negsuc m) d = suc (n + m) ≡ d

pub record IsSound (n : ℕ) (l : Latch) : Type 0 where
  pub counted : Counted n l.count l.downs
  pub held : (i : ℕ) → is_inside (l.pc i) ≡ true → l.owner ≡ some i
  pub dozes : (i : ℕ) → l.pc i ≡ dozing → is_positive l.count ≡ true
  pub left : (i : ℕ) → has_left (l.pc i) ≡ true → is_positive l.count ≡ false
  pub told :
      (i : ℕ) → l.pc i ≡ sleeping → (is_positive l.count ≡ true) ⊎ ((j : ℕ) × (l.pc j ≡ notifying))

-- A step of one thread that leaves the count alone, to a place where it tells no others.
pub moved :
    (n : ℕ) (l : Latch) (i : ℕ) (p : Pc) (owner : Option ℕ)
    → IsSound n l
    → l.pc i ≢ notifying
    → ((j : ℕ) → is_inside (put l.pc i p j) ≡ true → owner ≡ some j)
    → (p ≡ dozing → is_positive l.count ≡ true)
    → (has_left p ≡ true → is_positive l.count ≡ false)
    → (p ≡ sleeping → is_positive l.count ≡ true)
    → IsSound n (record l { owner = owner; pc = put l.pc i p })
moved n l i p owner v quiet held dozes left told = record {
  counted = v.counted;
  held = held;
  dozes = λ j e. ground (arith, e, dozes, v.dozes j);
  left = λ j e. ground (arith, e, left, v.left j);
  told = λ j e. elim (Bool-cases (i == j)) [
    | inl s ↦ inl (told (ground (arith, e, s)))
    | inr s ↦ elim (v.told j (ground (arith, e, s))) [
      | inl more ↦ inl more
      | inr (k, f) ↦ inr (k, ground (arith, f, quiet))
    ]
  ];
}

-- Nobody else has the lock.
pub others :
    (n : ℕ) (l : Latch) (i j : ℕ)
    → IsSound n l
    → is_inside (l.pc i) ≡ true
    → is_inside (l.pc j) ≡ true
    → i ≡ j
others n l i j v hi hj = cc (v.held i hi, v.held j hj)

-- A thread that has the lock goes on with it, or gives it back.
pub stays :
    (n : ℕ) (l : Latch) (i : ℕ) (p : Pc) (j : ℕ)
    → IsSound n l
    → is_inside (l.pc i) ≡ true
    → is_inside (put l.pc i p j) ≡ true
    → (is_inside p ≡ true) × (j ≡ i)
stays n l i p j v inside e = elim (Bool-cases (i == j)) [
  | inl s ↦ ground (arith, e, s)
  | inr s ↦ absurd (ground (arith, s, others n l i j v inside (ground (arith, e, s))))
]
