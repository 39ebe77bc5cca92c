-- ===== src/Atomic/Sums.antt =====
-- Additions of several threads add up.
use summer.Prelude.{
  ℕ, zero, suc, ◌+◌, ◌-◌, ◌*◌, ◌/◌, ◌%◌, ◌^◌, ◌<◌, ◌≡◌, ◌≢◌, refl, sym, ◌∙◌, ap, arith, List, [],
  ◌∷◌, ok, invalid,
}
use native.Mathlib.Nat.{add-mod_left}
use summer.Atomic.{get_and_add, signed_sum, add_and_get, increment_and_get, decrement}

-- The values that a run of `getAndAdd` answers, and the value behind it.
abbrev pub adds : ℕ → ℕ → List ℕ → List ℕ × ℕ
adds w value [] = ([], value)
adds w value (x ∷ xs) =
    let r = get_and_add w value x in let rest = adds w r.1 xs in (r.0 ∷ rest.0, rest.1)

abbrev pub sum : List ℕ → ℕ
sum [] = 0
sum (x ∷ xs) = x + sum xs

-- The sums of the numbers before each of them.
abbrev pub sums : ℕ → ℕ → List ℕ → List ℕ
sums w value [] = []
sums w value (x ∷ xs) = value % 2 ^ w ∷ sums w (value + x) xs

turns : (m q y : ℕ) → (m * q + y) % m ≡ y % m
turns m zero y = ap (λ n. n % m) (grind arith)
turns m (suc q) y = ap (λ n. n % m) (grind arith) ∙ add-mod_left m (m * q + y) ∙ turns m q y

mod_add : (m a x : ℕ) → 0 < m → (a % m + x) % m ≡ (a + x) % m
mod_add m a x h = sym (ap (λ n. n % m) (split a) ∙ turns m (a / m) (a % m + x))
  where
    split : (a : ℕ) → a + x ≡ m * (a / m) + (a % m + x)
    split a = grind arith

two_pow : (w : ℕ) → 0 < 2 ^ w
two_pow zero = omega arith
two_pow (suc w) = omega (arith, two_pow w)

adds-from :
    (w value : ℕ) (xs : List ℕ)
    → adds w (value % 2 ^ w) xs ≡ (sums w value xs, (value + sum xs) % 2 ^ w)
unfolding get_and_add
adds-from w value [] = ap (λ n. ([], n % 2 ^ w)) (omega arith)
adds-from w value (x ∷ xs) =
    rw (mod_add (2 ^ w) value x (two_pow w), adds-from w (value + x) xs)
      (ap (λ n. (value % 2 ^ w ∷ sums w (value + x) xs, n % 2 ^ w)) (omega arith))

-- In whatever order threads add, each is answered with what was added before, and the value behind them
-- is the sum, both up to a multiple of 2 ^ w.
pub adds-sums :
    (w value : ℕ) (xs : List ℕ)
    → value < 2 ^ w
    → adds w value xs ≡ (sums w value xs, (value + sum xs) % 2 ^ w)
adds-sums w value xs h = ap (λ v. adds w v xs) (grind arith) ∙ adds-from w value xs

-- `incrementAndGet` of 32 bits, of each value but the greatest, answers with the value that it stores, and
-- `decrement` takes that back; of the greatest it is undefined.
pub increment_and_get-bounds :
    (value : ℕ)
    → value < 2 ^ 32
    → ((value ≢ 2 ^ 31 - 1)
        → (next : ℕ) × (increment_and_get 32 value ≡ ok (next, next))
          × (next < 2 ^ 32)
          × (decrement 32 next ≡ value))
      × ((value ≡ 2 ^ 31 - 1) → increment_and_get 32 value ≡ invalid)
unfolding increment_and_get add_and_get get_and_add signed_sum decrement
increment_and_get-bounds value h = (
  λ small. ((value + 1) % 2 ^ 32, ground (arith, small, h), omega arith, omega arith),
  λ great. rw great refl,
)
