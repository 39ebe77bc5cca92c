-- ===== src/Atomic/Tests.antt =====
-- Atomic numbers, and the theorems about them.
use summer.Prelude.{ℕ, ◌-◌, ◌^◌, ◌<◌, ◌≡◌, ◌≢◌, arith, ok, invalid}
use summer.Atomic.{increment_and_get, decrement}
use summer.Atomic.Sums.{increment_and_get-bounds}

increment_and_get-bounds_example :
    ((7 ≢ 2 ^ 31 - 1)
      → (next : ℕ) × (increment_and_get 32 7 ≡ ok (next, next))
        × (next < 2 ^ 32)
        × (decrement 32 next ≡ 7))
    × ((7 ≡ 2 ^ 31 - 1) → increment_and_get 32 7 ≡ invalid)
increment_and_get-bounds_example = increment_and_get-bounds 7 (omega arith)
