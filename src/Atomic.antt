-- ===== src/Atomic.antt =====
-- The atomic numbers of base/Atomic.h, with `w` bits: a value is kept as a number below 2 ^ w, and a
-- negative one as its two's complement. Each operation is one step, so that those of several threads come
-- in some order.
pub mod Sums
mod Tests
use summer.Prelude.{
  ℕ, suc, ◌+◌, ◌-◌, ◌%◌, ◌^◌, Bool, true, false, not, ◌&&◌, ltb, leb, if◌then◌else◌, List, [], ◌∷◌,
  Outcome, ok, invalid, ◌>>=◌,
}

unfoldable pub init : ℕ
init = 0

-- Compares with 0 and puts 0 in its place: the value does not change.
unfoldable pub get : ℕ → ℕ × ℕ
get value = (value, value)

-- The old value, and the new one.
unfoldable pub get_and_add : ℕ → ℕ → ℕ → ℕ × ℕ
get_and_add w value x = (value, (value + x) % 2 ^ w)

unfoldable pub get_and_set : ℕ → ℕ → ℕ × ℕ
get_and_set value new_val = (value, new_val)

abbrev pub is_negative : ℕ → ℕ → Bool
is_negative w value = leb (2 ^ (w - 1)) value

abbrev pub same_sign : Bool → Bool → Bool
same_sign true b = b
same_sign false b = not b

-- A sum of two signed numbers, which is undefined where it does not fit.
unfoldable pub signed_sum : ℕ → ℕ → ℕ → Outcome ℕ
signed_sum w a b =
    let sum = (a + b) % 2 ^ w in
    if same_sign (is_negative w a) (is_negative w b)
      && not (same_sign (is_negative w a) (is_negative w sum))
    then invalid
    else ok sum

unfoldable pub add_and_get : ℕ → ℕ → ℕ → Outcome (ℕ × ℕ)
add_and_get w value x = do let r = get_and_add w value x; sum ← signed_sum w r.0 x; ok (sum, r.1)

unfoldable pub get_and_increment : ℕ → ℕ → ℕ × ℕ
get_and_increment w value = get_and_add w value 1

unfoldable pub increment_and_get : ℕ → ℕ → Outcome (ℕ × ℕ)
increment_and_get w value = add_and_get w value 1

unfoldable pub increment : ℕ → ℕ → Outcome ℕ
increment w value = do r ← increment_and_get w value; ok r.1

unfoldable pub decrement : ℕ → ℕ → ℕ
decrement w value = (get_and_add w value (2 ^ w - 1)).1

unfoldable pub add : ℕ → ℕ → ℕ → ℕ
add w value x = (get_and_add w value x).1
