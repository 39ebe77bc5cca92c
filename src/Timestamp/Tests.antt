-- ===== src/Timestamp/Tests.antt =====
-- Time stamps that are printed.
use summer.Prelude.{ℕ, ◌%◌, ◌≤◌, ◌≡◌, refl, arith, length, [], ◌∷◌}
use summer.Decimal.{digits, fills, padded}
use summer.Timestamp.{to_string, Tm}
use summer.Timestamp.Printing.{microseconds_of, microseconds_of-to_string}

prints : to_string 3000042 ≡ b'3' ∷ b'.' ∷ b'0' ∷ b'0' ∷ b'0' ∷ b'0' ∷ b'4' ∷ b'2' ∷ []
unfolding to_string digits padded fills
prints = refl

microseconds_of-to_string_example :
    (microseconds_of (to_string 3000042) ≡ 3000042) × (length (to_string 3000042) ≤ 20)
microseconds_of-to_string_example = microseconds_of-to_string 3000042 (omega arith)

-- The first of January 1970, with the seconds of its first minute.
abbrev first_minute : ℕ → Tm
first_minute seconds = record {
  year = 70;
  mon = 0;
  mday = 1;
  hour = 0;
  min = 0;
  sec = seconds % 60;
}
