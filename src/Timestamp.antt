-- ===== src/Timestamp.antt =====
-- The time stamps of base/Timestamp.h and base/Timestamp.cc: a number of microseconds that is not
-- negative. What `gettimeofday` and `gmtime_r` answer are arguments.
pub mod Printing
mod Tests
use summer.Prelude.{ℕ, ◌+◌, ◌*◌, ◌/◌, ◌%◌, ◌∷◌, ◌++◌, take, Bool, ltb, ◌==◌}
use summer.Decimal.{Text, decimal, padded}

abbrev pub micro_second_per_second : ℕ
micro_second_per_second = 1000 * 1000

-- `tv_sec` and `tv_usec`
unfoldable pub now : ℕ → ℕ → ℕ
now tv_sec tv_usec = tv_sec * micro_second_per_second + tv_usec

abbrev pub before : ℕ → ℕ → Bool
before lt rt = ltb lt rt

abbrev pub same_time : ℕ → ℕ → Bool
same_time lt rt = lt == rt

unfoldable pub swap : ℕ × ℕ → ℕ × ℕ
swap (this, that) = (that, this)

-- `snprintf` is given 31 bytes, the last of which is the end.
unfoldable pub to_string : ℕ → Text
to_string time = take 30 (
    decimal (time / micro_second_per_second)
    ++ (b'.' ∷ padded b'0' 6 (decimal (time % micro_second_per_second))))

-- `struct tm`: the year counts from 1900, the month from 0.
pub record Tm : Type 0 where
  pub year : ℕ
  pub mon : ℕ
  pub mday : ℕ
  pub hour : ℕ
  pub min : ℕ
  pub sec : ℕ

abbrev pub two : ℕ → Text
two n = padded b'0' 2 (decimal n)

-- `%4d-%02d-%02d %02d:%02d:%02d.%06d`
unfoldable pub date_text : Tm → ℕ → Text
date_text t microseconds =
    padded b' ' 4 (decimal (t.year + 1900))
    ++ (b'-'
        ∷ (two (t.mon + 1)
            ++ (b'-'
                ∷ (two t.mday
                    ++ (b' '
                        ∷ (two t.hour
                            ++ (b':'
                                ∷ (two t.min
                                    ++ (b':'
                                        ∷ (two t.sec
                                            ++ (b'.'
                                                ∷ padded b'0' 6 (decimal microseconds))))))))))))

unfoldable pub to_format_string : (ℕ → Tm) → ℕ → Text
to_format_string gmtime time =
    take 30 (date_text (gmtime (time / micro_second_per_second)) (time % micro_second_per_second))
