-- ===== src/Timestamp/Printing.antt =====
-- What a time stamp prints can be read again, and fits into its buffer.
use summer.Prelude.{
  ℕ, suc, ◌+◌, ◌*◌, ◌/◌, ◌%◌, ◌^◌, ◌≤◌, ◌<◌, ◌≡◌, arith, ◌∷◌, ◌++◌, length, length-append,
}
use summer.Decimal.{
  Text, decimal, padded, front, behind, front-append, behind-append, Without-decimal, value_from,
  value-decimal, value-padded, length-decimal, length-padded, take_all,
}
use summer.Timestamp.{to_string, Tm, to_format_string, date_text, two}

-- The number of microseconds that a row of digits, a point and six more digits stand for.
abbrev pub microseconds_of : Text → ℕ
microseconds_of t = value_from 0 (front b'.' t) * 1000000 + value_from 0 (behind b'.' t)

abbrev parts : ℕ → Text
parts time = decimal (time / 1000000) ++ (b'.' ∷ padded b'0' 6 (decimal (time % 1000000)))

length-parts : (time : ℕ) → time < 2 ^ 63 → length (parts time) ≤ 20
length-parts time h = omega (
  arith,
  length-append (decimal (time / 1000000)) (b'.' ∷ padded b'0' 6 (decimal (time % 1000000))),
  length-decimal 13 (time / 1000000) (omega arith) (omega arith),
  length-padded b'0' 6 (decimal (time % 1000000))
      (length-decimal 6 (time % 1000000) (omega arith) (omega arith)),
)

to_string-whole : (time : ℕ) → time < 2 ^ 63 → to_string time ≡ parts time
unfolding to_string
to_string-whole time h = take_all 30 (parts time) (omega (arith, length-parts time h))

-- Of a time stamp that fits its `int64_t` and is not negative, `toString` prints seconds, a point and six
-- digits, in no more than 20 characters, so that nothing is cut, and the time can be read from them.
pub microseconds_of-to_string :
    (time : ℕ)
    → time < 2 ^ 63
    → (microseconds_of (to_string time) ≡ time) × (length (to_string time) ≤ 20)
microseconds_of-to_string time h =
    rw
      (
        to_string-whole time h,
        front-append b'.' (decimal (time / 1000000)) (padded b'0' 6 (decimal (time % 1000000)))
            (Without-decimal b'.' (time / 1000000) (omega arith)),
        behind-append b'.' (decimal (time / 1000000)) (padded b'0' 6 (decimal (time % 1000000)))
            (Without-decimal b'.' (time / 1000000) (omega arith)),
        value-decimal (time / 1000000),
        value-padded 6 (decimal (time % 1000000)),
        value-decimal (time % 1000000),
      )
      (omega arith, length-parts time h)

-- What `gmtime_r` answers of a time before the year 10000.
pub record IsDate (t : Tm) : Type 0 where
  pub year : t.year + 1900 < 10000
  pub mon : t.mon < 12
  pub mday : t.mday ≤ 31
  pub hour : t.hour < 24
  pub min : t.min < 60
  pub sec : t.sec ≤ 60

length-two : (n : ℕ) → n < 100 → length (two n) ≡ 2
length-two n h = length-padded b'0' 2 (decimal n) (length-decimal 2 n h (omega arith))

length-join :
    (c : ℕ) (s t : Text) {m n : ℕ}
    → length s ≡ m
    → length t ≡ n
    → length (s ++ (c ∷ t)) ≡ suc (m + n)
length-join c s t hs ht = omega (arith, length-append s (c ∷ t), hs, ht)

length-date_text :
    (t : Tm) (microseconds : ℕ)
    → IsDate t
    → microseconds < 1000000
    → length (date_text t microseconds) ≡ 26
unfolding date_text
length-date_text t microseconds d h =
    length-join _ _ _
      (length-padded b' ' 4 (decimal (t.year + 1900))
        (length-decimal 4 (t.year + 1900) d.year (omega arith)))
      (length-join _ _ _ (length-two (t.mon + 1) (omega (arith, d.mon))) (
        length-join _ _ _ (length-two t.mday (omega (arith, d.mday))) (
          length-join _ _ _ (length-two t.hour (omega (arith, d.hour))) (
            length-join _ _ _ (length-two t.min (omega (arith, d.min))) (
              length-join _ _ _ (length-two t.sec (omega (arith, d.sec))) (
                length-padded b'0' 6 (decimal microseconds)
                  (length-decimal 6 microseconds h (omega arith))))))))

-- Of a time before the year 10000 the printed date has just 26 characters, and nothing is cut.
pub length-to_format_string :
    (gmtime : ℕ → Tm) (time : ℕ)
    → IsDate (gmtime (time / 1000000))
    → (length (to_format_string gmtime time) ≡ 26)
      × (to_format_string gmtime time ≡ date_text (gmtime (time / 1000000)) (time % 1000000))
unfolding to_format_string
length-to_format_string gmtime time d =
    let exact = length-date_text (gmtime (time / 1000000)) (time % 1000000) d (omega arith) in
    let whole =
      take_all 30 (date_text (gmtime (time / 1000000)) (time % 1000000)) (omega (arith, exact)) in
    (rw whole exact, whole)
