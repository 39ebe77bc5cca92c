-- ===== src/TimerQueue/Arming.antt =====
-- How the descriptor of a timer queue is armed. `timerfd_settime` is a parameter.
use summer.Prelude.{
  ℕ, zero, suc, ◌+◌, ◌-◌, ◌*◌, ◌/◌, ◌%◌, ◌<◌, ◌≤◌, ◌≡◌, ap, arith, ℤ, pos, negsuc, neg, minus,
  quotient, remainder, times,
}

-- `struct timespec`
pub record Timespec : Type 0 where
  pub tv_sec : ℤ
  pub tv_nsec : ℤ

unfoldable pub how_long_to_expiration : ℕ → ℕ → Timespec
how_long_to_expiration now when =
    let micro_seconds = minus when now in
    record {
      tv_sec = quotient micro_seconds 1000000;
      tv_nsec = times (remainder micro_seconds 1000000) 1000;
    }

-- What comes of it: armed for a number of nanoseconds, disarmed, or refused with an error.
pub data Armed : Type 0 where
  armed : ℕ → Armed
  disarmed refused : Armed

-- What its manual says of `timerfd_settime`.
pub record IsDocumented (settime : Timespec → Armed) : Type 0 where
  pub positive :
      (sec nsec : ℕ)
      → nsec < 1000000000
      → 0 < sec + nsec
      → settime (record { tv_sec = pos sec; tv_nsec = pos nsec }) ≡ armed (sec * 1000000000 + nsec)
  pub nothing : settime (record { tv_sec = pos 0; tv_nsec = pos 0 }) ≡ disarmed
  pub negative_sec :
      (sec : ℕ) (nsec : ℤ) → settime (record { tv_sec = negsuc sec; tv_nsec = nsec }) ≡ refused
  pub negative_nsec :
      (sec : ℤ) (nsec : ℕ) → settime (record { tv_sec = sec; tv_nsec = negsuc nsec }) ≡ refused

-- An error is only logged.
unfoldable pub reset_timerfd : (Timespec → Armed) → ℕ → ℕ → Armed
reset_timerfd settime now when = settime (how_long_to_expiration now when)

minus-later : (a b : ℕ) → a ≤ b → minus b a ≡ pos (b - a)
minus-later a b h = ground (arith, h)

minus-earlier : (a b : ℕ) → b < a → minus b a ≡ negsuc (a - b - 1)
minus-earlier a b h = ground (arith, h)

neg-above : (n : ℕ) → 0 < n → neg n ≡ negsuc (n - 1)
neg-above zero h = absurd (omega arith)
neg-above (suc n) h = ap negsuc (omega arith)

module _ (settime : Timespec → Armed) (doc : IsDocumented settime) where
  refuses :
      (sec nsec : ℕ)
      → 0 < sec + nsec
      → settime (record { tv_sec = neg sec; tv_nsec = times (neg nsec) 1000 }) ≡ refused
  refuses zero zero h = absurd (omega arith)
  refuses zero (suc nsec) h =
      rw (neg-above (suc nsec * 1000) (omega arith))
        (doc.negative_nsec (pos 0) (suc nsec * 1000 - 1))
  refuses (suc sec) nsec h = doc.negative_sec sec (times (neg nsec) 1000)

  -- For a time that is still to come the descriptor is armed, for just as long as that is ahead; for this
  -- very moment it is disarmed, and for a time that has passed it stays as it was.
  pub reset_timerfd-arms :
      (now when : ℕ)
      → (now < when → reset_timerfd settime now when ≡ armed ((when - now) * 1000))
        × (when ≡ now → reset_timerfd settime now when ≡ disarmed)
        × (when < now → reset_timerfd settime now when ≡ refused)
  unfolding reset_timerfd how_long_to_expiration
  reset_timerfd-arms now when = (
    λ ahead.
        rw
          (
            minus-later now when (omega arith),
            doc.positive ((when - now) / 1000000) (((when - now) % 1000000) * 1000) (omega arith)
                (omega arith),
          )
          (ap armed (omega arith)),
    λ same. rw (same, minus-later now now (omega arith), (n_minus now)) doc.nothing,
    λ late.
        rw (minus-earlier now when late)
          (refuses (suc (now - when - 1) / 1000000) (suc (now - when - 1) % 1000000) (omega arith)),
  )
    where
      n_minus : (n : ℕ) → n - n ≡ 0
      n_minus n = omega arith
