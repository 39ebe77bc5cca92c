-- ===== src/Connector/Retry.antt =====
-- The delays between attempts: they double up to a bound.
use native.Mathlib.Nat.{pow-suc}
use summer.Prelude.{ℕ, zero, suc, ◌+◌, ◌*◌, ◌^◌, ◌≤◌, ◌≡◌, ap, arith, [], ◌∷◌, min}
use summer.Connector.{Connector, max_retry_delay_ms, closed, scheduled, retry}

-- `n` failed attempts in a row, on one descriptor after another.
unfoldable pub retries : ℕ → ℕ → Connector → Connector
retries zero sockfd c = c
retries (suc n) sockfd c = (retry (retries n sockfd c) (sockfd + n)).0

delay_of :
    (n sockfd : ℕ) (c : Connector)
    → c.retry_delay_ms ≤ max_retry_delay_ms
    → (retries n sockfd c).retry_delay_ms ≡ min (c.retry_delay_ms * 2 ^ n) max_retry_delay_ms
unfolding retries retry
delay_of zero sockfd c h = omega arith
delay_of (suc n) sockfd c h =
    omega (arith, delay_of n sockfd c h, ap (λ (p : ℕ). c.retry_delay_ms * p) (pow-suc 2 n))

-- The attempt behind `n` failed ones in a row is delayed by the first delay times 2 ^ n, or by the
-- largest delay if that is less, and its socket is closed.
pub retry-delay :
    (n sockfd fd : ℕ) (c : Connector)
    → c.retry_delay_ms ≤ max_retry_delay_ms
    → (retry (retries n sockfd c) fd).1
      ≡ closed fd ∷ scheduled (min (c.retry_delay_ms * 2 ^ n) max_retry_delay_ms) ∷ []
unfolding retry
retry-delay n sockfd fd c h = ap (λ d. closed fd ∷ scheduled d ∷ []) (delay_of n sockfd c h)
