-- ===== src/Reliability/Backoff.antt =====
-- `compute_backoff_delay` of backend/app/infrastructure/reliability/backoff.py. A jitter is a number
-- of millionths, and the product of the delay with the random factor, not below 0, is a parameter.
use native.Mathlib.Nat.{mul-le-mul_left, pow-le-pow_right}
use hotelops_ai.Prelude.{
  ℕ, zero, suc, ◌+◌, ◌-◌, ◌*◌, ◌^◌, ◌≤◌, ◌<◌, ◌≡◌, refl, Bool, true, false, ltb, leb, ◌↔◌,
  if◌then◌else◌, Result, ok, ◌>>◌, reject, ensure, arith,
}
use hotelops_ai.Prelude.Int.{ℤ, pos, negsuc}

pub data BackoffError : Type 0 where
  bad_attempt bad_bounds bad_jitter : BackoffError

abbrev max_exponent : ℕ
max_exponent = 32

abbrev min : ℕ → ℕ → ℕ
min a b = if leb a b then a else b

-- `0 <= jitter < 1`
abbrev pub is_fraction : ℤ → Bool
is_fraction (pos j) = ltb j 1000000
is_fraction (negsuc j) = false

abbrev jittered : ℤ → (ℕ → ℕ) → ℕ → ℕ → ℕ
jittered (pos (suc j)) factor most delay = min most (factor delay)
jittered (pos zero) factor most delay = delay
jittered (negsuc j) factor most delay = delay

-- The delay where the arguments are accepted.
unfoldable pub delay_for : ℕ → ℕ → ℕ → ℤ → (ℕ → ℕ) → ℕ
delay_for attempt base most jitter factor =
    jittered jitter factor most (min most (base * 2 ^ min (attempt - 1) max_exponent))

unfoldable pub compute_backoff_delay : ℕ → ℕ → ℕ → ℤ → (ℕ → ℕ) → Result BackoffError ℕ
compute_backoff_delay attempt base most jitter factor =
    reject (ltb attempt 1) bad_attempt
    >> reject (ltb most base) bad_bounds
    >> ensure (is_fraction jitter) bad_jitter
    >> ok (delay_for attempt base most jitter factor)

-- With an attempt, fitting bounds and a jitter below 1 there is no exception.
pub compute_backoff_delay-ok :
    (attempt base most : ℕ) (jitter : ℤ) (factor : ℕ → ℕ)
    → ltb attempt 1 ≡ false
    → base ≤ most
    → is_fraction jitter ≡ true
    → compute_backoff_delay attempt base most jitter factor
      ≡ ok (delay_for attempt base most jitter factor)
unfolding compute_backoff_delay
compute_backoff_delay-ok attempt base most jitter factor tried fits below = ground arith

bounded :
    (jitter : ℤ) (factor : ℕ → ℕ) (most delay : ℕ)
    → delay ≤ most
    → jittered jitter factor most delay ≤ most
bounded (pos (suc j)) factor most delay h = ground arith
bounded (pos zero) factor most delay h = h
bounded (negsuc j) factor most delay h = h

min_le : (a b : ℕ) → min a b ≤ a
min_le a b = ground arith

delay_for-bounded :
    (attempt base most : ℕ) (jitter : ℤ) (factor : ℕ → ℕ)
    → delay_for attempt base most jitter factor ≤ most
unfolding delay_for
delay_for-bounded attempt base most jitter factor = bounded jitter factor most _ (min_le most _)

-- From 0 up to 1, 1 left out.
abbrev pub IsFraction : ℤ → Type 0
IsFraction jitter = (j : ℕ) × (jitter ≡ pos j) × (j < 1000000)

IsFraction-is_fraction : (jitter : ℤ) → IsFraction jitter → is_fraction jitter ≡ true
IsFraction-is_fraction jitter (j, same, below) = rw same (ground arith)

is_fraction-IsFraction : (jitter : ℤ) → is_fraction jitter ≡ true → IsFraction jitter
is_fraction-IsFraction (pos j) h = (j, refl, ground (arith, h))
is_fraction-IsFraction (negsuc j) h = cc

-- A delay is computed exactly for a positive attempt, bounds in order and a jitter from 0 up to 1, 1
-- left out, and it is at most the largest delay, whatever the random factor is, and for an attempt
-- however high.
pub compute_backoff_delay-bounded :
    (attempt base most : ℕ) (jitter : ℤ) (factor : ℕ → ℕ)
    → ((delay : ℕ) × (compute_backoff_delay attempt base most jitter factor ≡ ok delay)
        × (delay ≤ most))
      ↔ ((1 ≤ attempt) × (base ≤ most) × IsFraction jitter)
unfolding compute_backoff_delay
compute_backoff_delay-bounded attempt base most jitter factor = (
  λ (delay, h, most_of).
      (ground (arith, h), ground (arith, h), is_fraction-IsFraction jitter (ground (arith, h))),
  λ (tried, fits, below). (
    delay_for attempt base most jitter factor,
    compute_backoff_delay-ok attempt base most jitter factor (ground arith) fits
        (IsFraction-is_fraction jitter below),
    delay_for-bounded attempt base most jitter factor,
  ),
)

min_mono_left : (a b most : ℕ) → a ≤ b → min a most ≤ min b most
min_mono_left a b most h = ground arith

min_mono_right : (a b most : ℕ) → a ≤ b → min most a ≤ min most b
min_mono_right a b most h = ground arith

-- Without jitter a later attempt never waits less.
delay_for-monotone :
    (attempt more base most : ℕ)
    → delay_for attempt base most (pos 0) (λ d. d)
      ≤ delay_for (attempt + more) base most (pos 0) (λ d. d)
unfolding delay_for
delay_for-monotone attempt more base most = min_mono_right _ _ most (
    mul-le-mul_left base (
      pow-le-pow_right (omega arith)
        (min_mono_left (attempt - 1) (attempt + more - 1) max_exponent (omega arith))))
