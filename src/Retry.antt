-- ===== src/Retry.antt =====
-- pkg/jobs/retry.go: the saturating base-2 delay. Durations are `int64` nanoseconds.
pub mod Bounds
use gotth_jobs.Common.{
  ℕ, zero, suc, ◌+◌, ◌-◌, ◌*◌, ◌/◌, ℤ, pos, negsuc, pos_part, neg_part, Bool, true, false, ◌&&◌,
  ◌||◌, Option, none, some, if◌then◌else◌, ltb, leb, leb_ℤ, ltb_ℤ, eqb_ℤ, wrap64, div_ℤ, sub_ℕ,
  abs_ℤ,
}
use gotth_jobs.Types.{RetryPolicy, max_retry_delay}
use gotth_jobs.Errors.{Err, invalid_error}

-- `delay *= 2` on an `int64`.
unfoldable pub double64 : ℤ → ℤ
unfolding wrap64
double64 (pos n) = wrap64 (pos (2 * n))
double64 (negsuc n) = wrap64 (negsuc (2 * n + 1))

min_ℤ : ℤ → ℤ → ℤ
min_ℤ a b = if leb_ℤ a b then a else b

-- The `for` loop, with the rounds that `current < attempt` leaves; it exits early when the delay
-- has reached the maximum, and returns when doubling would pass it.
unfoldable pub delay_loop : ℕ → ℤ → ℤ → ℤ
unfolding double64 min_ℤ
delay_loop zero delay maximum = min_ℤ delay maximum
delay_loop (suc rounds) delay maximum =
    let rest = delay_loop rounds (double64 delay) maximum in
    if ltb_ℤ delay maximum
    then (if ltb_ℤ (div_ℤ maximum 2) delay then maximum else rest)
    else min_ℤ delay maximum

policy_invalid : RetryPolicy → ℤ → Bool
policy_invalid policy attempt =
    ltb_ℤ attempt (pos 1)
    || ltb_ℤ policy.initial (pos 0)
    || ltb_ℤ policy.maximum (pos 0)
    || ltb_ℤ (pos max_retry_delay) policy.maximum
    || ltb_ℤ policy.maximum policy.initial

unfoldable pub delay : RetryPolicy → ℤ → ℤ × Option Err
unfolding policy_invalid
delay policy attempt =
    if policy_invalid policy attempt
    then (pos 0, some (invalid_error "retry policy is invalid"))
    else (if eqb_ℤ policy.initial (pos 0)
        then (pos 0, none)
        else (delay_loop (pos_part attempt - 1) policy.initial policy.maximum, none))
