-- ===== src/Retry/Bounds.antt =====
-- The loop of `Delay` meets its closed form, without overflow.
use gotth_jobs.Common.{
  pos_part, ℕ, zero, suc, ◌-◌, ◌*◌, ◌/◌, ◌%◌, ◌^◌, ◌≤◌, ◌<◌, min, ◌≡◌, ℤ, pos, negsuc, arith, none,
  ◌≤ℤ◌, some, ap,
}
use native.Mathlib.Nat.{pow-suc}
use gotth_jobs.Types.{RetryPolicy, max_retry_delay, microsecond}
use gotth_jobs.Errors.{invalid_error}
use gotth_jobs.Retry.{double64, delay_loop, delay}

double64_small : (n : ℕ) → n < 2 ^ 62 → double64 (pos n) ≡ pos (2 * n)
unfolding double64
double64_small n h = ground arith

pow_pos : (n : ℕ) → 1 ≤ 2 ^ n
pow_pos zero = omega arith
pow_pos (suc n) = omega (arith, pow_pos n, pow-suc 2 n)

-- A step of the closed form: doubling first, then the rounds that are left.
closed_step : (d r : ℕ) → d * 2 ^ suc r ≡ 2 * d * 2 ^ r
closed_step d r = rw (pow-suc 2 r) (grind arith)

grows : (d p : ℕ) → 1 ≤ p → d ≤ d * p
grows d p h = grind arith

suc_sub_one : (n : ℕ) → suc n - 1 ≡ n
suc_sub_one n = omega arith

delay_loop_lem :
    (rounds d m : ℕ)
    → m ≤ max_retry_delay
    → d ≤ m
    → delay_loop rounds (pos d) (pos m) ≡ pos (min (d * 2 ^ rounds) m)
unfolding delay_loop
delay_loop_lem zero d m hm h = ground arith
delay_loop_lem (suc rounds) d m hm h = ground (
  arith,
  closed_step d rounds,
  grows d (2 ^ suc rounds) (pow_pos (suc rounds)),
  grows (2 * d) (2 ^ rounds) (pow_pos rounds),
  delay_loop_lem rounds (2 * d) m hm,
)

-- The parameters that `Delay` accepts.
abbrev pub IsUsable : RetryPolicy → ℤ → Type 0
IsUsable policy attempt =
    (pos 1 ≤ℤ attempt)
    × (pos 0 ≤ℤ policy.initial)
    × (policy.initial ≤ℤ policy.maximum)
    × (policy.maximum ≤ℤ pos max_retry_delay)

delay_lem :
    (i m k : ℕ)
    → i ≤ m
    → m ≤ max_retry_delay
    → delay (record { initial = pos i; maximum = pos m }) (pos (suc k))
      ≡ (pos (min (i * 2 ^ k) m), none)
unfolding delay
delay_lem i m k h hm = ground (arith, delay_loop_lem k i m hm h)

delay_parts :
    (i m a : ℤ)
    → IsUsable (record { initial = i; maximum = m }) a
    → delay (record { initial = i; maximum = m }) a
      ≡ (pos (min (pos_part i * 2 ^ (pos_part a - 1)) (pos_part m)), none)
delay_parts (pos i) (pos m) (pos (suc k)) (ha, hi, hm, hx) =
    rw (delay_lem i m k (omega arith) (omega arith), suc_sub_one k)
delay_parts (negsuc i) m a (ha, hi, hm, hx) = absurd (omega arith)
delay_parts (pos i) (negsuc m) a (ha, hi, hm, hx) = absurd (omega arith)
delay_parts (pos i) (pos m) (pos zero) (ha, hi, hm, hx) = absurd (omega arith)
delay_parts (pos i) (pos m) (negsuc a) (ha, hi, hm, hx) = absurd (omega arith)

-- For usable parameters `Delay` has no error, and returns the smaller of the maximum and the initial
-- delay doubled once for every attempt before this one; no doubling overflows.
pub delay_closed_form :
    (policy : RetryPolicy) (attempt : ℤ)
    → IsUsable policy attempt
    → delay policy attempt ≡ (
      pos (min (pos_part policy.initial * 2 ^ (pos_part attempt - 1)) (pos_part policy.maximum)),
      none,
    )
delay_closed_form policy attempt h = delay_parts policy.initial policy.maximum attempt h

-- Outside them it returns zero and an error that is `ErrInvalid`.
pub delay_rejects :
    (policy : RetryPolicy) (attempt : ℤ)
    → ¬ IsUsable policy attempt
    → delay policy attempt ≡ (pos 0, some (invalid_error "retry policy is invalid"))
unfolding delay
delay_rejects policy attempt h = ground arith

min_precise :
    (i p m : ℕ) → i % microsecond ≡ 0 → m % microsecond ≡ 0 → min (i * p) m % microsecond ≡ 0
min_precise i p m hi hm =
    let whole : i ≡ 1000 * (i / 1000) = omega arith in
    let product : i * p ≡ 1000 * (i / 1000) * p = ap (λ (t : ℕ). t * p) whole in omega arith

-- With both durations of the policy in whole microseconds, as the worker requires, every delay is in
-- whole microseconds too, and between zero and the policy's maximum.
pub delay_precise :
    (policy : RetryPolicy) (attempt : ℤ)
    → IsUsable policy attempt
    → pos_part policy.initial % microsecond ≡ 0
    → pos_part policy.maximum % microsecond ≡ 0
    → (n : ℕ) × (delay policy attempt ≡ (pos n, none))
      × (n ≤ pos_part policy.maximum)
      × (n % microsecond ≡ 0)
delay_precise policy attempt h hi hm = (
  min (pos_part policy.initial * 2 ^ (pos_part attempt - 1)) (pos_part policy.maximum),
  delay_closed_form policy attempt h,
  omega arith,
  min_precise (pos_part policy.initial) (2 ^ (pos_part attempt - 1)) (pos_part policy.maximum) hi
      hm,
)
