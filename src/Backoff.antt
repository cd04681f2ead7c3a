-- ===== src/Backoff.antt =====
-- The retry delay of the two polling workers: bounded exponential backoff with full jitter
-- (`next_retry_delay` in crates/hexeract-scheduler/src/worker.rs and
-- crates/hexeract-outbox/src/worker.rs).
use hexeract.Common.{
  mul_mono, ℕ, ◌-◌, ◌*◌, ◌^◌, ◌≤◌, ◌<◌, min, ◌≡◌, Bool, leb, ltb, if◌then◌else◌, arith,
}
use hexeract.Clock.{Duration, saturating_mul, last_duration, u32_max}
use native.Mathlib.Nat.{pow-le-pow_right}

abbrev pub u64_max : ℕ
u64_max = 2 ^ 64 - 1

-- `1u32.checked_shl(attempts).unwrap_or(u32::MAX)`: `checked_shl` refuses a shift by 32 or more.
unfoldable pub retry_factor : ℕ → ℕ
retry_factor attempts = if ltb attempts 32 then 2 ^ attempts else u32_max

unfoldable pub capped_delay : Duration → Duration → ℕ → Duration
capped_delay base limit attempts = min (saturating_mul base (retry_factor attempts)) limit

-- `u64::try_from(capped.as_nanos()).unwrap_or(u64::MAX)`.
unfoldable pub jitter_range : Duration → ℕ
jitter_range capped = if leb capped u64_max then capped else u64_max

-- `fastrand::u64(0..=n)` is a parameter.
unfoldable pub retry_delay : (ℕ → ℕ) → Bool → Duration → Duration → ℕ → Duration
unfolding capped_delay jitter_range
retry_delay random jitter base limit attempts =
    if jitter
    then random (jitter_range (capped_delay base limit attempts))
    else capped_delay base limit attempts

pow_mono : (a b : ℕ) → a ≤ b → 2 ^ a ≤ 2 ^ b
pow_mono a b h = pow-le-pow_right {n = 2} (omega arith) h

pow_bound : (a : ℕ) → a < 32 → 2 ^ a ≤ u32_max
pow_bound a h = omega (arith, pow_mono a 31 (omega arith))

retry_factor_mono : (a b : ℕ) → a ≤ b → retry_factor a ≤ retry_factor b
unfolding retry_factor
retry_factor_mono a b h = ground (arith, pow_mono a b, pow_bound a)

retry_factor-pos : (a : ℕ) → 1 ≤ retry_factor a
unfolding retry_factor
retry_factor-pos a = ground (arith, pow_mono 0 a)

-- With or without jitter the delay stays within the upper bound of the configuration.
pub retry_delay-le :
    (random : ℕ → ℕ) (jitter : Bool) (base limit attempts : ℕ)
    → ((n : ℕ) → random n ≤ n)
    → retry_delay random jitter base limit attempts ≤ limit
unfolding retry_delay
retry_delay-le random jitter base limit attempts r = ground (
  arith,
  r (
      if leb (capped_delay base limit attempts) u64_max
      then (capped_delay base limit attempts)
      else u64_max),
)

-- Without jitter the delay never shrinks from one attempt to a later one.
capped_delay_mono :
    (base limit a b : ℕ) → a ≤ b → capped_delay base limit a ≤ capped_delay base limit b
unfolding capped_delay saturating_mul
capped_delay_mono base limit a b h =
    omega (arith, mul_mono base (retry_factor a) (retry_factor b) (retry_factor_mono a b h))

-- Nor is it ever below the base delay, where that is within the upper bound.
pub capped_delay-ge :
    (base limit a : ℕ) → base ≤ limit → base ≤ last_duration → base ≤ capped_delay base limit a
unfolding capped_delay saturating_mul
capped_delay-ge base limit a h w =
    omega (arith, mul_mono base 1 (retry_factor a) (retry_factor-pos a))

-- What the delay is, with nothing saturated: the base delay doubled once for each attempt.
capped_delay_exact :
    (base limit a : ℕ)
    → a < 32
    → base * 2 ^ a ≤ limit
    → limit ≤ last_duration
    → capped_delay base limit a ≡ base * 2 ^ a
unfolding capped_delay saturating_mul retry_factor
capped_delay_exact base limit a s h w = ground arith
