-- ===== src/Clock.antt =====
-- Rust's `SystemTime`, `Instant` and `Duration`, as the code uses them.
-- An instant is the number of nanoseconds since the earliest instant that the platform
-- represents, so that instants before the Unix epoch are numbers too. A duration is a number of
-- nanoseconds.
use hexeract.Common.{
  ℕ, ◌+◌, ◌-◌, ◌*◌, ◌^◌, ◌≤◌, min, ◌≡◌, Option, some, none, leb, if◌then◌else◌, arith,
}

abbrev pub Instant : Type 0
Instant = ℕ

abbrev pub Duration : Type 0
Duration = ℕ

abbrev pub nanos_per_second : ℕ
nanos_per_second = 1_000_000_000

-- The seconds of a `SystemTime` are a signed and those of a `Duration` an unsigned 64-bit number.
unfoldable pub last_instant : Instant
last_instant = 2 ^ 64 * nanos_per_second - 1

unfoldable pub unix_epoch : Instant
unix_epoch = 2 ^ 63 * nanos_per_second

unfoldable pub last_duration : Duration
last_duration = 2 ^ 64 * nanos_per_second - 1

abbrev pub from_millis : ℕ → Duration
from_millis n = n * 1_000_000

abbrev pub from_secs : ℕ → Duration
from_secs n = n * nanos_per_second

-- `SystemTime::checked_add`.
unfoldable pub checked_add : Instant → Duration → Option Instant
checked_add t d = if leb (t + d) last_instant then some (t + d) else none

-- `Duration::saturating_mul` and `Duration::checked_mul`.
unfoldable pub saturating_mul : Duration → ℕ → Duration
saturating_mul d n = min (d * n) last_duration

unfoldable pub checked_mul : Duration → ℕ → Option Duration
checked_mul d n = if leb (d * n) last_duration then some (d * n) else none

-- A deadline that `checked_add` returns is the sum.
pub checked_add-eq : (t d : ℕ) {u : ℕ} → checked_add t d ≡ some u → u ≡ t + d
unfolding checked_add
checked_add-eq t d h = ground arith

pub checked_add_fits : (t d : ℕ) → t + d ≤ last_instant → checked_add t d ≡ some (t + d)
unfolding checked_add
checked_add_fits t d h = ground arith

-- `u32` arithmetic wraps.
abbrev pub u32_mod : ℕ
u32_mod = 4294967296

abbrev pub u32_max : ℕ
u32_max = 4294967295
