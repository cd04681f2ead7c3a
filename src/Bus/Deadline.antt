-- ===== src/Bus/Deadline.antt =====
-- Deadlines of requests: crates/hexeract-bus/src/deadline.rs. A reading of a clock is an argument,
-- of the wall clock `now` and of the monotonic clock `tick`, which never overflows here.
pub mod Laws
use hexeract.Common.{
  ℕ, suc, ◌+◌, ◌-◌, ◌*◌, ◌/◌, ◌^◌, Option, some, none, Bool, true, false, leb, if◌then◌else◌,
}
use hexeract.Common.Int.{ℤ, pos, negsuc, neg}
use hexeract.Common.Result.{Result, ok, err, ok_or}
use hexeract.Clock.{Instant, Duration, unix_epoch, checked_add, from_millis, from_secs}

abbrev pub max_deadline_horizon : Duration
max_deadline_horizon = from_secs 3600

abbrev pub clock_skew_tolerance : Duration
clock_skew_tolerance = from_secs 1

abbrev pub i64_max : ℕ
i64_max = 2 ^ 63 - 1

-- An instant of the wall clock.
abbrev pub Deadline : Type 0
Deadline = Instant

-- An instant of the monotonic clock.
abbrev pub LocalDeadline : Type 0
LocalDeadline = ℕ

pub data DeadlineViolation : Type 0 where
  unreadable beyond_horizon : DeadlineViolation

pub data DeadlineReading : Type 0 where
  absent expired : DeadlineReading
  live : LocalDeadline → DeadlineReading
  invalid : DeadlineViolation → DeadlineReading

unfoldable pub from_wall_clock : Instant → Duration → Deadline
from_wall_clock now timeout = elim (checked_add now timeout) [ some d ↦ d | none ↦ now ]

-- `within_horizon`, with the reading of the clock that `after` makes.
unfoldable pub within_horizon : Instant → Duration → Option Deadline
within_horizon now timeout =
    if leb timeout max_deadline_horizon then some (from_wall_clock now timeout) else none

-- `SystemTime::checked_sub`.
abbrev pub checked_sub : Instant → Duration → Option Instant
checked_sub t d = if leb d t then some (t - d) else none

unfoldable pub from_unix_millis : ℤ → Result DeadlineViolation Deadline
from_unix_millis (pos m) = ok_or (checked_add unix_epoch (from_millis m)) unreadable
from_unix_millis (negsuc m) = ok_or (checked_sub unix_epoch (from_millis (m + 1))) unreadable

unfoldable pub to_unix_millis : Deadline → ℤ
to_unix_millis d =
    if leb unix_epoch d
    then (let millis = (d - unix_epoch) / 1_000_000 in
        if leb millis i64_max then pos millis else pos i64_max)
    else (let millis = (unix_epoch - d) / 1_000_000 in
        if leb millis i64_max then neg millis else negsuc i64_max)

-- `LocalDeadline::after` and `LocalDeadline::remaining`.
unfoldable pub local_after : ℕ → Duration → LocalDeadline
local_after tick remaining = tick + remaining

unfoldable pub remaining : ℕ → LocalDeadline → Option Duration
remaining tick d = if leb tick d then some (d - tick) else none

abbrev anchor_tolerated : ℕ → Instant → Option Instant → DeadlineReading
anchor_tolerated tick now none = invalid beyond_horizon
anchor_tolerated tick now (some tolerated) =
    if leb now tolerated then live (local_after tick (tolerated - now)) else expired

abbrev anchor_within : ℕ → Instant → Deadline → Option Instant → DeadlineReading
anchor_within tick now d none = invalid beyond_horizon
anchor_within tick now d (some horizon) =
    if leb d horizon
    then anchor_tolerated tick now (checked_add d clock_skew_tolerance)
    else invalid beyond_horizon

unfoldable pub anchor : ℕ → Instant → Deadline → DeadlineReading
anchor tick now d = anchor_within tick now d (checked_add now max_deadline_horizon)
