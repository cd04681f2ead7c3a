-- ===== src/Bus/DeadlineTests.antt =====
-- The theorems about deadlines at concrete readings of the clocks.
use hexeract.Common.{
  ℕ, ◌+◌, ◌-◌, ◌/◌, ◌<◌, ◌≤◌, ◌≡◌, ◌^◌, ◌*◌, refl, some, arith, if◌then◌else◌, leb,
}
use hexeract.Common.Int.{negsuc}
use hexeract.Common.Result.{ok}
use hexeract.Clock.{from_secs, from_millis, last_instant, unix_epoch, checked_add}
use hexeract.Bus.Deadline.{
  max_deadline_horizon, clock_skew_tolerance, within_horizon, from_wall_clock, from_unix_millis,
  to_unix_millis, anchor, live, expired, i64_max,
}
use hexeract.Bus.Deadline.Laws.{within_horizon-anchor, to_unix_millis-from_unix_millis}

-- A timeout of a minute at a second and a nanosecond past the epoch, which the responder reads two
-- seconds later.
abbrev sent_at : ℕ
sent_at = 2 ^ 63 * 1_000_000_000 + from_secs 1 + 1

stamped : within_horizon sent_at (from_secs 60) ≡ some (sent_at + from_secs 60)
unfolding within_horizon from_wall_clock checked_add last_instant
stamped = refl

after_epoch : unix_epoch ≤ sent_at
unfolding unix_epoch
after_epoch = omega arith

deadline_is_i64 : (sent_at + from_secs 60 - unix_epoch) / 1_000_000 ≤ i64_max
unfolding unix_epoch
deadline_is_i64 = omega arith

horizon_fits : sent_at + from_secs 2 + max_deadline_horizon ≤ last_instant
unfolding last_instant
horizon_fits = omega arith

deadline_fits : sent_at + from_secs 60 + clock_skew_tolerance ≤ last_instant
unfolding last_instant
deadline_fits = omega arith

within_horizon-anchor_example :
    (t : ℕ) × (from_unix_millis (to_unix_millis (sent_at + from_secs 60)) ≡ ok t)
    × (t ≤ sent_at + from_secs 60)
    × (sent_at + from_secs 60 < t + from_millis 1)
    × (anchor 9 (sent_at + from_secs 2) t ≡ (
        if leb (sent_at + from_secs 2) (t + from_secs 1)
        then live (9 + (t + from_secs 1 - (sent_at + from_secs 2)))
        else expired))
within_horizon-anchor_example =
    within_horizon-anchor 9 sent_at (sent_at + from_secs 2) (from_secs 60) (sent_at + from_secs 60)
      stamped after_epoch deadline_is_i64 (omega arith) horizon_fits deadline_fits

before_epoch : from_unix_millis (negsuc 2) ≡ ok (2 ^ 63 * 1_000_000_000 - 3_000_000)
unfolding from_unix_millis unix_epoch
before_epoch = refl

to_unix_millis-from_unix_millis_example :
    to_unix_millis (2 ^ 63 * 1_000_000_000 - 3_000_000) ≡ negsuc 2
to_unix_millis-from_unix_millis_example =
    to_unix_millis-from_unix_millis (negsuc 2) (2 ^ 63 * 1_000_000_000 - 3_000_000) before_epoch
      (omega arith)
