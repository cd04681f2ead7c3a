-- ===== src/Scheduler/Cron.antt =====
-- Triggers: crates/hexeract-scheduler/src/trigger.rs. The cron engine (`isochron`) and the range of
-- `time::OffsetDateTime` are parameters. An `OffsetDateTime` is its signed number of nanoseconds
-- since the Unix epoch.
pub mod Laws
use Prim.Native.String.{String}
use Prim.Native.Char.{Char, code}
use hexeract.Common.{
  ℕ, zero, suc, ◌+◌, ◌-◌, ◌*◌, ◌/◌, ◌%◌, ◌^◌, ◌≤◌, ◌<◌, max, ◌≡◌, refl, Option, some, none, Bool,
  true, false, leb, ◌==◌, ◌&&◌, ◌||◌, if◌then◌else◌, arith, Bool-cases, Option-cases, ◌⊎◌, inl, inr,
  leb→le, le→leb, ◌==◌, ◌&&◌, ◌||◌,
}
use hexeract.Common.Int.{ℤ, pos, negsuc, neg, ◌<ℤ◌}
use hexeract.Common.Result.{Result, ok, err, ◌>>=◌, ok_or}
use hexeract.Clock.{Instant, Duration, unix_epoch, nanos_per_second, last_instant}
use hexeract.Scheduler.Types.{
  Fallible, SchedulerError, internal, invalid_trigger, Trigger, delay, cron,
}

-- `isochron`: a text parses to a schedule, known by its `next_after`, or is refused with a reason;
-- and `time`: which instants an `OffsetDateTime` can represent.
pub record CronEngine : Type 0 where
  pub parse : String → Result String (ℤ → Option ℤ)
  pub representable : ℤ → Bool

-- The characters with Unicode's `White_Space` property.
abbrev pub is_whitespace : ℕ → Bool
is_whitespace c =
    (leb 9 c && leb c 13)
    || (c == 32
        || (c == 0x85
            || (c == 0xa0
                || (c == 0x1680
                    || ((leb 0x2000 c && leb c 0x200a)
                        || (c == 0x2028
                            || (c == 0x2029 || (c == 0x202f || (c == 0x205f || c == 0x3000)))))))))

-- `str::trim`.
unfoldable pub trim_start : String → String
trim_start String.[] = String.[]
trim_start (String.◌∷◌ c s) = if is_whitespace (code c) then trim_start s else String.◌∷◌ c s

abbrev cons_unless_blank : Char → String → String
cons_unless_blank c String.[] = if is_whitespace (code c) then String.[] else String.◌∷◌ c String.[]
cons_unless_blank c (String.◌∷◌ d s) = String.◌∷◌ c (String.◌∷◌ d s)

unfoldable pub trim_end : String → String
trim_end String.[] = String.[]
trim_end (String.◌∷◌ c s) = cons_unless_blank c (trim_end s)

unfoldable pub trim : String → String
unfolding trim_start trim_end
trim s = trim_end (trim_start s)

abbrev pub i128_max : ℕ
i128_max = 2 ^ 127 - 1

abbrev pub u64_max : ℕ
u64_max = 2 ^ 64 - 1

-- `i128::try_from`.
abbrev to_i128 : ℕ → String → Fallible ℕ
to_i128 n reason = if leb n i128_max then ok n else err (internal reason)

abbrev pub since_epoch : Instant → Fallible ℤ
since_epoch t =
    if leb unix_epoch t
    then (do n ← to_i128 (t - unix_epoch) "instant too far in the future to represent"; ok (pos n))
    else (do n ← to_i128 (unix_epoch - t) "instant too far in the past to represent"; ok (neg n))

-- `div_euclid` and `rem_euclid` by the number of nanoseconds in a second, and the instant that the
-- seconds and the sub-second nanoseconds stand for. Where the source would panic, beyond the first
-- and the last instant, the moment is not representable as an `OffsetDateTime`.
unfoldable pub to_system_time : ℤ → Fallible Instant
to_system_time (pos n) =
    let seconds = n / nanos_per_second in
    if leb seconds u64_max
    then ok (unix_epoch + (seconds * nanos_per_second + n % nanos_per_second))
    else err (internal "occurrence too far in the future to represent")
to_system_time (negsuc n) =
    let seconds = n / nanos_per_second + 1 in
    let subsec = seconds * nanos_per_second - suc n in
    if leb seconds u64_max
    then ok (unix_epoch - seconds * nanos_per_second + subsec)
    else err (internal "occurrence too far in the past to represent")

module _ (engine : CronEngine) where
  unfoldable pub to_offset_date_time : Instant → Fallible ℤ
  to_offset_date_time t = do
    n ← since_epoch t
    if engine.representable n
        then ok n
        else err (internal "instant outside the supported date range")

  -- `CronExpression::parse`: the expression is its trimmed text.
  unfoldable pub parse_expression : String → Fallible String
  parse_expression text = elim (engine.parse (trim text)) [
    | ok schedule ↦ ok (trim text)
    | err reason ↦ err (invalid_trigger reason)
  ]

  -- `Trigger::cron`.
  unfoldable pub cron_trigger : String → Fallible Trigger
  cron_trigger text = do expression ← parse_expression text; ok (cron expression)

  abbrev pub found : Option ℤ → Fallible (Option Instant)
  found none = ok none
  found (some moment) = do t ← to_system_time moment; ok (some t)

  unfoldable pub next_occurrence : String → Instant → Fallible (Option Instant)
  next_occurrence expression after = elim (engine.parse expression) [
    | err reason ↦ err (internal "validated cron expression failed to re-parse")
    | ok next_after ↦ do anchor ← to_offset_date_time after; found (next_after anchor)
  ]

  unfoldable pub next_due : String → Instant → Instant → Fallible (Option Instant)
  next_due expression now previous_due = next_occurrence expression (max now previous_due)
