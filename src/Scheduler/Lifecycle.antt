-- ===== src/Scheduler/Lifecycle.antt =====
-- The rest of the in-memory store: the sweep, the control operations and the operator surface
-- (crates/hexeract-scheduler/src/memory.rs and admin.rs).
use Prim.Native.String.{String}
use hexeract.Common.{
  ℕ, ◌+◌, Option, some, none, Bool, true, false, ◌&&◌, ◌||◌, List, [], ◌∷◌, leb, ltb, if◌then◌else◌,
  map, take,
}
use hexeract.Common.Map.{lookup, insert}
use hexeract.Common.Result.{ok, err, ◌>>=◌, ok_or}
use hexeract.Common.Sort.{sort_by}
use hexeract.Clock.{Instant}
use hexeract.Scheduler.Types.{
  Uuid, pending, paused, cancelled, dead_lettered, is_pending, is_paused, is_dead_lettered,
  is_terminal, ScheduleStatus, StoredSchedule, ScheduleSnapshot, to_snapshot, Fallible,
  schedule_not_found, not_replayable,
}
use hexeract.Scheduler.Store.{Rows, stored_for, is_lease_free}

abbrev pub dead_letter_exhausted_message : String
dead_letter_exhausted_message =
    "attempts exhausted by a crashed worker; dead-lettered by the sweeper"

-- The test of `dead_letter_exhausted` on one row, and its update.
unfoldable pub is_sweepable : Instant → StoredSchedule → Bool
is_sweepable now s =
    is_pending s.status && (leb s.max_attempts s.attempts && is_lease_free now s.leased_until)

unfoldable pub sweep_row : Instant → StoredSchedule → StoredSchedule
sweep_row now s = record s {
  status = dead_lettered;
  leased_until = none;
  last_error = some dead_letter_exhausted_message;
  dead_lettered_at = some now;
}

-- The new rows and how many were swept. The count is at most the number of rows, so that the
-- `u64` does not wrap.
unfoldable pub dead_letter_exhausted : Instant → Rows → Rows × ℕ
dead_letter_exhausted now [] = ([], 0)
dead_letter_exhausted now ((id, s) ∷ rest) =
    let (rows, swept) = dead_letter_exhausted now rest in
    if is_sweepable now s
    then ((id, sweep_row now s) ∷ rows, swept + 1)
    else ((id, s) ∷ rows, swept)

-- `get_mut(..).ok_or_else(schedule_not_found)?`, and the update of the row that is found.
abbrev find_schedule : Uuid → Rows → Fallible StoredSchedule
find_schedule id rows = ok_or (lookup id rows) (schedule_not_found id)

unfoldable pub cancel : Uuid → Rows → Fallible Rows
cancel id rows = do
  s ← find_schedule id rows
  ok (
      if is_terminal s.status
      then rows
      else insert id (record s { status = cancelled; leased_until = none }) rows)

abbrev pub pause_status : Bool → ScheduleStatus → ScheduleStatus
pause_status true pending = paused
pause_status false paused = pending
pause_status _ status = status

unfoldable pub set_paused : Uuid → Bool → Rows → Fallible Rows
set_paused id on rows = do
  s ← find_schedule id rows
  ok (insert id (record s { status = pause_status on s.status }) rows)

unfoldable pub inspect : Uuid → Rows → Option ScheduleSnapshot
inspect id rows = elim (lookup id rows) [ none ↦ none | some s ↦ some (to_snapshot s) ]

-- `resume` on a row that is paused.
unfoldable pub resume_row : Option Instant → StoredSchedule → StoredSchedule
resume_row none s = record s { status = pending }
resume_row (some next) s = record (stored_for next s) {
  status = pending;
  attempts = 0;
  last_error = none;
  leased_until = none;
}

unfoldable pub resume : Uuid → Option Instant → Rows → Fallible Rows
resume id next rows = do
  s ← find_schedule id rows
  ok (if is_paused s.status then insert id (resume_row next s) rows else rows)

unfoldable pub replay : Instant → Uuid → Rows → Fallible Rows
replay now id rows = do
  s ← find_schedule id rows
  if is_dead_lettered s.status
      then ok (
          insert id
            (record (stored_for now s) {
              status = pending;
              attempts = 0;
              last_error = none;
              leased_until = none;
              dead_lettered_at = none;
            })
            rows)
      else err (not_replayable id s.status)

-- `Iterator::filter` on the values.
abbrev pub select : (StoredSchedule → Bool) → Rows → List StoredSchedule
select test [] = []
select test ((id, s) ∷ rest) = if test s then s ∷ select test rest else select test rest

abbrev pub is_listed : StoredSchedule → Bool
is_listed s = is_pending s.status || is_paused s.status

abbrev pub earlier : ScheduleSnapshot → ScheduleSnapshot → Bool
earlier a b = ltb a.scheduled_for b.scheduled_for

-- `Option::cmp` puts `None` below every instant.
abbrev pub instant_lt : Option Instant → Option Instant → Bool
instant_lt none none = false
instant_lt none (some b) = true
instant_lt (some a) none = false
instant_lt (some a) (some b) = ltb a b

abbrev pub later_dead : StoredSchedule → StoredSchedule → Bool
later_dead a b = instant_lt b.dead_lettered_at a.dead_lettered_at

unfoldable pub list_pending : ℕ → Rows → List ScheduleSnapshot
unfolding sort_by
list_pending limit rows = take limit (sort_by earlier (map to_snapshot (select is_listed rows)))

abbrev pub is_dead : StoredSchedule → Bool
is_dead s = is_dead_lettered s.status

unfoldable pub list_dead_letter : ℕ → Rows → List ScheduleSnapshot
unfolding sort_by
list_dead_letter limit rows =
    map to_snapshot (take limit (sort_by later_dead (select is_dead rows)))
