-- ===== src/Scheduler/Types.antt =====
-- The data of the scheduler: crates/hexeract-scheduler/src/{target,trigger,schedule,lease,snapshot,
-- error}.rs and the stored row of memory.rs. A `Uuid` is the 128-bit number that it is; an event's
-- payload is its bytes.
use Prim.Native.String.{String}
use hexeract.Common.{ℕ, List, Option, Bool, true, false, leb}
use hexeract.Common.Result.{Result}
use hexeract.Clock.{Instant}

abbrev pub Uuid : Type 0
Uuid = ℕ

pub data ScheduleStatus : Type 0 where
  pending paused delivered cancelled dead_lettered : ScheduleStatus

-- `stored.status == ScheduleStatus::Pending`, and the other tests on a status.
abbrev pub is_pending : ScheduleStatus → Bool
is_pending pending = true
is_pending _ = false

abbrev pub is_paused : ScheduleStatus → Bool
is_paused paused = true
is_paused _ = false

abbrev pub is_dead_lettered : ScheduleStatus → Bool
is_dead_lettered dead_lettered = true
is_dead_lettered _ = false

-- `matches!(status, Delivered | Cancelled | DeadLettered)`.
abbrev pub is_terminal : ScheduleStatus → Bool
is_terminal pending = false
is_terminal paused = false
is_terminal _ = true

pub data Target : Type 0 where
  mediator outbox : Target
  bus : String → Target

-- A cron expression is its validated text.
pub data Trigger : Type 0 where
  delay : Instant → Trigger
  cron : String → Trigger

abbrev pub is_recurring : Trigger → Bool
is_recurring (delay t) = false
is_recurring (cron e) = true

pub record ScheduledMessage : Type 0 where
  pub schedule_id : Uuid
  pub event_type : String
  pub payload : List ℕ
  pub target : Target
  pub trigger : Trigger
  pub scheduled_for : Instant

pub record StoredSchedule : Type 0 where
  pub message : ScheduledMessage
  pub max_attempts : ℕ  -- u32
  pub attempts : ℕ  -- u32
  pub leased_until : Option Instant
  pub status : ScheduleStatus
  pub last_error : Option String
  pub dead_lettered_at : Option Instant

pub record LeasedOccurrence : Type 0 where
  pub message : ScheduledMessage
  pub attempts : ℕ
  pub max_attempts : ℕ
  pub leased_until : Instant

abbrev pub is_exhausted : LeasedOccurrence → Bool
is_exhausted o = leb o.max_attempts o.attempts

pub record ScheduleSnapshot : Type 0 where
  pub schedule_id : Uuid
  pub status : ScheduleStatus
  pub scheduled_for : Instant
  pub attempts : ℕ
  pub max_attempts : ℕ
  pub trigger : Trigger
  pub last_error : Option String

pub data SchedulerError : Type 0 where
  serialization : String → SchedulerError
  invalid_trigger : String → SchedulerError
  invalid_configuration : String → SchedulerError
  database : String → SchedulerError
  schedule_not_found : Uuid → SchedulerError
  not_replayable : Uuid → ScheduleStatus → SchedulerError
  dispatch : String → SchedulerError
  internal : String → SchedulerError

abbrev pub Fallible : Type 0 → Type 0
Fallible A = Result SchedulerError A

abbrev pub to_snapshot : StoredSchedule → ScheduleSnapshot
to_snapshot s = record {
  schedule_id = s.message.schedule_id;
  status = s.status;
  scheduled_for = s.message.scheduled_for;
  attempts = s.attempts;
  max_attempts = s.max_attempts;
  trigger = s.message.trigger;
  last_error = s.last_error;
}
