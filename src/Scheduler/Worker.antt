-- ===== src/Scheduler/Worker.antt =====
-- The polling worker and its builder: crates/hexeract-scheduler/src/worker.rs and builder.rs, run
-- against the in-memory store. Tracing is left out. Each reading of the system clock, the outcome
-- of each dispatch and the random numbers are given.
use Prim.Native.String.{String}
use hexeract.Common.{
  ℕ, ◌+◌, Option, some, none, Bool, true, false, List, [], ◌∷◌, leb, ltb, if◌then◌else◌, min,
  length,
}
use hexeract.Common.Result.{ok, err, ◌>>=◌, ◌>>◌, guard}
use hexeract.Clock.{Instant, Duration, from_millis, from_secs, checked_mul, u32_max}
use hexeract.Backoff.{retry_delay}
use hexeract.Scheduler.Types.{
  Uuid, LeasedOccurrence, is_exhausted, Fallible, SchedulerError, invalid_configuration, dispatch,
  Trigger, delay, cron,
}
use hexeract.Scheduler.Store.{
  Rows, Acked, claim_due, mark_delivered, reschedule, mark_failed, mark_dead_lettered,
}
use hexeract.Scheduler.Lifecycle.{dead_letter_exhausted}
use hexeract.Scheduler.Cron.{CronEngine, next_due}

pub record SchedulerWorkerConfig : Type 0 where
  pub poll_interval : Duration
  pub batch_size : ℕ
  pub lease : Duration
  pub retry_base_delay : Duration
  pub retry_max_delay : Duration
  pub jitter : Bool
  pub min_cycle_delay : Duration
  pub dispatch_timeout : Duration

abbrev pub default_config : SchedulerWorkerConfig
default_config = record {
  poll_interval = from_millis 100;
  batch_size = 10;
  lease = from_secs 300;
  retry_base_delay = from_secs 1;
  retry_max_delay = from_secs 300;
  jitter = true;
  min_cycle_delay = from_millis 5;
  dispatch_timeout = from_secs 30;
}

-- The last test of `build`: the lease against `batch_size × dispatch_timeout`.
abbrev pub check_lease : SchedulerWorkerConfig → Option Duration → Fallible (Unit {0})
check_lease c (some minimum_lease) =
    guard (leb minimum_lease c.lease)
      (invalid_configuration "lease must be at least batch_size × dispatch_timeout")
check_lease c none = err (
    invalid_configuration
      "batch_size × dispatch_timeout overflows; lease cannot satisfy the invariant")

-- `SchedulerBuilder::build`: the configuration of the worker, or why it is refused.
unfoldable pub build : SchedulerWorkerConfig → Fallible SchedulerWorkerConfig
build c = do
  guard (ltb 0 c.batch_size) (invalid_configuration "batch_size must be at least 1")
  guard (ltb 0 c.poll_interval) (invalid_configuration "poll_interval must be non-zero")
  guard (ltb 0 c.lease) (invalid_configuration "lease must be non-zero")
  guard (ltb 0 c.dispatch_timeout) (invalid_configuration "dispatch_timeout must be non-zero")
  guard (ltb 0 c.retry_base_delay) (invalid_configuration "retry_base_delay must be non-zero")
  guard (leb c.retry_base_delay c.retry_max_delay)
      (invalid_configuration "retry_max_delay must be >= retry_base_delay")
  check_lease c (checked_mul c.dispatch_timeout (min c.batch_size u32_max))
  ok c

-- What the world answers while one occurrence is settled: the clock before the dispatch, the answer
-- of the sink (`none` if it is slower than the dispatch timeout), the clock when the outcome is
-- applied, and the random number generator.
pub record Settlement : Type 0 where
  pub guard_at : Instant
  pub answer : Option (Fallible (Unit {0}))
  pub applied_at : Instant
  pub random : ℕ → ℕ

-- `SchedulerWorker::dispatch`.
abbrev pub dispatch_outcome : Option (Fallible (Unit {0})) → Fallible (Unit {0})
dispatch_outcome none = err (dispatch "dispatch timed out")
dispatch_outcome (some result) = result

-- The worker: its configuration, the cron engine and the `Display` of the error type.
module _ (config : SchedulerWorkerConfig) (engine : CronEngine)
    (display : SchedulerError → String) where
  unfoldable pub next_retry_delay : (ℕ → ℕ) → ℕ → Duration
  next_retry_delay random attempts =
      retry_delay random config.jitter config.retry_base_delay config.retry_max_delay attempts

  abbrev pub ack_next : Uuid → Instant → Option Instant → Rows → Fallible Acked
  ack_next id lease (some next) rows = reschedule id next lease rows
  ack_next id lease none rows = mark_delivered id lease rows

  -- The acknowledgement of a successful dispatch, by the trigger.
  abbrev pub ack_success : Trigger → Instant → LeasedOccurrence → Rows → Fallible Acked
  ack_success (delay at) now o rows = mark_delivered o.message.schedule_id o.leased_until rows
  ack_success (cron expression) now o rows = do
    next ← next_due engine expression now o.message.scheduled_for
    ack_next o.message.schedule_id o.leased_until next rows

  unfoldable pub on_success : Instant → LeasedOccurrence → Rows → Fallible Acked
  on_success now o rows = ack_success o.message.trigger now o rows

  unfoldable pub on_failure : Settlement → LeasedOccurrence → SchedulerError → Rows → Fallible Acked
  on_failure w o error rows =
      if is_exhausted o
      then mark_dead_lettered w.applied_at o.message.schedule_id (display error) o.leased_until rows
      else mark_failed w.applied_at o.message.schedule_id (next_retry_delay w.random o.attempts)
          (display error) o.leased_until rows

  -- What the worker does with the answer of the sink.
  abbrev pub settle_with :
      Settlement → LeasedOccurrence → Fallible (Unit {0}) → Rows → Fallible Acked
  settle_with w o (ok _) rows = on_success w.applied_at o rows
  settle_with w o (err error) rows = on_failure w o error rows

  -- `settle`: an occurrence whose lease has already ended is not dispatched.
  unfoldable pub settle : Settlement → LeasedOccurrence → Rows → Fallible Acked
  settle w o rows =
      if leb o.leased_until w.guard_at
      then ok (rows, false)
      else settle_with w o (dispatch_outcome w.answer) rows

  abbrev pub rows_after : Rows → Fallible Acked → Rows
  rows_after rows (ok (rows', applied)) = rows'
  rows_after rows (err e) = rows

  -- The loop over the claimed batch: an error of one occurrence is logged and the loop goes on.
  unfoldable pub settle_all : (ℕ → Settlement) → ℕ → List LeasedOccurrence → Rows → Rows
  settle_all world n [] rows = rows
  settle_all world n (o ∷ os) rows =
      settle_all world (n + 1) os (rows_after rows (settle (world n) o rows))

  -- `poll_cycle`: sweep, claim, settle. The result is the number of occurrences claimed.
  unfoldable pub poll_cycle : Instant → Instant → (ℕ → Settlement) → Rows → Fallible (Rows × ℕ)
  poll_cycle swept_at now world rows = do
    claims ← claim_due now config.batch_size config.lease (dead_letter_exhausted swept_at rows).0
    ok (settle_all world 0 claims.1 claims.0, length claims.1)
