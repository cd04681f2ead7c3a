-- ===== src/Scheduler/Polling.antt =====
-- A whole poll cycle of the worker: sweep, claim, and settle the batch.
use Prim.Native.String.{String}
use hexeract.Common.{ℕ, ◌+◌, ◌≤◌, ◌<◌, ◌≡◌, some, List, length, get_elem?}
use hexeract.Common.Map.{lookup}
use hexeract.Common.Result.{ok}
use hexeract.Clock.{Instant, last_instant}
use hexeract.Scheduler.Types.{Uuid, StoredSchedule, LeasedOccurrence, Fallible, SchedulerError}
use hexeract.Scheduler.Store.{Rows, Claims, claim_due}
use hexeract.Scheduler.Contract.{IsClaimable}
use hexeract.Scheduler.Machine.{claimed_row}
use hexeract.Scheduler.Cron.{CronEngine}
use hexeract.Scheduler.Worker.{SchedulerWorkerConfig, Settlement, settle_all}
use hexeract.Scheduler.Settling.{Answered, Ends, Advances}

module _ (config : SchedulerWorkerConfig) (engine : CronEngine)
    (display : SchedulerError → String) where
  -- The world lets the worker finish: no lease ends before its occurrence is dispatched, random
  -- numbers lie in their range, no deadline overflows, and the cron engine answers for what is due at
  -- `now`.
  pub record Smooth (now until : Instant) (world : ℕ → Settlement) : Type 0 where
    pub in_time : (n : ℕ) → (world n).guard_at < until
    pub random : (n m : ℕ) → (world n).random m ≤ m
    pub fits : (n : ℕ) → (world n).applied_at + config.retry_max_delay ≤ last_instant
    pub advances :
        (n : ℕ) (o : LeasedOccurrence)
        → o.message.scheduled_for ≤ now
        → Advances config engine display (world n) o o.message.trigger

  -- What the sink answered in the settlement `w` has decided the row `s` of schedule `k`.
  abbrev pub EndedBy : Settlement → Uuid → LeasedOccurrence → StoredSchedule → Rows → Type 0
  EndedBy w k o s rows' =
      (r : Fallible (Unit {0})) × Answered w.answer r
      × (s' : StoredSchedule) × (lookup k rows' ≡ some s')
      × Ends config engine display w o s r s'

  -- The occurrence `o` of schedule `k`, with the row `s`, stands in the batch `os`, whose positions
  -- count from `n`, and has been settled: the answer of the sink at its position decided its row.
  abbrev pub Settled :
      (ℕ → Settlement)
      → ℕ
      → List LeasedOccurrence
      → Uuid
      → LeasedOccurrence
      → StoredSchedule
      → Rows
      → Type 0
  Settled world n os k o s rows' =
      (i : ℕ) × (get_elem? os i ≡ some o) × EndedBy (world (n + i)) k o s rows'

  -- The occurrence that a claim of the row `s` returns.
  abbrev pub claimed_occurrence : Instant → StoredSchedule → LeasedOccurrence
  claimed_occurrence until s = record {
    message = s.message;
    attempts = s.attempts + 1;
    max_attempts = s.max_attempts;
    leased_until = until;
  }

  -- A poll cycle, from `rows`: the batch that it claimed, what it leaves as `rows'`, and how many
  -- occurrences it claimed.
  pub record Polled (now : Instant) (world : ℕ → Settlement) (rows rows' : Rows) (count : ℕ)
      : Type 0 where
    pub batch : List LeasedOccurrence
    pub held : Rows
    pub claimed : claim_due now config.batch_size config.lease rows ≡ ok (held, batch)
    pub counted : count ≡ length batch
    pub bounded : count ≤ config.batch_size
    pub progress :
        count < config.batch_size
        → (k : Uuid) (s : StoredSchedule) → lookup k rows ≡ some s
        → IsClaimable now s
        → Settled world 0 batch k
            (claimed_occurrence (now + config.lease) s)
            (claimed_row (now + config.lease) s)
            rows'

  -- The last line of `poll_cycle`.
  abbrev batch_of : (ℕ → Settlement) → Claims → Fallible (Rows × ℕ)
  batch_of world claims =
      ok (settle_all config engine display world 0 claims.1 claims.0, length claims.1)
