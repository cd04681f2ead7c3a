-- ===== src/Scheduler/Settling.antt =====
-- What the worker makes of each occurrence that it claims.
use Prim.Native.String.{String}
use hexeract.Common.{
  ℕ, ◌+◌, ◌≤◌, ◌<◌, ◌≡◌, ◌≢◌, refl, inl, inr, Option, some, none, true, false, leb, arith,
  Bool-cases, Option-cases,
}
use hexeract.Common.Map.{lookup, insert}
use hexeract.Common.Result.{ok, err, ◌>>=◌, ok_or}
use hexeract.Clock.{Instant, Duration, last_instant, checked_add}
use hexeract.Backoff.{retry_delay, retry_delay-le}
use hexeract.Scheduler.Types.{
  StoredSchedule, LeasedOccurrence, is_exhausted, Fallible, SchedulerError, dispatch, pending,
  Trigger, delay, cron,
}
use hexeract.Scheduler.Store.{
  Rows, Acked, fenced_pending, mark_delivered, reschedule, mark_failed, mark_dead_lettered,
}
use hexeract.Scheduler.Cron.{CronEngine, next_due}
use hexeract.Scheduler.Fencing.{insert-other}
use hexeract.Scheduler.Acks.{
  delivered_row, next_row, failed_row, dead_row, mark_delivered-held, reschedule-held,
  mark_failed-held, mark_dead_lettered-held,
}
use hexeract.Scheduler.Worker.{
  SchedulerWorkerConfig, Settlement, dispatch_outcome, next_retry_delay, on_success, on_failure,
  settle, settle_with, rows_after, ack_success, ack_next,
}

-- What the worker takes the sink to have answered: its answer, or, for a sink that is slower than the
-- dispatch timeout, a failure.
pub data Answered : Option (Fallible (Unit {0})) → Fallible (Unit {0}) → Type 0 where
  in_time : (r : Fallible (Unit {0})) → Answered (some r) r
  too_slow : Answered none (err (dispatch "dispatch timed out"))

pub dispatch_outcome-Answered :
    (answer : Option (Fallible (Unit {0}))) → Answered answer (dispatch_outcome answer)
dispatch_outcome-Answered (some r) = in_time r
dispatch_outcome-Answered none = too_slow

module _ (config : SchedulerWorkerConfig) (engine : CronEngine)
    (display : SchedulerError → String) where
  -- How an occurrence `o` whose row is `s` may end, by the answer `r` of the sink: the row after.
  pub data Ends (w : Settlement) (o : LeasedOccurrence) (s : StoredSchedule)
      : Fallible (Unit {0}) → StoredSchedule → Type 0 where
    one_shot :
        {at : Instant} {u : Unit {0}}
        → o.message.trigger ≡ delay at
        → Ends w o s (ok u) (delivered_row s)
    recurs :
        {expression : String} {next : Instant} {u : Unit {0}}
        → o.message.trigger ≡ cron expression
        → next_due engine expression w.applied_at o.message.scheduled_for ≡ ok (some next)
        → Ends w o s (ok u) (next_row next s)
    runs_out :
        {expression : String} {u : Unit {0}}
        → o.message.trigger ≡ cron expression
        → next_due engine expression w.applied_at o.message.scheduled_for ≡ ok none
        → Ends w o s (ok u) (delivered_row s)
    retried :
        {error : SchedulerError} {wait : Duration}
        → o.attempts < o.max_attempts
        → wait ≤ config.retry_max_delay
        → Ends w o s (err error) (failed_row (w.applied_at + wait) (display error) s)
    buried :
        {error : SchedulerError}
        → o.max_attempts ≤ o.attempts
        → Ends w o s (err error) (dead_row w.applied_at (display error) s)

  -- The cron engine fails for no instant that the worker asks about.
  abbrev pub Advances : Settlement → LeasedOccurrence → Trigger → Type 0
  Advances w o (delay at) = Unit
  Advances w o (cron expression) =
      (n : Option Instant) × (next_due engine expression w.applied_at o.message.scheduled_for
        ≡ ok n)

  module _ (w : Settlement) (o : LeasedOccurrence) (s : StoredSchedule) (rows : Rows)
      (e : lookup o.message.schedule_id rows ≡ some s) (p : s.status ≡ pending)
      (held : s.leased_until ≡ some o.leased_until) where
    -- The acknowledgement is applied, and the row ends as the relation says.
    abbrev pub Settles : Fallible (Unit {0}) → Fallible Acked → Type 0
    Settles r acked =
        (s' : StoredSchedule) × (acked ≡ ok (insert o.message.schedule_id s' rows, true))
        × Ends w o s r s'

    success-Settles :
        (u : Unit {0}) (t : Trigger)
        → o.message.trigger ≡ t
        → Advances w o t
        → Settles (ok u) (ack_success config engine display t w.applied_at o rows)
    success-Settles u (delay at) q a = (
      delivered_row s,
      mark_delivered-held rows o.message.schedule_id o.leased_until s e p held,
      one_shot q,
    )
    success-Settles u (cron x) q (none, n) = (
      delivered_row s,
      rw n (mark_delivered-held rows o.message.schedule_id o.leased_until s e p held),
      runs_out q n,
    )
    success-Settles u (cron x) q (some next, n) = (
      next_row next s,
      rw n (reschedule-held rows o.message.schedule_id o.leased_until s e p held next),
      recurs q n,
    )

    failure-Settles :
        (error : SchedulerError)
        → ((n : ℕ) → w.random n ≤ n)
        → w.applied_at + config.retry_max_delay ≤ last_instant
        → Settles (err error) (on_failure config engine display w o error rows)
    unfolding on_failure next_retry_delay
    failure-Settles error r fits = elim (Bool-cases (is_exhausted o)) [
      | inl x ↦ (
        dead_row w.applied_at (display error) s,
        rw x (
            mark_dead_lettered-held rows o.message.schedule_id o.leased_until s e p held
              w.applied_at (display error)),
        buried (ground arith),
      )
      | inr x ↦
          let wait =
            retry_delay w.random config.jitter config.retry_base_delay config.retry_max_delay
              o.attempts in
          let bound =
            retry_delay-le w.random config.jitter config.retry_base_delay config.retry_max_delay
              o.attempts r in
          (
            failed_row (w.applied_at + wait) (display error) s,
            rw x (
                mark_failed-held rows o.message.schedule_id o.leased_until s e p held w.applied_at
                  wait (display error) (omega arith)),
            retried (ground arith) bound,
          )
    ]

    settle_with-Settles :
        (r : Fallible (Unit {0}))
        → Advances w o o.message.trigger
        → ((n : ℕ) → w.random n ≤ n)
        → w.applied_at + config.retry_max_delay ≤ last_instant
        → Settles r (settle_with config engine display w o r rows)
    unfolding on_success
    settle_with-Settles (ok u) a r fits = success-Settles u o.message.trigger refl a
    settle_with-Settles (err error) a r fits = failure-Settles error r fits

    -- Settling an occurrence whose lease is held and has not ended is decided by the answer of the
    -- sink: a one-shot schedule is delivered, a recurring one is advanced to its next occurrence (or
    -- delivered when there is none), a failure is retried within the maximal delay while attempts are
    -- left, and dead-lettered with the error's text otherwise. A sink that is too slow has failed. This
    -- holds where the cron engine, if the schedule recurs, answers without an error, the random numbers
    -- lie in their range, and the clock leaves room for the maximal retry delay.
    pub settle-Settles :
        Advances w o o.message.trigger
        → ((n : ℕ) → w.random n ≤ n)
        → w.applied_at + config.retry_max_delay ≤ last_instant
        → w.guard_at < o.leased_until
        → (r : Fallible (Unit {0})) × Answered w.answer r
          × Settles r (settle config engine display w o rows)
    unfolding settle
    settle-Settles a r fits lt =
        let late : leb o.leased_until w.guard_at ≡ false = ground arith in
        (
          dispatch_outcome w.answer,
          dispatch_outcome-Answered w.answer,
          rw late (settle_with-Settles (dispatch_outcome w.answer) a r fits),
        )

  -- The acknowledgements of one schedule leave the rows of the others.
  module _ (k id lease : ℕ) (rows : Rows) (ne : id ≢ k) where
    mark_delivered-other :
        lookup k (rows_after config engine display rows (mark_delivered id lease rows))
        ≡ lookup k rows
    unfolding mark_delivered
    mark_delivered-other = elim (Option-cases (fenced_pending rows id lease)) [
      | inl p ↦ rw (p, mark_delivered)
      | inr (t, p) ↦ rw (p, mark_delivered) (insert-other id k _ rows ne)
    ]

    reschedule-other :
        (next : ℕ)
        → lookup k (rows_after config engine display rows (reschedule id next lease rows))
          ≡ lookup k rows
    unfolding reschedule
    reschedule-other next = elim (Option-cases (fenced_pending rows id lease)) [
      | inl p ↦ rw (p, reschedule)
      | inr (t, p) ↦ rw (p, reschedule) (insert-other id k _ rows ne)
    ]

    mark_failed-other :
        (now wait : ℕ) (x : String)
        → lookup k (rows_after config engine display rows (mark_failed now id wait x lease rows))
          ≡ lookup k rows
    unfolding mark_failed
    mark_failed-other now wait x = elim (Option-cases (fenced_pending rows id lease)) [
      | inl p ↦ rw (p, mark_failed)
      | inr (t, p) ↦ elim (Option-cases (checked_add now wait)) [
        | inl o ↦ rw (p, mark_failed) (rw (o, ok_or))
        | inr (r, o) ↦ rw (p, mark_failed) (rw (o, ok_or) (insert-other id k _ rows ne))
      ]
    ]

    mark_dead_lettered-other :
        (now : ℕ) (x : String)
        → lookup k (rows_after config engine display rows (mark_dead_lettered now id x lease rows))
          ≡ lookup k rows
    unfolding mark_dead_lettered
    mark_dead_lettered-other now x = elim (Option-cases (fenced_pending rows id lease)) [
      | inl p ↦ rw (p, mark_dead_lettered)
      | inr (t, p) ↦ rw (p, mark_dead_lettered) (insert-other id k _ rows ne)
    ]

  module _ (k : ℕ) (w : Settlement) (o : LeasedOccurrence) (rows : Rows)
      (ne : o.message.schedule_id ≢ k) where
    -- What an acknowledgement leaves of the row of `k`.
    abbrev Leaves : Fallible Acked → Type 0
    Leaves r = lookup k (rows_after config engine display rows r) ≡ lookup k rows

    success-other : (t : Trigger) → Leaves (ack_success config engine display t w.applied_at o rows)
    success-other (delay at) = mark_delivered-other k o.message.schedule_id o.leased_until rows ne
    success-other (cron x) = due (next_due engine x w.applied_at o.message.scheduled_for)
      where
        due :
            (r : Fallible (Option Instant))
            → Leaves (
                r >>= λ next.
                ack_next config engine display o.message.schedule_id o.leased_until next rows)
        due (ok none) = mark_delivered-other k o.message.schedule_id o.leased_until rows ne
        due (ok (some next)) = reschedule-other k o.message.schedule_id o.leased_until rows ne next
        due (err x) = refl

    failure-other :
        (error : SchedulerError) → Leaves (on_failure config engine display w o error rows)
    unfolding on_failure
    failure-other error = elim (Bool-cases (is_exhausted o)) [
      | inl x ↦ rw x (
          mark_dead_lettered-other k o.message.schedule_id o.leased_until rows ne w.applied_at
            (display error))
      | inr x ↦ rw x (
          mark_failed-other k o.message.schedule_id o.leased_until rows ne w.applied_at _
            (display error))
    ]

    answer-other : (r : Fallible (Unit {0})) → Leaves (settle_with config engine display w o r rows)
    unfolding on_success
    answer-other (ok u) = success-other o.message.trigger
    answer-other (err error) = failure-other error

    pub settle-other : Leaves (settle config engine display w o rows)
    unfolding settle
    settle-other = elim (Bool-cases (leb o.leased_until w.guard_at)) [
      | inl x ↦ rw x
      | inr x ↦ rw x (answer-other (dispatch_outcome w.answer))
    ]
