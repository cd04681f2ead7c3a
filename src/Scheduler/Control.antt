-- ===== src/Scheduler/Control.antt =====
-- The lifecycle facade: crates/hexeract-scheduler/src/control.rs, over the in-memory store.
use Prim.Native.String.{String}
use hexeract.Common.{
  sym, ap, ◌∙◌, ◌≤◌, ◌<◌, ◌≡◌, refl, Option, some, none, true, leb, if◌then◌else◌, arith,
  Bool-cases, ◌⊎◌, inl, inr,
}
use hexeract.Common.Map.{lookup, insert, lookup-insert_self}
use hexeract.Common.Result.{ok, err, ◌>>=◌, ok_or, ok-injective}
use hexeract.Clock.{Instant, last_instant}
use hexeract.Scheduler.Types.{
  Uuid, StoredSchedule, Fallible, schedule_not_found, is_terminal, is_paused, pending, paused,
  Trigger, delay, cron,
}
use hexeract.Scheduler.Store.{Rows}
use hexeract.Scheduler.Lifecycle.{cancel, set_paused, inspect, resume, resume_row}
use hexeract.Scheduler.Cron.{CronEngine, next_occurrence}
use hexeract.Scheduler.Cron.Laws.{Ascends, next_occurrence-later}

-- `SchedulerControl::pause`.
unfoldable pub pause : Uuid → Rows → Fallible Rows
pause id rows = set_paused id true rows

-- `SchedulerControl::cancel`: it looks at a snapshot before it calls the store.
unfoldable pub control_cancel : Uuid → Rows → Fallible Rows
control_cancel id rows = do
  snapshot ← ok_or (inspect id rows) (schedule_not_found id)
  if is_terminal snapshot.status then ok rows else cancel id rows

module _ (engine : CronEngine) where
  abbrev realign : Uuid → Rows → Option Instant → Fallible Rows
  realign id rows (some next) = resume id (some next) rows
  realign id rows none = ok rows

  -- The resume of a paused schedule, by its trigger.
  abbrev resume_trigger : Instant → Uuid → Instant → Trigger → Rows → Fallible Rows
  resume_trigger now id scheduled_for (delay at) rows = resume id none rows
  resume_trigger now id scheduled_for (cron expression) rows =
      if leb scheduled_for now
      then next_occurrence engine expression now >>= realign id rows
      else resume id none rows

  -- `SchedulerControl::resume`; `now` is the reading of the clock.
  unfoldable pub control_resume : Instant → Uuid → Rows → Fallible Rows
  control_resume now id rows = do
    snapshot ← ok_or (inspect id rows) (schedule_not_found id)
    if is_paused snapshot.status
        then resume_trigger now id snapshot.scheduled_for snapshot.trigger rows
        else ok rows

  -- Where a resume at `now` leaves the row of schedule `k`.
  abbrev pub Realigned : Instant → Uuid → Rows → Type 0
  Realigned now k rows' =
      (s' : StoredSchedule) × (lookup k rows' ≡ some s')
      × ((s'.status ≡ paused) ⊎ ((s'.status ≡ pending) × (now < s'.message.scheduled_for)))

  module _ (now : Instant) (k : Uuid) (s : StoredSchedule) (expression : String) (rows rows' : Rows)
      (up : Ascends engine) (h : now ≤ last_instant) (found : lookup k rows ≡ some s)
      (p : s.status ≡ paused) (t : s.message.trigger ≡ cron expression) where
    resume-paused :
        (next : Option Instant) → resume k next rows ≡ ok (insert k (resume_row next s) rows)
    unfolding resume
    resume-paused next = rw (found, ok_or) (ground arith)

    realign-Realigned :
        (r : Fallible (Option Instant))
        → next_occurrence engine expression now ≡ r
        → (r >>= realign k rows) ≡ ok rows'
        → Realigned now k rows'
    unfolding resume_row
    realign-Realigned (err x) q e = absurd (cc)
    realign-Realigned (ok none) q e =
        (s, ap (lookup k) (sym (ok-injective rows rows' e)) ∙ found, inl p)
    realign-Realigned (ok (some n)) q e =
        let same = ok-injective _ rows' (sym (resume-paused (some n)) ∙ e) in
        (
          resume_row (some n) s,
          ap (lookup k) (sym same) ∙ lookup-insert_self k _ rows,
          inr (refl, next_occurrence-later engine expression now n up h q),
        )

    -- Resuming never catches up. A paused recurring schedule that is resumed at `now` is left
    -- paused, or pending with its occurrence after `now`; what it missed while it was paused is not
    -- fired.
    pub control_resume-Realigned : control_resume now k rows ≡ ok rows' → Realigned now k rows'
    unfolding control_resume inspect resume_row
    control_resume-Realigned e =
        let e₁ = rw (found, ok_or) at e in
        let e₂ = rw p at e₁ in
        let e₃ = rw (t, resume_trigger) at e₂ in
        elim (Bool-cases (leb s.message.scheduled_for now)) [
          | inl late ↦
              realign-Realigned (next_occurrence engine expression now) refl (rw late at e₃)
          | inr early ↦
              let same = ok-injective _ rows' (sym (resume-paused none) ∙ (rw early at e₃)) in
              (
                resume_row none s,
                ap (lookup k) (sym same) ∙ lookup-insert_self k _ rows,
                inr (refl, ground arith),
              )
        ]

-- The guard of the facade changes nothing: it cancels exactly as the store does.
control_cancel-eq-cancel : (id : Uuid) (rows : Rows) → control_cancel id rows ≡ cancel id rows
unfolding control_cancel inspect cancel
control_cancel-eq-cancel id rows = ground arith
