-- ===== src/Scheduler/Machine.antt =====
-- The life of one schedule as a step relation on its row, for the calls of the in-memory store
-- (crates/hexeract-scheduler/src/memory.rs). Machine/Refinement proves that the store keeps to it.
pub mod Refinement
use Prim.Native.String.{String}
use hexeract.Common.{
  subst, ap, ◌<◌, ℕ, ◌+◌, ◌≤◌, ◌≡◌, ◌≢◌, refl, sym, ◌∙◌, ◌⊎◌, inl, inr, Option, some, none, Bool,
  true, false, [], ◌∷◌, ◌==◌, ==_iff, if◌then◌else◌, arith, Bool-cases, Option-cases, has,
}
use hexeract.Common.Map.{lookup, insert, lookup-insert_self}
use hexeract.Common.Result.{ok_or}
use hexeract.Clock.{Instant, last_instant, checked_add, checked_add-eq}
use hexeract.Scheduler.Types.{
  Uuid, ScheduleStatus, StoredSchedule, pending, delivered, dead_lettered, cancelled, paused,
  is_terminal, is_paused, is_dead_lettered,
}
use hexeract.Scheduler.Store.{
  Rows, claim_due, fenced_pending, mark_delivered, reschedule, mark_failed, mark_dead_lettered,
  insert_schedule, claim_loop,
}
use hexeract.Scheduler.Lifecycle.{
  dead_letter_exhausted, is_sweepable, sweep_row, cancel, set_paused, pause_status, resume,
  resume_row, replay,
}
use hexeract.Scheduler.Claims.{ids}
use hexeract.Scheduler.Contract.{IsFree, IsClaimable, claim_loop-ClaimSpec, is_lease_free_iff}
use hexeract.Scheduler.Invariant.{
  Inv, Op, inserts, claims, delivers, reschedules, fails, dead_letters, sweeps, cancels, pauses,
  resumes, replays, apply, after, after_of, fenced_pending-some,
}
use hexeract.Scheduler.Fencing.{insert-other}
use hexeract.Scheduler.Acks.{fenced_pending-held, delivered_row, next_row, failed_row, dead_row}

abbrev pub claimed_row : Instant → StoredSchedule → StoredSchedule
claimed_row until s = record s { attempts = s.attempts + 1; leased_until = some until }

abbrev pub revived_row : Instant → StoredSchedule → StoredSchedule
revived_row now s = record s {
  message = record (s.message) { scheduled_for = now };
  status = pending;
  attempts = 0;
  last_error = none;
  leased_until = none;
  dead_lettered_at = none;
}

abbrev pub exhausted_row : Instant → StoredSchedule → StoredSchedule
exhausted_row now s =
    dead_row now "attempts exhausted by a crashed worker; dead-lettered by the sweeper" s

-- A paused row that is resumed, with a new occurrence or with the one it has.
abbrev pub resumed_row : Option Instant → StoredSchedule → StoredSchedule
resumed_row none s = record s { status = pending }
resumed_row (some next) s = record s {
  message = record (s.message) { scheduled_for = next };
  status = pending;
  attempts = 0;
  last_error = none;
  leased_until = none;
}

-- The fence lets an acknowledgement of `id` with the given lease through to the row `s` of `k`.
abbrev pub Passes : Uuid → Uuid → Instant → StoredSchedule → Type 0
Passes k id lease s = (id ≡ k) × (s.status ≡ pending) × (s.leased_until ≡ some lease)

-- A call that has nothing to do with the row `s` of `k`: it is of another schedule, or the row is not
-- in the state that the call is for. A claim may leave any row, since its batch may be full.
abbrev pub Idle : Uuid → Op → StoredSchedule → Type 0
Idle k (inserts message n) s = message.schedule_id ≢ k
Idle k (claims now batch lease) s = Unit
Idle k (delivers id lease) s = Passes k id lease s → ⊥
Idle k (reschedules id next lease) s = Passes k id lease s → ⊥
Idle k (fails now id retry_in error lease) s =
    (Passes k id lease s → ⊥) ⊎ (last_instant < now + retry_in)
Idle k (dead_letters now id error lease) s = Passes k id lease s → ⊥
Idle k (sweeps now) s =
    (s.status ≡ pending) × (s.max_attempts ≤ s.attempts) × IsFree now s.leased_until → ⊥
Idle k (cancels id) s = (id ≡ k) × ((s.status ≡ pending) ⊎ (s.status ≡ paused)) → ⊥
Idle k (pauses id true) s = (id ≡ k) × (s.status ≡ pending) → ⊥
Idle k (pauses id false) s = (id ≡ k) × (s.status ≡ paused) → ⊥
Idle k (resumes id next) s = (id ≡ k) × (s.status ≡ paused) → ⊥
Idle k (replays now id) s = (id ≡ k) × (s.status ≡ dead_lettered) → ⊥

pub data RowStep (k : Uuid) : Op → StoredSchedule → StoredSchedule → Type 0 where
  stays : {o : Op} {s : StoredSchedule} → Idle k o s → RowStep k o s s
  claim :
      {now batch lease : ℕ} {s : StoredSchedule}
      → IsClaimable now s
      → RowStep k (claims now batch lease) s (claimed_row (now + lease) s)
  deliver :
      {lease : ℕ} {s : StoredSchedule}
      → s.status ≡ pending
      → s.leased_until ≡ some lease
      → RowStep k (delivers k lease) s (delivered_row s)
  advance :
      {next lease : ℕ} {s : StoredSchedule}
      → s.status ≡ pending
      → s.leased_until ≡ some lease
      → RowStep k (reschedules k next lease) s (next_row next s)
  fail :
      {now retry_in lease : ℕ} {error : String} {s : StoredSchedule}
      → s.status ≡ pending
      → s.leased_until ≡ some lease
      → RowStep k (fails now k retry_in error lease) s (failed_row (now + retry_in) error s)
  bury :
      {now lease : ℕ} {error : String} {s : StoredSchedule}
      → s.status ≡ pending
      → s.leased_until ≡ some lease
      → RowStep k (dead_letters now k error lease) s (dead_row now error s)
  sweep :
      {now : ℕ} {s : StoredSchedule}
      → s.status ≡ pending
      → s.max_attempts ≤ s.attempts
      → IsFree now s.leased_until
      → RowStep k (sweeps now) s (exhausted_row now s)
  stop :
      {s : StoredSchedule}
      → (s.status ≡ pending) ⊎ (s.status ≡ paused)
      → RowStep k (cancels k) s (record s { status = cancelled; leased_until = none })
  hold :
      {s : StoredSchedule}
      → s.status ≡ pending
      → RowStep k (pauses k true) s (record s { status = paused })
  release :
      {s : StoredSchedule}
      → s.status ≡ paused
      → RowStep k (pauses k false) s (record s { status = pending })
  restart :
      {next : Option Instant} {s : StoredSchedule}
      → s.status ≡ paused
      → RowStep k (resumes k next) s (resumed_row next s)
  revive :
      {now : ℕ} {s : StoredSchedule}
      → s.status ≡ dead_lettered
      → RowStep k (replays now k) s (revived_row now s)

-- Where a call takes the row `s` of schedule `k`.
abbrev pub Moves : Uuid → Op → StoredSchedule → Rows → Type 0
Moves k o s rows' = (s' : StoredSchedule) × (lookup k rows' ≡ some s') × RowStep k o s s'

-- A call of `insert` for the schedule's own identifier replaces the row; the theorems leave it out.
abbrev pub Spares : Uuid → Op → Type 0
Spares k (inserts message n) = message.schedule_id ≢ k
Spares k _ = Unit
