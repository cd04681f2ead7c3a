-- ===== src/Scheduler/WorkerTests.antt =====
-- The theorems about the worker, the control facade and the operator's lists, at concrete schedules.
use Prim.Native.String.{String}
use hexeract.Common.{
  ℕ, ◌+◌, ◌-◌, subst, sym, ◌*◌, ◌^◌, ◌≤◌, ◌<◌, ◌≡◌, ◌↔◌, refl, Option, some, none, true, [], ◌∷◌,
  arith,
}
use hexeract.Common.Int.{ℤ, pos, negsuc, ◌<ℤ◌}
use hexeract.Common.Result.{ok, ok-injective}
use hexeract.Clock.{
  Instant, checked_add, checked_mul, last_instant, last_duration, from_secs, unix_epoch,
}
use hexeract.Scheduler.Types.{
  StoredSchedule, delay, cron, pending, delivered, paused, SchedulerError, Fallible,
}
use hexeract.Scheduler.Store.{Rows, claim_due, claim_loop, is_claimable, claim_row, occurrence_of}
use hexeract.Scheduler.Lifecycle.{
  dead_letter_exhausted, is_sweepable, inspect, resume, cancel, list_pending, list_dead_letter,
  select, is_listed, is_dead, earlier, later_dead,
}
use hexeract.Scheduler.Invariant.{Inv}
use hexeract.Scheduler.Cron.{CronEngine, to_offset_date_time, to_system_time, next_occurrence}
use hexeract.Scheduler.Cron.Laws.{
  Ascends, to_system_time-to_offset_date_time, next_occurrence-later,
}
use hexeract.Scheduler.Worker.{default_config, build, Settlement, settle, settle_with}
use hexeract.Scheduler.Building.{IsValid, build_iff}
use hexeract.Scheduler.Settling.{Answered, Settles, settle-Settles}
use hexeract.Scheduler.Pacing.{IsPaced, settle-dispatches}
use hexeract.Scheduler.Control.{control_resume, Realigned, control_resume-Realigned}
use hexeract.Scheduler.Operator.{Handled, sweep_claim-Handled}
use hexeract.Scheduler.Tests.{message_of, row_of, two_rows, one_leased, occurrence, two_rows-Inv}

-- An engine of one schedule, which fires a nanosecond after any anchor.
abbrev next_nanosecond : ℤ → Option ℤ
next_nanosecond (pos n) = some (pos (n + 1))
next_nanosecond (negsuc n) = none

abbrev engine : CronEngine
engine = record { parse = λ text. ok next_nanosecond; representable = λ z. true }

next_nanosecond-later : (a b : ℤ) → next_nanosecond a ≡ some b → a <ℤ b
next_nanosecond-later (pos n) b q = subst (λ z. pos n <ℤ z) (later n b q) (omega arith)
  where
    later : (n : ℕ) (b : ℤ) → ◌≡◌ {A = Option ℤ} (some (pos (n + 1))) (some b) → pos (n + 1) ≡ b
    later n b q = cc
next_nanosecond-later (negsuc n) b q = absurd (cc)

engine-Ascends : Ascends engine
engine-Ascends text f a b p q =
    next_nanosecond-later a b (subst (λ g. g a ≡ some b) (ok-injective f next_nanosecond (sym p)) q)

abbrev silent : SchedulerError → String
silent e = "failed"

limit_fits : 5_000 ≤ last_duration
unfolding last_duration
limit_fits = omega arith

build_iff_example :
    (build default_config ≡ ok default_config)
    ↔ ((default_config ≡ default_config) × IsValid default_config)
build_iff_example = build_iff default_config default_config

abbrev before_epoch : Instant
before_epoch = 2 ^ 63 * 1_000_000_000 - 7

before_epoch_fits : before_epoch ≤ last_instant
unfolding last_instant
before_epoch_fits = omega arith

before_epoch_there : to_offset_date_time engine before_epoch ≡ ok (negsuc 6)
unfolding to_offset_date_time unix_epoch
before_epoch_there = refl

to_system_time-to_offset_date_time_example : to_system_time (negsuc 6) ≡ ok before_epoch
to_system_time-to_offset_date_time_example =
    to_system_time-to_offset_date_time engine before_epoch before_epoch_fits (negsuc 6)
      before_epoch_there

-- A nanosecond before the Unix epoch there is no further occurrence; at the epoch there is.
abbrev at_epoch : Instant
at_epoch = 2 ^ 63 * 1_000_000_000

at_epoch_fits : at_epoch ≤ last_instant
unfolding last_instant
at_epoch_fits = omega arith

after_epoch : next_occurrence engine "* * * * *" at_epoch ≡ ok (some (at_epoch + 1))
unfolding next_occurrence to_offset_date_time to_system_time unix_epoch last_instant
after_epoch = refl

next_occurrence-later_example : at_epoch < at_epoch + 1
next_occurrence-later_example =
    next_occurrence-later engine "* * * * *" at_epoch (at_epoch + 1) engine-Ascends at_epoch_fits
      after_epoch

abbrev monthly : StoredSchedule
monthly = row_of 1 (cron "0 0 1 * *") 0 none paused

abbrev resumed : StoredSchedule
resumed = record (row_of 1 (cron "0 0 1 * *") 0 none pending) {
  message = message_of 1 (cron "0 0 1 * *") (at_epoch + 1);
}

resumes_monthly : control_resume engine at_epoch 1 ((1, monthly) ∷ []) ≡ ok ((1, resumed) ∷ [])
unfolding control_resume inspect resume hexeract.Scheduler.Lifecycle.resume_row next_occurrence
    to_offset_date_time to_system_time unix_epoch last_instant
resumes_monthly = refl

control_resume-Realigned_example : Realigned engine at_epoch 1 ((1, resumed) ∷ [])
control_resume-Realigned_example =
    control_resume-Realigned engine at_epoch 1 monthly "0 0 1 * *" ((1, monthly) ∷ [])
      ((1, resumed) ∷ []) engine-Ascends at_epoch_fits refl refl refl resumes_monthly

-- A world in which each sink answers at once, at 6.
abbrev prompt : ℕ → Settlement
prompt n = record { guard_at = 6; answer = some (ok tt); applied_at = 6; random = λ n. 0 }

deadlines_fit : 6 + from_secs 300 ≤ last_instant
unfolding last_instant
deadlines_fit = omega arith

abbrev delivered_rows : Rows
delivered_rows =
    (1, row_of 1 (delay 4) 1 none delivered) ∷ (2, row_of 2 (delay 4) 1 none delivered) ∷ []

settle-Settles_example :
    (r : Fallible (Unit {0})) × Answered (some (ok tt)) r
    × Settles default_config engine silent
        (prompt 0)
        (occurrence 1 1 12)
        (row_of 1 (delay 4) 1 (some 12) pending)
        one_leased
        refl
        refl
        refl
        r
        (settle default_config engine silent (prompt 0) (occurrence 1 1 12) one_leased)
settle-Settles_example =
    settle-Settles default_config engine silent (prompt 0) (occurrence 1 1 12)
      (row_of 1 (delay 4) 1 (some 12) pending) one_leased refl refl refl tt (λ n. omega arith)
      deadlines_fit (omega arith)

default_builds : build default_config ≡ ok default_config
unfolding build checked_mul last_duration
default_builds = refl

-- Each settlement begins half a minute after the one before, the first two seconds after the claim.
abbrev steady : ℕ → Settlement
steady n = record {
  guard_at = 7 + n * from_secs 30;
  answer = some (ok tt);
  applied_at = 8 + n * from_secs 30;
  random = λ m. 0;
}

steady-IsPaced : IsPaced default_config 5 steady
steady-IsPaced = record { first = omega arith; next = λ n. omega arith }

abbrev two_held : Rows
two_held =
    (1, row_of 1 (delay 4) 1 (some (5 + from_secs 300)) pending)
    ∷ (2, row_of 2 (delay 4) 1 (some (5 + from_secs 300)) pending)
    ∷ []

two_claimed :
    claim_due 5 10 (from_secs 300) two_rows
    ≡ ok (two_held, occurrence 1 1 (5 + from_secs 300) ∷ occurrence 2 1 (5 + from_secs 300) ∷ [])
unfolding claim_due claim_loop is_claimable claim_row occurrence_of checked_add last_instant
two_claimed = refl

settle-dispatches_example :
    ((steady 1).guard_at < 5 + from_secs 300)
    × (r : Fallible (Unit {0})) × Answered (some (ok tt)) r
    × (settle default_config engine silent (steady 1) (occurrence 2 1 (5 + from_secs 300)) two_held
        ≡ settle_with default_config engine silent
            (steady 1)
            (occurrence 2 1 (5 + from_secs 300))
            r
            two_held)
settle-dispatches_example =
    settle-dispatches default_config default_config engine silent 5 1 two_rows two_held two_held
      (occurrence 1 1 (5 + from_secs 300) ∷ occurrence 2 1 (5 + from_secs 300) ∷ []) steady
      (occurrence 2 1 (5 + from_secs 300)) default_builds (omega arith) two_rows-Inv two_claimed
      steady-IsPaced refl

abbrev one_leased_again : Rows
one_leased_again =
    (1, row_of 1 (delay 4) 1 (some 12) pending) ∷ (2, row_of 2 (delay 4) 1 (some 12) pending) ∷ []

one_leased-Inv : Inv one_leased
one_leased-Inv = record {
  distinct = (refl, (refl, tt));
  sound = (
    record {
      keyed = refl;
      budget = omega arith;
      width = omega arith;
      released = λ p. absurd (cc p);
      dead = refl;
    },
    (
      record {
        keyed = refl;
        budget = omega arith;
        width = omega arith;
        released = λ p. refl;
        dead = refl;
      },
      tt,
    ),
  );
}

first_claim_swept :
    claim_due 5 2 7 (dead_letter_exhausted 5 one_leased).0
    ≡ ok (one_leased_again, occurrence 2 1 12 ∷ [])
unfolding claim_due claim_loop is_claimable claim_row occurrence_of checked_add last_instant
    dead_letter_exhausted is_sweepable
first_claim_swept = refl

sweep_claim-Handled_example :
    Handled 2 (row_of 2 (delay 4) 0 none pending) (occurrence 2 1 12 ∷ []) one_leased_again
sweep_claim-Handled_example =
    sweep_claim-Handled 5 5 2 7 one_leased one_leased_again (occurrence 2 1 12 ∷ []) one_leased-Inv
      first_claim_swept (omega arith) 2 (row_of 2 (delay 4) 0 none pending) refl refl (omega arith)
      tt (omega arith)
