-- ===== src/Scheduler/Tests.antt =====
-- The scheduler's theorems at concrete schedules.
use Prim.Native.String.{String}
use hexeract.Common.{
  ℕ, ◌+◌, ◌≤◌, ◌≡◌, refl, inr, Option, some, none, false, List, [], ◌∷◌, has, arith,
}
use hexeract.Common.Map.{lookup}
use hexeract.Common.Result.{ok}
use hexeract.Clock.{Instant, checked_add, last_instant}
use hexeract.Scheduler.Types.{
  Uuid, ScheduledMessage, StoredSchedule, LeasedOccurrence, Trigger, delay, mediator, pending,
  delivered, ScheduleStatus,
}
use hexeract.Scheduler.Store.{
  Rows, claim_due, claim_loop, is_claimable, claim_row, occurrence_of, fenced_pending,
  mark_delivered, reschedule, mark_failed, mark_dead_lettered,
}
use hexeract.Scheduler.Lifecycle.{dead_letter_exhausted, is_sweepable}
use hexeract.Scheduler.Claims.{ids}
use hexeract.Scheduler.Contract.{ClaimSpec, claim_due-ClaimSpec}
use hexeract.Scheduler.Invariant.{
  Inv, Op, inserts, claims, delivers, sweeps, cancels, resumes, replays, apply, run, run_empty-Inv,
}
use hexeract.Scheduler.Fencing.{AllForeign, run-leased}
use hexeract.Scheduler.Acks.{Refused, claim-exclusive, stale-Refused}
use hexeract.Scheduler.Machine.{Moves}
use hexeract.Scheduler.Machine.Refinement.{apply-Moves}
use hexeract.Scheduler.Life.{run-terminal, total_claims, total_claims-budget}

abbrev pub message_of : Uuid → Trigger → Instant → ScheduledMessage
message_of id trigger at = record {
  schedule_id = id;
  event_type = "invoice.due";
  payload = 123 ∷ 125 ∷ [];
  target = mediator;
  trigger = trigger;
  scheduled_for = at;
}

abbrev pub row_of : Uuid → Trigger → ℕ → Option Instant → ScheduleStatus → StoredSchedule
row_of id trigger attempts lease status = record {
  message = message_of id trigger 4;
  max_attempts = 3;
  attempts = attempts;
  leased_until = lease;
  status = status;
  last_error = none;
  dead_lettered_at = none;
}

-- Two one-shot schedules, due at 4.
abbrev pub two_rows : Rows
two_rows = (1, row_of 1 (delay 4) 0 none pending) ∷ (2, row_of 2 (delay 4) 0 none pending) ∷ []

abbrev pub one_leased : Rows
one_leased =
    (1, row_of 1 (delay 4) 1 (some 12) pending) ∷ (2, row_of 2 (delay 4) 0 none pending) ∷ []

abbrev both_leased : Rows
both_leased =
    (1, row_of 1 (delay 4) 1 (some 12) pending) ∷ (2, row_of 2 (delay 4) 1 (some 13) pending) ∷ []

abbrev again_leased : Rows
again_leased =
    (1, row_of 1 (delay 4) 2 (some 27) pending) ∷ (2, row_of 2 (delay 4) 0 none pending) ∷ []

abbrev pub occurrence : Uuid → ℕ → Instant → LeasedOccurrence
occurrence id attempts lease = record {
  message = message_of id (delay 4) 4;
  attempts = attempts;
  max_attempts = 3;
  leased_until = lease;
}

pub two_rows-Inv : Inv two_rows
two_rows-Inv = record {
  distinct = (refl, (refl, tt));
  sound = (
    record {
      keyed = refl;
      budget = omega arith;
      width = omega arith;
      released = λ p. refl;
      dead = refl;
    },
    (
      record {
        keyed = refl;
        budget = omega arith;
        width = omega arith;
        released = λ p. refl;
        dead = refl;
      },
      tt,
    ),
  );
}

pub first_claim : claim_due 5 1 7 two_rows ≡ ok (one_leased, occurrence 1 1 12 ∷ [])
unfolding claim_due claim_loop is_claimable claim_row occurrence_of checked_add last_instant
first_claim = refl

-- What others may call while the first lease runs: a stale acknowledgement, and a sweep.
abbrev foreign : List Op
foreign = delivers 1 11 ∷ sweeps 6 ∷ []

second_claim : claim_due 6 10 7 (run foreign one_leased) ≡ ok (both_leased, occurrence 2 1 13 ∷ [])
unfolding claim_due claim_loop is_claimable claim_row occurrence_of checked_add last_instant run
    apply mark_delivered fenced_pending dead_letter_exhausted is_sweepable
second_claim = refl

third_claim : claim_due 20 1 7 (run foreign one_leased) ≡ ok (again_leased, occurrence 1 2 27 ∷ [])
unfolding claim_due claim_loop is_claimable claim_row occurrence_of checked_add last_instant run
    apply mark_delivered fenced_pending dead_letter_exhausted is_sweepable
third_claim = refl

foreign-AllForeign : AllForeign 1 12 foreign
foreign-AllForeign = (inr (omega arith), (omega arith, tt))

claim-exclusive_example : has 1 (ids (occurrence 2 1 13 ∷ [])) ≡ false
claim-exclusive_example =
    claim-exclusive 5 1 7 6 10 7 two_rows one_leased both_leased (occurrence 1 1 12 ∷ [])
      (occurrence 2 1 13 ∷ []) foreign 1 two_rows-Inv first_claim refl (tt, (tt, tt))
      foreign-AllForeign (omega arith) second_claim

stale-Refused_example :
    Refused (mark_delivered 1 12 again_leased) again_leased
    × ((next : Instant) → Refused (reschedule 1 next 12 again_leased) again_leased)
    × ((at retry_in : ℕ) (error : String)
        → Refused (mark_failed at 1 retry_in error 12 again_leased) again_leased)
    × ((at : Instant) (error : String)
        → Refused (mark_dead_lettered at 1 error 12 again_leased) again_leased)
stale-Refused_example =
    stale-Refused 5 1 7 20 1 7 two_rows one_leased again_leased (occurrence 1 1 12 ∷ [])
      (occurrence 1 2 27 ∷ []) foreign 1 two_rows-Inv first_claim refl (tt, (tt, tt))
      foreign-AllForeign third_claim refl (omega arith)

claim_due-ClaimSpec_example : ClaimSpec 5 (5 + 7) 1 two_rows one_leased (occurrence 1 1 12 ∷ [])
claim_due-ClaimSpec_example =
    claim_due-ClaimSpec 5 1 7 two_rows one_leased (occurrence 1 1 12 ∷ []) two_rows-Inv first_claim

run_empty-Inv_example :
    Inv (run (inserts (message_of 1 (delay 4) 4) 3 ∷ claims 5 1 7 ∷ delivers 1 12 ∷ []) [])
run_empty-Inv_example =
    run_empty-Inv (inserts (message_of 1 (delay 4) 4) 3 ∷ claims 5 1 7 ∷ delivers 1 12 ∷ [])
      (omega arith, (tt, (tt, tt)))

run-leased_example :
    lookup 1 (run foreign one_leased) ≡ some (row_of 1 (delay 4) 1 (some 12) pending)
run-leased_example =
    run-leased 1 12 (row_of 1 (delay 4) 1 (some 12) pending) foreign one_leased refl refl
      foreign-AllForeign

apply-Moves_example :
    Moves 1 (claims 5 1 7) (row_of 1 (delay 4) 0 none pending) (apply (claims 5 1 7) two_rows)
apply-Moves_example =
    apply-Moves 1 (claims 5 1 7) (row_of 1 (delay 4) 0 none pending) two_rows two_rows-Inv tt refl

abbrev done_rows : Rows
done_rows = (1, row_of 1 (delay 4) 1 none delivered) ∷ []

done_rows-Inv : Inv done_rows
done_rows-Inv = record {
  distinct = (refl, tt);
  sound = (
    record {
      keyed = refl;
      budget = omega arith;
      width = omega arith;
      released = λ p. refl;
      dead = refl;
    },
    tt,
  );
}

abbrev late_calls : List Op
late_calls = claims 5 1 7 ∷ cancels 1 ∷ resumes 1 none ∷ replays 9 1 ∷ []

run-terminal_example :
    lookup 1 (run late_calls done_rows) ≡ some (row_of 1 (delay 4) 1 none delivered)
run-terminal_example =
    run-terminal 1 (row_of 1 (delay 4) 1 none delivered) late_calls done_rows done_rows-Inv
      (tt, (tt, (tt, (tt, tt)))) refl refl (tt, (tt, (tt, (inr (λ p. cc), tt))))

abbrev crashes : List Op
crashes = claims 5 2 7 ∷ claims 20 2 7 ∷ claims 40 2 7 ∷ claims 60 2 7 ∷ []

total_claims-budget_example : total_claims 1 crashes two_rows + 0 ≤ 3
total_claims-budget_example =
    total_claims-budget 1 (row_of 1 (delay 4) 0 none pending) crashes two_rows two_rows-Inv
      (tt, (tt, (tt, (tt, tt)))) (tt, (tt, (tt, (tt, tt)))) refl
