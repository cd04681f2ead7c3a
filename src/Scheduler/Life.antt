-- ===== src/Scheduler/Life.antt =====
-- Histories of calls of the in-memory store (crates/hexeract-scheduler/src/memory.rs): terminal
-- states and the attempt budget.
use hexeract.Common.{
  ap, ℕ, ◌+◌, ◌≤◌, ◌≡◌, ◌≢◌, refl, ◌∙◌, ◌⊎◌, inl, inr, some, none, true, List, [], ◌∷◌,
  if◌then◌else◌, arith, Bool-cases, has,
}
use hexeract.Common.Map.{lookup}
use hexeract.Common.Result.{ok, err}
use hexeract.Scheduler.Types.{
  Uuid, ScheduleStatus, StoredSchedule, Fallible, dead_lettered, is_terminal,
}
use hexeract.Scheduler.Store.{Rows, Claims, claim_due}
use hexeract.Scheduler.Lifecycle.{sweep_row, resume_row}
use hexeract.Scheduler.Claims.{ids}
use hexeract.Scheduler.Contract.{claim_due-ClaimSpec}
use hexeract.Scheduler.Invariant.{
  Inv, Op, inserts, claims, reschedules, resumes, replays, apply, run, after_of, AllFit, apply-Inv,
  IsSound-at,
}
use hexeract.Scheduler.Machine.{
  claimed_row, RowStep, stays, claim, deliver, advance, fail, bury, sweep, stop, hold, release,
  restart, revive, Spares,
}
use hexeract.Scheduler.Machine.Refinement.{apply-Moves}

-- What may be called without reviving a schedule in the status `st`: anything but an insertion
-- under its identifier, and but the replay of it while it is dead-lettered.
abbrev pub Settled : Uuid → ScheduleStatus → Op → Type 0
Settled k st (inserts message n) = message.schedule_id ≢ k
Settled k st (replays now id) = (id ≢ k) ⊎ (st ≢ dead_lettered)
Settled k st _ = Unit

abbrev pub AllSettled : Uuid → ScheduleStatus → List Op → Type 0
AllSettled k st [] = Unit
AllSettled k st (o ∷ os) = Settled k st o × AllSettled k st os

Settled-Spares : (k : Uuid) (st : ScheduleStatus) (o : Op) → Settled k st o → Spares k o
Settled-Spares k st (inserts message n) f = f
Settled-Spares k st _ f = tt

step-terminal :
    (k : Uuid) (o : Op) (s s' : StoredSchedule)
    → RowStep k o s s'
    → is_terminal s.status ≡ true
    → Settled k s.status o
    → s' ≡ s
step-terminal k o s s' (stays i) t f = refl
step-terminal k o s s' (claim c) t f = absurd (cc (c.waits))
step-terminal k o s s' (deliver p h) t f = absurd (cc)
step-terminal k o s s' (advance p h) t f = absurd (cc)
step-terminal k o s s' (fail p h) t f = absurd (cc)
step-terminal k o s s' (bury p h) t f = absurd (cc)
step-terminal k o s s' (sweep p b h) t f = absurd (cc)
step-terminal k o s s' (stop (inl p)) t f = absurd (cc)
step-terminal k o s s' (stop (inr p)) t f = absurd (cc)
step-terminal k o s s' (hold p) t f = absurd (cc)
step-terminal k o s s' (release p) t f = absurd (cc)
step-terminal k o s s' (restart p) t f = absurd (cc)
step-terminal k o s s' (revive p) t f = absurd (elim f [ inl ne ↦ ne refl | inr ne ↦ ne p ])

-- A schedule that is delivered, cancelled or dead-lettered is never touched again: no history of
-- calls changes its row, unless it is inserted anew, or is dead-lettered and an operator replays it.
pub run-terminal :
    (k : Uuid) (s : StoredSchedule) (os : List Op) (rows : Rows)
    → Inv rows
    → AllFit os
    → lookup k rows ≡ some s
    → is_terminal s.status ≡ true
    → AllSettled k s.status os
    → lookup k (run os rows) ≡ some s
unfolding run
run-terminal k s [] rows v fit e t f = e
run-terminal k s (o ∷ os) rows v fit e t f =
    let (s', e', st) = apply-Moves k o s rows v (Settled-Spares k s.status o f.0) e in
    run-terminal k s os (apply o rows) (apply-Inv o rows fit.0 v) fit.1
      (e' ∙ ap some (step-terminal k o s s' st t f.0)) t f.1

-- How often a call claims schedule `k`: `claim_due` once at most.
abbrev claimed_in : Uuid → Fallible Claims → ℕ
claimed_in k (ok (rows, out)) = if has k (ids out) then 1 else 0
claimed_in k (err e) = 0

unfoldable pub claim_count : Uuid → Op → Rows → ℕ
claim_count k (claims now batch lease) rows = claimed_in k (claim_due now batch lease rows)
claim_count k _ rows = 0

unfoldable pub total_claims : Uuid → List Op → Rows → ℕ
total_claims k [] rows = 0
total_claims k (o ∷ os) rows = claim_count k o rows + total_claims k os (apply o rows)

-- The calls that do not give schedule `k` a new attempt budget.
abbrev pub Keeps : Uuid → Op → Type 0
Keeps k (inserts message n) = message.schedule_id ≢ k
Keeps k (reschedules id next lease) = id ≢ k
Keeps k (resumes id none) = Unit
Keeps k (resumes id (some next)) = id ≢ k
Keeps k (replays now id) = id ≢ k
Keeps k _ = Unit

abbrev pub AllKeep : Uuid → List Op → Type 0
AllKeep k [] = Unit
AllKeep k (o ∷ os) = Keeps k o × AllKeep k os

Keeps-Spares : (k : Uuid) (o : Op) → Keeps k o → Spares k o
Keeps-Spares k (inserts message n) f = f
Keeps-Spares k _ f = tt

-- A step that keeps the budget uses up attempts and gives none back.
abbrev Spends : StoredSchedule → ℕ → StoredSchedule → Type 0
Spends s n s' = (s'.max_attempts ≡ s.max_attempts) × (s.attempts + n ≤ s'.attempts)

step-Spends :
    (k : Uuid) (o : Op) (s s' : StoredSchedule) → RowStep k o s s' → Keeps k o → Spends s 0 s'
unfolding sweep_row resume_row
step-Spends k o s s' (stays i) f = omega arith
step-Spends k o s s' (claim c) f = omega arith
step-Spends k o s s' (deliver p h) f = omega arith
step-Spends k o s s' (advance p h) f = absurd (f refl)
step-Spends k o s s' (fail p h) f = omega arith
step-Spends k o s s' (bury p h) f = omega arith
step-Spends k o s s' (sweep p b h) f = omega arith
step-Spends k o s s' (stop n) f = omega arith
step-Spends k o s s' (hold p) f = omega arith
step-Spends k o s s' (release p) f = omega arith
step-Spends k o s s' (restart {next = none} p) f = omega arith
step-Spends k o s s' (restart {next = some next} p) f = absurd (f refl)
step-Spends k o s s' (revive p) f = absurd (f refl)

-- Where a call takes the row, with the attempts that it uses.
abbrev Used : Uuid → StoredSchedule → ℕ → Rows → Type 0
Used k s n rows' = (s' : StoredSchedule) × (lookup k rows' ≡ some s') × Spends s n s'

claim-Used :
    (k now batch lease : ℕ) (s : StoredSchedule) (rows : Rows) (r : Fallible Claims)
    → claim_due now batch lease rows ≡ r
    → Inv rows
    → lookup k rows ≡ some s
    → Used k s (claimed_in k r) (after_of rows r)
claim-Used k now batch lease s rows (err x) q v e = (s, e, omega arith)
claim-Used k now batch lease s rows (ok (rows', out)) q v e =
    let spec = claim_due-ClaimSpec now batch lease rows rows' out v q in
    elim (Bool-cases (has k (ids out))) [
      | inl h ↦
          let (t, found, c, at, _) = spec.taken k h in
          let p : t ≡ s = cc in
          rw h (
            claimed_row (now + lease) s,
            at ∙ ap (λ r. some (claimed_row (now + lease) r)) p,
            omega arith,
          )
      | inr h ↦ rw h (s, spec.kept k h ∙ e, omega arith)
    ]

apply-Used :
    (k : Uuid) (o : Op) (s : StoredSchedule) (rows : Rows)
    → Inv rows
    → Keeps k o
    → lookup k rows ≡ some s
    → Used k s (claim_count k o rows) (apply o rows)
unfolding claim_count
apply-Used k (claims now batch lease) s rows v f e =
    unfold apply in claim-Used k now batch lease s rows _ refl v e
apply-Used k o s rows v f e =
    let (s', e', st) = apply-Moves k o s rows v (Keeps-Spares k o f) e in
    (s', e', step-Spends k o s s' st f)

-- The attempt budget. Over any history of calls, from rows that satisfy the invariant, schedule `k`
-- is claimed at most as often as it has attempts left, so that a message that crashes every worker
-- is not delivered for ever; only a new insertion, a reschedule, a realigning resume or a replay
-- gives it a new budget.
pub total_claims-budget :
    (k : Uuid) (s : StoredSchedule) (os : List Op) (rows : Rows)
    → Inv rows
    → AllFit os
    → AllKeep k os
    → lookup k rows ≡ some s
    → total_claims k os rows + s.attempts ≤ s.max_attempts
unfolding total_claims
total_claims-budget k s [] rows v fit f e = omega (arith, (IsSound-at rows v k s e).budget)
total_claims-budget k s (o ∷ os) rows v fit f e =
    let (s', e', spent) = apply-Used k o s rows v f.0 e in
    omega
      (arith, total_claims-budget k s' os (apply o rows) (apply-Inv o rows fit.0 v) fit.1 f.1 e')
