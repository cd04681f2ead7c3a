-- ===== src/Scheduler/Operator.antt =====
-- The sweep before a claim, and the lists of the operator surface
-- (crates/hexeract-scheduler/src/memory.rs and admin.rs).
use hexeract.Common.{
  ap, ◌∙◌, ℕ, ◌≤◌, ◌<◌, ◌≡◌, refl, Option, some, none, true, false, leb, arith, Bool-cases, ◌⊎◌,
  inl, inr, List, map, take, length, length-take_le, has,
}
use mathlib.Core.List.{Perm}
use hexeract.Common.Map.{lookup}
use hexeract.Common.Result.{ok}
use hexeract.Common.Sort.{sort_by, Ordered, sort_by-Ordered, sort_by-perm}
use hexeract.Clock.{Instant}
use hexeract.Scheduler.Types.{
  Uuid, StoredSchedule, LeasedOccurrence, ScheduleSnapshot, to_snapshot, pending, dead_lettered,
}
use hexeract.Scheduler.Store.{Rows, claim_due}
use hexeract.Scheduler.Lifecycle.{
  dead_letter_exhausted, is_sweepable, sweep_row, select, is_listed, earlier, list_pending, is_dead,
  later_dead, list_dead_letter,
}
use hexeract.Scheduler.Claims.{ids}
use hexeract.Scheduler.Contract.{IsFree, claim_due-ClaimSpec, is_lease_free_iff}
use hexeract.Scheduler.Invariant.{Inv, sweeps, apply, apply-Inv}
use hexeract.Scheduler.Machine.Refinement.{swept, sweep-lookup}

-- What has become of a due row `s` after a sweep and a claim: with attempts left it is claimed, and
-- with none it is not, but dead-lettered.
abbrev pub Handled : Uuid → StoredSchedule → List LeasedOccurrence → Rows → Type 0
Handled k s claimed rows' =
    ((s.attempts < s.max_attempts) × (has k (ids claimed) ≡ true))
    ⊎ ((s.max_attempts ≤ s.attempts)
        × (has k (ids claimed) ≡ false)
        × ((t : StoredSchedule) × (lookup k rows' ≡ some t)
            × (t.status ≡ dead_lettered)
            × (t.last_error
                ≡ some "attempts exhausted by a crashed worker; dead-lettered by the sweeper")))

IsFree-mono : {now later : ℕ} (o : Option Instant) → now ≤ later → IsFree now o → IsFree later o
IsFree-mono none le f = tt
IsFree-mono (some until) le f = omega arith

swept-sweep_row :
    (now : ℕ) (s : StoredSchedule) → is_sweepable now s ≡ true → swept now s ≡ sweep_row now s
unfolding swept
swept-sweep_row now s h = rw h

swept_unchanged : (now : ℕ) (s : StoredSchedule) → is_sweepable now s ≡ false → swept now s ≡ s
unfolding swept
swept_unchanged now s h = rw h

module _ (swept_at now batch lease : ℕ) (rows rows' : Rows) (claimed : List LeasedOccurrence)
    (v : Inv rows)
    (e : claim_due now batch lease (dead_letter_exhausted swept_at rows).0 ≡ ok (rows', claimed))
    (room : length claimed < batch) (k : Uuid) (s : StoredSchedule)
    (found : lookup k rows ≡ some s) where
  v₀ : Inv (dead_letter_exhausted swept_at rows).0
  v₀ = unfold apply in apply-Inv (sweeps swept_at) rows tt v

  -- No due occurrence is lost between its budget and its lease. Take a row that is pending and due,
  -- whose lease has ended when the sweep looks, and a claim that follows the sweep and does not fill
  -- its batch. While the row has attempts left, the claim returns it; once its budget is used up,
  -- the claim does not, and the row is dead-lettered with the sweep's message.
  pub sweep_claim-Handled :
      s.status ≡ pending
      → s.message.scheduled_for ≤ now
      → IsFree swept_at s.leased_until
      → swept_at ≤ now
      → Handled k s claimed rows'
  unfolding is_sweepable sweep_row
  sweep_claim-Handled p due free le =
      let spec = claim_due-ClaimSpec now batch lease _ rows' claimed v₀ e in
      let at = sweep-lookup k swept_at s rows found in
      elim (Bool-cases (leb s.max_attempts s.attempts)) [
        | inl spent ↦
            let gone : is_sweepable swept_at s ≡ true =
              ground (arith, (is_lease_free_iff swept_at s.leased_until).1 free) in
            elim (Bool-cases (has k (ids claimed))) [
              | inl h ↦
                  let (t, found', c, _, _) = spec.taken k h in
                  let buried : t ≡ sweep_row swept_at s =
                    cc (found', at, swept-sweep_row swept_at s gone) in
                  absurd (cc (c.waits, buried))
              | inr h ↦ inr (
                ground arith,
                h,
                (
                  sweep_row swept_at s,
                  spec.kept k h ∙ (at ∙ ap some (swept-sweep_row swept_at s gone)),
                  refl,
                  refl,
                ),
              )
            ]
        | inr left ↦ inl (
          ground arith,
          spec.drained room k s (at ∙ ap some (swept_unchanged swept_at s (ground arith))) (record {
            waits = p;
            due = due;
            free = IsFree-mono s.leased_until le free;
            has_budget = ground arith;
          }),
        )
      ]

earlier-asym : (a b : ScheduleSnapshot) → earlier a b ≡ true → earlier b a ≡ false
earlier-asym a b h = ground arith

later_dead-asym : (a b : StoredSchedule) → later_dead a b ≡ true → later_dead b a ≡ false
later_dead-asym a b h = ground arith

-- The pending schedules are listed earliest first: at most `limit` of them, the first of an ordered
-- permutation of all that are pending or paused.
list_pending-Ordered :
    (limit : ℕ) (rows : Rows)
    → (all : List ScheduleSnapshot) × (list_pending limit rows ≡ take limit all)
      × Perm all (map to_snapshot (select is_listed rows))
      × Ordered earlier all
      × (length (list_pending limit rows) ≤ limit)
unfolding list_pending
list_pending-Ordered limit rows =
    let found = map to_snapshot (select is_listed rows) in
    (
      sort_by earlier found,
      refl,
      sort_by-perm earlier found,
      sort_by-Ordered earlier earlier-asym found,
      length-take_le limit (sort_by earlier found),
    )

-- The dead-lettered schedules are listed latest first.
list_dead_letter-Ordered :
    (limit : ℕ) (rows : Rows)
    → (all : List StoredSchedule) × (list_dead_letter limit rows ≡ map to_snapshot (take limit all))
      × Perm all (select is_dead rows)
      × Ordered later_dead all
      × (length (take limit all) ≤ limit)
unfolding list_dead_letter
list_dead_letter-Ordered limit rows =
    let found = select is_dead rows in
    (
      sort_by later_dead found,
      refl,
      sort_by-perm later_dead found,
      sort_by-Ordered later_dead later_dead-asym found,
      length-take_le limit (sort_by later_dead found),
    )
