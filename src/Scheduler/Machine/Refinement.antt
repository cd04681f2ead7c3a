-- ===== src/Scheduler/Machine/Refinement.antt =====
-- Each call of the in-memory store (crates/hexeract-scheduler/src/memory.rs) as a step of the life
-- of one schedule.
use Prim.Native.String.{String}
use hexeract.Common.{
  subst, ap, ◌<◌, ℕ, ◌+◌, ◌≡◌, ◌≢◌, refl, sym, ◌∙◌, ◌⊎◌, inl, inr, Option, some, none, Bool, true,
  false, [], ◌∷◌, ◌==◌, ==_iff, if◌then◌else◌, arith, Bool-cases, Option-cases, has,
}
use hexeract.Common.Map.{lookup, insert, lookup-insert_self}
use hexeract.Common.Result.{ok_or}
use hexeract.Clock.{Instant, last_instant, checked_add, checked_add-eq}
use hexeract.Scheduler.Types.{
  Uuid, ScheduleStatus, StoredSchedule, pending, delivered, dead_lettered, cancelled, paused,
  is_terminal, is_paused, is_dead_lettered,
}
use hexeract.Scheduler.Store.{
  Rows, claim_due, fenced_pending, mark_delivered, reschedule, mark_failed, mark_dead_lettered,
  insert_schedule, claim_loop,
}
use hexeract.Scheduler.Lifecycle.{
  dead_letter_exhausted, is_sweepable, sweep_row, cancel, set_paused, pause_status, resume,
  resume_row, replay,
}
use hexeract.Scheduler.Claims.{ids}
use hexeract.Scheduler.Contract.{claim_loop-ClaimSpec, is_lease_free_iff}
use hexeract.Scheduler.Invariant.{
  Inv, Op, inserts, claims, delivers, reschedules, fails, dead_letters, sweeps, cancels, pauses,
  resumes, replays, apply, after, after_of, fenced_pending-some,
}
use hexeract.Scheduler.Fencing.{insert-other}
use hexeract.Scheduler.Acks.{fenced_pending-held, delivered_row, next_row, failed_row, dead_row}
use hexeract.Scheduler.Machine.{
  claimed_row, revived_row, Passes, Idle, RowStep, stays, claim, deliver, advance, fail, bury,
  sweep, stop, hold, release, restart, revive, Moves, Spares,
}

-- The branches of `set_paused`.
unpaused :
    (k : Uuid) (t : StoredSchedule) (on : Bool) (st : ScheduleStatus)
    → t.status ≡ st
    → Idle k (pauses k on) t
    → RowStep k (pauses k on) t (record t { status = st })
unpaused k t on st p i =
    subst (λ x. RowStep k (pauses k on) t (record t { status = x })) p (stays i)

pause_step :
    (k : Uuid) (t : StoredSchedule) (on : Bool) (st : ScheduleStatus)
    → t.status ≡ st
    → RowStep k (pauses k on) t (record t { status = pause_status on st })
pause_step k t true pending p = hold p
pause_step k t false paused p = release p
pause_step k t true paused p = unpaused k t true paused p (λ h. cc (h.1, p))
pause_step k t true delivered p = unpaused k t true delivered p (λ h. cc (h.1, p))
pause_step k t true cancelled p = unpaused k t true cancelled p (λ h. cc (h.1, p))
pause_step k t true dead_lettered p = unpaused k t true dead_lettered p (λ h. cc (h.1, p))
pause_step k t false pending p = unpaused k t false pending p (λ h. cc (h.1, p))
pause_step k t false delivered p = unpaused k t false delivered p (λ h. cc (h.1, p))
pause_step k t false cancelled p = unpaused k t false cancelled p (λ h. cc (h.1, p))
pause_step k t false dead_lettered p = unpaused k t false dead_lettered p (λ h. cc (h.1, p))

pause-Idle : (k id : Uuid) (on : Bool) (s : StoredSchedule) → id ≢ k → Idle k (pauses id on) s
pause-Idle k id true s ne = λ h. ne h.0
pause-Idle k id false s ne = λ h. ne h.0

live-cases : (st : ScheduleStatus) → is_terminal st ≡ false → (st ≡ pending) ⊎ (st ≡ paused)
live-cases pending h = inl refl
live-cases paused h = inr refl
live-cases delivered h = absurd (cc h)
live-cases cancelled h = absurd (cc h)
live-cases dead_lettered h = absurd (cc h)

restart_step :
    (k : Uuid) (next : Option Instant) (t : StoredSchedule)
    → t.status ≡ paused
    → RowStep k (resumes k next) t (resume_row next t)
unfolding resume_row
restart_step k none t p = restart p
restart_step k (some next) t p = restart p

checked_add-overflows : (t d : ℕ) → checked_add t d ≡ none → last_instant < t + d
unfolding checked_add
checked_add-overflows t d h = ground arith

module _ (k : ℕ) (s : StoredSchedule) (rows : Rows) (e : lookup k rows ≡ some s) where
  still : (o : Op) → Idle k o s → Moves k o s rows
  still o i = (s, e, stays i)

  -- A write at `id` moves the row of `k` only if it is that of `id`.
  write :
      (o : Op) (id : ℕ) (t t' : StoredSchedule)
      → lookup id rows ≡ some t
      → (id ≢ k → Idle k o s)
      → (id ≡ k → RowStep k o t t')
      → Moves k o s (insert id t' rows)
  write o id t t' found idle step = elim (Bool-cases (id == k)) [
    | inl same ↦
        let p = (==_iff id k).0 same in
        let same_row : t ≡ s = cc in
        (
          t',
          subst (λ i. lookup i (insert id t' rows) ≡ some t') p (lookup-insert_self id t' rows),
          subst (λ r. RowStep k o r t') same_row (step p),
        )
    | inr other ↦
        let ne : id ≢ k = λ p. cc ((==_iff id k).1 p) in
        (s, insert-other id k t' rows ne ∙ e, stays (idle ne))
  ]

  -- An acknowledgement moves the row if the fence lets it through.
  module _ (id lease : ℕ) where
    fenced_out : fenced_pending rows id lease ≡ none → Passes k id lease s → ⊥
    fenced_out p (same, waits, held) =
        let found = subst (λ i. lookup i rows ≡ some s) (sym same) e in
        cc (p, fenced_pending-held rows id lease s found waits held)

    fenced-step :
        (o : Op) (t' : StoredSchedule → StoredSchedule)
        → ((Passes k id lease s → ⊥) → Idle k o s)
        → ((t : StoredSchedule)
            → id ≡ k
            → t.status ≡ pending
            → t.leased_until ≡ some lease
            → RowStep k o t (t' t))
        → ((fenced_pending rows id lease ≡ none) × Idle k o s)
          ⊎ ((t : StoredSchedule) × (fenced_pending rows id lease ≡ some t)
              × Moves k o s (insert id (t' t) rows))
    fenced-step o t' idle step = elim (Option-cases (fenced_pending rows id lease)) [
      | inl p ↦ inl (p, idle (fenced_out p))
      | inr (t, p) ↦
          let (found, is_pend, held) = fenced_pending-some rows id lease t p in
          inr (
            t,
            p,
            write o id t (t' t) found (λ ne. idle (λ h. ne h.0)) (λ q. step t q is_pend held),
          )
    ]

    mark_delivered-Moves :
        Moves k (delivers id lease) s (after_of rows (mark_delivered id lease rows))
    unfolding mark_delivered
    mark_delivered-Moves =
        elim (fenced-step (delivers id lease) delivered_row (λ f. f)
          (λ t q a b.
            subst (λ i. RowStep k (delivers i lease) t (delivered_row t)) (sym q) (deliver a b))) [
              | inl (p, i) ↦ rw (p, mark_delivered) (still _ i)
              | inr (t, p, m) ↦ rw (p, mark_delivered) m
            ]

    reschedule-Moves :
        (next : ℕ)
        → Moves k (reschedules id next lease) s (after_of rows (reschedule id next lease rows))
    unfolding reschedule
    reschedule-Moves next =
        elim (fenced-step (reschedules id next lease) (next_row next) (λ f. f)
          (λ t q a b.
            subst (λ i. RowStep k (reschedules i next lease) t (next_row next t)) (sym q)
              (advance a b))) [
                | inl (p, i) ↦ rw (p, reschedule) (still _ i)
                | inr (t, p, m) ↦ rw (p, reschedule) m
              ]

    mark_failed-Moves :
        (now retry_in : ℕ) (error : String)
        → Moves k
            (fails now id retry_in error lease)
            s
            (after_of rows (mark_failed now id retry_in error lease rows))
    unfolding mark_failed
    mark_failed-Moves now retry_in error =
        elim (fenced-step (fails now id retry_in error lease) (failed_row (now + retry_in) error)
          inl
          (λ t q a b.
            subst
              (λ i.
                RowStep k (fails now i retry_in error lease) t
                  (failed_row (now + retry_in) error t))
              (sym q) (fail a b))) [
                | inl (p, i) ↦ rw (p, mark_failed) (still _ i)
                | inr (t, p, m) ↦ elim (Option-cases (checked_add now retry_in)) [
                  | inl o ↦
                      rw (p, mark_failed)
                        (rw (o, ok_or) (still _ (inr (checked_add-overflows now retry_in o))))
                  | inr (r, o) ↦
                      rw (p, mark_failed) (rw (o, ok_or) (rw (checked_add-eq now retry_in o) m))
                ]
              ]

    mark_dead_lettered-Moves :
        (now : ℕ) (error : String)
        → Moves k
            (dead_letters now id error lease)
            s
            (after_of rows (mark_dead_lettered now id error lease rows))
    unfolding mark_dead_lettered
    mark_dead_lettered-Moves now error =
        elim (fenced-step (dead_letters now id error lease) (dead_row now error) (λ f. f)
          (λ t q a b.
            subst (λ i. RowStep k (dead_letters now i error lease) t (dead_row now error t)) (sym q)
              (bury a b))) [
                | inl (p, i) ↦ rw (p, mark_dead_lettered) (still _ i)
                | inr (t, p, m) ↦ rw (p, mark_dead_lettered) m
              ]

  absent : (id : ℕ) → lookup id rows ≡ none → id ≢ k
  absent id p same = cc (p, e, ap (λ i. lookup i rows) same)

  same_row : (id : ℕ) (t : StoredSchedule) → lookup id rows ≡ some t → id ≡ k → t ≡ s
  same_row id t p same = cc (p, e, ap (λ i. lookup i rows) same)

  live :
      {t : StoredSchedule}
      → t ≡ s
      → is_terminal t.status ≡ true
      → (s.status ≡ pending) ⊎ (s.status ≡ paused)
      → ⊥
  live q b (inl p) = cc (q, b, p)
  live q b (inr p) = cc (q, b, p)

  cancel-Moves : (id : ℕ) → Moves k (cancels id) s (after rows (cancel id rows))
  unfolding cancel
  cancel-Moves id = elim (Option-cases (lookup id rows)) [
    | inl p ↦ rw (p, ok_or) (still _ (λ h. absent id p h.0))
    | inr (t, p) ↦ elim (Bool-cases (is_terminal t.status)) [
      | inl b ↦ rw (p, ok_or) (rw b (still _ (λ h. live (same_row id t p h.0) b h.1)))
      | inr b ↦
          rw (p, ok_or)
            (rw b (
              write (cancels id) id t _ p (λ ne h. ne h.0)
                (λ q.
                  subst
                    (λ i.
                      RowStep k (cancels i) t
                        (record t { status = cancelled; leased_until = none }))
                    (sym q) (stop (live-cases t.status b)))))
    ]
  ]

  set_paused-Moves :
      (id : ℕ) (on : Bool) → Moves k (pauses id on) s (after rows (set_paused id on rows))
  unfolding set_paused
  set_paused-Moves id on = elim (Option-cases (lookup id rows)) [
    | inl p ↦ rw (p, ok_or) (still _ (pause-Idle k id on s (absent id p)))
    | inr (t, p) ↦
        rw (p, ok_or)
          (write (pauses id on) id t _ p (pause-Idle k id on s) (λ q.
            subst (λ i. RowStep k (pauses i on) t (record t { status = pause_status on t.status }))
              (sym q) (pause_step k t on t.status refl)))
  ]

  resume-Moves :
      (id : ℕ) (next : Option ℕ) → Moves k (resumes id next) s (after rows (resume id next rows))
  unfolding resume
  resume-Moves id next = elim (Option-cases (lookup id rows)) [
    | inl p ↦ rw (p, ok_or) (still _ (λ h. absent id p h.0))
    | inr (t, p) ↦ elim (Bool-cases (is_paused t.status)) [
      | inl b ↦
          rw (p, ok_or)
            (rw b (
              write (resumes id next) id t _ p (λ ne h. ne h.0)
                (λ q.
                  subst (λ i. RowStep k (resumes i next) t (resume_row next t)) (sym q)
                    (restart_step k next t (ground arith)))))
      | inr b ↦ rw (p, ok_or) (rw b (still _ (λ h. cc (h.1, same_row id t p h.0, b))))
    ]
  ]

  replay-Moves : (now id : ℕ) → Moves k (replays now id) s (after rows (replay now id rows))
  unfolding replay
  replay-Moves now id = elim (Option-cases (lookup id rows)) [
    | inl p ↦ rw (p, ok_or) (still _ (λ h. absent id p h.0))
    | inr (t, p) ↦ elim (Bool-cases (is_dead_lettered t.status)) [
      | inl b ↦
          rw (p, ok_or)
            (rw b (
              write (replays now id) id t _ p (λ ne h. ne h.0)
                (λ q.
                  subst (λ i. RowStep k (replays now i) t (revived_row now t)) (sym q)
                    (revive (ground arith)))))
      | inr b ↦ rw (p, ok_or) (rw b (still _ (λ h. cc (h.1, same_row id t p h.0, b))))
    ]
  ]

  claim_due-Moves :
      (now batch lease : ℕ)
      → Inv rows
      → Moves k (claims now batch lease) s (after_of rows (claim_due now batch lease rows))
  unfolding claim_due
  claim_due-Moves now batch lease v = elim (Option-cases (checked_add now lease)) [
    | inl o ↦ rw (o, ok_or) (still _ tt)
    | inr (until, o) ↦
        let spec = claim_loop-ClaimSpec now (now + lease) batch rows v in
        rw (o, ok_or)
          (rw (checked_add-eq now lease o)
            (elim (Bool-cases (has k (ids (claim_loop now (now + lease) batch 0 rows).1))) [
              | inl h ↦
                  let (t, found, c, at, _) = spec.taken k h in
                  let p : t ≡ s = cc in
                  (
                    claimed_row (now + lease) t,
                    at,
                    subst (λ r. RowStep k (claims now batch lease) r (claimed_row (now + lease) t))
                        p (claim c),
                  )
              | inr h ↦ (s, spec.kept k h ∙ e, stays tt)
            ]))
  ]

sweepable-step :
    (k now : ℕ) (s : StoredSchedule)
    → is_sweepable now s ≡ true
    → RowStep k (sweeps now) s (sweep_row now s)
unfolding is_sweepable sweep_row
sweepable-step k now s h =
    sweep (ground arith) (ground arith) ((is_lease_free_iff now s.leased_until).0 (ground arith))

unsweepable-Idle :
    (k now : ℕ) (s : StoredSchedule) → is_sweepable now s ≡ false → Idle k (sweeps now) s
unfolding is_sweepable
unsweepable-Idle k now s h (waits, spent, free) =
    ground (arith, (is_lease_free_iff now s.leased_until).1 free)

-- What the sweep makes of one row.
unfoldable pub swept : Instant → StoredSchedule → StoredSchedule
swept now s = if is_sweepable now s then sweep_row now s else s

pub sweep-lookup :
    (k now : ℕ) (s : StoredSchedule) (rows : Rows)
    → lookup k rows ≡ some s
    → lookup k (dead_letter_exhausted now rows).0 ≡ some (swept now s)
unfolding dead_letter_exhausted swept
sweep-lookup k now s [] e = cc
sweep-lookup k now s ((id, t) ∷ rest) e = ground (arith, sweep-lookup k now s rest)

sweep-Moves :
    (k now : ℕ) (s : StoredSchedule) (rows : Rows)
    → lookup k rows ≡ some s
    → Moves k (sweeps now) s (dead_letter_exhausted now rows).0
unfolding swept
sweep-Moves k now s rows e = elim (Bool-cases (is_sweepable now s)) [
  | inl h ↦
      (sweep_row now s, rw (sweep-lookup k now s rows e) (rw (h, swept)), sweepable-step k now s h)
  | inr h ↦
      (s, rw (sweep-lookup k now s rows e) (rw (h, swept)), stays (unsweepable-Idle k now s h))
]

-- The store refines the life of each schedule. Every call other than an insertion under its own
-- identifier takes the row `s` of schedule `k` by a step of the relation, which writes out the row
-- after. The row stays as it was only where the call has nothing to do with it: the call is of another
-- schedule, the row is not in the state that the call is for (a lease that is held, an exhausted
-- budget, a paused status and so on), the retry deadline overflows, or it is a claim, whose batch may
-- be full.
pub apply-Moves :
    (k : Uuid) (o : Op) (s : StoredSchedule) (rows : Rows)
    → Inv rows
    → Spares k o
    → lookup k rows ≡ some s
    → Moves k o s (apply o rows)
unfolding apply insert_schedule
apply-Moves k (inserts m n) s rows v f e = (s, insert-other m.schedule_id k _ rows f ∙ e, stays f)
apply-Moves k (claims now batch lease) s rows v f e = claim_due-Moves k s rows e now batch lease v
apply-Moves k (delivers id lease) s rows v f e = mark_delivered-Moves k s rows e id lease
apply-Moves k (reschedules id next lease) s rows v f e = reschedule-Moves k s rows e id lease next
apply-Moves k (fails now id d x lease) s rows v f e = mark_failed-Moves k s rows e id lease now d x
apply-Moves k (dead_letters now id x lease) s rows v f e =
    mark_dead_lettered-Moves k s rows e id lease now x
apply-Moves k (sweeps now) s rows v f e = sweep-Moves k now s rows e
apply-Moves k (cancels id) s rows v f e = cancel-Moves k s rows e id
apply-Moves k (pauses id on) s rows v f e = set_paused-Moves k s rows e id on
apply-Moves k (resumes id next) s rows v f e = resume-Moves k s rows e id next
apply-Moves k (replays now id) s rows v f e = replay-Moves k s rows e now id
