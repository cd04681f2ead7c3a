-- ===== src/Scheduler/Fencing.antt =====
-- Leases: who may touch a row that is leased, and what becomes of an acknowledgement that comes too
-- late.
use Prim.Native.String.{String}
use hexeract.Common.{
  subst, ℕ, ◌+◌, ◌<◌, ◌≡◌, ◌≢◌, sym, ◌∙◌, ◌⊎◌, inl, inr, Option, some, none, Bool, List, [], ◌∷◌,
  ◌==◌, ==_iff, arith, Bool-cases, Option-cases,
}
use hexeract.Common.Map.{lookup, insert, lookup-insert}
use hexeract.Common.Result.{ok_or}
use hexeract.Clock.{Instant, checked_add}
use hexeract.Scheduler.Types.{Uuid, StoredSchedule, is_terminal, is_paused, is_dead_lettered}
use hexeract.Scheduler.Store.{
  Rows, is_claimable, claim_loop, claim_due, fenced_pending, mark_delivered, reschedule,
  mark_failed, mark_dead_lettered, insert_schedule,
}
use hexeract.Scheduler.Lifecycle.{
  dead_letter_exhausted, is_sweepable, cancel, set_paused, resume, replay,
}
use hexeract.Scheduler.Invariant.{
  Op, inserts, claims, delivers, reschedules, fails, dead_letters, sweeps, cancels, pauses, resumes,
  replays, apply, run, after, after_of,
}

-- What all but the holder of the lease `u` on schedule `k`, and its operators, may call before the
-- lease ends.
abbrev pub Foreign : Uuid → Instant → Op → Type 0
Foreign k u (inserts message n) = message.schedule_id ≢ k
Foreign k u (claims now batch lease) = now < u
Foreign k u (delivers id lease) = (id ≢ k) ⊎ (lease ≢ u)
Foreign k u (reschedules id next lease) = (id ≢ k) ⊎ (lease ≢ u)
Foreign k u (fails now id retry_in error lease) = (id ≢ k) ⊎ (lease ≢ u)
Foreign k u (dead_letters now id error lease) = (id ≢ k) ⊎ (lease ≢ u)
Foreign k u (sweeps now) = now < u
Foreign k u (cancels id) = id ≢ k
Foreign k u (pauses id on) = id ≢ k
Foreign k u (resumes id next) = id ≢ k
Foreign k u (replays now id) = id ≢ k

abbrev pub AllForeign : Uuid → Instant → List Op → Type 0
AllForeign k u [] = Unit
AllForeign k u (o ∷ os) = Foreign k u o × AllForeign k u os

pub fenced_pending-stale :
    (rows : Rows) (k lease u : ℕ) (s : StoredSchedule)
    → lookup k rows ≡ some s
    → s.leased_until ≡ some u
    → lease ≢ u
    → fenced_pending rows k lease ≡ none
unfolding fenced_pending
fenced_pending-stale rows k lease u s e l ne = ground arith

pub insert-other :
    (id k : ℕ) (x : StoredSchedule) (rows : Rows)
    → id ≢ k
    → lookup k (insert id x rows) ≡ lookup k rows
insert-other id k x rows ne = ground (arith, lookup-insert id k x rows)

module _ (k u : ℕ) (s : StoredSchedule) (held : s.leased_until ≡ some u) where
  claim_loop-leased :
      (now until batch n : ℕ) (rows : Rows)
      → now < u
      → lookup k rows ≡ some s
      → lookup k (claim_loop now until batch n rows).0 ≡ some s
  unfolding claim_loop is_claimable
  claim_loop-leased now until batch n [] h e = e
  claim_loop-leased now until batch n ((id, t) ∷ rest) h e = ground (
    arith,
    claim_loop-leased now until batch (n + 1) rest h,
    claim_loop-leased now until batch n rest h,
  )

  sweep-leased :
      (now : ℕ) (rows : Rows)
      → now < u
      → lookup k rows ≡ some s
      → lookup k (dead_letter_exhausted now rows).0 ≡ some s
  unfolding dead_letter_exhausted is_sweepable
  sweep-leased now [] h e = e
  sweep-leased now ((id, t) ∷ rest) h e = ground (arith, sweep-leased now rest h)

  module _ (rows : Rows) (e : lookup k rows ≡ some s) where
    fenced-other :
        (id lease : ℕ)
        → id ≢ k
        → (fenced_pending rows id lease ≡ none)
          ⊎ ((t : StoredSchedule) × (fenced_pending rows id lease ≡ some t) × (id ≢ k))
    fenced-other id lease ne = elim (Option-cases (fenced_pending rows id lease)) [
      | inl p ↦ inl p
      | inr (t, p) ↦ inr (t, p, ne)
    ]

    fenced-foreign :
        (id lease : ℕ)
        → (id ≢ k) ⊎ (lease ≢ u)
        → (fenced_pending rows id lease ≡ none)
          ⊎ ((t : StoredSchedule) × (fenced_pending rows id lease ≡ some t) × (id ≢ k))
    fenced-foreign id lease (inl ne) = fenced-other id lease ne
    fenced-foreign id lease (inr ne) = elim (Bool-cases (id == k)) [
      | inl same ↦ inl (
          subst (λ i. fenced_pending rows i lease ≡ none) (sym ((==_iff id k).0 same))
            (fenced_pending-stale rows k lease u s e held ne))
      | inr other ↦ fenced-other id lease (λ p. cc ((==_iff id k).1 p))
    ]

    mark_delivered-leased :
        (id lease : ℕ)
        → (id ≢ k) ⊎ (lease ≢ u)
        → lookup k (after_of rows (mark_delivered id lease rows)) ≡ some s
    unfolding mark_delivered
    mark_delivered-leased id lease f = elim (fenced-foreign id lease f) [
      | inl p ↦ rw (p, mark_delivered) e
      | inr (t, p, ne) ↦ rw (p, mark_delivered) (insert-other id k _ rows ne ∙ e)
    ]

    reschedule-leased :
        (id next lease : ℕ)
        → (id ≢ k) ⊎ (lease ≢ u)
        → lookup k (after_of rows (reschedule id next lease rows)) ≡ some s
    unfolding reschedule
    reschedule-leased id next lease f = elim (fenced-foreign id lease f) [
      | inl p ↦ rw (p, reschedule) e
      | inr (t, p, ne) ↦ rw (p, reschedule) (insert-other id k _ rows ne ∙ e)
    ]

    mark_failed-leased :
        (now id retry_in : ℕ) (error : String) (lease : ℕ)
        → (id ≢ k) ⊎ (lease ≢ u)
        → lookup k (after_of rows (mark_failed now id retry_in error lease rows)) ≡ some s
    unfolding mark_failed
    mark_failed-leased now id retry_in error lease f = elim (fenced-foreign id lease f) [
      | inl p ↦ rw (p, mark_failed) e
      | inr (t, p, ne) ↦ elim (Option-cases (checked_add now retry_in)) [
        | inl o ↦ rw (p, mark_failed) (rw (o, ok_or) e)
        | inr (r, o) ↦ rw (p, mark_failed) (rw (o, ok_or) (insert-other id k _ rows ne ∙ e))
      ]
    ]

    mark_dead_lettered-leased :
        (now id : ℕ) (error : String) (lease : ℕ)
        → (id ≢ k) ⊎ (lease ≢ u)
        → lookup k (after_of rows (mark_dead_lettered now id error lease rows)) ≡ some s
    unfolding mark_dead_lettered
    mark_dead_lettered-leased now id error lease f = elim (fenced-foreign id lease f) [
      | inl p ↦ rw (p, mark_dead_lettered) e
      | inr (t, p, ne) ↦ rw (p, mark_dead_lettered) (insert-other id k _ rows ne ∙ e)
    ]

    claim_due-leased :
        (now batch lease : ℕ)
        → now < u
        → lookup k (after_of rows (claim_due now batch lease rows)) ≡ some s
    unfolding claim_due
    claim_due-leased now batch lease h = elim (Option-cases (checked_add now lease)) [
      | inl o ↦ rw (o, ok_or) e
      | inr (until, o) ↦ rw (o, ok_or) (claim_loop-leased now until batch 0 rows h e)
    ]

    module _ (id : ℕ) (ne : id ≢ k) where
      cancel-leased : lookup k (after rows (cancel id rows)) ≡ some s
      unfolding cancel
      cancel-leased = elim (Option-cases (lookup id rows)) [
        | inl p ↦ rw (p, ok_or) e
        | inr (t, p) ↦ elim (Bool-cases (is_terminal t.status)) [
          | inl b ↦ rw (p, ok_or) (rw b e)
          | inr b ↦ rw (p, ok_or) (rw b (insert-other id k _ rows ne ∙ e))
        ]
      ]

      set_paused-leased : (on : Bool) → lookup k (after rows (set_paused id on rows)) ≡ some s
      unfolding set_paused
      set_paused-leased on = elim (Option-cases (lookup id rows)) [
        | inl p ↦ rw (p, ok_or) e
        | inr (t, p) ↦ rw (p, ok_or) (insert-other id k _ rows ne ∙ e)
      ]

      resume-leased : (next : Option ℕ) → lookup k (after rows (resume id next rows)) ≡ some s
      unfolding resume
      resume-leased next = elim (Option-cases (lookup id rows)) [
        | inl p ↦ rw (p, ok_or) e
        | inr (t, p) ↦ elim (Bool-cases (is_paused t.status)) [
          | inl b ↦ rw (p, ok_or) (rw b (insert-other id k _ rows ne ∙ e))
          | inr b ↦ rw (p, ok_or) (rw b e)
        ]
      ]

      replay-leased : (now : ℕ) → lookup k (after rows (replay now id rows)) ≡ some s
      unfolding replay
      replay-leased now = elim (Option-cases (lookup id rows)) [
        | inl p ↦ rw (p, ok_or) e
        | inr (t, p) ↦ elim (Bool-cases (is_dead_lettered t.status)) [
          | inl b ↦ rw (p, ok_or) (rw b (insert-other id k _ rows ne ∙ e))
          | inr b ↦ rw (p, ok_or) (rw b e)
        ]
      ]

  apply-leased :
      (o : Op) (rows : Rows)
      → Foreign k u o
      → lookup k rows ≡ some s
      → lookup k (apply o rows) ≡ some s
  unfolding apply insert_schedule
  apply-leased (inserts m n) rows f e = insert-other m.schedule_id k _ rows f ∙ e
  apply-leased (claims now batch lease) rows f e = claim_due-leased rows e now batch lease f
  apply-leased (delivers id lease) rows f e = mark_delivered-leased rows e id lease f
  apply-leased (reschedules id next lease) rows f e = reschedule-leased rows e id next lease f
  apply-leased (fails now id d x lease) rows f e = mark_failed-leased rows e now id d x lease f
  apply-leased (dead_letters now id x lease) rows f e =
      mark_dead_lettered-leased rows e now id x lease f
  apply-leased (sweeps now) rows f e = sweep-leased now rows f e
  apply-leased (cancels id) rows f e = cancel-leased rows e id f
  apply-leased (pauses id on) rows f e = set_paused-leased rows e id f on
  apply-leased (resumes id next) rows f e = resume-leased rows e id f next
  apply-leased (replays now id) rows f e = replay-leased rows e id f now

-- A lease isolates its row. As long as the lease of schedule `k` runs, no history of claims, sweeps
-- and acknowledgements changes its row, unless an acknowledgement of `k` carries that very lease;
-- nor do operations on other schedules.
pub run-leased :
    (k u : ℕ) (s : StoredSchedule) (os : List Op) (rows : Rows)
    → lookup k rows ≡ some s
    → s.leased_until ≡ some u
    → AllForeign k u os
    → lookup k (run os rows) ≡ some s
unfolding run
run-leased k u s [] rows e h f = e
run-leased k u s (o ∷ os) rows e h f =
    run-leased k u s os (apply o rows) (apply-leased k u s h o rows f.0 e) h f.1
