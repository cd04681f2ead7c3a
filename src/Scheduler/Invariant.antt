-- ===== src/Scheduler/Invariant.antt =====
-- The rows of the in-memory store after any history of operations.
use Prim.Native.String.{String}
use hexeract.Common.{
  ℕ, ◌≤◌, ◌<◌, ◌≡◌, refl, ◌⊎◌, inl, inr, Option, some, none, Bool, true, false, List, [], ◌∷◌,
  arith, Bool-cases, Option-cases,
}
use hexeract.Common.Map.{
  lookup, insert, Distinct, Entries, insert-Distinct, insert-Entries, lookup-Entries,
}
use hexeract.Common.Result.{ok, err, ok_or}
use hexeract.Clock.{Instant, Duration, checked_add, u32_mod}
use hexeract.Scheduler.Types.{
  Uuid, ScheduledMessage, StoredSchedule, Fallible, pending, is_terminal, is_dead_lettered,
  is_paused,
}
use hexeract.Scheduler.Store.{
  Rows, fenced_pending, insert_schedule, claim_due, mark_delivered, reschedule, mark_failed,
  mark_dead_lettered, claim_row, is_claimable,
}
use hexeract.Scheduler.Lifecycle.{
  dead_letter_exhausted, is_sweepable, sweep_row, cancel, set_paused, resume, resume_row, replay,
}
use hexeract.Scheduler.Claims.{Keyed, claim_loop-Entries, claim_loop-Distinct}

abbrev pub is_some {ℓ} : {A : Type ℓ} → Option A → Bool
is_some none = false
is_some (some a) = true

pub record IsSound (k : Uuid) (s : StoredSchedule) : Type 0 where
  pub keyed : s.message.schedule_id ≡ k
  pub budget : s.attempts ≤ s.max_attempts
  pub width : s.max_attempts < u32_mod
  pub released : is_terminal s.status ≡ true → s.leased_until ≡ none
  pub dead : is_some s.dead_lettered_at ≡ is_dead_lettered s.status

pub record Inv (rows : Rows) : Type 0 where
  pub distinct : Distinct rows
  pub sound : Entries IsSound rows

-- A call of the store. Times are the readings of the system clock that the call makes.
pub data Op : Type 0 where
  inserts : ScheduledMessage → ℕ → Op
  claims : Instant → ℕ → Duration → Op
  delivers : Uuid → Instant → Op
  reschedules : Uuid → Instant → Instant → Op
  fails : Instant → Uuid → Duration → String → Instant → Op
  dead_letters : Instant → Uuid → String → Instant → Op
  sweeps : Instant → Op
  cancels : Uuid → Op
  pauses : Uuid → Bool → Op
  resumes : Uuid → Option Instant → Op
  replays : Instant → Uuid → Op

-- A call that fails leaves the rows as they were.
abbrev pub after : Rows → Fallible Rows → Rows
after rows (ok rows') = rows'
after rows (err e) = rows

abbrev pub after_of : {A : Type 0} → Rows → Fallible (Rows × A) → Rows
after_of rows (ok (rows', a)) = rows'
after_of rows (err e) = rows

unfoldable pub apply : Op → Rows → Rows
apply (inserts message max_attempts) rows = insert_schedule rows message max_attempts
apply (claims now batch lease) rows = after_of rows (claim_due now batch lease rows)
apply (delivers id lease) rows = after_of rows (mark_delivered id lease rows)
apply (reschedules id next lease) rows = after_of rows (reschedule id next lease rows)
apply (fails now id retry_in error lease) rows =
    after_of rows (mark_failed now id retry_in error lease rows)
apply (dead_letters now id error lease) rows =
    after_of rows (mark_dead_lettered now id error lease rows)
apply (sweeps now) rows = (dead_letter_exhausted now rows).0
apply (cancels id) rows = after rows (cancel id rows)
apply (pauses id on) rows = after rows (set_paused id on rows)
apply (resumes id next) rows = after rows (resume id next rows)
apply (replays now id) rows = after rows (replay now id rows)

unfoldable pub run : List Op → Rows → Rows
run [] rows = rows
run (o ∷ os) rows = run os (apply o rows)

-- The attempt budget is a `u32`.
abbrev pub Fits : Op → Type 0
Fits (inserts message max_attempts) = max_attempts < u32_mod
Fits _ = Unit

abbrev pub AllFit : List Op → Type 0
AllFit [] = Unit
AllFit (o ∷ os) = Fits o × AllFit os

pub Inv-Keyed : (rows : Rows) → Entries IsSound rows → Keyed rows
Inv-Keyed [] h = tt
Inv-Keyed ((k, s) ∷ rows) h = (h.0.keyed, Inv-Keyed rows h.1)

insert-Inv :
    (k : Uuid) (s : StoredSchedule) (rows : Rows) → IsSound k s → Inv rows → Inv (insert k s rows)
insert-Inv k s rows p v = record {
  distinct = insert-Distinct k s rows v.distinct;
  sound = insert-Entries IsSound k s rows p v.sound;
}

-- What a fenced row is.
pub fenced_pending-some :
    (rows : Rows) (id lease : ℕ) (s : StoredSchedule)
    → fenced_pending rows id lease ≡ some s
    → (lookup id rows ≡ some s) × (s.status ≡ pending) × (s.leased_until ≡ some lease)
unfolding fenced_pending
fenced_pending-some rows id lease s e = ground arith

module _ (rows : Rows) (v : Inv rows) where
  pub IsSound-at : (k : Uuid) (s : StoredSchedule) → lookup k rows ≡ some s → IsSound k s
  IsSound-at k s e = lookup-Entries IsSound k s rows v.sound e

  -- An acknowledgement keeps the invariant if what it writes in the fenced row is sound.
  fenced-cases :
      (id lease : ℕ)
      → (fenced_pending rows id lease ≡ none)
        ⊎ ((s : StoredSchedule) × (fenced_pending rows id lease ≡ some s)
            × (s.status ≡ pending)
            × IsSound id s)
  fenced-cases id lease = elim (Option-cases (fenced_pending rows id lease)) [
    | inl e ↦ inl e
    | inr (s, e) ↦
        let (found, is_pend, held) = fenced_pending-some rows id lease s e in
        inr (s, e, is_pend, IsSound-at id s found)
  ]

  mark_delivered-Inv : (id lease : ℕ) → Inv (after_of rows (mark_delivered id lease rows))
  unfolding mark_delivered
  mark_delivered-Inv id lease = elim (fenced-cases id lease) [
    | inl e ↦ rw (e, mark_delivered) v
    | inr (s, e, p, h) ↦ rw (e, mark_delivered) (insert-Inv id _ rows (ground arith) v)
  ]

  reschedule-Inv : (id next lease : ℕ) → Inv (after_of rows (reschedule id next lease rows))
  unfolding reschedule
  reschedule-Inv id next lease = elim (fenced-cases id lease) [
    | inl e ↦ rw (e, reschedule) v
    | inr (s, e, p, h) ↦ rw (e, reschedule) (insert-Inv id _ rows (ground arith) v)
  ]

  mark_failed-Inv :
      (now id retry_in : ℕ) (error : String) (lease : ℕ)
      → Inv (after_of rows (mark_failed now id retry_in error lease rows))
  unfolding mark_failed
  mark_failed-Inv now id retry_in error lease = elim (fenced-cases id lease) [
    | inl e ↦ rw (e, mark_failed) v
    | inr (s, e, p, h) ↦ elim (Option-cases (checked_add now retry_in)) [
      | inl o ↦ rw (e, mark_failed) (rw (o, ok_or) v)
      | inr (t, o) ↦ rw (e, mark_failed) (rw (o, ok_or) (insert-Inv id _ rows (ground arith) v))
    ]
  ]

  mark_dead_lettered-Inv :
      (now id : ℕ) (error : String) (lease : ℕ)
      → Inv (after_of rows (mark_dead_lettered now id error lease rows))
  unfolding mark_dead_lettered
  mark_dead_lettered-Inv now id error lease = elim (fenced-cases id lease) [
    | inl e ↦ rw (e, mark_dead_lettered) v
    | inr (s, e, p, h) ↦ rw (e, mark_dead_lettered) (insert-Inv id _ rows (ground arith) v)
  ]

  found-cases :
      (id : ℕ)
      → (lookup id rows ≡ none) ⊎ ((s : StoredSchedule) × (lookup id rows ≡ some s) × IsSound id s)
  found-cases id = elim (Option-cases (lookup id rows)) [
    | inl e ↦ inl e
    | inr (s, e) ↦ inr (s, e, IsSound-at id s e)
  ]

  cancel-Inv : (id : ℕ) → Inv (after rows (cancel id rows))
  unfolding cancel
  cancel-Inv id = elim (found-cases id) [
    | inl e ↦ rw (e, ok_or) v
    | inr (s, e, h) ↦ elim (Bool-cases (is_terminal s.status)) [
      | inl t ↦ rw (e, ok_or) (rw t v)
      | inr t ↦ rw (e, ok_or) (rw t (insert-Inv id _ rows (ground arith) v))
    ]
  ]

  set_paused-Inv : (id : ℕ) (on : Bool) → Inv (after rows (set_paused id on rows))
  unfolding set_paused
  set_paused-Inv id on = elim (found-cases id) [
    | inl e ↦ rw (e, ok_or) v
    | inr (s, e, h) ↦ rw (e, ok_or) (insert-Inv id _ rows (ground arith) v)
  ]

  resume-Inv : (id : ℕ) (next : Option ℕ) → Inv (after rows (resume id next rows))
  unfolding resume resume_row
  resume-Inv id next = elim (found-cases id) [
    | inl e ↦ rw (e, ok_or) v
    | inr (s, e, h) ↦ elim (Bool-cases (is_paused s.status)) [
      | inl t ↦ rw (e, ok_or) (rw t (insert-Inv id _ rows (ground arith) v))
      | inr t ↦ rw (e, ok_or) (rw t v)
    ]
  ]

  replay-Inv : (now id : ℕ) → Inv (after rows (replay now id rows))
  unfolding replay
  replay-Inv now id = elim (found-cases id) [
    | inl e ↦ rw (e, ok_or) v
    | inr (s, e, h) ↦ elim (Bool-cases (is_dead_lettered s.status)) [
      | inl t ↦ rw (e, ok_or) (rw t (insert-Inv id _ rows (ground arith) v))
      | inr t ↦ rw (e, ok_or) (rw t v)
    ]
  ]

claim_row-IsSound :
    (now until k : ℕ) (s : StoredSchedule)
    → is_claimable now s ≡ true
    → IsSound k s
    → IsSound k (claim_row until s)
unfolding is_claimable claim_row
claim_row-IsSound now until k s c h = ground arith

pub claim_due-Inv :
    (now batch lease : ℕ) (rows : Rows)
    → Inv rows
    → Inv (after_of rows (claim_due now batch lease rows))
unfolding claim_due
claim_due-Inv now batch lease rows v = elim (Option-cases (checked_add now lease)) [
  | inl e ↦ rw (e, ok_or) v
  | inr (until, e) ↦
      rw (e, ok_or)
        (record {
          distinct = claim_loop-Distinct now until batch 0 rows v.distinct;
          sound =
              claim_loop-Entries now until batch IsSound (claim_row-IsSound now until) 0 rows
                v.sound;
        })
]

sweep-absent :
    (now k : ℕ) (rows : Rows)
    → lookup k rows ≡ none
    → lookup k (dead_letter_exhausted now rows).0 ≡ none
unfolding dead_letter_exhausted
sweep-absent now k [] h = refl
sweep-absent now k ((id, s) ∷ rest) h = ground (arith, sweep-absent now k rest)

sweep-Distinct :
    (now : ℕ) (rows : Rows) → Distinct rows → Distinct (dead_letter_exhausted now rows).0
unfolding dead_letter_exhausted
sweep-Distinct now [] d = tt
sweep-Distinct now ((id, s) ∷ rest) d =
    ground (arith, sweep-Distinct now rest d.1, sweep-absent now id rest)

sweep_row-IsSound : (now k : ℕ) (s : StoredSchedule) → IsSound k s → IsSound k (sweep_row now s)
unfolding sweep_row
sweep_row-IsSound now k s h = ground arith

sweep-IsSound :
    (now : ℕ) (rows : Rows)
    → Entries IsSound rows
    → Entries IsSound (dead_letter_exhausted now rows).0
unfolding dead_letter_exhausted
sweep-IsSound now [] h = tt
sweep-IsSound now ((id, s) ∷ rest) h = elim (Bool-cases (is_sweepable now s)) [
  | inl t ↦ rw t (sweep_row-IsSound now id s h.0, sweep-IsSound now rest h.1)
  | inr t ↦ rw t (h.0, sweep-IsSound now rest h.1)
]

insert_schedule-Inv :
    (rows : Rows) (m : ScheduledMessage) (max_attempts : ℕ)
    → max_attempts < u32_mod
    → Inv rows
    → Inv (insert_schedule rows m max_attempts)
unfolding insert_schedule
insert_schedule-Inv rows m max_attempts w v = insert-Inv m.schedule_id _ rows (ground arith) v

-- Every call of the store keeps the rows sound.
pub apply-Inv : (o : Op) (rows : Rows) → Fits o → Inv rows → Inv (apply o rows)
unfolding apply
apply-Inv (inserts m n) rows f v = insert_schedule-Inv rows m n f v
apply-Inv (claims now batch lease) rows f v = claim_due-Inv now batch lease rows v
apply-Inv (delivers id lease) rows f v = mark_delivered-Inv rows v id lease
apply-Inv (reschedules id next lease) rows f v = reschedule-Inv rows v id next lease
apply-Inv (fails now id d e lease) rows f v = mark_failed-Inv rows v now id d e lease
apply-Inv (dead_letters now id e lease) rows f v = mark_dead_lettered-Inv rows v now id e lease
apply-Inv (sweeps now) rows f v = record {
  distinct = sweep-Distinct now rows v.distinct;
  sound = sweep-IsSound now rows v.sound;
}
apply-Inv (cancels id) rows f v = cancel-Inv rows v id
apply-Inv (pauses id on) rows f v = set_paused-Inv rows v id on
apply-Inv (resumes id next) rows f v = resume-Inv rows v id next
apply-Inv (replays now id) rows f v = replay-Inv rows v now id

pub run-Inv : (os : List Op) (rows : Rows) → AllFit os → Inv rows → Inv (run os rows)
unfolding run
run-Inv [] rows f v = v
run-Inv (o ∷ os) rows f v = run-Inv os (apply o rows) f.1 (apply-Inv o rows f.0 v)

-- After any history of calls from the empty store, every row stands under the identifier of its
-- message and only once, has used no more attempts than its budget, which fits a `u32`, holds no
-- lease once its status is terminal, and has a dead-letter instant exactly while it is dead-lettered.
pub run_empty-Inv : (os : List Op) → AllFit os → Inv (run os [])
run_empty-Inv os f = run-Inv os [] f (record { distinct = tt; sound = tt })
