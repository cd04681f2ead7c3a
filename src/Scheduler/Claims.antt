-- ===== src/Scheduler/Claims.antt =====
-- What `claim_due` of the in-memory store does to the rows, and what it returns.
use hexeract.Common.{
  ℕ, ◌+◌, ◌-◌, Unique, ◌≤◌, ◌<◌, ◌≡◌, refl, inl, inr, Option, some, none, Bool, true, false, List,
  [], ◌∷◌, length, leb, ◌==◌, if◌then◌else◌, arith, has, Bool-cases,
}
use hexeract.Common.Map.{lookup, Distinct, Entries}
use hexeract.Clock.{Instant}
use hexeract.Scheduler.Types.{Uuid, StoredSchedule, LeasedOccurrence}
use hexeract.Scheduler.Store.{Rows, is_claimable, claim_row, occurrence_of, claim_loop}

abbrev pub ids : List LeasedOccurrence → List Uuid
ids [] = []
ids (o ∷ os) = o.message.schedule_id ∷ ids os

-- The first occurrence of a schedule in the list.
abbrev pub occurrence_for : Uuid → List LeasedOccurrence → Option LeasedOccurrence
occurrence_for k [] = none
occurrence_for k (o ∷ os) = if o.message.schedule_id == k then some o else occurrence_for k os

-- Each row stands under the identifier of its message.
abbrev pub Keyed : Rows → Type 0
Keyed = Entries (λ k s. s.message.schedule_id ≡ k)

abbrev pub claim_some : Instant → Option StoredSchedule → Option StoredSchedule
claim_some until none = none
claim_some until (some s) = some (claim_row until s)

abbrev pub is_claimable_at : Instant → Option StoredSchedule → Bool
is_claimable_at now none = false
is_claimable_at now (some s) = is_claimable now s

module _ (now until batch k : ℕ) where
  claim_loop-absent :
      (n : ℕ) (rows : Rows)
      → Keyed rows
      → lookup k rows ≡ none
      → has k (ids (claim_loop now until batch n rows).1) ≡ false
  unfolding claim_loop occurrence_of claim_row
  claim_loop-absent n [] w h = refl
  claim_loop-absent n ((id, s) ∷ rest) w h =
      ground (arith, claim_loop-absent (n + 1) rest w.1, claim_loop-absent n rest w.1)

  -- A row that is claimed was claimable.
  pub claim_loop_sound :
      (n : ℕ) (rows : Rows)
      → Keyed rows
      → Distinct rows
      → has k (ids (claim_loop now until batch n rows).1) ≡ true
      → is_claimable_at now (lookup k rows) ≡ true
  unfolding claim_loop occurrence_of claim_row
  claim_loop_sound n [] w d h = cc
  claim_loop_sound n ((id, s) ∷ rest) w d h = ground (
    arith,
    claim_loop_sound (n + 1) rest w.1 d.1,
    claim_loop_sound n rest w.1 d.1,
    claim_loop-absent (n + 1) rest w.1,
    claim_loop-absent n rest w.1,
  )

  -- A claimed row has one attempt more and the new lease; the other rows are untouched.
  pub claim_loop-lookup :
      (n : ℕ) (rows : Rows)
      → Keyed rows
      → Distinct rows
      → lookup k (claim_loop now until batch n rows).0 ≡ (
          if has k (ids (claim_loop now until batch n rows).1)
          then claim_some until (lookup k rows)
          else lookup k rows)
  unfolding claim_loop occurrence_of claim_row
  claim_loop-lookup n [] w d = refl
  claim_loop-lookup n ((id, s) ∷ rest) w d = ground (
    arith,
    claim_loop-lookup (n + 1) rest w.1 d.1,
    claim_loop-lookup n rest w.1 d.1,
    claim_loop-absent (n + 1) rest w.1,
    claim_loop-absent n rest w.1,
  )

-- The occurrence that is returned of a row says what the row now holds.
abbrev pub occurrence_at : Instant → Option StoredSchedule → Option LeasedOccurrence
occurrence_at until none = none
occurrence_at until (some s) = some (occurrence_of until s)

module _ (now until batch : ℕ) where
  pub claim_loop-length :
      (n : ℕ) (rows : Rows) → length (claim_loop now until batch n rows).1 ≤ batch - n
  unfolding claim_loop
  claim_loop-length n [] = omega arith
  claim_loop-length n ((id, s) ∷ rest) =
      ground (arith, claim_loop-length (n + 1) rest, claim_loop-length n rest)

  -- A loop that stops short of the batch size has claimed all that is claimable.
  pub claim_loop_complete :
      (k n : ℕ) (rows : Rows)
      → Keyed rows
      → n + length (claim_loop now until batch n rows).1 < batch
      → is_claimable_at now (lookup k rows) ≡ true
      → has k (ids (claim_loop now until batch n rows).1) ≡ true
  unfolding claim_loop occurrence_of claim_row
  claim_loop_complete k n [] w h c = cc
  claim_loop_complete k n ((id, s) ∷ rest) w h c =
      ground (arith, claim_loop_complete k (n + 1) rest w.1, claim_loop_complete k n rest w.1)

  pub claim_loop-absent_row :
      (k n : ℕ) (rows : Rows)
      → lookup k rows ≡ none
      → lookup k (claim_loop now until batch n rows).0 ≡ none
  unfolding claim_loop
  claim_loop-absent_row k n [] h = refl
  claim_loop-absent_row k n ((id, s) ∷ rest) h =
      ground (arith, claim_loop-absent_row k (n + 1) rest, claim_loop-absent_row k n rest)

  pub claim_loop-Distinct :
      (n : ℕ) (rows : Rows) → Distinct rows → Distinct (claim_loop now until batch n rows).0
  unfolding claim_loop
  claim_loop-Distinct n [] d = tt
  claim_loop-Distinct n ((id, s) ∷ rest) d = ground (
    arith,
    claim_loop-Distinct (n + 1) rest d.1,
    claim_loop-Distinct n rest d.1,
    claim_loop-absent_row id (n + 1) rest,
    claim_loop-absent_row id n rest,
  )

  -- What holds of every row, and survives a claim, holds of every row after the loop.
  pub claim_loop-Entries {κ} :
      (P : Uuid → StoredSchedule → Type κ)
      → ((k : Uuid) (s : StoredSchedule)
          → is_claimable now s ≡ true
          → P k s
          → P k (claim_row until s))
      → (n : ℕ) (rows : Rows) → Entries P rows
      → Entries P (claim_loop now until batch n rows).0
  unfolding claim_loop
  claim_loop-Entries P keep n [] h = tt
  claim_loop-Entries P keep n ((id, s) ∷ rest) h = elim (Bool-cases (leb batch n)) [
    | inl full ↦ rw (full, claim_loop) h
    | inr room ↦ elim (Bool-cases (is_claimable now s)) [
      | inl c ↦
          rw (room, c, claim_loop) (keep id s c h.0, claim_loop-Entries P keep (n + 1) rest h.1)
      | inr c ↦ rw (room, c, claim_loop) (h.0, claim_loop-Entries P keep n rest h.1)
    ]
  ]

  -- The list that is returned names no schedule twice, and what it says of a schedule is what the
  -- updated row says.
  pub claim_loop-Unique :
      (n : ℕ) (rows : Rows)
      → Keyed rows
      → Distinct rows
      → Unique (ids (claim_loop now until batch n rows).1)
  unfolding claim_loop occurrence_of claim_row
  claim_loop-Unique n [] w d = tt
  claim_loop-Unique n ((id, s) ∷ rest) w d = ground (
    arith,
    claim_loop-Unique (n + 1) rest w.1 d.1,
    claim_loop-Unique n rest w.1 d.1,
    claim_loop-absent now until batch id (n + 1) rest w.1,
  )

  pub claim_loop-mirror :
      (k n : ℕ) (rows : Rows)
      → Keyed rows
      → Distinct rows
      → occurrence_for k (claim_loop now until batch n rows).1 ≡ (
          if has k (ids (claim_loop now until batch n rows).1)
          then occurrence_at until (lookup k (claim_loop now until batch n rows).0)
          else none)
  unfolding claim_loop occurrence_of claim_row
  claim_loop-mirror k n [] w d = refl
  claim_loop-mirror k n ((id, s) ∷ rest) w d = ground (
    arith,
    claim_loop-mirror k (n + 1) rest w.1 d.1,
    claim_loop-mirror k n rest w.1 d.1,
    claim_loop-absent now until batch k (n + 1) rest w.1,
    claim_loop-absent now until batch k n rest w.1,
  )
