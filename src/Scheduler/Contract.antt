-- ===== src/Scheduler/Contract.antt =====
-- The claim contract of `ScheduleStore` (crates/hexeract-scheduler/src/store.rs), stated without the
-- tests of the code.
use hexeract.Common.{
  subst, ℕ, ◌+◌, ◌≤◌, ◌<◌, ◌≡◌, ◌↔◌, refl, inl, inr, Option, some, none, true, false, List, leb→le,
  le→leb, arith, Option-cases, has, Unique, length,
}
use hexeract.Common.Map.{lookup, lookup-Entries}
use hexeract.Common.Result.{ok, ok_or}
use hexeract.Clock.{Instant, checked_add, checked_add-eq}
use hexeract.Scheduler.Types.{Uuid, StoredSchedule, LeasedOccurrence, pending}
use hexeract.Scheduler.Store.{
  Rows, Claims, is_lease_free, is_claimable, claim_row, claim_loop, claim_due, occurrence_of,
}
use hexeract.Scheduler.Claims.{
  ids, occurrence_for, claim_loop_sound, claim_loop-lookup, claim_loop-length, claim_loop_complete,
  claim_loop-Unique, claim_loop-mirror,
}
use hexeract.Scheduler.Invariant.{Inv, Inv-Keyed, IsSound}

-- A lease is free when there is none, or it has ended.
abbrev pub IsFree : Instant → Option Instant → Type 0
IsFree now none = Unit
IsFree now (some until) = until ≤ now

pub record IsClaimable (now : Instant) (s : StoredSchedule) : Type 0 where
  pub waits : s.status ≡ pending
  pub due : s.message.scheduled_for ≤ now
  pub free : IsFree now s.leased_until
  pub has_budget : s.attempts < s.max_attempts

pub is_lease_free_iff : (now : ℕ) (o : Option Instant) → (is_lease_free now o ≡ true) ↔ IsFree now o
is_lease_free_iff now none = (λ h. tt, λ h. refl)
is_lease_free_iff now (some until) = (λ h. leb→le until now h, λ h. le→leb until now h)

is_claimable-IsClaimable :
    (now : ℕ) (s : StoredSchedule) → is_claimable now s ≡ true → IsClaimable now s
unfolding is_claimable
is_claimable-IsClaimable now s h = record {
  waits = ground arith;
  due = ground arith;
  free = (is_lease_free_iff now s.leased_until).0 (ground arith);
  has_budget = ground arith;
}

IsClaimable-is_claimable :
    (now : ℕ) (s : StoredSchedule) → IsClaimable now s → is_claimable now s ≡ true
unfolding is_claimable
IsClaimable-is_claimable now s c = ground (arith, (is_lease_free_iff now s.leased_until).1 c.free)

-- The contract of one claim: from `rows` to `rows'`, returning `claimed`.
pub record ClaimSpec (now until batch : ℕ) (rows rows' : Rows) (claimed : List LeasedOccurrence)
    : Type 0 where
  pub bounded : length claimed ≤ batch
  pub unique : Unique (ids claimed)
  -- Only what was claimable is claimed, with one attempt more and the new lease,
  pub taken :
      (k : Uuid)
      → has k (ids claimed) ≡ true
      → (s : StoredSchedule) × (lookup k rows ≡ some s)
        × IsClaimable now s
        × (lookup k rows'
            ≡ some (record s { attempts = s.attempts + 1; leased_until = some until }))
        × (occurrence_for k claimed
            ≡ some (record {
              message = s.message;
              attempts = s.attempts + 1;
              max_attempts = s.max_attempts;
              leased_until = until;
            }))
  -- everything else is left as it was,
  pub kept : (k : Uuid) → has k (ids claimed) ≡ false → lookup k rows' ≡ lookup k rows
  -- and a batch that is not full leaves nothing claimable behind.
  pub drained :
      length claimed < batch
      → (k : Uuid) (s : StoredSchedule) → lookup k rows ≡ some s
      → IsClaimable now s
      → has k (ids claimed) ≡ true

module _ (now until batch : ℕ) (rows : Rows) (v : Inv rows) where
  claim_loop-taken :
      (k : Uuid)
      → has k (ids (claim_loop now until batch 0 rows).1) ≡ true
      → (s : StoredSchedule) × (lookup k rows ≡ some s)
        × IsClaimable now s
        × (lookup k (claim_loop now until batch 0 rows).0
            ≡ some (record s { attempts = s.attempts + 1; leased_until = some until }))
        × (occurrence_for k (claim_loop now until batch 0 rows).1
            ≡ some (record {
              message = s.message;
              attempts = s.attempts + 1;
              max_attempts = s.max_attempts;
              leased_until = until;
            }))
  unfolding claim_row occurrence_of
  claim_loop-taken k h = elim (Option-cases (lookup k rows)) [
    | inl e ↦ absurd (
        let u = claim_loop_sound now until batch k 0 rows (Inv-Keyed rows v.sound) v.distinct h in
        ground (arith, u))
    | inr (s, e) ↦
        let u = claim_loop_sound now until batch k 0 rows (Inv-Keyed rows v.sound) v.distinct h in
        let c : is_claimable now s ≡ true = ground (arith, u) in
        let i = is_claimable-IsClaimable now s c in
        let p = lookup-Entries IsSound k s rows v.sound e in
        let l = claim_loop-lookup now until batch k 0 rows (Inv-Keyed rows v.sound) v.distinct in
        let m = claim_loop-mirror now until batch k 0 rows (Inv-Keyed rows v.sound) v.distinct in
        (s, e, i, ground (arith, l), ground (arith, l, m))
  ]

  pub claim_loop-ClaimSpec :
      ClaimSpec now until batch rows
        (claim_loop now until batch 0 rows).0
        (claim_loop now until batch 0 rows).1
  claim_loop-ClaimSpec = record {
    bounded = omega (arith, claim_loop-length now until batch 0 rows);
    unique = claim_loop-Unique now until batch 0 rows (Inv-Keyed rows v.sound) v.distinct;
    taken = claim_loop-taken;
    kept = λ k h.
        ground
          (arith, claim_loop-lookup now until batch k 0 rows (Inv-Keyed rows v.sound) v.distinct);
    drained = λ room k s e c.
        claim_loop_complete now until batch k 0 rows (Inv-Keyed rows v.sound) (omega arith)
          (rw e (IsClaimable-is_claimable now s c));
  }

-- A claim that succeeds is a run of the loop, with the lease that ends at `now + lease`.
claim_due-loop :
    (now batch lease : ℕ) (rows : Rows) (c : Claims)
    → claim_due now batch lease rows ≡ ok c
    → claim_loop now (now + lease) batch 0 rows ≡ c
unfolding claim_due
claim_due-loop now batch lease rows c e = elim (Option-cases (checked_add now lease)) [
  | inl o ↦ cc (rw (o, ok_or) at e)
  | inr (until, o) ↦ rw (← checked_add-eq now lease o) (ground arith)
]

-- `claim_due` of the in-memory store meets the claim contract, on sound rows: up to `batch` rows
-- are claimed, each once; a claimed row was pending, due, free of a running lease and within its
-- attempt budget, and gets one attempt more and a lease up to `now + lease`; the occurrence that is
-- returned is that row; all other rows stay as they were; and if fewer than `batch` rows are
-- claimed, then every claimable row was.
pub claim_due-ClaimSpec :
    (now batch lease : ℕ) (rows rows' : Rows) (claimed : List LeasedOccurrence)
    → Inv rows
    → claim_due now batch lease rows ≡ ok (rows', claimed)
    → ClaimSpec now (now + lease) batch rows rows' claimed
claim_due-ClaimSpec now batch lease rows rows' claimed v e =
    subst (λ c. ClaimSpec now (now + lease) batch rows c.0 c.1)
      (claim_due-loop now batch lease rows (rows', claimed) e)
      (claim_loop-ClaimSpec now (now + lease) batch rows v)
