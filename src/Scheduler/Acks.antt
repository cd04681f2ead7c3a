-- ===== src/Scheduler/Acks.antt =====
-- The acknowledgements of a claim: in time, and too late.
use Prim.Native.String.{String}
use hexeract.Common.{
  subst, ℕ, ◌+◌, ◌≤◌, ◌<◌, ◌≡◌, refl, inl, inr, some, none, true, false, List, arith, Bool-cases,
  has,
}
use hexeract.Common.Map.{lookup, insert}
use hexeract.Common.Result.{ok, ok_or}
use hexeract.Clock.{Instant, checked_add_fits, last_instant}
use hexeract.Scheduler.Types.{
  Uuid, StoredSchedule, LeasedOccurrence, Fallible, pending, delivered, dead_lettered,
}
use hexeract.Scheduler.Store.{
  Rows, Acked, claim_due, fenced_pending, mark_delivered, reschedule, mark_failed,
  mark_dead_lettered,
}
use hexeract.Scheduler.Claims.{ids}
use hexeract.Scheduler.Contract.{IsFree, claim_due-ClaimSpec}
use hexeract.Scheduler.Invariant.{Inv, Op, AllFit, run, run-Inv, claim_due-Inv, after_of}
use hexeract.Scheduler.Fencing.{AllForeign, run-leased, fenced_pending-stale}

pub fenced_pending-held :
    (rows : Rows) (k lease : ℕ) (s : StoredSchedule)
    → lookup k rows ≡ some s
    → s.status ≡ pending
    → s.leased_until ≡ some lease
    → fenced_pending rows k lease ≡ some s
unfolding fenced_pending
fenced_pending-held rows k lease s e p h = ground arith

-- What the four acknowledgements write in a row.
abbrev pub delivered_row : StoredSchedule → StoredSchedule
delivered_row s = record s { status = delivered; leased_until = none }

abbrev pub next_row : Instant → StoredSchedule → StoredSchedule
next_row next s = record s {
  message = record (s.message) { scheduled_for = next };
  attempts = 0;
  leased_until = none;
  last_error = none;
}

abbrev pub failed_row : Instant → String → StoredSchedule → StoredSchedule
failed_row retry_at error s = record s { leased_until = some retry_at; last_error = some error }

abbrev pub dead_row : Instant → String → StoredSchedule → StoredSchedule
dead_row now error s = record s {
  status = dead_lettered;
  leased_until = none;
  last_error = some error;
  dead_lettered_at = some now;
}

-- An acknowledgement by the holder of the lease is applied.
module _ (rows : Rows) (k lease : ℕ) (s : StoredSchedule) (e : lookup k rows ≡ some s)
    (p : s.status ≡ pending) (h : s.leased_until ≡ some lease) where
  pub mark_delivered-held : mark_delivered k lease rows ≡ ok (insert k (delivered_row s) rows, true)
  unfolding mark_delivered
  mark_delivered-held = rw (fenced_pending-held rows k lease s e p h, mark_delivered)

  pub reschedule-held :
      (next : ℕ) → reschedule k next lease rows ≡ ok (insert k (next_row next s) rows, true)
  unfolding reschedule
  reschedule-held next = rw (fenced_pending-held rows k lease s e p h, reschedule)

  pub mark_failed-held :
      (now retry_in : ℕ) (error : String)
      → now + retry_in ≤ last_instant
      → mark_failed now k retry_in error lease rows
        ≡ ok (insert k (failed_row (now + retry_in) error s) rows, true)
  unfolding mark_failed
  mark_failed-held now retry_in error fits =
      rw (fenced_pending-held rows k lease s e p h, mark_failed)
        (rw (checked_add_fits now retry_in fits, ok_or))

  pub mark_dead_lettered-held :
      (now : ℕ) (error : String)
      → mark_dead_lettered now k error lease rows ≡ ok (insert k (dead_row now error s) rows, true)
  unfolding mark_dead_lettered
  mark_dead_lettered-held now error =
      rw (fenced_pending-held rows k lease s e p h, mark_dead_lettered)

-- An acknowledgement that the fence refuses changes nothing and says so.
abbrev pub Refused : Fallible Acked → Rows → Type 0
Refused r rows = r ≡ ok (rows, false)

module _ (rows : Rows) (k lease : ℕ) (h : fenced_pending rows k lease ≡ none) where
  pub mark_delivered-Refused : Refused (mark_delivered k lease rows) rows
  unfolding mark_delivered
  mark_delivered-Refused = rw (h, mark_delivered)

  pub reschedule-Refused : (next : ℕ) → Refused (reschedule k next lease rows) rows
  unfolding reschedule
  reschedule-Refused next = rw (h, reschedule)

  pub mark_failed-Refused :
      (now retry_in : ℕ) (error : String)
      → Refused (mark_failed now k retry_in error lease rows) rows
  unfolding mark_failed
  mark_failed-Refused now retry_in error = rw (h, mark_failed)

  pub mark_dead_lettered-Refused :
      (now : ℕ) (error : String) → Refused (mark_dead_lettered now k error lease rows) rows
  unfolding mark_dead_lettered
  mark_dead_lettered-Refused now error = rw (h, mark_dead_lettered)

pub claimed-Inv :
    (now batch lease : ℕ) (rows rows' : Rows) (out : List LeasedOccurrence)
    → Inv rows
    → claim_due now batch lease rows ≡ ok (rows', out)
    → Inv rows'
claimed-Inv now batch lease rows rows' out v e =
    subst (λ r. Inv (after_of rows r)) e (claim_due-Inv now batch lease rows v)

-- Two workers never hold one occurrence. After a claim of schedule `k` at `now`, whatever others
-- call that is foreign to its lease, no claim before `now + lease` returns `k`.
pub claim-exclusive :
    (now batch lease now' batch' lease' : ℕ) (rows rows₁ rows₂ : Rows)
    (out out' : List LeasedOccurrence) (os : List Op) (k : Uuid)
    → Inv rows
    → claim_due now batch lease rows ≡ ok (rows₁, out)
    → has k (ids out) ≡ true
    → AllFit os
    → AllForeign k (now + lease) os
    → now' < now + lease
    → claim_due now' batch' lease' (run os rows₁) ≡ ok (rows₂, out')
    → has k (ids out') ≡ false
claim-exclusive now batch lease now' batch' lease' rows rows₁ rows₂ out out' os k v e h fit f lt
      e' =
    elim (Bool-cases (has k (ids out'))) [
      | inl again ↦
          let (s, _, _, at, _) =
            (claim_due-ClaimSpec now batch lease rows rows₁ out v e).taken k h in
          let v' = run-Inv os rows₁ fit (claimed-Inv now batch lease rows rows₁ out v e) in
          let (t, at', c, _, _) =
            (claim_due-ClaimSpec now' batch' lease' (run os rows₁) rows₂ out' v' e').taken k
              again in
          let still = run-leased k (now + lease) _ os rows₁ at refl f in
          let same : t.leased_until ≡ some (now + lease) = cc in
          let over = subst (IsFree now') same c.free in absurd (omega arith)
      | inr other ↦ other
    ]

-- A zombie cannot corrupt its successor's work. Let schedule `k` be claimed at `now`, from rows that
-- satisfy the invariant; then others call what is foreign to that lease (claims and sweeps before `now + lease`, acknowledgements of
-- other schedules or with another lease, insertions and operator calls for other schedules); then
-- `k` is claimed again, with a lease that is not empty. From there each of the four acknowledgements
-- that carries the first lease changes nothing and returns `false`.
pub stale-Refused :
    (now batch lease now' batch' lease' : ℕ) (rows rows₁ rows₂ : Rows)
    (out out' : List LeasedOccurrence) (os : List Op) (k : Uuid)
    → Inv rows
    → claim_due now batch lease rows ≡ ok (rows₁, out)
    → has k (ids out) ≡ true
    → AllFit os
    → AllForeign k (now + lease) os
    → claim_due now' batch' lease' (run os rows₁) ≡ ok (rows₂, out')
    → has k (ids out') ≡ true
    → 0 < lease'
    → Refused (mark_delivered k (now + lease) rows₂) rows₂
      × ((next : Instant) → Refused (reschedule k next (now + lease) rows₂) rows₂)
      × ((at retry_in : ℕ) (error : String)
          → Refused (mark_failed at k retry_in error (now + lease) rows₂) rows₂)
      × ((at : Instant) (error : String)
          → Refused (mark_dead_lettered at k error (now + lease) rows₂) rows₂)
stale-Refused now batch lease now' batch' lease' rows rows₁ rows₂ out out' os k v e h fit f e' h'
      pos =
    let (s, _, _, at, _) = (claim_due-ClaimSpec now batch lease rows rows₁ out v e).taken k h in
    let v' = run-Inv os rows₁ fit (claimed-Inv now batch lease rows rows₁ out v e) in
    let (t, at', c, after', _) =
      (claim_due-ClaimSpec now' batch' lease' (run os rows₁) rows₂ out' v' e').taken k h' in
    let still = run-leased k (now + lease) _ os rows₁ at refl f in
    let same : t.leased_until ≡ some (now + lease) = cc in
    let over = subst (IsFree now') same c.free in
    let stale =
      fenced_pending-stale rows₂ k (now + lease) (now' + lease') _ after' refl (omega arith) in
    (
      mark_delivered-Refused rows₂ k (now + lease) stale,
      reschedule-Refused rows₂ k (now + lease) stale,
      mark_failed-Refused rows₂ k (now + lease) stale,
      mark_dead_lettered-Refused rows₂ k (now + lease) stale,
    )
