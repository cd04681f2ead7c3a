-- ===== src/Scheduler/Pacing.antt =====
-- How far the lease of a batch carries: the configurations that
-- crates/hexeract-scheduler/src/builder.rs accepts, run by worker.rs.
use Prim.Native.String.{String}
use hexeract.Common.{
  ℕ, zero, suc, ◌+◌, ◌*◌, ◌≤◌, ◌<◌, ◌≡◌, refl, subst, some, false, List, [], ◌∷◌, leb, min, arith,
  All, length, get_elem?, mul_mono, Bool-cases, inl, inr,
}
use hexeract.Common.Result.{ok, bind_ok, ok_or, ok_or-ok}
use hexeract.Clock.{Instant, u32_max, checked_add, checked_add-eq}
use hexeract.Scheduler.Types.{LeasedOccurrence, Fallible, SchedulerError}
use hexeract.Scheduler.Store.{Rows, claim_due, claim_loop, is_claimable, occurrence_of}
use hexeract.Scheduler.Contract.{claim_due-ClaimSpec}
use hexeract.Scheduler.Invariant.{Inv}
use hexeract.Scheduler.Cron.{CronEngine}
use hexeract.Scheduler.Worker.{
  SchedulerWorkerConfig, Settlement, build, dispatch_outcome, settle, settle_with,
}
use hexeract.Scheduler.Building.{build_iff}
use hexeract.Scheduler.Settling.{Answered, dispatch_outcome-Answered}

claim_loop-leases :
    (now until batch n : ℕ) (rows : Rows)
    → All (λ o. o.leased_until ≡ until) (claim_loop now until batch n rows).1
unfolding claim_loop occurrence_of
claim_loop-leases now until batch n [] = tt
claim_loop-leases now until batch n ((id, s) ∷ rest) = elim (Bool-cases (leb batch n)) [
  | inl full ↦ rw (full, claim_loop) tt
  | inr room ↦ elim (Bool-cases (is_claimable now s)) [
    | inl free ↦ rw (room, free, claim_loop) (refl, claim_loop-leases now until batch (n + 1) rest)
    | inr held ↦ rw (room, held, claim_loop) (claim_loop-leases now until batch n rest)
  ]
]

get_elem?-All :
    (u : ℕ) (os : List LeasedOccurrence) (n : ℕ) (o : LeasedOccurrence)
    → All (λ x. x.leased_until ≡ u) os
    → get_elem? os n ≡ some o
    → (o.leased_until ≡ u) × (n < length os)
get_elem?-All u [] n o a h = absurd (cc h)
get_elem?-All u (x ∷ os) zero o a h =
    let same : x ≡ o = cc h in (subst (λ y. y.leased_until ≡ u) same a.0, omega arith)
get_elem?-All u (x ∷ os) (suc n) o a h =
    let (p, lt) = get_elem?-All u os n o a.1 h in (p, omega (arith, lt))

claim_due-leases :
    (now batch lease : ℕ) (rows rows' : Rows) (out : List LeasedOccurrence)
    → claim_due now batch lease rows ≡ ok (rows', out)
    → All (λ o. o.leased_until ≡ now + lease) out
unfolding claim_due
claim_due-leases now batch lease rows rows' out e =
    let (until, h, k) = bind_ok (ok_or (checked_add now lease) _) _ (rows', out) e in
    let fits = checked_add-eq now lease (ok_or-ok (checked_add now lease) _ until h) in
    let same : (claim_loop now until batch 0 rows).1 ≡ out = cc k in
    subst (λ u. All (λ o. o.leased_until ≡ u) out) fits
      (subst (All (λ o. o.leased_until ≡ until)) same (claim_loop-leases now until batch 0 rows))

-- The settlements of a batch claimed at `now` follow each other closely: the first begins before a
-- dispatch timeout has passed, and each, its acknowledgement included, has ended and the next one
-- begun within a dispatch timeout.
pub record IsPaced (c : SchedulerWorkerConfig) (now : Instant) (world : ℕ → Settlement)
    : Type 0 where
  pub first : (world 0).guard_at < now + c.dispatch_timeout
  pub next : (n : ℕ) → (world (n + 1)).guard_at ≤ (world n).guard_at + c.dispatch_timeout

paced-begins :
    (c : SchedulerWorkerConfig) (now : Instant) (world : ℕ → Settlement)
    → IsPaced c now world
    → (n : ℕ) → (world n).guard_at < now + c.dispatch_timeout * (n + 1)
paced-begins c now world p zero =
    let one : c.dispatch_timeout * (0 + 1) ≡ c.dispatch_timeout = grind arith in
    omega (arith, p.first, one)
paced-begins c now world p (suc n) =
    let more : c.dispatch_timeout * (suc n + 1)
        ≡ c.dispatch_timeout * (n + 1) + c.dispatch_timeout =
      grind arith in
    let step : (world (suc n)).guard_at ≤ (world n).guard_at + c.dispatch_timeout =
      subst (λ m. (world m).guard_at ≤ (world n).guard_at + c.dispatch_timeout) (omega arith)
        (p.next n) in
    omega (arith, paced-begins c now world p n, more, step)

-- The lease covers the batch. Take a configuration that `build` accepts, whose batch size fits a
-- `u32`, and a batch that a claim with it returned at `now`. If the first settlement begins before a
-- dispatch timeout has passed, and each next one at most a dispatch timeout after the one before, then
-- every occurrence of the batch is dispatched while its lease lasts: at each position the settlement
-- begins before the lease of the occurrence there has ended, and it applies the sink's answer.
pub settle-dispatches :
    (c d : SchedulerWorkerConfig) (engine : CronEngine) (display : SchedulerError → String)
    (now n : ℕ) (rows rows' held : Rows) (out : List LeasedOccurrence) (world : ℕ → Settlement)
    (o : LeasedOccurrence)
    → build c ≡ ok d
    → c.batch_size ≤ u32_max
    → Inv rows
    → claim_due now c.batch_size c.lease rows ≡ ok (rows', out)
    → IsPaced c now world
    → get_elem? out n ≡ some o
    → ((world n).guard_at < o.leased_until)
      × (r : Fallible (Unit {0})) × Answered (world n).answer r
      × (settle d engine display (world n) o held ≡ settle_with d engine display (world n) o r held)
unfolding settle
settle-dispatches c d engine display now n rows rows' held out world o h w v e p at =
    let (same, valid) = (build_iff c d).0 h in
    let spec = claim_due-ClaimSpec now c.batch_size c.lease rows rows' out v e in
    let (until, lt) =
      get_elem?-All (now + c.lease) out n o
        (claim_due-leases now c.batch_size c.lease rows rows' out e) at in
    let fits : min c.batch_size u32_max ≡ c.batch_size = omega arith in
    let step : c.dispatch_timeout * (n + 1) ≤ c.dispatch_timeout * c.batch_size =
      mul_mono _ _ _ (omega (arith, lt, spec.bounded)) in
    let cover : c.dispatch_timeout * c.batch_size ≤ c.lease =
      subst (λ b. c.dispatch_timeout * b ≤ c.lease) fits valid.covered in
    let in_time : (world n).guard_at < o.leased_until =
      omega (arith, paced-begins c now world p n, step, cover, until) in
    let live : leb o.leased_until (world n).guard_at ≡ false = ground arith in
    let answer = (world n).answer in
    (in_time, dispatch_outcome answer, dispatch_outcome-Answered answer, rw live refl)
