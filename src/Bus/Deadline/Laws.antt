-- ===== src/Bus/Deadline/Laws.antt =====
-- What a deadline means on both sides of the wire (crates/hexeract-bus/src/deadline.rs).
use hexeract.Common.{
  ℕ, suc, ◌+◌, ◌-◌, ◌*◌, ◌/◌, ◌≤◌, ◌<◌, ◌≡◌, inl, inr, refl, Option, some, none, true, false, leb,
  if◌then◌else◌, le→leb, Bool-cases, ap, ◌∙◌, arith,
}
use hexeract.Common.Int.{ℤ, pos, negsuc}
use hexeract.Common.Result.{ok, ok_or}
use hexeract.Clock.{
  unix_epoch, checked_add_fits, checked_add-eq, last_instant, from_millis, from_secs,
}
use hexeract.Bus.Deadline.{
  live, expired, unreadable, max_deadline_horizon, clock_skew_tolerance, i64_max, checked_sub,
  from_wall_clock, within_horizon, from_unix_millis, to_unix_millis, local_after, anchor,
}

within_horizon-sum :
    (now timeout d : ℕ)
    → now + timeout ≤ last_instant
    → within_horizon now timeout ≡ some d
    → (d ≡ now + timeout) × (timeout ≤ max_deadline_horizon)
unfolding within_horizon from_wall_clock
within_horizon-sum now timeout d f e = ground (arith, checked_add_fits now timeout f)

abbrev pub IsI64 : ℤ → Type 0
IsI64 (pos m) = m ≤ i64_max
IsI64 (negsuc m) = m ≤ i64_max

ok_or-some : {E : Type 0} (o : Option ℕ) (e : E) (a : ℕ) → ok_or o e ≡ ok a → o ≡ some a
ok_or-some none e a h = absurd (cc h)
ok_or-some (some b) e a h = cc h

written_after : (m d : ℕ) → m ≤ i64_max → d ≡ unix_epoch + m * 1_000_000 → to_unix_millis d ≡ pos m
unfolding to_unix_millis
written_after m d i e =
    let whole : (d - unix_epoch) / 1_000_000 ≡ m = omega (arith, e) in
    rw (le→leb unix_epoch d (omega arith), whole, le→leb m i64_max i) refl

written_before :
    (m d : ℕ) → m ≤ i64_max → d + (m + 1) * 1_000_000 ≡ unix_epoch → to_unix_millis d ≡ negsuc m
unfolding to_unix_millis
written_before m d i e =
    let below : leb unix_epoch d ≡ false = ground (arith, e) in
    let whole : (unix_epoch - d) / 1_000_000 ≡ suc m = omega (arith, e) in
    rw (below, whole)
      (elim (Bool-cases (leb (suc m) i64_max)) [
        | inl p ↦ rw p refl
        | inr p ↦ rw p (ap negsuc (ground arith))
      ])

-- A deadline after the Unix epoch that a header can carry loses less than a millisecond on the wire.
carried-floor :
    (d : ℕ)
    → unix_epoch ≤ d
    → d ≤ last_instant
    → (d - unix_epoch) / 1_000_000 ≤ i64_max
    → (t : ℕ) × (from_unix_millis (to_unix_millis d) ≡ ok t) × (t ≤ d) × (d < t + from_millis 1)
unfolding to_unix_millis from_unix_millis
carried-floor d after fits small =
    let millis = (d - unix_epoch) / 1_000_000 in
    (
      unix_epoch + from_millis millis,
      rw
          (
            le→leb unix_epoch d after,
            le→leb millis i64_max small,
            checked_add_fits unix_epoch (from_millis millis) (omega (arith, after, fits)),
          )
          refl,
      omega (arith, after),
      omega (arith, after),
    )

-- A deadline that the caller stamps, and that the wire carries as a whole number of milliseconds, is
-- honoured by the responder until it has passed by the tolerance. Let the caller's timeout be within
-- the horizon, its clock not before the Unix epoch, the deadline small enough for an `i64` of
-- milliseconds, and the responder's clock read no earlier than the caller's did, with room for the
-- horizon and the tolerance on both clocks. Then the responder reads off the wire an instant that is
-- at most the caller's deadline and less than a millisecond before it. It takes the deadline as live,
-- with what is left until a second past that instant on its monotonic clock, exactly while its clock
-- reads no more than that; from then on the deadline is expired.
pub within_horizon-anchor :
    (tick now now' timeout d : ℕ)
    → within_horizon now timeout ≡ some d
    → unix_epoch ≤ now
    → (now + timeout - unix_epoch) / 1_000_000 ≤ i64_max
    → now ≤ now'
    → now' + max_deadline_horizon ≤ last_instant
    → now + timeout + clock_skew_tolerance ≤ last_instant
    → (t : ℕ) × (from_unix_millis (to_unix_millis d) ≡ ok t)
      × (t ≤ now + timeout)
      × (now + timeout < t + from_millis 1)
      × (anchor tick now' t ≡ (
          if leb now' (t + from_secs 1) then live (tick + (t + from_secs 1 - now')) else expired))
unfolding anchor local_after
within_horizon-anchor tick now now' timeout d e after small l f g =
    let (stamped, short) = within_horizon-sum now timeout d (omega arith) e in
    let (t, wire, floor, near) = carried-floor (now + timeout) (omega arith) (omega arith) small in
    let within : leb t (now' + max_deadline_horizon) ≡ true = le→leb _ _ (omega (arith, short)) in
    (
      t,
      ap (λ x. from_unix_millis (to_unix_millis x)) stamped ∙ wire,
      floor,
      near,
      rw
          (
            checked_add_fits now' max_deadline_horizon f,
            within,
            checked_add_fits t clock_skew_tolerance (omega arith),
          )
          refl,
    )

-- The wire form is exact: whatever `i64` a header carries, if it is read as a deadline, then that
-- deadline is written as the same number.
pub to_unix_millis-from_unix_millis :
    (z : ℤ) (d : ℕ) → from_unix_millis z ≡ ok d → IsI64 z → to_unix_millis d ≡ z
unfolding from_unix_millis
to_unix_millis-from_unix_millis (pos m) d e i =
    written_after m d i (checked_add-eq unix_epoch (from_millis m) (ok_or-some _ _ d e))
to_unix_millis-from_unix_millis (negsuc m) d e i =
    written_before m d i
      (ground (arith, ok_or-some (checked_sub unix_epoch (from_millis (m + 1))) unreadable d e))
