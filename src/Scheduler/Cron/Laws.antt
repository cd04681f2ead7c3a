-- ===== src/Scheduler/Cron/Laws.antt =====
-- The time conversions of crates/hexeract-scheduler/src/trigger.rs, and its next occurrence.
use Prim.Native.String.{String}
use hexeract.Common.{
  ap, subst, ◌∙◌, ℕ, suc, ◌+◌, ◌-◌, ◌*◌, ◌≤◌, ◌<◌, ◌≡◌, refl, Option, some, none, leb,
  if◌then◌else◌, arith, Bool-cases, inl, inr,
}
use hexeract.Common.Int.{ℤ, pos, negsuc, neg, ◌<ℤ◌}
use hexeract.Common.Result.{Result, ok, err, ◌>>=◌}
use hexeract.Clock.{Instant, unix_epoch, last_instant}
use hexeract.Scheduler.Types.{Fallible, internal}
use hexeract.Scheduler.Cron.{
  CronEngine, found, since_epoch, to_system_time, to_offset_date_time, next_occurrence,
}

-- The signed offset of an instant from the epoch.
offset : Instant → ℤ
offset t = if leb unix_epoch t then pos (t - unix_epoch) else neg (unix_epoch - t)

since_epoch-offset : (t : ℕ) → t ≤ last_instant → since_epoch t ≡ ok (offset t)
unfolding offset unix_epoch last_instant
since_epoch-offset t h = ground arith

to_system_time-pos : (n : ℕ) → n < 2 * unix_epoch → to_system_time (pos n) ≡ ok (unix_epoch + n)
unfolding to_system_time unix_epoch
to_system_time-pos n h = ground arith

to_system_time-negsuc :
    (n : ℕ) → suc n ≤ unix_epoch → to_system_time (negsuc n) ≡ ok (unix_epoch - suc n)
unfolding to_system_time unix_epoch
to_system_time-negsuc n h = ground arith

to_system_time-offset : (t : ℕ) → t ≤ last_instant → to_system_time (offset t) ≡ ok t
unfolding offset to_system_time unix_epoch last_instant
to_system_time-offset t h = ground arith

module _ (engine : CronEngine) (t : Instant) (h : t ≤ last_instant) where
  offset-to_offset_date_time : (z : ℤ) → to_offset_date_time engine t ≡ ok z → z ≡ offset t
  unfolding to_offset_date_time
  offset-to_offset_date_time z e =
      let e' = rw (since_epoch-offset t h, ◌>>=◌) at e in
      elim (Bool-cases (engine.representable (offset t))) [
        | inl r ↦ cc (rw r at e')
        | inr r ↦ cc (rw r at e')
      ]

  -- A time that the cron engine can represent survives the way there and back.
  pub to_system_time-to_offset_date_time :
      (z : ℤ) → to_offset_date_time engine t ≡ ok z → to_system_time z ≡ ok t
  to_system_time-to_offset_date_time z e =
      rw (offset-to_offset_date_time z e) (to_system_time-offset t h)

offset-later : (t t' : ℕ) (b : ℤ) → offset t <ℤ b → to_system_time b ≡ ok t' → t < t'
unfolding offset to_system_time unix_epoch
offset-later t t' (pos m) l e = ground arith
offset-later t t' (negsuc m) l e = ground arith

-- What the documentation of the cron engine says of `next_after`: the occurrence that it returns
-- lies strictly after the anchor.
abbrev pub Ascends : CronEngine → Type 0
Ascends engine =
    (text : String) (next_after : ℤ → Option ℤ) (a b : ℤ)
    → engine.parse text ≡ ok next_after
    → next_after a ≡ some b
    → a <ℤ b

-- The next occurrence that the scheduler computes lies strictly after the instant that it was
-- asked for.
pub next_occurrence-later :
    (engine : CronEngine) (expression : String) (after next : Instant)
    → Ascends engine
    → after ≤ last_instant
    → next_occurrence engine expression after ≡ ok (some next)
    → after < next
unfolding next_occurrence
next_occurrence-later engine expression after next up h e = parsed (engine.parse expression) refl e
  where
    at_time :
        (f : ℤ → Option ℤ) (z b : ℤ)
        → engine.parse expression ≡ ok f
        → to_offset_date_time engine after ≡ ok z
        → f z ≡ some b
        → (t : Fallible Instant) → to_system_time b ≡ t
        → (t >>= λ u. ok (some u)) ≡ ok (some next)
        → after < next
    at_time f z b p q m (err x) r e = absurd (cc)
    at_time f z b p q m (ok u) r e =
        offset-later after next b
          (subst (λ a. a <ℤ b) (offset-to_offset_date_time engine after h z q)
            (up expression f z b p m))
          (let same : u ≡ next = cc in r ∙ ap ok same)

    at_moment :
        (f : ℤ → Option ℤ)
        → engine.parse expression ≡ ok f
        → (z : ℤ) → to_offset_date_time engine after ≡ ok z
        → (m : Option ℤ) → f z ≡ m
        → found engine m ≡ ok (some next)
        → after < next
    at_moment f p z q none r e = absurd (cc)
    at_moment f p z q (some b) r e = at_time f z b p q r (to_system_time b) refl e

    anchored :
        (f : ℤ → Option ℤ)
        → engine.parse expression ≡ ok f
        → (r : Fallible ℤ) → to_offset_date_time engine after ≡ r
        → (r >>= λ anchor. found engine (f anchor)) ≡ ok (some next)
        → after < next
    anchored f p (err x) q e = absurd (cc)
    anchored f p (ok z) q e = at_moment f p z q (f z) refl e

    parsed :
        (r : Result String (ℤ → Option ℤ))
        → engine.parse expression ≡ r
        → ◌≡◌ {A = Fallible (Option Instant)}
            (elim r [
              | err reason ↦ err (internal "validated cron expression failed to re-parse")
              | ok next_after ↦
                  to_offset_date_time engine after >>= λ anchor. found engine (next_after anchor)
            ])
            (ok (some next))
        → after < next
    parsed (err reason) p e = absurd (cc)
    parsed (ok f) p e = anchored f p (to_offset_date_time engine after) refl e
