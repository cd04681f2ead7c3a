-- ===== src/Bus/Registry/Upkeep.antt =====
-- The calls of the registry and its invariant
-- (crates/hexeract-bus/src/request_registry.rs).
use hexeract.Common.{
  ℕ, ◌≤◌, ◌<◌, ◌≡◌, refl, sym, ◌∙◌, ap, inl, inr, Option, some, none, Bool, true, false, List, [],
  ◌∷◌, leb, length, arith, Bool-cases, Option-cases, subst,
}
use hexeract.Common.Result.{Result, ok, err}
use hexeract.Common.Map.{
  lookup, insert, erase, Distinct, insert-Distinct, erase-Distinct, length-insert_new,
  length-insert_old, length-erase_le,
}
use hexeract.Bus.Envelope.{BusEnvelope}
use hexeract.Bus.Reply.{
  ReplyExpectation, ReplyRejection, ReplyRejectionKind, TransportRefusal, ReplyAuthentication,
}
use hexeract.Bus.Retired.{SlotRetirement, RetiredSlots, resolved, abandoned, record_slot, find}
use hexeract.Bus.Retired.Memory.{Remembers, record_slot-Recorded, new-Remembers}
use hexeract.Bus.Registry.{
  Slot, RequestRegistry, new, count, note, note_in, fresh, RegisterRejection, closed, slot_occupied,
  at_capacity, register, remove, drain, abandon_all,
}

-- A call of the registry's surface. `drops` is the drop of a `PendingReply`.
pub data Call (Principal : Type 0) : Type 0 where
  registers : ℕ → ReplyExpectation → Call Principal
  receives : BusEnvelope → Result TransportRefusal (ReplyAuthentication Principal) → Call Principal
  garbles drains closes : Call Principal
  drops : ℕ → Call Principal

pub record Sound (r : RequestRegistry) : Type 0 where
  pub distinct : Distinct r.slots
  pub fits : length r.slots ≤ r.max_in_flight
  pub window : r.retired.capacity ≡ r.max_in_flight
  pub memory : Remembers r.retired
  pub idle : r.is_closed ≡ true → r.slots ≡ []

pub new-Sound : (max_in_flight : ℕ) → Sound (new max_in_flight)
unfolding new hexeract.Bus.Retired.new
new-Sound n = record {
  distinct = tt;
  fits = omega arith;
  window = refl;
  memory = new-Remembers n;
  idle = λ c. refl;
}

-- What a registration comes to.
pub data Registered (id : ℕ) (expectation : ReplyExpectation) (r : RequestRegistry)
    : RequestRegistry × Result RegisterRejection ℕ → Type 0 where
  refuses : (x : RegisterRejection) → Registered id expectation r (r, err x)
  opens :
      r.is_closed ≡ false
      → lookup id r.slots ≡ none
      → length r.slots < r.max_in_flight
      → Registered id expectation r
          (record r { slots = insert id (fresh expectation) r.slots }, ok id)

module _ (id : ℕ) (expectation : ReplyExpectation) (r : RequestRegistry) where
  pub register-closed : r.is_closed ≡ true → register id expectation r ≡ (r, err closed)
  unfolding register
  register-closed c = rw c refl

  register-occupied :
      (s : Slot)
      → r.is_closed ≡ false
      → lookup id r.slots ≡ some s
      → register id expectation r ≡ (r, err slot_occupied)
  unfolding register
  register-occupied s c e = ground arith

  register-full :
      r.is_closed ≡ false
      → lookup id r.slots ≡ none
      → leb r.max_in_flight (length r.slots) ≡ true
      → register id expectation r ≡ (r, err at_capacity)
  unfolding register
  register-full c e f = ground arith

  register-room :
      r.is_closed ≡ false
      → lookup id r.slots ≡ none
      → leb r.max_in_flight (length r.slots) ≡ false
      → register id expectation r
        ≡ (record r { slots = insert id (fresh expectation) r.slots }, ok id)
  unfolding register
  register-room c e f = ground arith

  pub register-Registered : Registered id expectation r (register id expectation r)
  register-Registered = elim (Bool-cases r.is_closed) [
    | inl c ↦ subst (Registered id expectation r) (sym (register-closed c)) (refuses closed)
    | inr c ↦ elim (Option-cases (lookup id r.slots)) [
      | inr (s, e) ↦
          subst (Registered id expectation r) (sym (register-occupied s c e))
            (refuses slot_occupied)
      | inl e ↦ elim (Bool-cases (leb r.max_in_flight (length r.slots))) [
        | inl f ↦
            subst (Registered id expectation r) (sym (register-full c e f)) (refuses at_capacity)
        | inr f ↦
            subst (Registered id expectation r) (sym (register-room c e f))
              (opens c e (ground arith))
      ]
    ]
  ]

module _ (r : RequestRegistry) (v : Sound r) where
  pub retires :
      (id : ℕ) (t : SlotRetirement)
      → Sound (record r { slots = erase id r.slots; retired = record_slot id t r.retired })
  retires id t =
      let done = record_slot-Recorded id t r.retired v.memory in
      record {
        distinct = erase-Distinct id r.slots v.distinct;
        fits = omega (arith, length-erase_le id r.slots, v.fits);
        window = done.same_capacity ∙ v.window;
        memory = done.sound;
        idle = λ c. rw (v.idle c) refl;
      }

  pub notes :
      (id : ℕ) (s x : Slot)
      → lookup id r.slots ≡ some s
      → Sound (record r { slots = insert id x r.slots })
  notes id s x e = record {
    distinct = insert-Distinct id x r.slots v.distinct;
    fits = omega (arith, length-insert_old id x s r.slots e, v.fits);
    window = v.window;
    memory = v.memory;
    idle = λ c. absurd (cc (e, ap (lookup id) (v.idle c)));
  }

  pub opened-Sound :
      (id : ℕ) (expectation : ReplyExpectation) (out : RequestRegistry × Result RegisterRejection ℕ)
      → Registered id expectation r out
      → Sound out.0
  opened-Sound id expectation _ (refuses x) = v
  opened-Sound id expectation _ (opens c e room) = record {
    distinct = insert-Distinct id (fresh expectation) r.slots v.distinct;
    fits = omega (arith, length-insert_new id (fresh expectation) r.slots e, room);
    window = v.window;
    memory = v.memory;
    idle = λ p. absurd (cc (p, c));
  }

  pub remove-Sound : (id : ℕ) → Sound (remove id r)
  unfolding remove
  remove-Sound id = elim (Option-cases (lookup id r.slots)) [
    | inl e ↦ subst Sound (sym (rw (e, remove) refl)) v
    | inr (s, e) ↦ subst Sound (sym (rw (e, remove) refl)) (retires id abandoned)
  ]

pub notes_in :
    (r : RequestRegistry) (o : Option ℕ) (x : ReplyRejection)
    → Sound r
    → Sound (record r { slots = note_in x o r.slots })
notes_in r none x v = v
notes_in r (some id) x v = elim (Option-cases (lookup id r.slots)) [
  | inl e ↦ subst (λ slots. Sound (record r { slots = slots })) (sym (rw (e, note_in) refl)) v
  | inr (s, e) ↦
      subst (λ slots. Sound (record r { slots = slots })) (sym (rw (e, note_in) refl))
        (notes r v id s (note x s) e)
]

pub counts : (r : RequestRegistry) (k : ReplyRejectionKind) → Sound r → Sound (count k r)
counts r k v = record {
  distinct = v.distinct;
  fits = v.fits;
  window = v.window;
  memory = v.memory;
  idle = v.idle;
}

pub abandon_all-Remembers :
    (slots : List (ℕ × Slot)) (m : RetiredSlots)
    → Remembers m
    → Remembers (abandon_all slots m) × ((abandon_all slots m).capacity ≡ m.capacity)
unfolding abandon_all
abandon_all-Remembers [] m v = (v, refl)
abandon_all-Remembers ((id, s) ∷ slots) m v =
    let done = record_slot-Recorded id abandoned m v in
    let rest = abandon_all-Remembers slots (record_slot id abandoned m) done.sound in
    (rest.0, rest.1 ∙ done.same_capacity)

pub drained :
    (r : RequestRegistry) → Sound r → (c : Bool) → Sound (drain (record r { is_closed = c }))
unfolding drain
drained r v c =
    let done = abandon_all-Remembers r.slots r.retired v.memory in
    record {
      distinct = tt;
      fits = omega arith;
      window = done.1 ∙ v.window;
      memory = done.0;
      idle = λ p. refl;
    }
