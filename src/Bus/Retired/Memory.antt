-- ===== src/Bus/Retired/Memory.antt =====
-- The memory of retired requests, and what a record does to it
-- (crates/hexeract-bus/src/slot_retirement.rs).
use hexeract.Common.{
  ℕ, suc, ◌≤◌, ◌<◌, ◌≡◌, ◌≢◌, refl, ◌∙◌, ap, ◌⊎◌, inl, inr, Option, some, none, Bool, true, false,
  List, [], ◌∷◌, ◌++◌, ◌==◌, ==_iff, leb, if◌then◌else◌, length, length-append, has, Unique, arith,
  Bool-cases, Option-cases, subst,
}
use hexeract.Common.Map.{lookup, insert, erase, lookup-insert, lookup-erase}
use hexeract.Bus.Retired.{SlotRetirement, RetiredSlots, new, evict, record_slot, find}

abbrev pub is_known : Option SlotRetirement → Bool
is_known none = false
is_known (some t) = true

-- The order and the map hold the same requests.
abbrev pub Agrees : List ℕ → List (ℕ × SlotRetirement) → Type 0
Agrees order entries = (k : ℕ) → has k order ≡ is_known (lookup k entries)

pub record Remembers (r : RetiredSlots) : Type 0 where
  pub agrees : Agrees r.order r.entries
  pub unique : Unique r.order
  pub bounded : length r.order ≤ r.capacity

evict-short :
    (capacity : ℕ) (order : List ℕ) (entries : List (ℕ × SlotRetirement))
    → length order < capacity
    → evict capacity order entries ≡ (order, entries)
unfolding evict
evict-short capacity [] entries h = refl
evict-short capacity (x ∷ xs) entries h = ground arith

evict-step :
    (capacity x : ℕ) (xs : List ℕ) (entries : List (ℕ × SlotRetirement))
    → capacity ≤ suc (length xs)
    → evict capacity (x ∷ xs) entries ≡ evict capacity xs (erase x entries)
unfolding evict
evict-step capacity x xs entries h = ground arith

evict-full :
    (capacity x : ℕ) (xs : List ℕ) (entries : List (ℕ × SlotRetirement))
    → suc (length xs) ≡ capacity
    → evict capacity (x ∷ xs) entries ≡ (xs, erase x entries)
evict-full capacity x xs entries h =
    evict-step capacity x xs entries (omega arith)
    ∙ evict-short capacity xs (erase x entries) (omega arith)

has-append : (k x : ℕ) (xs : List ℕ) → has k (xs ++ (x ∷ [])) ≡ (if k == x then true else has k xs)
has-append k x [] = ground arith
has-append k x (y ∷ ys) = ground (arith, has-append k x ys)

append-Unique : (x : ℕ) (xs : List ℕ) → has x xs ≡ false → Unique xs → Unique (xs ++ (x ∷ []))
append-Unique x [] h u = (refl, tt)
append-Unique x (y ∷ ys) h u =
    (ground (arith, has-append y x ys), append-Unique x ys (ground arith) u.1)

tail-Agrees :
    (x : ℕ) (xs : List ℕ) (entries : List (ℕ × SlotRetirement))
    → Agrees (x ∷ xs) entries
    → Unique (x ∷ xs)
    → Agrees xs (erase x entries)
tail-Agrees x xs entries a u k = ground (arith, a k, lookup-erase x k entries)

add-Agrees :
    (id : ℕ) (t : SlotRetirement) (order : List ℕ) (entries : List (ℕ × SlotRetirement))
    → Agrees order entries
    → Agrees (order ++ (id ∷ [])) (insert id t entries)
add-Agrees id t order entries a k =
    ground (arith, a k, has-append k id order, lookup-insert id k t entries)

overwrite-Agrees :
    (id : ℕ) (t old : SlotRetirement) (order : List ℕ) (entries : List (ℕ × SlotRetirement))
    → Agrees order entries
    → lookup id entries ≡ some old
    → Agrees order (insert id t entries)
overwrite-Agrees id t old order entries a e k = elim (Bool-cases (id == k)) [
  | inl same ↦
      rw (lookup-insert id k t entries, same) (a k ∙ ap is_known (found k ((==_iff id k).0 same)))
  | inr other ↦ rw (lookup-insert id k t entries, other) (a k)
]
  where
    found : (j : ℕ) → id ≡ j → lookup j entries ≡ some old
    found j p = subst (λ i. lookup i entries ≡ some old) p e

-- What the record of the request `id` leaves of the memory `r`, for every other request too.
pub record Recorded (id : ℕ) (t : SlotRetirement) (r r' : RetiredSlots) : Type 0 where
  pub sound : Remembers r'
  pub same_capacity : r'.capacity ≡ r.capacity
  pub kept : find id r' ≡ (if r.capacity == 0 then none else some t)
  pub others :
      (k : ℕ)
      → id ≢ k
      → (find k r' ≡ find k r)
        ⊎ ((find k r' ≡ none)
            × (find id r ≡ none)
            × (length r.order ≡ r.capacity)
            × ((younger : List ℕ) × (r.order ≡ k ∷ younger)))

lookup-other :
    (id k : ℕ) (t : SlotRetirement) (entries : List (ℕ × SlotRetirement))
    → id ≢ k
    → lookup k (insert id t entries) ≡ lookup k entries
lookup-other id k t entries ne = ground (arith, lookup-insert id k t entries)

erase-absent :
    (x k : ℕ) (entries : List (ℕ × SlotRetirement))
    → lookup k entries ≡ none
    → lookup k (erase x entries) ≡ none
erase-absent x k entries e = ground (arith, lookup-erase x k entries)

unknown :
    (id : ℕ) (r : RetiredSlots)
    → Remembers r
    → (r.capacity == 0) ≡ true
    → lookup id r.entries ≡ none
unknown id r m z = elim (Option-cases (lookup id r.entries)) [
  | inl e ↦ e
  | inr (old, e) ↦ absurd (
      cc (
        m.agrees id,
        empty r.order (omega (arith, (==_iff r.capacity 0).0 z, m.bounded)),
        ap is_known e,
      ))
]
  where
    empty : (order : List ℕ) → length order ≤ 0 → has id order ≡ false
    empty [] h = refl
    empty (x ∷ xs) h = absurd (omega arith)

module _ (id : ℕ) (t : SlotRetirement) (r : RetiredSlots) (m : Remembers r) where
  no_room : (r.capacity == 0) ≡ true → Recorded id t r (record_slot id t r)
  unfolding record_slot find
  no_room z = rw z (record {
    sound = m;
    same_capacity = refl;
    kept = rw z (unknown id r m z);
    others = λ k ne. inl refl;
  })

  overwrites :
      (old : SlotRetirement)
      → (r.capacity == 0) ≡ false
      → lookup id r.entries ≡ some old
      → Recorded id t r (record_slot id t r)
  unfolding record_slot find
  overwrites old z e =
      rw (z, e)
        (record {
          sound = record {
            agrees = overwrite-Agrees id t old r.order r.entries m.agrees e;
            unique = m.unique;
            bounded = m.bounded;
          };
          same_capacity = refl;
          kept = rw z (lookup-insert id id t r.entries ∙ ground arith);
          others = λ k ne. inl (lookup-other id k t r.entries ne);
        })

  joins :
      (r.capacity == 0) ≡ false
      → lookup id r.entries ≡ none
      → length r.order < r.capacity
      → Recorded id t r (record_slot id t r)
  unfolding record_slot find
  joins z e room =
      rw (z, e, evict-short r.capacity r.order r.entries room)
        (record {
          sound = record {
            agrees = add-Agrees id t r.order r.entries m.agrees;
            unique = append-Unique id r.order (m.agrees id ∙ ap is_known e) m.unique;
            bounded = omega (arith, length-append r.order (id ∷ []));
          };
          same_capacity = refl;
          kept = rw z (lookup-insert id id t r.entries ∙ ground arith);
          others = λ k ne. inl (lookup-other id k t r.entries ne);
        })

  replaces :
      (x : ℕ) (xs : List ℕ)
      → (r.capacity == 0) ≡ false
      → lookup id r.entries ≡ none
      → r.order ≡ x ∷ xs
      → suc (length xs) ≡ r.capacity
      → Recorded id t r (record_slot id t r)
  unfolding record_slot find
  replaces x xs z e o full =
      rw (z, e, o, evict-full r.capacity x xs r.entries full)
        (record {
          sound = record {
            agrees = add-Agrees id t xs (erase x r.entries) rest;
            unique =
                append-Unique id xs (rest id ∙ ap is_known (erase-absent x id r.entries e))
                  distinct.1;
            bounded = omega (arith, length-append xs (id ∷ []));
          };
          same_capacity = refl;
          kept = rw z (lookup-insert id id t (erase x r.entries) ∙ ground arith);
          others = λ k ne. elim (Bool-cases (x == k)) [
            | inl p ↦ inr (
              lookup-other id k t _ ne ∙ ground (arith, lookup-erase x k r.entries),
              e,
              full,
              (xs, ap (λ j. j ∷ xs) ((==_iff x k).0 p)),
            )
            | inr p ↦ inl (lookup-other id k t _ ne ∙ ground (arith, lookup-erase x k r.entries))
          ];
        })
    where
      distinct : Unique (x ∷ xs)
      distinct = subst Unique o m.unique

      rest : Agrees xs (erase x r.entries)
      rest = tail-Agrees x xs r.entries (subst (λ l. Agrees l r.entries) o m.agrees) distinct

  -- The record of a retirement keeps the memory a window: it holds no request twice and at most
  -- `capacity` of them, and finds the recorded one under its reason, unless the capacity is 0. Any
  -- other request is found as before, or it was the oldest one in a full memory.
  pub record_slot-Recorded : Recorded id t r (record_slot id t r)
  record_slot-Recorded = elim (Bool-cases (r.capacity == 0)) [
    | inl z ↦ no_room z
    | inr z ↦ elim (Option-cases (lookup id r.entries)) [
      | inr (old, e) ↦ overwrites old z e
      | inl e ↦ elim (Bool-cases (leb r.capacity (length r.order))) [
        | inr p ↦ joins z e (ground arith)
        | inl p ↦ full z e (ground arith) r.order refl
      ]
    ]
  ]
    where
      full :
          (r.capacity == 0) ≡ false
          → lookup id r.entries ≡ none
          → r.capacity ≤ length r.order
          → (order : List ℕ) → r.order ≡ order
          → Recorded id t r (record_slot id t r)
      full z e p [] o = absurd (ground (arith, m.bounded, ap length o))
      full z e p (x ∷ xs) o = replaces x xs z e o (omega (arith, m.bounded, ap length o, p))

pub new-Remembers : (capacity : ℕ) → Remembers (new capacity)
unfolding new
new-Remembers capacity = record { agrees = λ k. refl; unique = tt; bounded = omega arith }
