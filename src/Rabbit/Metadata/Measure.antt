-- ===== src/Rabbit/Metadata/Measure.antt =====
-- The measure of an AMQP value: `measure_value` of crates/hexeract-bus-rabbitmq/src/metadata.rs.
use hexeract.Common.{
  ℕ, zero, suc, ◌+◌, ◌≤◌, ◌<◌, ◌≡◌, refl, subst, ap, false, List, [], ◌∷◌, leb, length, ◌⊎◌, inl,
  inr, arith, le→leb,
}
use hexeract.Common.Bytes.{as_bytes}
use hexeract.Common.Result.{ok, err}
use hexeract.Bus.Error.{value_bytes, metadata_limit_exceeded, Checked}
use hexeract.Rabbit.Metadata.{
  AmqpValue, boolean, short_short_int, short_short_uint, short_int, short_uint, long_int, long_uint,
  float, long_long_int, double, timestamp, decimal, void, short_string, long_string, byte_array,
  field_array, field_table, Items, no_items, item, Fields, no_fields, entry, push_items,
  push_fields, push_members, key_lengths, contribution, size_of, size_of_items, size_of_fields,
  saturating_add, usize_max, measure_loop, measure_value,
}

-- The bytes of a value and of everything nested inside it, by recursion on the value.
abbrev mutual
  pub weight : AmqpValue → ℕ
  weight boolean = 1
  weight short_short_int = 1
  weight short_short_uint = 1
  weight short_int = 2
  weight short_uint = 2
  weight long_int = 4
  weight long_uint = 4
  weight float = 4
  weight (long_long_int n) = 8
  weight double = 8
  weight timestamp = 8
  weight decimal = 5
  weight void = 0
  weight (short_string text) = length (as_bytes text)
  weight (long_string text) = length text
  weight (byte_array bytes) = length bytes
  weight (field_array items) = weight_items items
  weight (field_table fields) = weight_fields fields

  pub weight_items : Items → ℕ
  weight_items no_items = 0
  weight_items (item v items) = weight v + weight_items items

  pub weight_fields : Fields → ℕ
  weight_fields no_fields = 0
  weight_fields (entry k v fields) = length (as_bytes k) + (weight v + weight_fields fields)

abbrev pub weights : List AmqpValue → ℕ
weights [] = 0
weights (v ∷ vs) = weight v + weights vs

abbrev sizes : List AmqpValue → ℕ
sizes [] = 0
sizes (v ∷ vs) = size_of v + sizes vs

sizes-push_items :
    (items : Items) (vs : List AmqpValue)
    → sizes (push_items items vs) ≡ size_of_items items + sizes vs
sizes-push_items no_items vs = omega arith
sizes-push_items (item v items) vs = omega (arith, sizes-push_items items (v ∷ vs))

sizes-push_fields :
    (fields : Fields) (vs : List AmqpValue)
    → sizes (push_fields fields vs) ≡ size_of_fields fields + sizes vs
sizes-push_fields no_fields vs = omega arith
sizes-push_fields (entry k v fields) vs = omega (arith, sizes-push_fields fields (v ∷ vs))

-- A step of the loop takes one value off the stack.
sizes-push_members :
    (v : AmqpValue) (vs : List AmqpValue) → suc (sizes (push_members v vs)) ≡ size_of v + sizes vs
sizes-push_members (field_array items) vs = omega (arith, sizes-push_items items vs)
sizes-push_members (field_table fields) vs = omega (arith, sizes-push_fields fields vs)
sizes-push_members boolean vs = omega arith
sizes-push_members short_short_int vs = omega arith
sizes-push_members short_short_uint vs = omega arith
sizes-push_members short_int vs = omega arith
sizes-push_members short_uint vs = omega arith
sizes-push_members long_int vs = omega arith
sizes-push_members long_uint vs = omega arith
sizes-push_members float vs = omega arith
sizes-push_members (long_long_int n) vs = omega arith
sizes-push_members double vs = omega arith
sizes-push_members timestamp vs = omega arith
sizes-push_members decimal vs = omega arith
sizes-push_members void vs = omega arith
sizes-push_members (short_string text) vs = omega arith
sizes-push_members (long_string text) vs = omega arith
sizes-push_members (byte_array bytes) vs = omega arith

weights-push_items :
    (items : Items) (vs : List AmqpValue)
    → weights (push_items items vs) ≡ weight_items items + weights vs
weights-push_items no_items vs = omega arith
weights-push_items (item v items) vs = omega (arith, weights-push_items items (v ∷ vs))

-- The keys of a table, unsaturated.
abbrev key_weight : Fields → ℕ
key_weight no_fields = 0
key_weight (entry k v fields) = length (as_bytes k) + key_weight fields

weights-push_fields :
    (fields : Fields) (vs : List AmqpValue)
    → key_weight fields + weights (push_fields fields vs) ≡ weight_fields fields + weights vs
weights-push_fields no_fields vs = omega arith
weights-push_fields (entry k v fields) vs = omega (arith, weights-push_fields fields (v ∷ vs))

key_lengths-saturate :
    (keys : ℕ) (fields : Fields)
    → keys ≤ usize_max
    → key_lengths keys fields ≡ saturating_add keys (key_weight fields)
key_lengths-saturate keys no_fields h = ground arith
key_lengths-saturate keys (entry k v fields) h =
    ground (arith, key_lengths-saturate (saturating_add keys (length (as_bytes k))) fields)

-- What a step adds, and what it leaves for later, in all.
grown_weight :
    (max measured : ℕ) (v : AmqpValue) (vs : List AmqpValue)
    → max < usize_max
    → measured ≤ max
    → ((saturating_add measured (contribution v) ≤ max)
        × (saturating_add measured (contribution v) + weights (push_members v vs)
            ≡ measured + (weight v + weights vs)))
      ⊎ ((max < saturating_add measured (contribution v))
          × (max < measured + (weight v + weights vs)))
unfolding contribution
grown_weight max measured (field_array items) vs h k = ground (arith, weights-push_items items vs)
grown_weight max measured (field_table fields) vs h k =
    ground (arith, weights-push_fields fields vs, key_lengths-saturate 0 fields)
grown_weight max measured boolean vs h k = ground arith
grown_weight max measured short_short_int vs h k = ground arith
grown_weight max measured short_short_uint vs h k = ground arith
grown_weight max measured short_int vs h k = ground arith
grown_weight max measured short_uint vs h k = ground arith
grown_weight max measured long_int vs h k = ground arith
grown_weight max measured long_uint vs h k = ground arith
grown_weight max measured float vs h k = ground arith
grown_weight max measured (long_long_int n) vs h k = ground arith
grown_weight max measured double vs h k = ground arith
grown_weight max measured timestamp vs h k = ground arith
grown_weight max measured decimal vs h k = ground arith
grown_weight max measured void vs h k = ground arith
grown_weight max measured (short_string text) vs h k = ground arith
grown_weight max measured (long_string text) vs h k = ground arith
grown_weight max measured (byte_array bytes) vs h k = ground arith

-- The verdict on a weight.
abbrev pub Measured : ℕ → ℕ → Checked ℕ → Type 0
Measured max w out =
    ((w ≤ max) × (out ≡ ok w))
    ⊎ ((max < w)
        × ((actual : ℕ) × (max < actual)
            × (out ≡ err (metadata_limit_exceeded value_bytes actual max))))

measure_loop-Measured :
    (fuel max : ℕ) (pending : List AmqpValue) (measured : ℕ)
    → max < usize_max
    → sizes pending ≤ fuel
    → measured ≤ max
    → Measured max (measured + weights pending) (measure_loop fuel max pending measured)
unfolding measure_loop
measure_loop-Measured fuel max [] measured h f k = inl (omega (arith, k), ap ok (omega arith))
measure_loop-Measured zero max (v ∷ vs) measured h f k =
    absurd (omega (arith, f, sizes-push_members v vs))
measure_loop-Measured (suc fuel) max (v ∷ vs) measured h f k =
    elim (grown_weight max measured v vs h k) [
      | inl (fits, same) ↦ rw (le→leb (saturating_add measured (contribution v)) max fits) (
          subst
            (λ w. Measured max w (
              measure_loop fuel max (push_members v vs) (saturating_add measured (contribution v))))
            same
            (measure_loop-Measured fuel max (push_members v vs)
              (saturating_add measured (contribution v)) h
              (omega (arith, f, sizes-push_members v vs)) fits))
      | inr (over, more) ↦ inr (
        more,
        (
          saturating_add measured (contribution v),
          over,
          (let late : leb (saturating_add measured (contribution v)) max ≡ false =
                ground (arith, over) in
              rw late refl),
        ),
      )
    ]

-- The loop ends within its fuel and agrees with the recursive measure: a value is measured in full
-- where its bytes, nested ones included, fit the limit, and is refused with a greater size where they do
-- not. The limit is below the greatest `usize`.
pub measure_value-Measured :
    (v : AmqpValue) (max : ℕ) → max < usize_max → Measured max (weight v) (measure_value v max)
unfolding measure_value
measure_value-Measured v max h =
    subst (λ w. Measured max w (measure_loop (size_of v) max (v ∷ []) 0)) (omega arith)
      (measure_loop-Measured (size_of v) max (v ∷ []) 0 h (omega arith) (omega arith))
