-- ===== src/Rabbit/Metadata/RoundTrip.antt =====
-- What is encoded as AMQP headers is decoded again:
-- crates/hexeract-bus-rabbitmq/src/metadata.rs.
use Prim.Native.String.{String}
use hexeract.Common.{
  ℕ, ◌≤◌, ◌≡◌, refl, sym, subst, ◌∙◌, ap, Option, some, Bool, true, false, not, List, [], ◌∷◌, ◌++◌,
  leb, length, arith, leb→le, le→leb, Bool-cases, inl, inr,
}
use mathlib.Core.List.{append_assoc, append-nil}
use hexeract.Common.Bytes.{Bytes, as_bytes}
use hexeract.Common.Result.{ok, guard, bind_ok, guard_ok}
use hexeract.Bus.Envelope.{
  BusEnvelope, Headers, is_reserved_header, put_header, validate_application_headers, wire_headers,
  any_reserved,
}
use hexeract.Bus.Error.{
  header_count, key_bytes, value_bytes, total_bytes, reserved_header_namespace,
  metadata_limit_exceeded,
}
use hexeract.Rabbit.Metadata.{
  AmqpMetadataLimits, long_string, FieldTable, saturating_add, usize_max, measure_value,
  measure_loop, contribution,
}
use hexeract.Rabbit.Metadata.Encoding.{
  security_entries, all_headers, keys_of, values_of, check_sizes, total_size, to_short_string,
  encode_fields, encode_headers, check_total, text_of, decode_entries, decode_headers,
}
use hexeract.Rabbit.Metadata.Keys.{
  DistinctFrom, Reserved, as_fields, put_fresh, keys_of-append, keys_of-as_fields, length-as_fields,
  as_fields-append, fresh_after_application, distinct_append,
}

module _ (try_new : String → Bool) where
  pub to_short_string-ok : (k name key : String) → to_short_string try_new k name ≡ ok key → k ≡ key
  unfolding to_short_string
  to_short_string-ok k name key h = elim (Bool-cases (try_new k)) [
    | inl t ↦ cc (rw t at h)
    | inr t ↦ absurd (cc (rw t at h))
  ]

  encode_fields-ok :
      (m : Headers) (fields table : FieldTable)
      → DistinctFrom (keys_of fields) (keys_of m)
      → encode_fields try_new fields m ≡ ok table
      → table ≡ fields ++ as_fields m
  unfolding encode_fields
  encode_fields-ok [] fields table d h = cc (append-nil fields, h)
  encode_fields-ok ((k, v) ∷ m) fields table (a, d) h =
      let (key, p, q) = bind_ok (to_short_string try_new k "header key") _ _ h in
      let placed : put_header key (long_string (as_bytes v)) fields
          ≡ fields ++ ((k, long_string (as_bytes v)) ∷ []) =
        ap (λ j. put_header j (long_string (as_bytes v)) fields)
          (sym (to_short_string-ok k "header key" key p))
        ∙ put_fresh k (long_string (as_bytes v)) fields a in
      let distinct =
        subst (λ ks. DistinctFrom ks (keys_of m))
          (sym (keys_of-append fields ((k, long_string (as_bytes v)) ∷ []))) d in
      encode_fields-ok m (fields ++ ((k, long_string (as_bytes v)) ∷ [])) table distinct
        (ap (λ f. encode_fields try_new f m) (sym placed) ∙ q)
      ∙ append_assoc fields ((k, long_string (as_bytes v)) ∷ []) (as_fields m)

total_size_grows : (t : ℕ) (m : Headers) → t ≤ usize_max → t ≤ total_size t m
total_size_grows t [] h = omega arith
total_size_grows t ((k, v) ∷ m) h = ground (
  arith,
  total_size_grows (saturating_add (saturating_add t (length (as_bytes k))) (length (as_bytes v)))
      m,
)

measure_text :
    (bytes : Bytes) (max : ℕ)
    → max ≤ usize_max
    → length bytes ≤ max
    → measure_value (long_string bytes) max ≡ ok (length bytes)
unfolding measure_value measure_loop contribution
measure_text bytes max h k = ground arith

check_total-ok :
    (limits : AmqpMetadataLimits) (total : ℕ) (m : Headers)
    → limits.max_value_bytes ≤ usize_max
    → total ≤ usize_max
    → check_sizes value_bytes limits.max_value_bytes (values_of m) ≡ ok tt
    → total_size total m ≤ limits.max_total_bytes
    → check_total limits total (as_fields m) ≡ ok tt
unfolding check_total check_sizes
check_total-ok limits total [] u b h k = refl
check_total-ok limits total ((key, v) ∷ m) u b h k =
    let grown =
      saturating_add (saturating_add total (length (as_bytes key))) (length (as_bytes v)) in
    let (w, g, rest) =
      bind_ok
        (guard (leb (length (as_bytes v)) limits.max_value_bytes)
          (metadata_limit_exceeded value_bytes (length (as_bytes v)) limits.max_value_bytes))
        _ tt h in
    let fits = leb→le (length (as_bytes v)) limits.max_value_bytes (guard_ok _ _ w g) in
    let small : grown ≤ usize_max = ground arith in
    let within : leb grown limits.max_total_bytes ≡ true =
      le→leb grown limits.max_total_bytes (omega (arith, k, total_size_grows grown m small)) in
    rw (measure_text (as_bytes v) limits.max_value_bytes u fits, within)
      (check_total-ok limits grown m u small rest k)

-- The standard library reads back each text from its bytes.
abbrev pub Readable : (Bytes → Option String) → List String → Type 0
Readable from_utf8 [] = Unit
Readable from_utf8 (s ∷ ss) = (from_utf8 (as_bytes s) ≡ some s) × Readable from_utf8 ss

module _ (from_utf8 : Bytes → Option String) where
  read_text :
      (s : String)
      → from_utf8 (as_bytes s) ≡ some s
      → text_of from_utf8 (long_string (as_bytes s)) ≡ ok (some s)
  unfolding text_of
  read_text s h = rw h refl

  decode_application :
      (m : Headers) (application protocol : Headers) (rest : FieldTable)
      → Readable from_utf8 (values_of m)
      → any_reserved m ≡ false
      → DistinctFrom (keys_of application) (keys_of m)
      → decode_entries from_utf8 (application, protocol) (as_fields m ++ rest)
        ≡ decode_entries from_utf8 (application ++ m, protocol) rest
  unfolding decode_entries
  decode_application [] application protocol rest t r d =
      ap (λ l. decode_entries from_utf8 (l, protocol) rest) (sym (append-nil application))
  decode_application ((k, v) ∷ m) application protocol rest (t, ts) r (a, d) =
      let free : is_reserved_header k ≡ false = ground (arith, r) in
      let others : any_reserved m ≡ false = ground (arith, r) in
      let distinct =
        subst (λ ks. DistinctFrom ks (keys_of m)) (sym (keys_of-append application ((k, v) ∷ [])))
          d in
      rw (free, read_text v t, put_fresh k v application a)
        (decode_application m (application ++ ((k, v) ∷ [])) protocol rest ts others distinct
          ∙ ap (λ l. decode_entries from_utf8 (l, protocol) rest)
              (append_assoc application ((k, v) ∷ []) m))

  decode_protocol :
      (m : Headers) (application protocol : Headers)
      → Readable from_utf8 (values_of m)
      → Reserved (keys_of m)
      → DistinctFrom (keys_of protocol) (keys_of m)
      → decode_entries from_utf8 (application, protocol) (as_fields m)
        ≡ ok (application, protocol ++ m)
  unfolding decode_entries
  decode_protocol [] application protocol t r d =
      ap (λ l. ok (application, l)) (sym (append-nil protocol))
  decode_protocol ((k, v) ∷ m) application protocol (t, ts) (own, lower, r) (a, d) =
      let distinct =
        subst (λ ks. DistinctFrom ks (keys_of m)) (sym (keys_of-append protocol ((k, v) ∷ []))) d in
      rw (own, lower, read_text v t, put_fresh k v protocol a)
        (decode_protocol m application (protocol ++ ((k, v) ∷ [])) ts r distinct
          ∙ ap (λ l. ok (application, l)) (append_assoc protocol ((k, v) ∷ []) m))

-- What the checks of the publisher establish of the headers.
record Checks (limits : AmqpMetadataLimits) (m : Headers) : Type 0 where
  count : leb (length m) limits.max_headers ≡ true
  key_sizes : check_sizes key_bytes limits.max_key_bytes (keys_of m) ≡ ok tt
  value_sizes : check_sizes value_bytes limits.max_value_bytes (values_of m) ≡ ok tt
  total : total_size 0 m ≤ limits.max_total_bytes

-- The headers that an envelope is published with.
abbrev pub framework_headers : BusEnvelope → Option Headers → Headers
framework_headers envelope security = envelope.protocol_headers ++ security_entries security

module _ (try_new : String → Bool) where
  encode_headers-ok :
      (e : BusEnvelope) (limits : AmqpMetadataLimits) (security : Option Headers)
      (table : FieldTable)
      → encode_headers try_new e limits security ≡ ok table
      → (any_reserved e.headers ≡ false)
        × Checks limits (all_headers e security)
        × (encode_fields try_new [] (all_headers e security) ≡ ok table)
  unfolding encode_headers validate_application_headers
  encode_headers-ok e limits security table h =
      let all = all_headers e security in
      let (a, free, h₁) =
        bind_ok (guard (not (any_reserved e.headers)) reserved_header_namespace) _ _ h in
      let (b, count, h₂) =
        bind_ok
          (guard (leb (length all) limits.max_headers)
            (metadata_limit_exceeded header_count (length all) limits.max_headers))
          _ _ h₁ in
      let (_, keys, h₃) =
        bind_ok (check_sizes key_bytes limits.max_key_bytes (keys_of all)) _ _ h₂ in
      let (_, values, h₄) =
        bind_ok (check_sizes value_bytes limits.max_value_bytes (values_of all)) _ _ h₃ in
      let (c, total, h₅) =
        bind_ok
          (guard (leb (total_size 0 all) limits.max_total_bytes)
            (metadata_limit_exceeded total_bytes (total_size 0 all) limits.max_total_bytes))
          _ _ h₄ in
      let own : not (any_reserved e.headers) ≡ true = guard_ok _ reserved_header_namespace a free in
      (
        ground (arith, own),
        record {
          count = guard_ok (leb (length all) limits.max_headers) _ b count;
          key_sizes = keys;
          value_sizes = values;
          total = leb→le (total_size 0 all) limits.max_total_bytes (guard_ok _ _ c total);
        },
        h₅,
      )

module _ (from_utf8 : Bytes → Option String) where
  decode_headers-ok :
      (limits : AmqpMetadataLimits) (m n : Headers)
      → limits.max_value_bytes ≤ usize_max
      → Checks limits (m ++ n)
      → Readable from_utf8 (values_of m)
      → Readable from_utf8 (values_of n)
      → any_reserved m ≡ false
      → DistinctFrom [] (keys_of m)
      → DistinctFrom [] (keys_of n)
      → Reserved (keys_of n)
      → decode_headers from_utf8 (some (as_fields (m ++ n))) limits ≡ ok (m, n)
  unfolding decode_headers
  decode_headers-ok limits m n u c tm tn free dm dn r =
      let decoded : decode_entries from_utf8 ([], []) (as_fields (m ++ n)) ≡ ok (m, n) =
        ap (decode_entries from_utf8 ([], [])) (as_fields-append m n)
        ∙ decode_application from_utf8 m [] [] (as_fields n) tm free dm
        ∙ decode_protocol from_utf8 n m [] tn r dn in
      rw
        (
          length-as_fields (m ++ n),
          c.count,
          keys_of-as_fields (m ++ n),
          c.key_sizes,
          check_total-ok limits 0 (m ++ n) u (omega arith) c.value_sizes c.total,
        )
        decoded

module _ (try_new : String → Bool) (from_utf8 : Bytes → Option String) where
  -- Metadata survives the wire: where an envelope is encoded, under limits that are words of the
  -- machine, its header values are read back from their bytes, its application headers are distinct, and its protocol and security headers are
  -- distinct, reserved and in lower case, the receiver with the same limits accepts the table and
  -- restores the application headers, and as protocol headers the protocol and the security headers.
  pub decode_headers-encode_headers :
      (e : BusEnvelope) (limits : AmqpMetadataLimits) (security : Option Headers)
      (table : FieldTable)
      → limits.max_value_bytes ≤ usize_max
      → Readable from_utf8 (values_of e.headers)
      → Readable from_utf8 (values_of (framework_headers e security))
      → DistinctFrom [] (keys_of e.headers)
      → DistinctFrom [] (keys_of (framework_headers e security))
      → Reserved (keys_of (framework_headers e security))
      → encode_headers try_new e limits security ≡ ok table
      → decode_headers from_utf8 (some table) limits ≡ ok (e.headers, framework_headers e security)
  unfolding wire_headers
  decode_headers-encode_headers e limits security table u ta tp da dp r h =
      let (free, c, encoded) = encode_headers-ok try_new e limits security table h in
      let regrouped = append_assoc e.headers e.protocol_headers (security_entries security) in
      let n = framework_headers e security in
      let reserved = fresh_after_application e.headers [] (keys_of n) free r dp in
      let distinct : DistinctFrom [] (keys_of (e.headers ++ n)) =
        subst (λ ks. DistinctFrom [] ks) (sym (keys_of-append e.headers n))
          (distinct_append [] (keys_of e.headers) (keys_of n) da (
            subst (λ ks. DistinctFrom ks (keys_of n)) (append-nil (keys_of e.headers)) reserved)) in
      let table_is : table ≡ as_fields (e.headers ++ n) =
        encode_fields-ok try_new (e.headers ++ n) [] table distinct
          (ap (encode_fields try_new []) (sym regrouped) ∙ encoded) in
      ap (λ t. decode_headers from_utf8 (some t) limits) table_is
      ∙ decode_headers-ok from_utf8 limits e.headers n u (subst (Checks limits) regrouped c) ta tp
          free da dp r
