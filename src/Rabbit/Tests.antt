-- ===== src/Rabbit/Tests.antt =====
-- The theorems about the RabbitMQ transport at concrete deliveries.
use hexeract.Common.{ℕ, ◌≡◌, refl, some, none, [], ◌∷◌, arith, ==_refl, ap}
use hexeract.Common.Result.{ok, err}
use hexeract.Common.Sort.{sort_by}
use hexeract.Clock.{unix_epoch, last_instant}
use hexeract.Bus.Envelope.{Headers, is_reserved_header, wire_headers, validate_application_headers}
use hexeract.Bus.Security.Types.{identity, verification_key, as_wire_str, Secured}
use hexeract.Bus.Security.Canonical.{
  canonical_representation, push_all, push_field, push_optional_field, push_pairs, push_counted,
  frame, covered_pairs, is_security_header,
}
use hexeract.Bus.Security.Verifier.{static_source, sign, verify}
use hexeract.Bus.Security.Completeness.{Valid}
use hexeract.Bus.Security.Samples.{
  keyed, order, billing, verifier_with, unary, length-unary, checksum,
}
use hexeract.Rabbit.Metadata.{
  default_limits, AmqpValue, long_string, boolean, field_array, field_table, item, no_items, entry,
  no_fields, measure_value,
}
use hexeract.Rabbit.Metadata.Measure.{weight, Measured, measure_value-Measured}
use hexeract.Rabbit.Metadata.Keys.{DistinctFrom}
use hexeract.Rabbit.Metadata.RoundTrip.{framework_headers}
use hexeract.Rabbit.Metadata.Encoding.{
  keys_of, encode_headers, encode_fields, check_sizes, to_short_string,
}
use hexeract.Rabbit.Delivery.{strict, envelope_to_properties, delivery_to_envelope}
use hexeract.Rabbit.Samples.{try_new, parse, from_utf8, order_props, minted}
use hexeract.Rabbit.Delivery.RoundTrip.{
  received, Publishable, delivery_to_envelope-envelope_to_properties,
}
use hexeract.Rabbit.Delivery.Signed.{Laws, verify-sign}

abbrev nested : AmqpValue
nested = field_table (
    entry "count" boolean
      (entry "list" (field_array (item (long_string (1 ∷ 2 ∷ [])) no_items)) no_fields))

measure_value-Measured_example : Measured 100 (weight nested) (measure_value nested 100)
measure_value-Measured_example = measure_value-Measured nested 100 (ground arith)

unary_parses : (n : ℕ) → parse (unary n) ≡ some n
unary_parses n = ap some (length-unary n)

order_published :
    envelope_to_properties try_new unary order default_limits none none ≡ ok order_props
unfolding envelope_to_properties encode_headers encode_fields check_sizes to_short_string
    wire_headers validate_application_headers is_reserved_header unix_epoch
order_published = refl

order-Publishable : Publishable order none
unfolding is_reserved_header unix_epoch last_instant
order-Publishable = record {
  application_distinct = (tt, ((refl, tt), tt));
  framework_distinct = (tt, tt);
  framework_reserved = (refl, refl, tt);
  time = ground arith;
}

delivery_to_envelope-envelope_to_properties_example :
    delivery_to_envelope from_utf8 parse order_props order.payload 1000 default_limits strict minted
    ≡ ok (received order none)
delivery_to_envelope-envelope_to_properties_example =
    delivery_to_envelope-envelope_to_properties try_new unary from_utf8 parse unary_parses order
      default_limits none none order_props 1000 strict minted (ground arith) order-Publishable
      (refl, (refl, tt)) (refl, tt) (ground arith) order_published

abbrev headers_or_nil : Secured Headers → Headers
headers_or_nil (ok headers) = headers
headers_or_nil (err _) = []

abbrev order_security : Headers
order_security = headers_or_nil (sign keyed "billing" (ok ("k1", 4)) order "orders" "ledger")

order_signs : sign keyed "billing" (ok ("k1", 4)) order "orders" "ledger" ≡ ok order_security
unfolding sign canonical_representation push_all push_field push_optional_field push_pairs
    push_counted frame covered_pairs is_security_header sort_by unix_epoch as_wire_str
order_signs = refl

keyed_Laws : Laws keyed
keyed_Laws = record {
  decode-encode = λ s. ap (λ n. some (n ∷ [])) (length-unary s);
  from_slice-to_bytes = λ s. refl;
}

billing-Valid : Valid billing
unfolding identity
billing-Valid = record { issuer = refl; audience = refl; key_id = refl }

billing_known : verification_key {Key = ℕ} (verifier_with 4 none).keys "billing" "k1" ≡ ok 4
unfolding verification_key
billing_known = refl

order_distinct : DistinctFrom [] (keys_of (framework_headers order (some order_security)))
unfolding sign canonical_representation push_all push_field push_optional_field push_pairs
    push_counted frame covered_pairs is_security_header sort_by unix_epoch as_wire_str
order_distinct = (
  tt,
  (
    (refl, tt),
    (
      (refl, (refl, tt)),
      (
        (refl, (refl, (refl, tt))),
        (
          (refl, (refl, (refl, (refl, tt)))),
          (
            (refl, (refl, (refl, (refl, (refl, tt))))),
            ((refl, (refl, (refl, (refl, (refl, (refl, tt)))))), tt),
          ),
        ),
      ),
    ),
  ),
)

verify-sign_example :
    (verify keyed static_source 5
      (verifier_with 4 none)
      (received order (some order_security))
      "orders").1
    ≡ ok (some billing)
verify-sign_example =
    verify-sign keyed keyed_Laws static_source 5 (verifier_with 4 none) order "orders" "billing"
      "ledger" "k1" 4 4 order_security (λ m. ==_refl (checksum 4 m)) billing_known billing-Valid
      refl order_distinct order_signs
