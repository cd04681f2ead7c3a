-- ===== src/Bus/Security/Tests.antt =====
-- The theorems about the envelope security at concrete envelopes.
use hexeract.Common.{ℕ, ◌+◌, ◌*◌, ◌≡◌, refl, sym, ◌∙◌, some, none, List, [], ◌∷◌, length, arith}
use mathlib.Core.List.{Permᴰ, Mem, mem-cons_self}
use mathlib.Core.List.Permᴰ
use hexeract.Common.Bytes.{Bytes}
use hexeract.Common.Result.{ok}
use hexeract.Clock.{unix_epoch}
use hexeract.Bus.Envelope.{BusEnvelope, header, is_reserved_header}
use hexeract.Bus.Security.Types.{identity, as_wire_str, from_wire_str, verification_key}
use hexeract.Bus.Security.Canonical.{
  CanonicalBinding, canonical_representation, push_all, push_field, push_optional_field, push_pairs,
  push_counted, frame, covered_pairs, is_security_header,
}
use hexeract.Bus.Security.Canonical.Covered.{InRange, SameCovered, canonical_representation-inj}
use hexeract.Bus.Security.Canonical.Order.{canonical_representation-order_independent}
use hexeract.Bus.Security.Verifier.{
  static_source, binding_of, verify, verify_raw, verify_claims, resolve_key, resolved, read_claims,
  read_signature, read_principal, read_algorithm, read_identity, required_header, check_signature,
}
use hexeract.Bus.Security.Acceptance.{Unforged, verify-SameCovered}
use hexeract.Bus.Security.Throttle.{verify_all, verify_all_throttled}
use hexeract.Bus.Security.Samples.{
  keyed, pinned, order, billing, verifier_with, bytes_or_nil, signed_order,
}
use hexeract.Common.Sort.{sort_by}

abbrev same_bytes : Bytes → Bytes
same_bytes b = b

abbrev orders : CanonicalBinding
orders = binding_of keyed "orders" billing

-- The order, its headers listed the other way round.
abbrev reordered : BusEnvelope
reordered = record order { headers = ("region", "eu") ∷ ("tenant", "acme") ∷ [] }

abbrev order_bytes : Bytes
order_bytes = bytes_or_nil (canonical_representation same_bytes order orders)

order_signed : canonical_representation same_bytes order orders ≡ ok order_bytes
unfolding canonical_representation push_all push_field push_optional_field push_pairs push_counted
    frame covered_pairs is_security_header sort_by unix_epoch as_wire_str
order_signed = refl

reordered_signed : canonical_representation same_bytes reordered orders ≡ ok order_bytes
unfolding canonical_representation push_all push_field push_optional_field push_pairs push_counted
    frame covered_pairs is_security_header sort_by unix_epoch as_wire_str
reordered_signed = refl

order-InRange : InRange order
unfolding unix_epoch
order-InRange = record { id = ground arith; correlation = ground arith; seconds = ground arith }

reordered-InRange : InRange reordered
unfolding unix_epoch
reordered-InRange = record { id = ground arith; correlation = ground arith; seconds = ground arith }

canonical_representation-inj_example : SameCovered same_bytes order orders reordered orders
canonical_representation-inj_example =
    canonical_representation-inj same_bytes order reordered orders orders order_bytes order-InRange
      reordered-InRange order_signed reordered_signed

canonical_representation-order_independent_example :
    canonical_representation same_bytes reordered orders
    ≡ canonical_representation same_bytes order orders
canonical_representation-order_independent_example =
    canonical_representation-order_independent same_bytes order orders reordered.headers
      reordered.protocol_headers (Permᴰ.swap refl refl) (Permᴰ.refl order.protocol_headers)

signed_order-InRange : InRange signed_order
unfolding unix_epoch
signed_order-InRange = record {
  id = ground arith;
  correlation = ground arith;
  seconds = ground arith;
}

-- The key under which the checksum of the order is the signature that it carries.
abbrev order_key : ℕ
order_key = 3 + 9 * length order_bytes

order_accepted :
    (verify keyed static_source 5 (verifier_with order_key none) signed_order "orders").1
    ≡ ok (some billing)
unfolding canonical_representation push_all push_field push_optional_field push_pairs push_counted
    frame covered_pairs is_security_header sort_by unix_epoch as_wire_str verify verify_raw
    verify_claims resolve_key resolved read_claims read_signature read_principal read_algorithm
    read_identity required_header check_signature header is_reserved_header identity from_wire_str
    verification_key
order_accepted = refl

key_known : verification_key (verifier_with order_key none).keys "billing" "k1" ≡ ok order_key
unfolding verification_key
key_known = refl

signed_order_signed : canonical_representation same_bytes signed_order orders ≡ ok order_bytes
unfolding canonical_representation push_all push_field push_optional_field push_pairs push_counted
    frame covered_pairs is_security_header sort_by unix_epoch as_wire_str
signed_order_signed = refl

-- The order is what the holder of the key has signed.
abbrev sent : List (BusEnvelope × CanonicalBinding)
sent = (order, orders) ∷ []

signed_order-Unforged :
    Unforged keyed (static_source {SigningKey = ℕ}) order_key sent signed_order orders
signed_order-Unforged raw x s carried decoded canonical checked = (
  order,
  orders,
  mem-cons_self,
  order-InRange,
  order_signed ∙ sym signed_order_signed ∙ canonical,
)

verify-SameCovered_example :
    (f : BusEnvelope) × (c : CanonicalBinding) × Mem (f, c) sent
    × SameCovered keyed.digest signed_order (binding_of keyed "orders" billing) f c
verify-SameCovered_example =
    verify-SameCovered keyed static_source 5 (verifier_with order_key none) signed_order "orders"
      billing order_key sent signed_order-InRange key_known signed_order-Unforged order_accepted

verify_all_throttled_example :
    verify_all pinned static_source
      (verifier_with [] (some 100))
      ((110, signed_order, "orders") ∷ (120, order, "orders") ∷ [])
    ≡ verifier_with [] (some 100)
verify_all_throttled_example =
    verify_all_throttled pinned static_source 100 (verifier_with [] (some 100))
      ((110, signed_order, "orders") ∷ (120, order, "orders") ∷ []) refl
      (ground arith, (ground arith, tt))
