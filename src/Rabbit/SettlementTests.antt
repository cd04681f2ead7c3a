-- ===== src/Rabbit/SettlementTests.antt =====
-- The theorems about the RabbitMQ consumer worker at a concrete delivery.
use Prim.Native.String.{String}
use hexeract.Common.{◌≡◌, refl, Option, some, none, List, [], ◌∷◌}
use hexeract.Common.Result.{ok, err}
use hexeract.Clock.{unix_epoch, checked_add, last_instant}
use hexeract.Bus.Envelope.{
  BusEnvelope, is_reserved_header, wire_headers, validate_application_headers,
}
use hexeract.Bus.Error.{internal, Checked, is_permanent_delivery_failure}
use hexeract.Bus.Security.Types.{Secured, VerifiedPrincipal}
use hexeract.Bus.Security.Samples.{order}
use hexeract.Rabbit.Metadata.{default_limits, measure_value, measure_loop, contribution}
use hexeract.Rabbit.Metadata.Encoding.{
  encode_headers, encode_fields, check_sizes, to_short_string, decode_headers, decode_entries,
  check_total, text_of,
}
use hexeract.Rabbit.Delivery.{
  PublisherAuthentication, not_enforced, envelope_to_properties, delivery_to_envelope,
  derive_required_envelope_fields, authentication_from_verification,
}
use hexeract.Rabbit.Settlement.{
  manual, RabbitMqWorkerConfig, Broker, Delivery, dispatch, verify_before_settlement,
  handle_manual_outcome, route_failure, retry_core, publish_then_settle,
}
use hexeract.Rabbit.Worker.{death_count}
use hexeract.Rabbit.Settlement.Once.{settlements, dispatch-settles_once}
use hexeract.Rabbit.Settlement.Handled.{visits, Admitted, dispatch-Admitted}
use hexeract.Rabbit.Settlement.Kept.{Kept}
use hexeract.Rabbit.Samples.{parse, from_utf8, order_props, minted}

abbrev worker : RabbitMqWorkerConfig
worker = record {
  ack_mode = manual;
  max_attempts = 3;
  dead_letter_routing_key = some "dead";
  max_payload_bytes = 1000;
  metadata_limits = default_limits;
  policy = none;
}

abbrev broker : Broker
broker = record {
  ack = ok tt;
  nack = ok tt;
  publish_to_wait_queue = ok tt;
  publish_dead_letter = ok tt;
}

abbrev no_verifier : BusEnvelope → String → Secured (Option VerifiedPrincipal)
no_verifier e destination = ok none

-- The handler of every type fails.
abbrev failing :
    String → Option (BusEnvelope → PublisherAuthentication → Option (Checked (Unit {0})))
failing message_type = some (λ e a. some (err (internal "out of stock")))

abbrev delivery : Delivery
delivery = record { properties = order_props; data' = order.payload; routing_key = "orders" }

delivery_visits :
    visits (dispatch from_utf8 parse no_verifier failing worker broker "orders" delivery minted).0
    ≡ not_enforced ∷ []
unfolding dispatch delivery_to_envelope derive_required_envelope_fields decode_headers check_sizes
    check_total decode_entries text_of measure_value measure_loop contribution is_reserved_header
    checked_add unix_epoch last_instant verify_before_settlement authentication_from_verification
    handle_manual_outcome route_failure is_permanent_delivery_failure retry_core publish_then_settle
    death_count envelope_to_properties encode_headers encode_fields to_short_string wire_headers
    validate_application_headers
delivery_visits = refl

dispatch-settles_once_example :
    settlements
      (dispatch from_utf8 parse no_verifier failing worker broker "orders" delivery minted).0
    ≡ 1
dispatch-settles_once_example =
    dispatch-settles_once from_utf8 parse no_verifier failing worker broker "orders" delivery minted

dispatch-Admitted_example :
    Admitted from_utf8 parse no_verifier failing worker delivery minted not_enforced
    × (◌≡◌ {A = List PublisherAuthentication} [] [])
dispatch-Admitted_example =
    dispatch-Admitted from_utf8 parse no_verifier failing worker broker "orders" delivery minted
      not_enforced [] delivery_visits
