-- ===== src/Rabbit/Settlement.antt =====
-- The consumer worker's handling of one delivery: crates/hexeract-bus-rabbitmq/src/worker.rs. What
-- the worker does is a list of actions, in order. A handler that panics answers none.
pub mod Once
pub mod Vouched
pub mod Handled
pub mod Kept
use Prim.Native.String.{String}
use text.Mathlib.Text.{◌==◌ as str_eq}
use Prim.Native.String as String
use hexeract.Common.{
  ℕ, zero, suc, ◌+◌, Option, some, none, Bool, true, false, ◌&&◌, ◌||◌, not, List, [], ◌∷◌, ◌++◌,
  leb, ltb, ◌==◌, if◌then◌else◌,
}
use mathlib.Core.Option as Option
use hexeract.Common.Bytes.{Bytes, as_bytes, bytes_lt}
use hexeract.Common.Int.{ℤ, pos, negsuc}
use hexeract.Common.Result.{Result, ok, err}
use hexeract.Clock.{u32_max}
use hexeract.Bus.Envelope.{BusEnvelope}
use hexeract.Bus.Error.{
  BusError, unroutable, internal, missing_handler, envelope_security, Checked,
  is_permanent_delivery_failure, needs_sanitized_quarantine,
}
use hexeract.Bus.Security.Types.{
  EnvelopeSecurityError, broker_user_mismatch, Secured, VerificationPolicy, VerifiedPrincipal,
}
use hexeract.Rabbit.Metadata.{
  AmqpMetadataLimits, AmqpValue, long_string, long_long_int, field_array, field_table, Items,
  no_items, item, Fields, no_fields, entry, FieldTable,
}
use hexeract.Rabbit.Delivery.{
  BasicProperties, Minted, derive_required_envelope_fields, delivery_to_envelope,
  PublisherAuthentication, authentication_from_verification,
}
pub use hexeract.Rabbit.Worker.{
  AckMode, DeliveryDisposition, from_settle_result, RabbitMqWorkerConfig, Broker, Action, Handling,
  table_field, entry_field, deaths_of, death_count, wait_queue_name, manual, ack_on_receive,
  unacknowledged, settled, left_for_redelivery, acked, nacked, retried, dead_lettered, handled,
}

pub data FailureRoute : Type 0 where
  retry : FailureRoute
  dead_letter : ℕ → FailureRoute

unfoldable pub route_failure : BusError → ℕ → ℕ → FailureRoute
route_failure error attempt max_attempts =
    if is_permanent_delivery_failure error
    then dead_letter 0
    else if ltb attempt max_attempts
    then retry
    else dead_letter attempt

unfoldable pub requeue_on_publish_failure : BusError → Bool
requeue_on_publish_failure (unroutable _ _ _) = false
requeue_on_publish_failure _ = true

abbrev pub settle_by_ack : Broker → Handling
settle_by_ack b = (acked ∷ [], from_settle_result b.ack)

abbrev pub settle_by_nack : Broker → Bool → Handling
settle_by_nack b requeue = (nacked requeue ∷ [], from_settle_result b.nack)

abbrev pub after : List Action → Handling → Handling
after actions (more, disposition) = (actions ++ more, disposition)

-- A copy that the broker confirmed is an action; a publication that failed is none.
unfoldable pub publish_then_settle : Checked (Unit {0}) → Action → Broker → Handling → Handling
publish_then_settle (ok _) copy b final = after (copy ∷ []) final
publish_then_settle (err error) copy b final = settle_by_nack b (requeue_on_publish_failure error)

unfoldable pub retry_core : Broker → Handling
retry_core b = publish_then_settle b.publish_to_wait_queue retried b (settle_by_ack b)

unfoldable pub exhausted_core : Option Action → Broker → Handling → Handling
exhausted_core none b final = final
exhausted_core (some copy) b final = publish_then_settle b.publish_dead_letter copy b final

-- The copy for the dead-letter queue, where one is configured.
abbrev pub dead_letter_copy : RabbitMqWorkerConfig → Bool → Option Action
dead_letter_copy c with_headers =
    Option.map (λ _. dead_lettered with_headers) c.dead_letter_routing_key

unfoldable pub handle_exhausted : RabbitMqWorkerConfig → Broker → Handling
handle_exhausted c b = exhausted_core (dead_letter_copy c true) b (settle_by_ack b)

abbrev is_configured : Option String → Bool
is_configured none = false
is_configured (some _) = true

unfoldable pub poison_settles_with_nack : AckMode → Bool → Bool
poison_settles_with_nack manual has_dead_letter = not has_dead_letter
poison_settles_with_nack _ has_dead_letter = false

abbrev pub unsettled_copy : Checked (Unit {0}) → Option Action → Handling
unsettled_copy (ok _) (some copy) = (copy ∷ [], settled)
unsettled_copy _ _ = ([], settled)

abbrev pub poison_in : AckMode → RabbitMqWorkerConfig → Broker → BusError → Handling
poison_in unacknowledged c b error =
    unsettled_copy b.publish_dead_letter
      (dead_letter_copy c (not (needs_sanitized_quarantine error)))
poison_in mode c b error =
    exhausted_core (dead_letter_copy c (not (needs_sanitized_quarantine error))) b (
      if poison_settles_with_nack mode (is_configured c.dead_letter_routing_key)
      then settle_by_nack b false
      else settle_by_ack b)

unfoldable pub handle_poison : RabbitMqWorkerConfig → Broker → BusError → Handling
handle_poison c b error = poison_in c.ack_mode c b error

abbrev pub saturating_suc : ℕ → ℕ
saturating_suc n = if ltb n u32_max then suc n else u32_max

unfoldable pub handle_manual_outcome :
    RabbitMqWorkerConfig → Broker → ℕ → Checked (Unit {0}) → Handling
handle_manual_outcome c b deaths (ok _) = settle_by_ack b
handle_manual_outcome c b deaths (err error) =
    elim (route_failure error (saturating_suc deaths) c.max_attempts) [
      | retry ↦ retry_core b
      | dead_letter attempts ↦ handle_exhausted c b
    ]

-- After the verification: what was done, and either the end or the principal.
pub data Flow : Type 0 where
  break : Handling → Flow
  continue : List Action → Option VerifiedPrincipal → Flow

abbrev pub issuer_differs : Option VerifiedPrincipal → Option String → Bool
issuer_differs (some principal) (some user) = not (str_eq principal.issuer user)
issuer_differs _ _ = false

-- `ack_on_receive`, with the broker's answer.
abbrev pub acknowledged : AckMode → Broker → Option VerifiedPrincipal → Flow
acknowledged ack_on_receive b principal = elim b.ack [
  | ok _ ↦ continue (acked ∷ []) principal
  | err _ ↦ break (acked ∷ [], left_for_redelivery)
]
acknowledged _ b principal = continue [] principal

unfoldable pub verify_before_settlement :
    RabbitMqWorkerConfig → Broker → Option String → Secured (Option VerifiedPrincipal) → Flow
verify_before_settlement c b user (err error) = break (handle_poison c b (envelope_security error))
verify_before_settlement c b user (ok principal) =
    if issuer_differs principal user
    then break (handle_poison c b (envelope_security broker_user_mismatch))
    else acknowledged c.ack_mode b principal

abbrev handler_outcome : String → Option (Option (Checked (Unit {0}))) → Checked (Unit {0})
handler_outcome message_type none = err (missing_handler message_type)
handler_outcome message_type (some none) = err (internal "handler panicked")
handler_outcome message_type (some (some outcome)) = outcome

-- The record of a delivery, as far as the worker reads it.
pub record Delivery : Type 0 where
  pub properties : BasicProperties
  pub data' : Bytes
  pub routing_key : String

-- `verifier` is the inbound security's verification, of an envelope that reached a destination;
-- `handlers` gives what the handler of a message type, if one is registered, makes of an envelope.
module _ (from_utf8 : Bytes → Option String) (parse : String → Option ℕ)
    (verifier : BusEnvelope → String → Secured (Option VerifiedPrincipal))
    (handlers : String
      → Option (BusEnvelope → PublisherAuthentication → Option (Checked (Unit {0})))) where
  abbrev pub verified :
      RabbitMqWorkerConfig → BusEnvelope → String → Secured (Option VerifiedPrincipal)
  verified c envelope destination = elim c.policy [
    | none ↦ ok none
    | some _ ↦ verifier envelope destination
  ]

  abbrev pub run_handler : BusEnvelope → PublisherAuthentication → Checked (Unit {0})
  run_handler envelope authentication =
      handler_outcome envelope.message_type
        (Option.map (λ handler. handler envelope authentication) (handlers envelope.message_type))

  abbrev pub settle_outcome :
      AckMode → RabbitMqWorkerConfig → Broker → ℕ → Checked (Unit {0}) → Handling
  settle_outcome manual c b deaths outcome = handle_manual_outcome c b deaths outcome
  settle_outcome _ c b deaths outcome = ([], settled)

  abbrev pub visit : {H : Type 0} → PublisherAuthentication → Option H → List Action
  visit authentication none = []
  visit authentication (some _) = handled authentication ∷ []

  abbrev pub handle_flow :
      RabbitMqWorkerConfig → Broker → String → Delivery → BusEnvelope → Flow → Handling
  handle_flow c b queue delivery envelope (break handling) = handling
  handle_flow c b queue delivery envelope (continue actions principal) =
      let authentication = authentication_from_verification c.policy principal in
      let deaths = death_count delivery.properties.headers (wait_queue_name queue) in
      after actions (
        after (visit authentication (handlers envelope.message_type))
          (settle_outcome c.ack_mode c b deaths (run_handler envelope authentication)))

  -- `dispatch`, once the delivery is decoded.
  abbrev pub dispatch_decoded :
      RabbitMqWorkerConfig → Broker → String → Delivery → Checked BusEnvelope → Handling
  dispatch_decoded c b queue delivery (err error) = handle_poison c b error
  dispatch_decoded c b queue delivery (ok envelope) = handle_flow c b queue delivery envelope (
      verify_before_settlement c b delivery.properties.user_id
        (verified c envelope delivery.routing_key))

  unfoldable pub dispatch : RabbitMqWorkerConfig → Broker → String → Delivery → Minted → Handling
  dispatch c b queue delivery minted = dispatch_decoded c b queue delivery (
      delivery_to_envelope from_utf8 parse delivery.properties delivery.data' c.max_payload_bytes
        c.metadata_limits (derive_required_envelope_fields c.policy) minted)
