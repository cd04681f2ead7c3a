-- ===== src/Bus/Responder.antt =====
-- The responder's side of a request: crates/hexeract-bus/src/replied_handler.rs and
-- remote_error.rs. The transport, serde_json, the uuid crate, the handler and the readings of the
-- clock are a `World`; what the responder does is a list of events, in order.
pub mod Answers
mod Tests
use Prim.Native.String.{String}
use text.Mathlib.Text.{◌==◌ as str_eq}
use hexeract.Common.{
  ℕ, Option, some, none, Bool, true, false, List, [], ◌∷◌, ◌++◌, ◌==◌, if◌then◌else◌,
}
use mathlib.Core.Option as Option
use hexeract.Common.Result.{Result, ok, err, ◌>>=◌}
use hexeract.Clock.{Instant}
use hexeract.Bus.Envelope.{
  BusEnvelope, header, insert_protocol_header, read_protocol_version, protocol_version,
  protocol_version_header, request_id_header, reply_status_header, reply_status_ok,
  reply_status_error, reply_error_message_type,
}
use hexeract.Bus.Error.{
  BusError, reserved_header_namespace, metadata_limit_exceeded, invalid_metadata, serialization,
  transport, connection, unroutable, reply_undeliverable, shutdown_drain_timed_out, missing_handler,
  type_mismatch, payload_too_large, invalid_topology, envelope_security, Checked,
}

pub data RemoteErrorType : Type 0 where
  internal malformed unavailable unsupported expired : RemoteErrorType

unfoldable pub from_bus_error : BusError → RemoteErrorType
from_bus_error reserved_header_namespace = malformed
from_bus_error (metadata_limit_exceeded _ _ _) = malformed
from_bus_error (invalid_metadata _) = malformed
from_bus_error (serialization _) = malformed
from_bus_error (type_mismatch _ _) = malformed
from_bus_error (payload_too_large _ _) = malformed
from_bus_error (envelope_security _) = malformed
from_bus_error (connection _ _) = unavailable
from_bus_error (transport _) = unavailable
from_bus_error (unroutable _ _ _) = unavailable
from_bus_error (reply_undeliverable _ _ _) = unavailable
from_bus_error (BusError.internal _) = internal
from_bus_error (missing_handler _) = internal
from_bus_error (invalid_topology _) = internal
from_bus_error (shutdown_drain_timed_out _ _) = internal

pub data ResponderOutcome : Type 0 where
  replied replied_with_error dropped failed suppressed_after_deadline cancelled : ResponderOutcome

pub data Counter : Type 0 where
  invalid_reply_to invalid_request_id unsupported_protocol_version : Counter
  expired_deadline invalid_deadline reply_dropped_after_deadline : Counter

-- What `read_deadline` says of the request, and whether a live deadline has passed once the
-- handler is done.
pub data DeadlineReading : Type 0 where
  absent : DeadlineReading
  live : Bool → DeadlineReading
  expired invalid : DeadlineReading

pub record World (Request Reply : Type 0) : Type 0 where
  pub request_type : String
  pub reply_type : String
  pub accept_destination : String → Option String
  pub parse_uuid : String → Option ℕ
  pub print_uuid : ℕ → String
  pub deadline : DeadlineReading
  pub decode_request : List ℕ → Option Request
  pub handler : Request → Result BusError Reply
  pub encode_reply : Reply → Option (List ℕ)
  pub encode_error : RemoteErrorType → ℕ → Option (List ℕ)
  pub publish_reply : Checked (Unit {0})
  pub fresh_id : ℕ
  pub now : Instant

pub data Event : Type 0 where
  counted : Counter → Event
  ran : Event
  published : String → BusEnvelope → Event

abbrev pub Run : Type 0
Run = List Event × Checked ResponderOutcome

module _ {Request Reply : Type 0} (w : World Request Reply) where
  abbrev fresh_envelope : String → List ℕ → ℕ → BusEnvelope
  fresh_envelope type' payload' correlation = record {
    message_id = w.fresh_id;
    message_type = type';
    payload = payload';
    correlation_id = correlation;
    reply_to = none;
    headers = [];
    protocol_headers = [];
    published_at = w.now;
  }

  unfoldable pub error_reply : RemoteErrorType → ℕ → ℕ → Checked BusEnvelope
  error_reply category correlation id = elim (w.encode_error category id) [
    | none ↦ err (serialization "error payload")
    | some payload ↦ ok (
        insert_protocol_header request_id_header (w.print_uuid id) (
          insert_protocol_header protocol_version_header "1" (
            insert_protocol_header reply_status_header reply_status_error
              (fresh_envelope reply_error_message_type payload correlation))))
  ]

  unfoldable pub encode_ok_reply : ℕ → ℕ → Reply → Checked BusEnvelope
  encode_ok_reply correlation id reply = elim (w.encode_reply reply) [
    | none ↦ error_reply RemoteErrorType.internal correlation id
    | some payload ↦ ok (
        insert_protocol_header protocol_version_header "1" (
          insert_protocol_header request_id_header (w.print_uuid id) (
            insert_protocol_header reply_status_header reply_status_ok
              (fresh_envelope w.reply_type payload correlation))))
  ]

  abbrev undeliverable : BusError → BusError
  undeliverable (unroutable key text code) = reply_undeliverable key text code
  undeliverable error = error

  abbrev pub delivered : ResponderOutcome → Checked (Unit {0}) → Checked ResponderOutcome
  delivered outcome (ok _) = ok outcome
  delivered outcome (err error) = err (undeliverable error)

  -- An encoded reply is delivered, then the request has its outcome.
  unfoldable pub deliver_reply : String → ResponderOutcome → Checked BusEnvelope → Run
  deliver_reply to outcome (err error) = ([], err error)
  deliver_reply to outcome (ok reply) = (published to reply ∷ [], delivered outcome w.publish_reply)

  abbrev pub noting : Event → Run → Run
  noting event (events, result) = (event ∷ events, result)

  abbrev pub drop_counted : Counter → Run
  drop_counted counter = (counted counter ∷ [], ok dropped)

  abbrev pub is_late : DeadlineReading → Bool
  is_late (live late) = late
  is_late _ = false

  -- The encoded answer of the handler, with its outcome.
  abbrev pub answer : ℕ → ℕ → Result BusError Reply → Checked BusEnvelope × ResponderOutcome
  answer correlation id (ok reply) = (encode_ok_reply correlation id reply, replied)
  answer correlation id (err error) =
      (error_reply (from_bus_error error) correlation id, replied_with_error)

  -- The reply is encoded before the deadline is looked at again.
  abbrev pub conclude : String → Checked BusEnvelope × ResponderOutcome → Run
  conclude to (err error, outcome) = ([], err error)
  conclude to (ok reply, outcome) =
      if is_late w.deadline
      then (counted reply_dropped_after_deadline ∷ [], ok suppressed_after_deadline)
      else deliver_reply to outcome (ok reply)

  unfoldable pub run_handler : BusEnvelope → ℕ → String → Option Request → Run
  run_handler e id to none = deliver_reply to dropped (error_reply malformed e.correlation_id id)
  run_handler e id to (some request) =
      noting ran (conclude to (answer e.correlation_id id (w.handler request)))

  -- `BusEnvelope::decode`.
  abbrev pub decoded : BusEnvelope → Option Request
  decoded e = if str_eq e.message_type w.request_type then w.decode_request e.payload else none

  unfoldable pub judge_deadline : BusEnvelope → ℕ → String → DeadlineReading → Run
  judge_deadline e id to DeadlineReading.expired = drop_counted expired_deadline
  judge_deadline e id to DeadlineReading.invalid =
      noting (counted invalid_deadline)
        (deliver_reply to dropped (error_reply malformed e.correlation_id id))
  judge_deadline e id to _ = run_handler e id to (decoded e)

  abbrev pub is_supported : Option ℕ → Bool
  is_supported none = false
  is_supported (some version) = version == protocol_version

  unfoldable pub check_version : BusEnvelope → ℕ → String → Bool → Run
  check_version e id to true = judge_deadline e id to w.deadline
  check_version e id to false =
      noting (counted unsupported_protocol_version)
        (deliver_reply to dropped (error_reply unsupported e.correlation_id id))

  unfoldable pub dispatch_identified : BusEnvelope → String → Option ℕ → Run
  dispatch_identified e to none = drop_counted invalid_request_id
  dispatch_identified e to (some id) =
      check_version e id to (is_supported (read_protocol_version e))

  -- `parse_request_id`: a header that is missing and one that is unreadable end alike.
  abbrev pub parse_request_id : BusEnvelope → Option ℕ
  parse_request_id e = Option.bind (header e request_id_header) w.parse_uuid

  unfoldable pub dispatch_addressed : BusEnvelope → Option String → Run
  dispatch_addressed e none = drop_counted invalid_reply_to
  dispatch_addressed e (some to) = dispatch_identified e to (parse_request_id e)

  -- `validated_reply_to`.
  abbrev pub validated_reply_to : BusEnvelope → Option String
  validated_reply_to e = Option.bind e.reply_to w.accept_destination

  unfoldable pub dispatch : BusEnvelope → Run
  dispatch e = dispatch_addressed e (validated_reply_to e)
