-- ===== src/Bus/Client.antt =====
-- The caller's reading of a reply: `decode_reply` of crates/hexeract-bus/src/request_client.rs and
-- request_error.rs. A type of the request is `reply_type` and its decoder, of serde_json.
pub mod Accepted
use Prim.Native.String.{String}
use text.Mathlib.Text.{◌==◌ as str_eq}
use hexeract.Common.{ℕ, Option, some, none, Bool, true, false, List, ◌==◌, if◌then◌else◌}
use hexeract.Common.Result.{Result, ok, err, ◌>>=◌, ◌>>◌, guard, ok_or}
use hexeract.Clock.{Duration}
use hexeract.Bus.Envelope.{
  BusEnvelope, header, read_protocol_version, protocol_version, protocol_version_header,
  reply_status_header, reply_status_ok, reply_status_error, reply_error_message_type,
}
use hexeract.Bus.Error.{BusError, serialization, type_mismatch}
use hexeract.Bus.Reply.{ReplyRejection}
use hexeract.Bus.Responder.{RemoteErrorType}

pub data ProtocolViolation : Type 0 where
  missing_header : String → ProtocolViolation
  unsupported_version : ℕ → ProtocolViolation
  unexpected_reply_type : String → String → ProtocolViolation
  identity_collision identity_mismatch : ProtocolViolation

pub data RequestError : Type 0 where
  timeout : Duration → Option ReplyRejection → ℕ → RequestError
  at_capacity closed publication_unknown : RequestError
  remote : RemoteErrorType → ℕ → RequestError
  protocol : ProtocolViolation → RequestError
  encode transport decode : BusError → RequestError

abbrev check_version : Option ℕ → Result RequestError (Unit {0})
check_version none = err (protocol (missing_header protocol_version_header))
check_version (some version) =
    guard (version == protocol_version) (protocol (unsupported_version version))

module _ {Reply : Type 0} (reply_type : String) (decode_json : List ℕ → Option Reply)
    (decode_payload : List ℕ → Option (RemoteErrorType × ℕ)) where
  -- `BusEnvelope::decode` of the reply.
  abbrev decode_envelope : BusEnvelope → Result RequestError Reply
  decode_envelope reply =
      if str_eq reply.message_type reply_type
      then ok_or (decode_json reply.payload) (decode (serialization "reply"))
      else err (decode (type_mismatch reply_type reply.message_type))

  abbrev pub decode_ok : BusEnvelope → Result RequestError Reply
  decode_ok reply = do
    guard (str_eq reply.message_type reply_type)
        (protocol (unexpected_reply_type reply_type reply.message_type))
    decode_envelope reply

  abbrev pub remote_failure : ℕ → Option (RemoteErrorType × ℕ) → Result RequestError Reply
  remote_failure id none = err (decode (serialization "error payload"))
  remote_failure id (some (category, named)) =
      if named == id then err (remote category id) else err (protocol identity_mismatch)

  abbrev pub decode_failure : BusEnvelope → ℕ → Result RequestError Reply
  decode_failure reply id = do
    guard (str_eq reply.message_type reply_error_message_type)
        (protocol (unexpected_reply_type reply_error_message_type reply.message_type))
    remote_failure id (decode_payload reply.payload)

  abbrev pub decode_status : BusEnvelope → ℕ → Option String → Result RequestError Reply
  decode_status reply id none = err (protocol (missing_header reply_status_header))
  decode_status reply id (some status) =
      if str_eq status reply_status_ok
      then decode_ok reply
      else (if str_eq status reply_status_error
          then decode_failure reply id
          else err (protocol (missing_header reply_status_header)))

  unfoldable pub decode_reply : BusEnvelope → ℕ → Result RequestError Reply
  decode_reply reply id = do
    check_version (read_protocol_version reply)
    decode_status reply id (header reply reply_status_header)
