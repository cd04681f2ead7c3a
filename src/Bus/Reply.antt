-- ===== src/Bus/Reply.antt =====
-- Whether a reply answers a request: crates/hexeract-bus/src/reply_acceptance.rs,
-- reply_rejection_kind.rs, transport_refusal.rs and reply_authentication.rs.
use Prim.Native.String.{String}
use text.Mathlib.Text.{◌==◌ as str_eq}
use hexeract.Common.{ℕ, Option, some, none, Bool, false, List, ◌==◌, if◌then◌else◌}
use hexeract.Common.Result.{Result, ok, err, ◌>>◌, guard}
use hexeract.Bus.Envelope.{
  BusEnvelope, header, read_protocol_version, protocol_version, reply_status_header,
  reply_status_ok, reply_status_error, reply_error_message_type,
}

-- The expected `reply_message_type`.
pub record ReplyExpectation : Type 0 where
  pub reply_message_type : String

pub data ReplyRejection : Type 0 where
  missing_version : ReplyRejection
  unsupported_version : ℕ → ReplyRejection
  missing_status unknown_status unexpected_type : ReplyRejection
  unauthenticated undecodable_error_payload identity_mismatch : ReplyRejection

pub data ReplyRejectionKind : Type 0 where
  undecodable orphaned unauthenticated invalid duplicate late : ReplyRejectionKind

-- `ReplyRejection::kind`.
unfoldable pub kind : ReplyRejection → ReplyRejectionKind
kind ReplyRejection.unauthenticated = ReplyRejectionKind.unauthenticated
kind missing_version = invalid
kind _ = invalid

pub data TransportRefusal : Type 0 where
  unauthenticated : TransportRefusal

-- `ReplyRejection::from`.
abbrev pub from_refusal : TransportRefusal → ReplyRejection
from_refusal TransportRefusal.unauthenticated = ReplyRejection.unauthenticated

-- A verified principal is the crate's own data; the registry only carries it.
pub data ReplyAuthentication (Principal : Type 0) : Type 0 where
  not_enforced waived_unsigned : ReplyAuthentication Principal
  authenticated : Principal → ReplyAuthentication Principal

abbrev check_version : Option ℕ → Result ReplyRejection (Unit {0})
check_version none = err missing_version
check_version (some version) =
    if version == protocol_version then ok tt else err (unsupported_version version)

abbrev pub check_status :
    ReplyExpectation → String → Option String → Result ReplyRejection (Unit {0})
check_status expectation message_type none = err missing_status
check_status expectation message_type (some status) =
    if str_eq status reply_status_ok
    then guard (str_eq message_type expectation.reply_message_type) unexpected_type
    else (if str_eq status reply_status_error
        then guard (str_eq message_type reply_error_message_type) unexpected_type
        else err unknown_status)

unfoldable pub accepts : ReplyExpectation → BusEnvelope → Result ReplyRejection (Unit {0})
accepts expectation envelope = do
  check_version (read_protocol_version envelope)
  check_status expectation envelope.message_type (header envelope reply_status_header)

abbrev is_error_status : Option String → Bool
is_error_status none = false
is_error_status (some status) = str_eq status reply_status_error

-- `serde_json` decodes the payload of an error reply: the request that it names, if it is one.
module _ (decode_error : List ℕ → Option ℕ) where
  abbrev pub check_identity : ℕ → Option ℕ → Result ReplyRejection (Unit {0})
  check_identity expected none = err undecodable_error_payload
  check_identity expected (some request_id) = guard (request_id == expected) identity_mismatch

  unfoldable pub accepts_error_identity : BusEnvelope → ℕ → Result ReplyRejection (Unit {0})
  accepts_error_identity envelope expected =
      if is_error_status (header envelope reply_status_header)
      then check_identity expected (decode_error envelope.payload)
      else ok tt

  -- The test that `RequestRegistry::resolve` makes of a reply for an occupied slot.
  unfoldable pub accepts_reply :
      ReplyExpectation → BusEnvelope → ℕ → Result ReplyRejection (Unit {0})
  accepts_reply expectation envelope request_id = do
    accepts expectation envelope
    accepts_error_identity envelope request_id
