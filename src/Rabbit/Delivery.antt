-- ===== src/Rabbit/Delivery.antt =====
-- An envelope as an AMQP delivery: `envelope_to_properties` of
-- crates/hexeract-bus-rabbitmq/src/transport.rs and `delivery_to_envelope` of worker.rs. The text
-- form of a UUID is the uuid crate's: `print` and `parse`; `Minted` is what `Uuid::now_v7` and
-- `SystemTime::now` give.
pub mod RoundTrip
pub mod Signed
use Prim.Native.String.{String}
use hexeract.Common.{
  ℕ, zero, suc, ◌+◌, ◌-◌, ◌*◌, ◌/◌, Option, some, none, Bool, true, false, ◌&&◌, ◌||◌, not, List,
  [], ◌∷◌, leb, ltb, if◌then◌else◌, length,
}
use hexeract.Common.Bytes.{Bytes}
use hexeract.Common.Result.{Result, ok, err, ◌>>=◌, ◌>>◌, guard, ok_or}
use hexeract.Clock.{Instant, unix_epoch, nanos_per_second, from_secs, checked_add}
use hexeract.Bus.Envelope.{BusEnvelope, Headers, get}
use hexeract.Bus.Error.{BusError, payload_too_large, invalid_topology, envelope_security, Checked}
use hexeract.Bus.Security.Types.{
  EnvelopeSecurityError, missing_required_field, malformed_required_field, signature_header,
  VerificationPolicy, allows_unauthenticated_envelopes, VerifiedPrincipal,
}
use hexeract.Rabbit.Metadata.{AmqpMetadataLimits, FieldTable}
use hexeract.Rabbit.Metadata.Encoding.{to_short_string, encode_headers, decode_headers}

-- `BasicProperties` of the lapin crate, as far as the two functions use it.
pub record BasicProperties : Type 0 where
  pub message_id : Option String
  pub correlation_id : Option String
  pub content_type : Option String
  pub kind : Option String
  pub delivery_mode : Option ℕ
  pub timestamp : Option ℕ
  pub headers : Option FieldTable
  pub reply_to : Option String
  pub user_id : Option String

pub data RequiredEnvelopeFields : Type 0 where
  lenient strict : RequiredEnvelopeFields

-- The policy of the configured inbound security, if any.
unfoldable pub derive_required_envelope_fields : Option VerificationPolicy → RequiredEnvelopeFields
derive_required_envelope_fields none = lenient
derive_required_envelope_fields (some policy) =
    if allows_unauthenticated_envelopes policy then lenient else strict

-- An optional property as a short string.
abbrev pub short_option : (String → Bool) → Option String → String → Checked (Option String)
short_option try_new none name = ok none
short_option try_new (some value) name = do
  text ← to_short_string try_new value name
  ok (some text)

module _ (try_new : String → Bool) (print : ℕ → String) where
  unfoldable pub envelope_to_properties :
      BusEnvelope → AmqpMetadataLimits → Option Headers → Option String → Checked BasicProperties
  envelope_to_properties envelope limits security broker_user_id = do
    amqp_headers ← encode_headers try_new envelope limits security
    message_type ← to_short_string try_new envelope.message_type "message type"
    reply ← short_option try_new envelope.reply_to "reply_to"
    user ← short_option try_new broker_user_id "user id"
    ok (record {
      message_id = some (print envelope.message_id);
      correlation_id = some (print envelope.correlation_id);
      content_type = some "application/json";
      kind = some message_type;
      delivery_mode = some 2;
      timestamp = some ((envelope.published_at - unix_epoch) / nanos_per_second);
      headers = some amqp_headers;
      reply_to = reply;
      user_id = user;
    })

-- What the receiver makes up where a property is missing.
pub record Minted : Type 0 where
  pub message_id : ℕ
  pub correlation_id : ℕ
  pub now : Instant

abbrev pub present : Option String → Bool
present none = false
present (some _) = true

abbrev pub is_strict : RequiredEnvelopeFields → Bool
is_strict lenient = false
is_strict strict = true

module _ (from_utf8 : Bytes → Option String) (parse : String → Option ℕ) where
  abbrev parsed_identifier : Bool → String → ℕ → Option ℕ → Checked ℕ
  parsed_identifier held field minted (some id) = ok id
  parsed_identifier true field minted none =
      err (envelope_security (malformed_required_field field))
  parsed_identifier false field minted none = ok minted

  -- `message_id` and `correlation_id`.
  abbrev pub restore_identifier : Bool → String → ℕ → Option String → Checked ℕ
  restore_identifier held field minted (some raw) = parsed_identifier held field minted (parse raw)
  restore_identifier true field minted none = err (envelope_security (missing_required_field field))
  restore_identifier false field minted none = ok minted

  abbrev pub restore_published_at : Bool → Instant → Option ℕ → Checked Instant
  restore_published_at held now (some seconds) =
      ok_or (checked_add unix_epoch (from_secs seconds))
        (envelope_security (malformed_required_field "published_at"))
  restore_published_at true now none =
      err (envelope_security (missing_required_field "published_at"))
  restore_published_at false now none = ok now

  unfoldable pub delivery_to_envelope :
      BasicProperties
      → Bytes
      → ℕ
      → AmqpMetadataLimits
      → RequiredEnvelopeFields
      → Minted
      → Checked BusEnvelope
  delivery_to_envelope props payload' max_payload_bytes limits required_fields minted = do
    guard (leb (length payload') max_payload_bytes)
        (payload_too_large (length payload') max_payload_bytes)
    decoded ← decode_headers from_utf8 props.headers limits
    let strict' = present (get signature_header decoded.1) || is_strict required_fields
    id ← restore_identifier strict' "message_id" minted.message_id props.message_id
    correlation ←
        restore_identifier strict' "correlation_id" minted.correlation_id props.correlation_id
    type' ← ok_or props.kind (invalid_topology "missing type")
    published ← restore_published_at strict' minted.now props.timestamp
    ok (record {
      message_id = id;
      message_type = type';
      payload = payload';
      correlation_id = correlation;
      reply_to = props.reply_to;
      headers = decoded.0;
      protocol_headers = decoded.1;
      published_at = published;
    })

-- A `PublisherIdentity` is its issuer.
pub data PublisherAuthentication : Type 0 where
  authenticated : String → PublisherAuthentication
  waived_unsigned not_enforced : PublisherAuthentication

unfoldable pub authentication_from_verification :
    Option VerificationPolicy → Option VerifiedPrincipal → PublisherAuthentication
authentication_from_verification security (some principal) = authenticated principal.issuer
authentication_from_verification (some policy) none = waived_unsigned
authentication_from_verification none none = not_enforced
