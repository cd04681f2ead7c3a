-- ===== src/Rabbit/Delivery/RoundTrip.antt =====
-- What is published is received: crates/hexeract-bus-rabbitmq/src/{transport,worker}.rs.
use Prim.Native.String.{String}
use hexeract.Common.{
  ℕ, ◌+◌, ◌-◌, ◌/◌, ◌≤◌, ◌≡◌, refl, Option, some, none, Bool, [], length, arith, le→leb,
}
use hexeract.Common.Bytes.{Bytes}
use hexeract.Common.Result.{ok, bind_ok}
use hexeract.Clock.{Instant, unix_epoch, last_instant, nanos_per_second, from_secs, checked_add}
use hexeract.Bus.Envelope.{BusEnvelope, Headers}
use hexeract.Rabbit.Metadata.{AmqpMetadataLimits, FieldTable, usize_max}
use hexeract.Rabbit.Metadata.Encoding.{to_short_string, encode_headers, keys_of, values_of}
use hexeract.Rabbit.Metadata.Keys.{DistinctFrom, Reserved}
use hexeract.Rabbit.Metadata.RoundTrip.{
  Readable, framework_headers, to_short_string-ok, decode_headers-encode_headers,
}
use hexeract.Rabbit.Delivery.{
  BasicProperties, RequiredEnvelopeFields, Minted, short_option, envelope_to_properties,
  delivery_to_envelope,
}

-- The envelope that the receiver sees: it has whole seconds, and the security headers.
abbrev pub received : BusEnvelope → Option Headers → BusEnvelope
received e security = record e {
  protocol_headers = framework_headers e security;
  published_at = unix_epoch + from_secs ((e.published_at - unix_epoch) / nanos_per_second);
}

-- The headers of an envelope that a publisher sends.
pub record Publishable (e : BusEnvelope) (security : Option Headers) : Type 0 where
  pub application_distinct : DistinctFrom [] (keys_of e.headers)
  pub framework_distinct : DistinctFrom [] (keys_of (framework_headers e security))
  pub framework_reserved : Reserved (keys_of (framework_headers e security))
  pub time : e.published_at ≤ last_instant

whole_seconds :
    (t : Instant)
    → t ≤ last_instant
    → checked_add unix_epoch (from_secs ((t - unix_epoch) / nanos_per_second))
      ≡ some (unix_epoch + from_secs ((t - unix_epoch) / nanos_per_second))
unfolding checked_add last_instant unix_epoch
whole_seconds t h = ground (arith, h)

module _ (try_new : String → Bool) (print : ℕ → String) (from_utf8 : Bytes → Option String)
    (parse : String → Option ℕ) where
  short_option-ok :
      (o : Option String) (name : String) (s : Option String)
      → short_option try_new o name ≡ ok s
      → o ≡ s
  short_option-ok none name s h = cc h
  short_option-ok (some value) name s h =
      let (text, p, q) = bind_ok (to_short_string try_new value name) _ _ h in
      cc (to_short_string-ok try_new value name text p, q)

  -- The properties of an envelope, with its table.
  abbrev properties_of : BusEnvelope → FieldTable → Option String → BasicProperties
  properties_of e table user = record {
    message_id = some (print e.message_id);
    correlation_id = some (print e.correlation_id);
    content_type = some "application/json";
    kind = some e.message_type;
    delivery_mode = some 2;
    timestamp = some ((e.published_at - unix_epoch) / nanos_per_second);
    headers = some table;
    reply_to = e.reply_to;
    user_id = user;
  }

  envelope_to_properties-ok :
      (e : BusEnvelope) (limits : AmqpMetadataLimits) (security : Option Headers)
      (user : Option String) (props : BasicProperties)
      → envelope_to_properties try_new print e limits security user ≡ ok props
      → (table : FieldTable) × (encode_headers try_new e limits security ≡ ok table)
        × (props ≡ properties_of e table user)
  unfolding envelope_to_properties
  envelope_to_properties-ok e limits security user props h =
      let (table, p, h₁) = bind_ok (encode_headers try_new e limits security) _ _ h in
      let (kind', q, h₂) = bind_ok (to_short_string try_new e.message_type "message type") _ _ h₁ in
      let (reply, r, h₃) = bind_ok (short_option try_new e.reply_to "reply_to") _ _ h₂ in
      let (user', s, h₄) = bind_ok (short_option try_new user "user id") _ _ h₃ in
      (
        table,
        p,
        cc (
          h₄,
          to_short_string-ok try_new e.message_type "message type" kind' q,
          short_option-ok e.reply_to "reply_to" reply r,
          short_option-ok user "user id" user' s,
        ),
      )

  module _ (parses : (n : ℕ) → parse (print n) ≡ some n) where
    -- A published envelope is received: the properties of an envelope whose time is a `SystemTime`, under
    -- limits that are words of the machine, whose header values are read back from their bytes, whose application headers are distinct and whose
    -- framework headers are distinct, reserved and in lower case, decode under the same limits to the envelope
    -- with its publication time in whole seconds and the security headers among its protocol
    -- headers. Nothing of it is minted by the receiver.
    pub delivery_to_envelope-envelope_to_properties :
        (e : BusEnvelope) (limits : AmqpMetadataLimits) (security : Option Headers)
        (user : Option String) (props : BasicProperties) (max_payload_bytes : ℕ)
        (fields : RequiredEnvelopeFields) (minted : Minted)
        → limits.max_value_bytes ≤ usize_max
        → Publishable e security
        → Readable from_utf8 (values_of e.headers)
        → Readable from_utf8 (values_of (framework_headers e security))
        → length e.payload ≤ max_payload_bytes
        → envelope_to_properties try_new print e limits security user ≡ ok props
        → delivery_to_envelope from_utf8 parse props e.payload max_payload_bytes limits fields
            minted
          ≡ ok (received e security)
    unfolding delivery_to_envelope
    delivery_to_envelope-envelope_to_properties e limits security user props max fields minted u
          good ta tp fits h =
        let (table, encoded, same) = envelope_to_properties-ok e limits security user props h in
        let decoded =
          decode_headers-encode_headers try_new from_utf8 e limits security table u ta tp
            good.application_distinct good.framework_distinct good.framework_reserved encoded in
        rw
          (
            same,
            le→leb (length e.payload) max fits,
            decoded,
            parses e.message_id,
            parses e.correlation_id,
            whole_seconds e.published_at good.time,
          )
          refl
