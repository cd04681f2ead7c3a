-- ===== src/Rabbit/Metadata/Encoding.antt =====
-- Encoding and decoding of AMQP headers: crates/hexeract-bus-rabbitmq/src/metadata.rs, and
-- `to_short_string` of transport.rs. `try_new` is `ShortString::try_new` of the lapin crate, as a
-- test, and `from_utf8` is the standard library's; a short string is its text, and the reason of
-- an invalid one is the field it was meant for.
use Prim.Native.String.{String}
use hexeract.Common.{
  ℕ, Option, some, none, Bool, true, false, ◌&&◌, ◌||◌, not, List, [], ◌∷◌, ◌++◌, leb,
  if◌then◌else◌, length,
}
use hexeract.Common.Bytes.{Bytes, as_bytes}
use hexeract.Common.Result.{ok, err, ◌>>=◌, ◌>>◌, guard, ok_or}
use hexeract.Bus.Envelope.{
  BusEnvelope, Headers, is_reserved_header, put_header, validate_application_headers, wire_headers,
}
use hexeract.Bus.Error.{
  MetadataLimit, header_count, key_bytes, value_bytes, total_bytes, non_utf8_long_string,
  non_canonical_reserved_header, reserved_header_namespace, metadata_limit_exceeded,
  invalid_metadata, invalid_topology, Checked,
}
use hexeract.Rabbit.Metadata.{
  AmqpMetadataLimits, AmqpValue, long_string, FieldTable, saturating_add, measure_value,
}

-- The names and values of the security headers, where the envelope is signed.
abbrev pub security_entries : Option Headers → Headers
security_entries none = []
security_entries (some entries) = entries

abbrev pub all_headers : BusEnvelope → Option Headers → Headers
all_headers envelope security = wire_headers envelope ++ security_entries security

abbrev pub keys_of {ℓ} : {V : Type ℓ} → List (String × V) → List String
keys_of [] = []
keys_of ((k, v) ∷ m) = k ∷ keys_of m

abbrev pub values_of : Headers → List String
values_of [] = []
values_of ((k, v) ∷ m) = v ∷ values_of m

-- The loop over the keys or the values, for one dimension.
unfoldable pub check_sizes : MetadataLimit → ℕ → List String → Checked (Unit {0})
check_sizes limit max [] = ok tt
check_sizes limit max (s ∷ ss) = do
  guard (leb (length (as_bytes s)) max) (metadata_limit_exceeded limit (length (as_bytes s)) max)
  check_sizes limit max ss

abbrev pub total_size : ℕ → Headers → ℕ
total_size total [] = total
total_size total ((k, v) ∷ m) =
    total_size (saturating_add (saturating_add total (length (as_bytes k))) (length (as_bytes v))) m

module _ (try_new : String → Bool) where
  unfoldable pub to_short_string : String → String → Checked String
  to_short_string value name = if try_new value then ok value else err (invalid_topology name)

  unfoldable pub encode_fields : FieldTable → Headers → Checked FieldTable
  encode_fields fields [] = ok fields
  encode_fields fields ((k, v) ∷ m) = do
    key ← to_short_string k "header key"
    encode_fields (put_header key (long_string (as_bytes v)) fields) m

  unfoldable pub encode_headers :
      BusEnvelope → AmqpMetadataLimits → Option Headers → Checked FieldTable
  encode_headers envelope limits security = do
    let all = all_headers envelope security
    guard (validate_application_headers envelope) reserved_header_namespace
    guard (leb (length all) limits.max_headers)
        (metadata_limit_exceeded header_count (length all) limits.max_headers)
    check_sizes key_bytes limits.max_key_bytes (keys_of all)
    check_sizes value_bytes limits.max_value_bytes (values_of all)
    guard (leb (total_size 0 all) limits.max_total_bytes)
        (metadata_limit_exceeded total_bytes (total_size 0 all) limits.max_total_bytes)
    encode_fields [] all

abbrev pub is_uppercase : ℕ → Bool
is_uppercase b = leb b'A' b && leb b b'Z'

abbrev pub any_uppercase : Bytes → Bool
any_uppercase [] = false
any_uppercase (b ∷ bs) = is_uppercase b || any_uppercase bs

-- Application headers and protocol headers.
abbrev pub DecodedMetadata : Type 0
DecodedMetadata = Headers × Headers

-- The loop that measures the entries.
unfoldable pub check_total : AmqpMetadataLimits → ℕ → FieldTable → Checked (Unit {0})
check_total limits total [] = ok tt
check_total limits total ((key, value) ∷ entries) = do
  measured ← measure_value value limits.max_value_bytes
  let grown = saturating_add (saturating_add total (length (as_bytes key))) measured
  guard (leb grown limits.max_total_bytes)
      (metadata_limit_exceeded total_bytes grown limits.max_total_bytes)
  check_total limits grown entries

module _ (from_utf8 : Bytes → Option String) where
  -- A value of the table: none is one that is not a long string.
  unfoldable pub text_of : AmqpValue → Checked (Option String)
  text_of (long_string bytes) = do
    text ← ok_or (from_utf8 bytes) (invalid_metadata non_utf8_long_string)
    ok (some text)
  text_of value = ok none

  abbrev pub store : Bool → String → Option String → DecodedMetadata → DecodedMetadata
  store reserved key none decoded = decoded
  store true key (some text) (application, protocol) = (application, put_header key text protocol)
  store false key (some text) (application, protocol) = (put_header key text application, protocol)

  unfoldable pub decode_entries : DecodedMetadata → FieldTable → Checked DecodedMetadata
  decode_entries decoded [] = ok decoded
  decode_entries decoded ((key, value) ∷ entries) = do
    guard (not (is_reserved_header key && any_uppercase (as_bytes key)))
        (invalid_metadata non_canonical_reserved_header)
    text ← text_of value
    decode_entries (store (is_reserved_header key) key text decoded) entries

  unfoldable pub decode_headers : Option FieldTable → AmqpMetadataLimits → Checked DecodedMetadata
  decode_headers none limits = ok ([], [])
  decode_headers (some entries) limits = do
    guard (leb (length entries) limits.max_headers)
        (metadata_limit_exceeded header_count (length entries) limits.max_headers)
    check_sizes key_bytes limits.max_key_bytes (keys_of entries)
    check_total limits 0 entries
    decode_entries ([], []) entries
