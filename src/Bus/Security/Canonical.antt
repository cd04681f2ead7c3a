-- ===== src/Bus/Security/Canonical.antt =====
-- The bytes that a signature covers: crates/hexeract-bus/src/envelope_security/canonical.rs. A call
-- of `push_field`, `push_optional_field` or `push_headers` is a segment, and the function pushes
-- its segments in order.
pub mod Order
pub mod Framing
pub mod Parsing
pub mod Covered
use Prim.Native.String.{String}
use text.Mathlib.Text.{◌==◌ as str_eq}
use hexeract.Common.{
  ℕ, ◌+◌, ◌-◌, ◌*◌, ◌/◌, ◌%◌, Option, some, none, Bool, true, false, ◌&&◌, ◌||◌, not, List, [], ◌∷◌,
  ◌++◌, map, leb, if◌then◌else◌, length,
}
use hexeract.Common.Bytes.{Bytes, as_bytes, to_be_bytes, bytes_lt}
use hexeract.Common.Sort.{insert_sorted, sort_by}
use hexeract.Common.Result.{Result, ok, err, ◌>>=◌}
use hexeract.Clock.{Instant, unix_epoch, nanos_per_second, u32_max}
use hexeract.Bus.Envelope.{BusEnvelope, Headers}
use hexeract.Bus.Security.Types.{
  EnvelopeSecurityError, missing_required_field, field_too_large, Secured, SignatureAlgorithm,
  as_wire_str, contains, signature_header, key_id_header, issuer_header, audience_header,
  algorithm_header, destination_header, canonical_domain,
}

pub record CanonicalBinding : Type 0 where
  pub destination : String
  pub issuer : String
  pub audience : String
  pub key_id : String
  pub algorithm : SignatureAlgorithm

unfoldable pub is_security_header : String → Bool
is_security_header key = contains key (
    signature_header ∷ key_id_header ∷ issuer_header ∷ audience_header ∷ algorithm_header
    ∷ destination_header ∷ [])

-- A field with its length before it.
unfoldable pub frame : Bytes → Bytes
frame field = to_be_bytes 4 (length field) ++ field

unfoldable pub push_field : Bytes → Bytes → Secured Bytes
push_field bytes field =
    if leb (length field) u32_max then ok (bytes ++ frame field) else err field_too_large

unfoldable pub push_optional_field : Bytes → Option Bytes → Secured Bytes
push_optional_field bytes (some field) = push_field (bytes ++ (1 ∷ [])) field
push_optional_field bytes none = ok (bytes ++ (0 ∷ []))

-- The loop that pushes the pairs.
unfoldable pub push_pairs : Bytes → List (Bytes × Bytes) → Secured Bytes
push_pairs bytes [] = ok bytes
push_pairs bytes ((key, value) ∷ pairs) = do
  keyed ← push_field bytes key
  valued ← push_field keyed value
  push_pairs valued pairs

unfoldable pub push_counted : Bytes → List (Bytes × Bytes) → Secured Bytes
push_counted bytes pairs =
    if leb (length pairs) u32_max
    then push_pairs (bytes ++ to_be_bytes 4 (length pairs)) pairs
    else err field_too_large

-- `sort_unstable_by`: by the bytes of the key, then by those of the value.
abbrev pub pair_lt : String × String → String × String → Bool
pair_lt (k, v) (l, w) =
    if bytes_lt (as_bytes k) (as_bytes l)
    then true
    else if bytes_lt (as_bytes l) (as_bytes k)
    then false
    else bytes_lt (as_bytes v) (as_bytes w)

abbrev pub unsigned : Headers → Headers
unsigned [] = []
unsigned ((k, v) ∷ m) = if is_security_header k then unsigned m else (k, v) ∷ unsigned m

-- The pairs that `push_headers` pushes, of both maps.
unfoldable pub covered_pairs : Headers → Headers → Headers
covered_pairs headers protocol_headers = sort_by pair_lt (unsigned (headers ++ protocol_headers))

abbrev pub pair_bytes : String × String → Bytes × Bytes
pair_bytes (k, v) = (as_bytes k, as_bytes v)

pub data Segment : Type 0 where
  field : Bytes → Segment
  optional : Option Bytes → Segment
  pairs : List (Bytes × Bytes) → Segment

abbrev pub push : Bytes → Segment → Secured Bytes
push bytes (field f) = push_field bytes f
push bytes (optional o) = push_optional_field bytes o
push bytes (pairs ps) = push_counted bytes ps

unfoldable pub push_all : Bytes → List Segment → Secured Bytes
push_all bytes [] = ok bytes
push_all bytes (s ∷ ss) = do pushed ← push bytes s; push_all pushed ss

abbrev pub option_bytes : Option String → Option Bytes
option_bytes none = none
option_bytes (some s) = some (as_bytes s)

-- `duration_since(UNIX_EPOCH)` and `as_secs`.
abbrev pub published_seconds : Instant → Secured ℕ
published_seconds t =
    if leb unix_epoch t
    then ok ((t - unix_epoch) / nanos_per_second)
    else err (missing_required_field "published_at")

-- `digest` is SHA-256, of the sha2 crate.
module _ (digest : Bytes → Bytes) where
  abbrev pub segments : BusEnvelope → CanonicalBinding → ℕ → List Segment
  segments e b seconds =
      field (as_bytes canonical_domain)
      ∷ field (to_be_bytes 16 e.message_id)
      ∷ field (as_bytes e.message_type)
      ∷ field (to_be_bytes 16 e.correlation_id)
      ∷ optional (option_bytes e.reply_to)
      ∷ field (to_be_bytes 8 seconds)
      ∷ field (as_bytes b.destination)
      ∷ field (as_bytes b.issuer)
      ∷ field (as_bytes b.audience)
      ∷ field (as_bytes b.key_id)
      ∷ field (as_bytes (as_wire_str b.algorithm))
      ∷ pairs (map pair_bytes (covered_pairs e.headers e.protocol_headers))
      ∷ field (digest e.payload)
      ∷ []

  unfoldable pub canonical_representation : BusEnvelope → CanonicalBinding → Secured Bytes
  canonical_representation e b = do
    seconds ← published_seconds e.published_at
    push_all [] (segments e b seconds)
