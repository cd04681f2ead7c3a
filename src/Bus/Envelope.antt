-- ===== src/Bus/Envelope.antt =====
-- The bus envelope and the reserved headers: crates/hexeract-bus/src/envelope.rs and
-- rpc_protocol.rs. A payload is its bytes; a header map lists its entries.
use Prim.Native.Char.{code}
use Prim.Native.String.{String}
use text.Mathlib.Text.{◌==◌ as str_eq}
use hexeract.Common.{
  ℕ, ◌+◌, ◌-◌, ◌*◌, Option, some, none, Bool, true, false, ◌&&◌, ◌||◌, not, List, [], ◌∷◌, ◌++◌,
  leb, ◌==◌, if◌then◌else◌, ◌≡◌, refl,
}
use hexeract.Clock.{Instant, u32_max}

-- The code points of a text: its bytes, where it is ASCII.
abbrev pub codes : String → List ℕ
codes String.[] = []
codes (String.◌∷◌ c s) = code c ∷ codes s

abbrev pub Headers : Type 0
Headers = List (String × String)

pub record BusEnvelope : Type 0 where
  pub message_id : ℕ
  pub message_type : String
  pub payload : List ℕ
  pub correlation_id : ℕ
  pub reply_to : Option String
  pub headers : Headers
  pub protocol_headers : Headers
  pub published_at : Instant

-- `HashMap::get`.
abbrev pub get : String → Headers → Option String
get key [] = none
get key ((k, v) ∷ m) = if str_eq k key then some v else get key m

abbrev pub to_lower : ℕ → ℕ
to_lower c = if leb b'A' c && leb c b'Z' then c + 32 else c

-- `key.get(..prefix.len())` with `eq_ignore_ascii_case`: a prefix that is equal to an ASCII text up
-- to case ends on a character boundary.
abbrev pub has_prefix_ci : List ℕ → List ℕ → Bool
has_prefix_ci [] key = true
has_prefix_ci (p ∷ ps) [] = false
has_prefix_ci (p ∷ ps) (c ∷ cs) = to_lower p == to_lower c && has_prefix_ci ps cs

abbrev pub reserved_header_prefix : String
reserved_header_prefix = "x-hexeract-"

unfoldable pub is_reserved_header : String → Bool
is_reserved_header key = has_prefix_ci (codes reserved_header_prefix) (codes key)

-- `HashMap::insert`.
abbrev pub put_header {ℓ} : {V : Type ℓ} → String → V → List (String × V) → List (String × V)
put_header key v [] = (key, v) ∷ []
put_header key v ((k, w) ∷ m) = if str_eq k key then (key, v) ∷ m else (k, w) ∷ put_header key v m

unfoldable pub insert_protocol_header : String → String → BusEnvelope → BusEnvelope
insert_protocol_header key value envelope = record envelope {
  protocol_headers = put_header key value envelope.protocol_headers;
}

unfoldable pub wire_headers : BusEnvelope → Headers
wire_headers envelope = envelope.headers ++ envelope.protocol_headers

abbrev pub any_reserved : Headers → Bool
any_reserved [] = false
any_reserved ((k, v) ∷ m) = is_reserved_header k || any_reserved m

-- `validate_application_headers`; its only error is `ReservedHeaderNamespace`.
unfoldable pub validate_application_headers : BusEnvelope → Bool
validate_application_headers envelope = not (any_reserved envelope.headers)

-- `BusEnvelope::header`.
unfoldable pub header : BusEnvelope → String → Option String
header envelope key =
    if is_reserved_header key then get key envelope.protocol_headers else get key envelope.headers

abbrev pub protocol_version_header : String
protocol_version_header = "x-hexeract-protocol-version"

abbrev pub request_id_header : String
request_id_header = "x-hexeract-request-id"

abbrev pub reply_status_header : String
reply_status_header = "x-hexeract-reply-status"

abbrev pub protocol_version : ℕ
protocol_version = 1

abbrev pub reply_status_ok : String
reply_status_ok = "ok"

abbrev pub reply_status_error : String
reply_status_error = "error"

abbrev pub reply_error_message_type : String
reply_error_message_type = "hexeract.rpc.error"

-- The digits of `str::parse::<u32>`, with its overflow check at each digit.
unfoldable pub parse_digits : ℕ → List ℕ → Option ℕ
parse_digits acc [] = some acc
parse_digits acc (c ∷ cs) =
    let next = acc * 10 + (c - b'0') in
    let rest = parse_digits next cs in
    if leb b'0' c && leb c b'9' then (if leb next u32_max then rest else none) else none

-- A leading `+` is accepted before at least one digit.
unfoldable pub parse_u32 : List ℕ → Option ℕ
parse_u32 [] = none
parse_u32 (c ∷ []) = parse_digits 0 (c ∷ [])
parse_u32 (c ∷ d ∷ cs) = if c == b'+' then parse_digits 0 (d ∷ cs) else parse_digits 0 (c ∷ d ∷ cs)

unfoldable pub read_protocol_version : BusEnvelope → Option ℕ
read_protocol_version envelope = elim (header envelope protocol_version_header) [
  | none ↦ none
  | some raw ↦ parse_u32 (codes raw)
]

version_read : parse_u32 (codes "4294967295") ≡ some u32_max
unfolding parse_u32 parse_digits
version_read = refl

version_overflow : parse_u32 (codes "4294967296") ≡ none
unfolding parse_u32 parse_digits
version_overflow = refl
