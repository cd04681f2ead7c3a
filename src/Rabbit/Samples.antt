-- ===== src/Rabbit/Samples.antt =====
-- Parameters and properties for the examples on crates/hexeract-bus-rabbitmq/src.
use Prim.Native.String.{String}
use hexeract.Common.{
  ℕ, Option, some, none, Bool, ◌&&◌, not, List, [], ◌∷◌, leb, length, if◌then◌else◌,
}
use hexeract.Common.Bytes.{Bytes, as_bytes, bytes_lt}
use hexeract.Common.Result.{Result, ok, err}
use hexeract.Bus.Envelope.{codes}
use hexeract.Bus.Error.{BusError}
use hexeract.Bus.Security.Samples.{order, unary}
use hexeract.Rabbit.Metadata.{default_limits}
use hexeract.Rabbit.Delivery.{BasicProperties, Minted, envelope_to_properties}

abbrev pub try_new : String → Bool
try_new s = leb (length (as_bytes s)) 255

abbrev pub parse : String → Option ℕ
parse s = some (length (codes s))

abbrev pub find_text : List String → Bytes → Option String
find_text [] bytes = none
find_text (s ∷ ss) bytes =
    if not (bytes_lt bytes (as_bytes s)) && not (bytes_lt (as_bytes s) bytes)
    then some s
    else find_text ss bytes

abbrev pub from_utf8 : Bytes → Option String
from_utf8 = find_text ("acme" ∷ "eu" ∷ "7" ∷ [])

abbrev pub props_or_empty : Result BusError BasicProperties → BasicProperties
props_or_empty (ok props) = props
props_or_empty (err _) = record {
  message_id = none;
  correlation_id = none;
  content_type = none;
  kind = none;
  delivery_mode = none;
  timestamp = none;
  headers = none;
  reply_to = none;
  user_id = none;
}

abbrev pub order_props : BasicProperties
order_props = props_or_empty (envelope_to_properties try_new unary order default_limits none none)

abbrev pub minted : Minted
minted = record { message_id = 8; correlation_id = 9; now = 0 }
