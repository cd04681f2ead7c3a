-- ===== src/Rabbit/Worker.antt =====
-- The state, the answers and the actions of the consumer worker, and its count of earlier attempts:
-- crates/hexeract-bus-rabbitmq/src/worker.rs. The broker's answers are arguments; what the worker
-- does is a list of actions.
use Prim.Native.String.{String}
use text.Mathlib.Text.{◌==◌ as str_eq}
use Prim.Native.String as String
use hexeract.Common.{
  ℕ, Option, some, none, Bool, false, ◌&&◌, not, List, [], ◌∷◌, leb, if◌then◌else◌,
}
use hexeract.Common.Bytes.{as_bytes, bytes_lt}
use hexeract.Common.Int.{ℤ, pos, negsuc}
use hexeract.Common.Result.{ok, err}
use hexeract.Clock.{u32_max}
use hexeract.Bus.Error.{Checked}
use hexeract.Bus.Security.Types.{VerificationPolicy}
use hexeract.Rabbit.Metadata.{
  AmqpMetadataLimits, AmqpValue, long_string, long_long_int, field_array, field_table, Items,
  no_items, item, Fields, no_fields, entry, FieldTable,
}
use hexeract.Rabbit.Delivery.{PublisherAuthentication}

pub data AckMode : Type 0 where
  manual ack_on_receive unacknowledged : AckMode

pub data DeliveryDisposition : Type 0 where
  settled left_for_redelivery : DeliveryDisposition

abbrev pub from_settle_result : Checked (Unit {0}) → DeliveryDisposition
from_settle_result (ok _) = settled
from_settle_result (err _) = left_for_redelivery

pub record RabbitMqWorkerConfig : Type 0 where
  pub ack_mode : AckMode
  pub max_attempts : ℕ
  pub dead_letter_routing_key : Option String
  pub max_payload_bytes : ℕ
  pub metadata_limits : AmqpMetadataLimits
  pub policy : Option VerificationPolicy

-- The answers of the broker to the operations on this delivery.
pub record Broker : Type 0 where
  pub ack : Checked (Unit {0})
  pub nack : Checked (Unit {0})
  pub publish_to_wait_queue : Checked (Unit {0})
  pub publish_dead_letter : Checked (Unit {0})

pub data Action : Type 0 where
  acked : Action
  nacked : Bool → Action
  retried : Action
  -- With the field table of the delivery, or without.
  dead_lettered : Bool → Action
  handled : PublisherAuthentication → Action

abbrev pub Handling : Type 0
Handling = List Action × DeliveryDisposition

-- `x-death`.
abbrev pub table_field : String → FieldTable → Option AmqpValue
table_field key [] = none
table_field key ((k, v) ∷ m) = if str_eq k key then some v else table_field key m

abbrev pub entry_field : String → Fields → Option AmqpValue
entry_field key no_fields = none
entry_field key (entry k v fields) = if str_eq k key then some v else entry_field key fields

abbrev is_text : String → Option AmqpValue → Bool
is_text s (some (long_string bytes)) =
    not (bytes_lt bytes (as_bytes s)) && not (bytes_lt (as_bytes s) bytes)
is_text s _ = false

-- `u32::try_from(count.max(0))`, or the greatest.
abbrev clamped : ℤ → ℕ
clamped (pos n) = if leb n u32_max then n else u32_max
clamped (negsuc n) = 0

abbrev expired_count : String → Fields → Option ℕ
expired_count wait_queue fields =
    if is_text wait_queue (entry_field "queue" fields)
      && is_text "expired" (entry_field "reason" fields)
    then counted (entry_field "count" fields)
    else none
  where
    counted : Option AmqpValue → Option ℕ
    counted (some (long_long_int count)) = some (clamped count)
    counted _ = none

abbrev pub deaths_of : String → Items → ℕ
deaths_of wait_queue no_items = 0
deaths_of wait_queue (item (field_table fields) items) = elim (expired_count wait_queue fields) [
  | some count ↦ count
  | none ↦ deaths_of wait_queue items
]
deaths_of wait_queue (item _ items) = deaths_of wait_queue items

unfoldable pub death_count : Option FieldTable → String → ℕ
death_count none wait_queue = 0
death_count (some table) wait_queue = elim (table_field "x-death" table) [
  | some (field_array deaths) ↦ deaths_of wait_queue deaths
  | _ ↦ 0
]

unfoldable pub wait_queue_name : String → String
wait_queue_name queue = String.◌++◌ queue ".retry"
