-- ===== src/Rabbit/Metadata.antt =====
-- AMQP metadata, bounded in both directions: crates/hexeract-bus-rabbitmq/src/metadata.rs and the
-- short strings of transport.rs. A `FieldTable` lists its entries; a long string and a byte array
-- are their bytes. `usize` has 64 bits.
pub mod Measure
pub mod Encoding
pub mod Keys
pub mod RoundTrip
use Prim.Native.String.{String}
use hexeract.Common.{
  ℕ, zero, suc, ◌+◌, ◌-◌, ◌^◌, ◌≡◌, refl, Option, some, none, Bool, true, false, ◌&&◌, ◌||◌, not,
  List, [], ◌∷◌, ◌++◌, map, leb, if◌then◌else◌, length,
}
use hexeract.Common.Int.{ℤ}
use hexeract.Common.Bytes.{Bytes, as_bytes}
use hexeract.Common.Result.{Result, ok, err, ◌>>=◌, ◌>>◌, guard, ok_or}
use hexeract.Bus.Envelope.{
  BusEnvelope, Headers, is_reserved_header, put_header, validate_application_headers, wire_headers,
}
use hexeract.Bus.Error.{
  MetadataLimit, header_count, key_bytes, value_bytes, total_bytes, non_utf8_long_string,
  non_canonical_reserved_header, BusError, metadata_limit_exceeded, invalid_metadata,
  invalid_topology, Checked,
}

pub record AmqpMetadataLimits : Type 0 where
  pub max_headers : ℕ
  pub max_key_bytes : ℕ
  pub max_value_bytes : ℕ
  pub max_total_bytes : ℕ

abbrev pub default_limits : AmqpMetadataLimits
default_limits = record {
  max_headers = 64;
  max_key_bytes = 128;
  max_value_bytes = 8192;
  max_total_bytes = 32768;
}

abbrev pub usize_max : ℕ
usize_max = 18446744073709551615

abbrev pub saturating_add : ℕ → ℕ → ℕ
saturating_add x y = if leb (x + y) usize_max then x + y else usize_max

-- `AMQPValue` of the lapin crate, with what the code reads of it.
mutual
  pub data AmqpValue : Type 0 where
    boolean short_short_int short_short_uint short_int short_uint long_int long_uint float :
        AmqpValue
    double timestamp decimal void : AmqpValue
    long_long_int : ℤ → AmqpValue
    short_string : String → AmqpValue
    long_string byte_array : Bytes → AmqpValue
    field_array : Items → AmqpValue
    field_table : Fields → AmqpValue

  pub data Items : Type 0 where
    no_items : Items
    item : AmqpValue → Items → Items

  pub data Fields : Type 0 where
    no_fields : Fields
    entry : String → AmqpValue → Fields → Fields

abbrev pub FieldTable : Type 0
FieldTable = List (String × AmqpValue)

-- The stack `pending`, its top first: an extension leaves the last member on top.
abbrev pub push_items : Items → List AmqpValue → List AmqpValue
push_items no_items pending = pending
push_items (item v items) pending = push_items items (v ∷ pending)

abbrev pub push_fields : Fields → List AmqpValue → List AmqpValue
push_fields no_fields pending = pending
push_fields (entry k v fields) pending = push_fields fields (v ∷ pending)

abbrev pub key_lengths : ℕ → Fields → ℕ
key_lengths keys no_fields = keys
key_lengths keys (entry k v fields) = key_lengths (saturating_add keys (length (as_bytes k))) fields

-- What one value contributes, without its members.
unfoldable pub contribution : AmqpValue → ℕ
contribution boolean = 1
contribution short_short_int = 1
contribution short_short_uint = 1
contribution short_int = 2
contribution short_uint = 2
contribution long_int = 4
contribution long_uint = 4
contribution float = 4
contribution (long_long_int n) = 8
contribution double = 8
contribution timestamp = 8
contribution decimal = 5
contribution void = 0
contribution (short_string text) = length (as_bytes text)
contribution (long_string text) = length text
contribution (byte_array bytes) = length bytes
contribution (field_array items) = 0
contribution (field_table fields) = key_lengths 0 fields

abbrev pub push_members : AmqpValue → List AmqpValue → List AmqpValue
push_members (field_array items) pending = push_items items pending
push_members (field_table fields) pending = push_fields fields pending
push_members v pending = pending

-- The values in a value, itself included: the fuel of the loop.
abbrev mutual
  pub size_of : AmqpValue → ℕ
  size_of (field_array items) = suc (size_of_items items)
  size_of (field_table fields) = suc (size_of_fields fields)
  size_of v = 1

  pub size_of_items : Items → ℕ
  size_of_items no_items = 0
  size_of_items (item v items) = size_of v + size_of_items items

  pub size_of_fields : Fields → ℕ
  size_of_fields no_fields = 0
  size_of_fields (entry k v fields) = size_of v + size_of_fields fields

unfoldable pub measure_loop : ℕ → ℕ → List AmqpValue → ℕ → Checked ℕ
measure_loop fuel max_value_bytes [] measured = ok measured
measure_loop zero max_value_bytes (v ∷ pending) measured = ok measured
measure_loop (suc fuel) max_value_bytes (v ∷ pending) measured = do
  let grown = saturating_add measured (contribution v)
  guard (leb grown max_value_bytes) (metadata_limit_exceeded value_bytes grown max_value_bytes)
  measure_loop fuel max_value_bytes (push_members v pending) grown

unfoldable pub measure_value : AmqpValue → ℕ → Checked ℕ
measure_value v max_value_bytes = measure_loop (size_of v) max_value_bytes (v ∷ []) 0
