-- ===== src/Bus/Error.antt =====
-- The errors of the bus: crates/hexeract-bus/src/error.rs. A source that another crate made is its
-- text.
use Prim.Native.String.{String}
use hexeract.Common.{ℕ, Option, some, none, Bool, true, false}
use hexeract.Common.Result.{Result}
use hexeract.Clock.{Duration}
use hexeract.Bus.Security.Types.{EnvelopeSecurityError}

pub data MetadataLimit : Type 0 where
  header_count key_bytes value_bytes total_bytes : MetadataLimit

pub data InvalidMetadataReason : Type 0 where
  non_utf8_long_string non_canonical_reserved_header : InvalidMetadataReason

pub data BusError : Type 0 where
  reserved_header_namespace : BusError
  metadata_limit_exceeded : MetadataLimit → ℕ → ℕ → BusError
  invalid_metadata : InvalidMetadataReason → BusError
  serialization transport : String → BusError
  connection : String → Bool → BusError
  unroutable reply_undeliverable : String → String → ℕ → BusError
  shutdown_drain_timed_out : ℕ → Duration → BusError
  missing_handler : String → BusError
  type_mismatch : String → String → BusError
  payload_too_large : ℕ → ℕ → BusError
  invalid_topology internal : String → BusError
  envelope_security : EnvelopeSecurityError → BusError

abbrev pub Checked : Type 0 → Type 0
Checked A = Result BusError A

unfoldable pub is_retryable_connection : BusError → Option Bool
is_retryable_connection (connection _ retryable) = some retryable
is_retryable_connection _ = none

unfoldable pub is_permanent_delivery_failure : BusError → Bool
is_permanent_delivery_failure (missing_handler _) = true
is_permanent_delivery_failure (reply_undeliverable _ _ _) = true
is_permanent_delivery_failure _ = false

-- crates/hexeract-bus-rabbitmq/src/metadata.rs.
unfoldable pub needs_sanitized_quarantine : BusError → Bool
needs_sanitized_quarantine reserved_header_namespace = true
needs_sanitized_quarantine (metadata_limit_exceeded _ _ _) = true
needs_sanitized_quarantine (invalid_metadata _) = true
needs_sanitized_quarantine (envelope_security _) = true
needs_sanitized_quarantine _ = false
