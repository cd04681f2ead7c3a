-- ===== src/Bus/Registry.antt =====
-- The rendezvous of request callers and replies:
-- crates/hexeract-bus/src/request_registry.rs. An operation is one step: the registry's lock is
-- taken once in each, and the counters are atomic. A debug trace has no part in it.
pub mod Routing
pub mod Upkeep
pub mod History
pub mod Delivery
pub mod Stragglers
pub mod Winning
use Prim.Native.String.{String}
use hexeract.Common.{
  ℕ, zero, suc, ◌+◌, ◌^◌, min, ◌%◌, Option, some, none, Bool, true, false, List, [], ◌∷◌, ◌==◌, leb,
  if◌then◌else◌, length,
}
use hexeract.Common.Result.{Result, ok, err}
use hexeract.Common.Map.{lookup, insert, erase}
use hexeract.Bus.Envelope.{BusEnvelope, header, request_id_header}
use hexeract.Bus.Reply.{
  ReplyExpectation, ReplyRejection, ReplyRejectionKind, kind, TransportRefusal, from_refusal,
  ReplyAuthentication, accepts_reply, undecodable, orphaned, invalid, duplicate, late,
}
use hexeract.Bus.Retired.{
  SlotRetirement, resolved, abandoned, RetiredSlots, new as new_retired, record_slot, find,
}
use hexeract.Clock.{u32_max}

-- The sender of the channel is the slot itself: a delivery is handed to the slot that it removes.
pub record Slot : Type 0 where
  pub expectation : ReplyExpectation
  pub last_rejection : Option ReplyRejection
  pub rejected_deliveries : ℕ

pub record ReplyCounters : Type 0 where
  pub undecodable : ℕ
  pub orphaned : ℕ
  pub unauthenticated : ℕ
  pub invalid : ℕ
  pub duplicate : ℕ
  pub late : ℕ

pub data RegisterRejection : Type 0 where
  at_capacity closed slot_occupied : RegisterRejection

pub record RequestRegistry : Type 0 where
  pub slots : List (ℕ × Slot)
  pub retired : RetiredSlots
  pub is_closed : Bool
  pub counters : ReplyCounters
  pub max_in_flight : ℕ

abbrev pub default_max_in_flight : ℕ
default_max_in_flight = 1024

abbrev pub no_refusal : ReplyCounters
no_refusal = record {
  undecodable = 0;
  orphaned = 0;
  unauthenticated = 0;
  invalid = 0;
  duplicate = 0;
  late = 0;
}

unfoldable pub new : ℕ → RequestRegistry
new max_in_flight = record {
  slots = [];
  retired = new_retired max_in_flight;
  is_closed = false;
  counters = no_refusal;
  max_in_flight = max_in_flight;
}

-- `fetch_add(1)` on an `AtomicU64`.
unfoldable pub fetch_add : ℕ → ℕ
fetch_add c = (c + 1) % 2 ^ 64

unfoldable pub record_rejection_kind : ReplyRejectionKind → ReplyCounters → ReplyCounters
record_rejection_kind undecodable c = record c { undecodable = fetch_add c.undecodable }
record_rejection_kind orphaned c = record c { orphaned = fetch_add c.orphaned }
record_rejection_kind ReplyRejectionKind.unauthenticated c = record c {
  unauthenticated = fetch_add c.unauthenticated;
}
record_rejection_kind invalid c = record c { invalid = fetch_add c.invalid }
record_rejection_kind duplicate c = record c { duplicate = fetch_add c.duplicate }
record_rejection_kind late c = record c { late = fetch_add c.late }

abbrev pub count : ReplyRejectionKind → RequestRegistry → RequestRegistry
count k r = record r { counters = record_rejection_kind k r.counters }

unfoldable pub record_undecodable : RequestRegistry → RequestRegistry
record_undecodable r = count undecodable r

abbrev pub fresh : ReplyExpectation → Slot
fresh expectation = record {
  expectation = expectation;
  last_rejection = none;
  rejected_deliveries = 0;
}

unfoldable pub register :
    ℕ → ReplyExpectation → RequestRegistry → RequestRegistry × Result RegisterRejection ℕ
register id expectation r = if r.is_closed then (r, err closed) else elim (lookup id r.slots) [
  | some s ↦ (r, err slot_occupied)
  | none ↦
      if leb r.max_in_flight (length r.slots)
      then (r, err at_capacity)
      else (record r { slots = insert id (fresh expectation) r.slots }, ok id)
]

-- The drop of a `PendingReply`.
unfoldable pub remove : ℕ → RequestRegistry → RequestRegistry
remove id r = elim (lookup id r.slots) [
  | some s ↦ record r { slots = erase id r.slots; retired = record_slot id abandoned r.retired }
  | none ↦ r
]

unfoldable pub abandon_all : List (ℕ × Slot) → RetiredSlots → RetiredSlots
abandon_all [] m = m
abandon_all ((id, s) ∷ slots) m = abandon_all slots (record_slot id abandoned m)

unfoldable pub drain : RequestRegistry → RequestRegistry
drain r = record r { slots = []; retired = abandon_all r.slots r.retired }

unfoldable pub close : RequestRegistry → RequestRegistry
close r = drain (record r { is_closed = true })

-- The slot keeps waiting: it only remembers why a delivery was refused.
abbrev pub note : ReplyRejection → Slot → Slot
note rejection s = record s {
  last_rejection = some rejection;
  rejected_deliveries = min (suc s.rejected_deliveries) u32_max;
}

abbrev pub note_in : ReplyRejection → Option ℕ → List (ℕ × Slot) → List (ℕ × Slot)
note_in rejection none slots = slots
note_in rejection (some id) slots = elim (lookup id slots) [
  | some s ↦ insert id (note rejection s) slots
  | none ↦ slots
]

-- The category of a reply to a request that waits no longer.
unfoldable pub straggler : Option SlotRetirement → ReplyRejectionKind
straggler (some resolved) = duplicate
straggler (some abandoned) = late
straggler none = orphaned

unfoldable pub last_rejection_of : ℕ → RequestRegistry → Option ReplyRejection
last_rejection_of id r = elim (lookup id r.slots) [ some s ↦ s.last_rejection | none ↦ none ]

unfoldable pub rejected_deliveries_of : ℕ → RequestRegistry → ℕ
rejected_deliveries_of id r = elim (lookup id r.slots) [ some s ↦ s.rejected_deliveries | none ↦ 0 ]

-- `parse_uuid` is the `uuid` crate's parser.
unfoldable pub readable_request_id : (String → Option ℕ) → BusEnvelope → Option ℕ
readable_request_id parse_uuid envelope = elim (header envelope request_id_header) [
  | some raw ↦ parse_uuid raw
  | none ↦ none
]

-- What a caller receives: the request, its reply and who signed it.
abbrev pub Delivery : Type 0 → Type 0
Delivery Principal = ℕ × (BusEnvelope × ReplyAuthentication Principal)

-- `decode_error` is the decoder of `serde_json`.
module _ (decode_error : List ℕ → Option ℕ) {Principal : Type 0} where
  unfoldable pub resolve_waiting :
      ℕ
      → Slot
      → BusEnvelope
      → ReplyAuthentication Principal
      → RequestRegistry
      → RequestRegistry × Option (Delivery Principal)
  resolve_waiting id s envelope authentication r =
      elim (accepts_reply decode_error s.expectation envelope id) [
        | err rejection ↦ (
          count (kind rejection) (record r { slots = insert id (note rejection s) r.slots }),
          none,
        )
        | ok u ↦ (
          record r { slots = erase id r.slots; retired = record_slot id resolved r.retired },
          some (id, (envelope, authentication)),
        )
      ]

  unfoldable pub resolve_at :
      ℕ
      → BusEnvelope
      → ReplyAuthentication Principal
      → RequestRegistry
      → RequestRegistry × Option (Delivery Principal)
  resolve_at id envelope authentication r = elim (lookup id r.slots) [
    | none ↦ (count (straggler (find id r.retired)) r, none)
    | some s ↦ resolve_waiting id s envelope authentication r
  ]

  unfoldable pub resolve :
      (String → Option ℕ)
      → BusEnvelope
      → Result TransportRefusal (ReplyAuthentication Principal)
      → RequestRegistry
      → RequestRegistry × Option (Delivery Principal)
  resolve parse_uuid envelope (err refusal) r =
      let rejection = from_refusal refusal in
      (
        count (kind rejection) (record r {
          slots = note_in rejection (readable_request_id parse_uuid envelope) r.slots;
        }),
        none,
      )
  resolve parse_uuid envelope (ok authentication) r =
      elim (readable_request_id parse_uuid envelope) [
        | none ↦ (count orphaned r, none)
        | some id ↦ resolve_at id envelope authentication r
      ]
