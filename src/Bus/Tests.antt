-- ===== src/Bus/Tests.antt =====
-- The theorems about the request registry at concrete calls.
use Prim.Native.String.{String}
use hexeract.Common.{ℕ, ◌+◌, ◌≤◌, ◌≡◌, ◌≢◌, refl, Option, some, none, true, List, [], ◌∷◌, arith}
use hexeract.Common.Result.{ok, err}
use hexeract.Bus.Envelope.{
  BusEnvelope, codes, parse_digits, parse_u32, read_protocol_version, header, is_reserved_header,
  protocol_version_header, request_id_header, reply_status_header,
}
use hexeract.Bus.Reply.{
  ReplyExpectation, TransportRefusal, ReplyAuthentication, not_enforced, accepts,
  accepts_error_identity, accepts_reply, unauthenticated,
}
use hexeract.Bus.Retired.{RetiredSlots, resolved, abandoned, record_slot, evict, find}
use hexeract.Bus.Retired.{new as new_retired}
use hexeract.Bus.Retired.Memory.{Remembers, Recorded, record_slot-Recorded, new-Remembers}
use hexeract.Bus.Registry.{
  RequestRegistry, new, close, drain, abandon_all, register, readable_request_id, resolve,
  resolve_at, resolve_waiting, straggler, record_rejection_kind, fetch_add, Delivery,
}
use hexeract.Bus.Registry.Upkeep.{Call, registers, receives, garbles, drops, drains, closes, Sound}
use hexeract.Bus.Registry.Routing.{awaited, Routed, resolve-Routed}
use hexeract.Bus.Registry.History.{waits, run, deliveries, registrations, run-new-Sound}
use hexeract.Bus.Registry.Delivery.{deliveries-registrations}
use hexeract.Bus.Registry.Stragglers.{duplicate-delivered, run-shut}
use hexeract.Bus.Registry.Winning.{AllPatient, forged, wrong, first_valid-wins}

-- A request identity in these examples is its decimal text.
abbrev parse : String → Option ℕ
parse text = parse_u32 (codes text)

abbrev decode : List ℕ → Option ℕ
decode payload = none

abbrev reply_of : String → String → BusEnvelope
reply_of status id = record {
  message_id = 1;
  message_type = "OrderPlaced";
  payload = [];
  correlation_id = 2;
  reply_to = none;
  headers = [];
  protocol_headers =
      (protocol_version_header, "1") ∷ (request_id_header, id) ∷ (reply_status_header, status) ∷ [];
  published_at = 0;
}

abbrev expectation : ReplyExpectation
expectation = record { reply_message_type = "OrderPlaced" }

abbrev unsigned : ReplyAuthentication (Unit {0})
unsigned = not_enforced

abbrev waiting_for_7 : List (Call (Unit {0}))
waiting_for_7 = registers 7 expectation ∷ []

-- A forged reply, and one whose status is unknown.
abbrev noise : List (Call (Unit {0}))
noise =
    receives (reply_of "ok" "7") (err TransportRefusal.unauthenticated)
    ∷ receives (reply_of "pending" "7") (ok unsigned)
    ∷ garbles
    ∷ []

abbrev all_calls : List (Call (Unit {0}))
all_calls =
    registers 7 expectation
    ∷ receives (reply_of "ok" "7") (ok unsigned)
    ∷ receives (reply_of "ok" "7") (ok unsigned)
    ∷ registers 8 expectation
    ∷ drops 8
    ∷ drains
    ∷ []

awaited_7 : awaited 7 (run parse decode waiting_for_7 (new 4)) ≡ some expectation
unfolding run register new
awaited_7 = refl

reads_7 : readable_request_id parse (reply_of "ok" "7") ≡ some 7
unfolding readable_request_id header is_reserved_header parse_u32 parse_digits
reads_7 = refl

accepts_7 : accepts_reply decode expectation (reply_of "ok" "7") 7 ≡ ok tt
unfolding accepts_reply accepts accepts_error_identity read_protocol_version header
    is_reserved_header parse_u32 parse_digits
accepts_7 = refl

unknown_status : accepts_reply decode expectation (reply_of "pending" "7") 7 ≢ ok tt
unfolding accepts_reply accepts accepts_error_identity read_protocol_version header
    is_reserved_header parse_u32 parse_digits
unknown_status p = cc p

noise-AllPatient : AllPatient parse decode 7 expectation noise
noise-AllPatient = (forged unauthenticated, (wrong unknown_status, (tt, tt)))

first_valid-wins_example :
    (awaited 7 (run parse decode noise (run parse decode waiting_for_7 (new 4))) ≡ some expectation)
    × ((resolve decode parse
          (reply_of "ok" "7")
          (ok unsigned)
          (run parse decode noise (run parse decode waiting_for_7 (new 4)))).1
        ≡ some (7, (reply_of "ok" "7", unsigned)))
first_valid-wins_example =
    first_valid-wins parse decode 7 expectation noise (run parse decode waiting_for_7 (new 4))
      (reply_of "ok" "7") unsigned awaited_7 noise-AllPatient reads_7 accepts_7

deliveries-registrations_example :
    deliveries parse decode 7 all_calls (new 4) + waits 7 (run parse decode all_calls (new 4))
    ≤ waits 7 (new 4) + registrations parse decode 7 all_calls (new 4)
deliveries-registrations_example = deliveries-registrations parse decode 7 all_calls (new 4)

resolve-Routed_example :
    Routed parse decode (reply_of "ok" "7") (ok unsigned) (run parse decode waiting_for_7 (new 4)) (
      resolve decode parse
        (reply_of "ok" "7")
        (ok unsigned)
        (run parse decode waiting_for_7 (new 4)))
resolve-Routed_example =
    resolve-Routed parse decode (reply_of "ok" "7") (run parse decode waiting_for_7 (new 4))
      (ok unsigned)

run-new-Sound_example : Sound (run parse decode all_calls (new 4))
run-new-Sound_example = run-new-Sound parse decode all_calls 4

-- Another reply to request 7 comes after the first was delivered and a second counted.
abbrev answered : RequestRegistry
answered = run parse decode all_calls (new 4)

repeated_once : answered.counters.duplicate ≡ 1
unfolding run register new new_retired resolve resolve_at resolve_waiting readable_request_id
    accepts_reply accepts accepts_error_identity read_protocol_version header is_reserved_header
    parse_u32 parse_digits find record_slot evict drain abandon_all hexeract.Bus.Registry.remove
    straggler record_rejection_kind fetch_add
repeated_once = refl

repeated_twice :
    (resolve decode parse (reply_of "ok" "7") (ok unsigned) answered).0.counters.duplicate ≡ 2
unfolding run register new new_retired resolve resolve_at resolve_waiting readable_request_id
    accepts_reply accepts accepts_error_identity read_protocol_version header is_reserved_header
    parse_u32 parse_digits find record_slot evict drain abandon_all hexeract.Bus.Registry.remove
    straggler record_rejection_kind fetch_add
repeated_twice = refl

now_repeated :
    (resolve decode parse (reply_of "ok" "7") (ok unsigned) answered).0.counters.duplicate
    ≢ answered.counters.duplicate
now_repeated h = absurd (omega (arith, h, repeated_once, repeated_twice))

duplicate-delivered_example :
    (k : ℕ) × (readable_request_id parse (reply_of "ok" "7") ≡ some k)
    × (1 ≤ deliveries parse decode k all_calls (new 4))
duplicate-delivered_example =
    duplicate-delivered parse decode 4 all_calls (reply_of "ok" "7") (ok unsigned) now_repeated

abbrev shut : List (Call (Unit {0}))
shut = registers 7 expectation ∷ closes ∷ []

is_shut : (run parse decode shut (new 4)).is_closed ≡ true
unfolding run register new close drain
is_shut = refl

run-shut_example :
    ((run parse decode all_calls (run parse decode shut (new 4))).is_closed ≡ true)
    × (deliveries parse decode 7 all_calls (run parse decode shut (new 4))
          + registrations parse decode 7 all_calls (run parse decode shut (new 4))
        ≡ 0)
run-shut_example =
    run-shut parse decode 7 all_calls (run parse decode shut (new 4))
      (run-new-Sound parse decode shut 4) is_shut

-- A full memory of two.
abbrev two_retired : RetiredSlots
two_retired = record_slot 2 resolved (record_slot 1 resolved (new_retired 2))

two_retired-Remembers : Remembers two_retired
two_retired-Remembers =
    let one = record_slot-Recorded 1 resolved (new_retired 2) (new-Remembers 2) in
    let two = record_slot-Recorded 2 resolved (record_slot 1 resolved (new_retired 2)) one.sound in
    two.sound

record_slot-Recorded_example :
    Recorded 3 abandoned two_retired (record_slot 3 abandoned two_retired)
record_slot-Recorded_example = record_slot-Recorded 3 abandoned two_retired two_retired-Remembers
