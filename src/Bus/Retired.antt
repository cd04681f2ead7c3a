-- ===== src/Bus/Retired.antt =====
-- The memory of retired requests: crates/hexeract-bus/src/slot_retirement.rs.
pub mod Memory
use hexeract.Common.{
  ℕ, zero, suc, ◌+◌, ◌≤◌, ◌<◌, ◌≡◌, refl, ◌⊎◌, inl, inr, Option, some, none, Bool, true, false,
  List, [], ◌∷◌, ◌++◌, ◌==◌, leb, if◌then◌else◌, length, arith,
}
use hexeract.Common.Map.{lookup, insert, erase}

pub data SlotRetirement : Type 0 where
  resolved abandoned : SlotRetirement

-- `order` is the `VecDeque`, its front first.
pub record RetiredSlots : Type 0 where
  pub entries : List (ℕ × SlotRetirement)
  pub order : List ℕ
  pub capacity : ℕ

unfoldable pub new : ℕ → RetiredSlots
new capacity = record { entries = []; order = []; capacity = capacity }

-- The loop that makes room: `while order.len() >= capacity`, with its break on an empty queue.
unfoldable pub evict : ℕ → List ℕ → List (ℕ × SlotRetirement) → List ℕ × List (ℕ × SlotRetirement)
evict capacity [] entries = ([], entries)
evict capacity (x ∷ xs) entries =
    let rest = evict capacity xs (erase x entries) in
    if leb capacity (suc (length xs)) then rest else (x ∷ xs, entries)

abbrev record_new : ℕ → SlotRetirement → RetiredSlots → RetiredSlots
record_new id t r =
    let room = evict r.capacity r.order r.entries in
    record r { entries = insert id t room.1; order = room.0 ++ (id ∷ []) }

unfoldable pub record_slot : ℕ → SlotRetirement → RetiredSlots → RetiredSlots
record_slot id t r = if r.capacity == 0 then r else elim (lookup id r.entries) [
  | some old ↦ record r { entries = insert id t r.entries }
  | none ↦ record_new id t r
]

unfoldable pub find : ℕ → RetiredSlots → Option SlotRetirement
find id r = lookup id r.entries
