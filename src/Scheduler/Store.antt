-- ===== src/Scheduler/Store.antt =====
-- The in-memory schedule store: crates/hexeract-scheduler/src/memory.rs, and the operator surface
-- of admin.rs. Each operation runs under the store's mutex, so it is one step on the rows. An
-- operation that fails leaves the rows as they were. `now` is the reading of the system clock that
-- the operation makes, or is given.
use Prim.Native.String.{String}
use hexeract.Common.{
  ℕ, ◌+◌, ◌%◌, Option, some, none, Bool, true, false, not, ◌&&◌, List, [], ◌∷◌, leb, ◌==◌,
  if◌then◌else◌,
}
use hexeract.Common.Map.{lookup, insert}
use hexeract.Common.Result.{ok, ◌>>=◌, ok_or}
use hexeract.Clock.{Instant, Duration, checked_add, u32_mod}
use hexeract.Scheduler.Types.{
  Uuid, pending, delivered, dead_lettered, is_pending, ScheduledMessage, StoredSchedule,
  LeasedOccurrence, Fallible, internal,
}

abbrev pub Rows : Type 0
Rows = List (Uuid × StoredSchedule)

abbrev pub stored_for : Instant → StoredSchedule → StoredSchedule
stored_for t s = record s { message = record (s.message) { scheduled_for = t } }

-- `lease_free`: `leased_until.is_none_or(|until| until <= now)`.
abbrev pub is_lease_free : Instant → Option Instant → Bool
is_lease_free now none = true
is_lease_free now (some until) = leb until now

abbrev pub holds_lease : Instant → Option Instant → Bool
holds_lease lease none = false
holds_lease lease (some until) = until == lease

-- `fenced_pending_mut`.
unfoldable pub fenced_pending : Rows → Uuid → Instant → Option StoredSchedule
fenced_pending rows id lease = elim (lookup id rows) [
  | none ↦ none
  | some s ↦ if is_pending s.status && holds_lease lease s.leased_until then some s else none
]

unfoldable pub insert_schedule : Rows → ScheduledMessage → ℕ → Rows
insert_schedule rows message max_attempts =
    insert message.schedule_id
      (record {
        message = message;
        max_attempts = max_attempts;
        attempts = 0;
        leased_until = none;
        status = pending;
        last_error = none;
        dead_lettered_at = none;
      })
      rows

-- The test of `claim_due` on one row.
unfoldable pub is_claimable : Instant → StoredSchedule → Bool
is_claimable now s =
    is_pending s.status
    && (leb s.message.scheduled_for now
        && (is_lease_free now s.leased_until && not (leb s.max_attempts s.attempts)))

unfoldable pub claim_row : Instant → StoredSchedule → StoredSchedule
claim_row until s = record s { attempts = (s.attempts + 1) % u32_mod; leased_until = some until }

-- What `claim_due` returns of the row that it has just updated.
unfoldable pub occurrence_of : Instant → StoredSchedule → LeasedOccurrence
occurrence_of until s = record {
  message = s.message;
  attempts = s.attempts;
  max_attempts = s.max_attempts;
  leased_until = until;
}

abbrev pub Claims : Type 0
Claims = Rows × List LeasedOccurrence

abbrev keep_row : Uuid → StoredSchedule → Claims → Claims
keep_row id s c = ((id, s) ∷ c.0, c.1)

abbrev take_row : Instant → Uuid → StoredSchedule → Claims → Claims
take_row until id s c =
    ((id, claim_row until s) ∷ c.0, occurrence_of until (claim_row until s) ∷ c.1)

-- The loop of `claim_due`; `n` is `claimed.len()`.
unfoldable pub claim_loop : Instant → Instant → ℕ → ℕ → Rows → Claims
claim_loop now until batch n [] = ([], [])
claim_loop now until batch n ((id, s) ∷ rest) = elim (leb batch n) [
  | true ↦ ((id, s) ∷ rest, [])
  | false ↦ elim (is_claimable now s) [
    | true ↦ take_row until id s (claim_loop now until batch (n + 1) rest)
    | false ↦ keep_row id s (claim_loop now until batch n rest)
  ]
]

unfoldable pub claim_due : Instant → ℕ → Duration → Rows → Fallible Claims
claim_due now batch_size lease rows = do
  until ← ok_or (checked_add now lease) (internal "lease deadline overflow")
  ok (claim_loop now until batch_size 0 rows)

-- The acknowledgements: the new rows, and whether the acknowledgement was applied.
abbrev pub Acked : Type 0
Acked = Rows × Bool

unfoldable pub mark_delivered : Uuid → Instant → Rows → Fallible Acked
mark_delivered id lease rows = elim (fenced_pending rows id lease) [
  | none ↦ ok (rows, false)
  | some s ↦ ok (insert id (record s { status = delivered; leased_until = none }) rows, true)
]

unfoldable pub reschedule : Uuid → Instant → Instant → Rows → Fallible Acked
reschedule id next lease rows = elim (fenced_pending rows id lease) [
  | none ↦ ok (rows, false)
  | some s ↦ ok (
    insert id (record (stored_for next s) { attempts = 0; leased_until = none; last_error = none })
        rows,
    true,
  )
]

unfoldable pub mark_failed : Instant → Uuid → Duration → String → Instant → Rows → Fallible Acked
mark_failed now id retry_in error lease rows = elim (fenced_pending rows id lease) [
  | none ↦ ok (rows, false)
  | some s ↦ do
    retry_at ← ok_or (checked_add now retry_in) (internal "retry deadline overflow")
    ok (insert id (record s { leased_until = some retry_at; last_error = some error }) rows, true)
]

unfoldable pub mark_dead_lettered : Instant → Uuid → String → Instant → Rows → Fallible Acked
mark_dead_lettered now id error lease rows = elim (fenced_pending rows id lease) [
  | none ↦ ok (rows, false)
  | some s ↦ ok (
    insert id
        (record s {
          status = dead_lettered;
          leased_until = none;
          last_error = some error;
          dead_lettered_at = some now;
        })
        rows,
    true,
  )
]
