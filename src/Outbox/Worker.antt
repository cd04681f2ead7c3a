-- ===== src/Outbox/Worker.antt =====
-- The polling worker of the outbox: crates/hexeract-outbox/src/worker.rs, envelope.rs and error.rs.
-- The store is any implementation of the `OutboxStore` trait: a database and what a transaction
-- makes of it. A transaction that is not committed leaves the database as it was.
use Prim.Native.String.{String}
use hexeract.Common.{
  ℕ, ◌+◌, ◌%◌, min, max, Option, some, none, Bool, true, false, List, [], ◌∷◌, map, has, leb,
  if◌then◌else◌, length,
}
use hexeract.Common.Result.{Result, ok, err, ◌>>=◌, ◌>>◌}
use hexeract.Clock.{Instant, Duration, saturating_mul, u32_max, u32_mod, from_millis, from_secs}
use hexeract.Backoff.{retry_delay}

pub record OutboxEnvelope : Type 0 where
  pub event_id : ℕ
  pub event_type : String
  pub payload : List ℕ
  pub subject_id : Option ℕ
  pub created_at : Instant
  pub attempts : ℕ  -- u32
  pub last_error : Option String
  pub next_retry_at : Option Instant
  pub delivered_at : Option Instant

pub data OutboxError : Type 0 where
  serialization database : String → OutboxError
  missing_handler : String → OutboxError
  max_retries : ℕ → ℕ → OutboxError
  type_mismatch : String → String → OutboxError
  pool_timeout : OutboxError
  dispatch_timeout_of : ℕ → String → Duration → OutboxError
  internal : String → OutboxError

pub record OutboxWorkerConfig : Type 0 where
  pub poll_interval : Duration
  pub batch_size : ℕ
  pub max_attempts : ℕ
  pub retry_base_delay : Duration
  pub retry_max_delay : Duration
  pub jitter : Bool
  pub min_cycle_delay : Duration
  pub dispatch_timeout : Duration

abbrev pub default_config : OutboxWorkerConfig
default_config = record {
  poll_interval = from_millis 100;
  batch_size = 10;
  max_attempts = 5;
  retry_base_delay = from_secs 1;
  retry_max_delay = from_secs 300;
  jitter = true;
  min_cycle_delay = from_millis 5;
  dispatch_timeout = from_secs 30;
}

-- The trait `OutboxStore`, over a database `Db` and an open transaction `Tx`.
pub record OutboxStore (Db Tx : Type 0) : Type 0 where
  pub acquire : Db → Result OutboxError (Unit {0})
  pub begin : Db → Result OutboxError Tx
  pub poll : Tx → ℕ → ℕ → Result OutboxError (Tx × List OutboxEnvelope)
  pub claim : Tx → List (ℕ × ℕ) → Duration → Result OutboxError (Tx × List ℕ)
  pub mark_delivered : Tx → ℕ → ℕ → Result OutboxError (Tx × Bool)
  pub mark_failed : Tx → ℕ → String → Duration → ℕ → Result OutboxError (Tx × Bool)
  pub mark_dead_lettered : Tx → ℕ → String → ℕ → Result OutboxError (Tx × Bool)
  pub commit : Tx → Result OutboxError Db

-- A handler answers, or is slower than the dispatch timeout.
abbrev pub Handler : Type 0
Handler = OutboxEnvelope → Option (Result OutboxError (Unit {0}))

-- The attempt that the worker has claimed.
abbrev pub claimed_attempt : OutboxEnvelope → ℕ
claimed_attempt envelope = (envelope.attempts + 1) % u32_mod

-- The envelopes that the claim obtained.
unfoldable pub obtained_of : List ℕ → List OutboxEnvelope → List OutboxEnvelope
obtained_of obtained [] = []
obtained_of obtained (e ∷ es) =
    let rest = obtained_of obtained es in if has e.event_id obtained then e ∷ rest else rest

-- `lease_for`.
unfoldable pub lease_for : OutboxWorkerConfig → ℕ → Duration
lease_for config batch_len = saturating_mul config.dispatch_timeout (min (max batch_len 1) u32_max)

abbrev answer_of :
    OutboxWorkerConfig
    → OutboxEnvelope
    → Option (Result OutboxError (Unit {0}))
    → Result OutboxError (Unit {0})
answer_of config envelope (some result) = result
answer_of config envelope none =
    err (dispatch_timeout_of envelope.event_id envelope.event_type config.dispatch_timeout)

-- `dispatch`; `handlers` is the registry by event type.
unfoldable pub dispatch :
    OutboxWorkerConfig → (String → Option Handler) → OutboxEnvelope → Result OutboxError (Unit {0})
dispatch config handlers envelope = elim (handlers envelope.event_type) [
  | none ↦ err (missing_handler envelope.event_type)
  | some handler ↦ answer_of config envelope (handler envelope)
]

module _ {Db Tx : Type 0} (store : OutboxStore Db Tx) (config : OutboxWorkerConfig)
    (handlers : String → Option Handler) (display : OutboxError → String) (random : ℕ → ℕ) where
  abbrev pub settle_delivered : OutboxEnvelope → Tx → Result OutboxError Db
  settle_delivered envelope tx = do
    applied ← store.mark_delivered tx envelope.event_id (claimed_attempt envelope)
    store.commit applied.0

  -- What follows the call of `mark_failed`: a refused failure never dead-letters.
  abbrev pub after_failure : OutboxEnvelope → String → Tx × Bool → Result OutboxError Db
  after_failure envelope message (tx, false) = store.commit tx
  after_failure envelope message (tx, true) =
      if leb config.max_attempts (claimed_attempt envelope)
      then (do
        moved ← store.mark_dead_lettered tx envelope.event_id message (claimed_attempt envelope)
        store.commit moved.0)
      else store.commit tx

  abbrev pub settle_failed : OutboxEnvelope → String → Tx → Result OutboxError Db
  settle_failed envelope message tx = do
    recorded ←
        store.mark_failed tx envelope.event_id message
          (retry_delay random config.jitter config.retry_base_delay config.retry_max_delay
            envelope.attempts)
          (claimed_attempt envelope)
    after_failure envelope message recorded

  abbrev pub settle_outcome :
      OutboxEnvelope → Result OutboxError (Unit {0}) → Tx → Result OutboxError Db
  settle_outcome envelope (ok u) tx = settle_delivered envelope tx
  settle_outcome envelope (err error) tx = settle_failed envelope (display error) tx

  unfoldable pub dispatch_and_settle : OutboxEnvelope → Db → Result OutboxError Db
  dispatch_and_settle envelope db = do
    store.acquire db
    tx ← store.begin db
    settle_outcome envelope (dispatch config handlers envelope) tx

  abbrev pub database_after : Db → Result OutboxError Db → Db
  database_after db (ok db') = db'
  database_after db (err e) = db

  -- The loop over the claimed envelopes: an error of one is logged and the loop goes on.
  unfoldable pub settle_each : List OutboxEnvelope → Db → Db
  settle_each [] db = db
  settle_each (e ∷ es) db = settle_each es (database_after db (dispatch_and_settle e db))

  abbrev pub claim_of : OutboxEnvelope → ℕ × ℕ
  claim_of e = (e.event_id, e.attempts)

  abbrev pub claim_batch : Tx → List OutboxEnvelope → Result OutboxError (Tx × List OutboxEnvelope)
  claim_batch tx [] = ok (tx, [])
  claim_batch tx (e ∷ es) = do
    obtained ← store.claim tx (map claim_of (e ∷ es)) (lease_for config (length (e ∷ es)))
    ok (obtained.0, obtained_of obtained.1 (e ∷ es))

  -- The first phase of a cycle: poll and claim in one short transaction.
  unfoldable pub claim_phase : Db → Result OutboxError (Db × List OutboxEnvelope)
  claim_phase db = do
    store.acquire db
    tx ← store.begin db
    polled ← store.poll tx config.batch_size config.max_attempts
    claimed ← claim_batch polled.0 polled.1
    db' ← store.commit claimed.0
    ok (db', claimed.1)

  unfoldable pub poll_cycle : Db → Result OutboxError (Db × ℕ)
  poll_cycle db = do
    claimed ← claim_phase db
    ok (settle_each claimed.1 claimed.0, length claimed.1)
