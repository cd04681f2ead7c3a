-- ===== src/Outbox/Outcome.antt =====
-- How the outbox worker settles what it dispatched (crates/hexeract-outbox/src/worker.rs).
use Prim.Native.String.{String}
use hexeract.Common.{
  ℕ, ◌+◌, ◌%◌, ◌^◌, ◌≤◌, ◌<◌, ◌≡◌, sym, subst, ◌∙◌, inl, inr, Option, some, none, Bool, true, false,
  leb, arith, Bool-cases, Option-cases,
}
use hexeract.Common.Result.{Result, ok, err, bind_ok, ok-injective}
use hexeract.Clock.{Duration}
use hexeract.Backoff.{retry_delay}
use hexeract.Outbox.Worker.{
  OutboxEnvelope, OutboxError, missing_handler, dispatch_timeout_of, OutboxWorkerConfig,
  OutboxStore, Handler, claimed_attempt, dispatch, after_failure, settle_outcome,
  dispatch_and_settle,
}

-- What comes of handing the envelope to its handler within the dispatch timeout.
pub data Answered (config : OutboxWorkerConfig) (handlers : String → Option Handler)
    (e : OutboxEnvelope) : Result OutboxError (Unit {0}) → Type 0 where
  unhandled :
      handlers e.event_type ≡ none → Answered config handlers e (err (missing_handler e.event_type))
  too_slow :
      (handler : Handler)
      → handlers e.event_type ≡ some handler
      → handler e ≡ none
      → Answered config handlers e
          (err (dispatch_timeout_of e.event_id e.event_type config.dispatch_timeout))
  in_time :
      (handler : Handler) (answer : Result OutboxError (Unit {0}))
      → handlers e.event_type ≡ some handler
      → handler e ≡ some answer
      → Answered config handlers e answer

dispatch-Answered :
    (config : OutboxWorkerConfig) (handlers : String → Option Handler) (e : OutboxEnvelope)
    → Answered config handlers e (dispatch config handlers e)
unfolding dispatch
dispatch-Answered config handlers e = elim (Option-cases (handlers e.event_type)) [
  | inl n ↦ rw (n, dispatch) (unhandled n)
  | inr (handler, p) ↦ elim (Option-cases (handler e)) [
    | inl n ↦ rw (p, n, dispatch) (too_slow handler p n)
    | inr (answer, q) ↦ rw (p, q, dispatch) (in_time handler answer p q)
  ]
]

-- The number of the attempt that a claim of the envelope begins.
abbrev pub next_attempt : OutboxEnvelope → ℕ
next_attempt e = (e.attempts + 1) % 2 ^ 32

module _ {Db Tx : Type 0} (store : OutboxStore Db Tx) where
  -- The trait's contract on refusals: an acknowledgement that a newer owner makes stale changes
  -- nothing, and a transaction that changed nothing commits what it began with.
  pub record Fenced : Type 0 where
    pub refused_delivery :
        (tx tx₁ : Tx) (id n : ℕ) → store.mark_delivered tx id n ≡ ok (tx₁, false) → tx₁ ≡ tx
    pub refused_failure :
        (tx tx₁ : Tx) (id n : ℕ) (error : String) (wait : Duration)
        → store.mark_failed tx id error wait n ≡ ok (tx₁, false)
        → tx₁ ≡ tx
    pub untouched :
        (db db' : Db) (tx : Tx) → store.begin db ≡ ok tx → store.commit tx ≡ ok db' → db' ≡ db

  -- The lease on an envelope was lost: both acknowledgements of the claimed attempt are refused.
  pub record Lost (e : OutboxEnvelope) (tx : Tx) : Type 0 where
    pub delivery :
        (tx₁ : Tx) (b : Bool)
        → store.mark_delivered tx e.event_id (claimed_attempt e) ≡ ok (tx₁, b)
        → b ≡ false
    pub failure :
        (error : String) (wait : Duration) (tx₁ : Tx) (b : Bool)
        → store.mark_failed tx e.event_id error wait (claimed_attempt e) ≡ ok (tx₁, b)
        → b ≡ false

module _ {Db Tx : Type 0} (store : OutboxStore Db Tx) (config : OutboxWorkerConfig)
    (handlers : String → Option Handler) (display : OutboxError → String) (random : ℕ → ℕ) where
  -- How one envelope is settled in a transaction `tx`, and what is committed.
  pub data Settled (e : OutboxEnvelope) (tx : Tx) (db' : Db) : Type 0 where
    delivers :
        (tx₁ : Tx) (applied : Bool)
        → Answered config handlers e (ok tt)
        → store.mark_delivered tx e.event_id (next_attempt e) ≡ ok (tx₁, applied)
        → store.commit tx₁ ≡ ok db'
        → Settled e tx db'
    refused :
        (error : OutboxError) (tx₁ : Tx) (wait : Duration)
        → Answered config handlers e (err error)
        → store.mark_failed tx e.event_id (display error) wait (next_attempt e) ≡ ok (tx₁, false)
        → store.commit tx₁ ≡ ok db'
        → Settled e tx db'
    retries :
        (error : OutboxError) (tx₁ : Tx) (wait : Duration)
        → Answered config handlers e (err error)
        → store.mark_failed tx e.event_id (display error) wait (next_attempt e) ≡ ok (tx₁, true)
        → next_attempt e < config.max_attempts
        → store.commit tx₁ ≡ ok db'
        → Settled e tx db'
    buries :
        (error : OutboxError) (tx₁ tx₂ : Tx) (wait : Duration) (moved : Bool)
        → Answered config handlers e (err error)
        → store.mark_failed tx e.event_id (display error) wait (next_attempt e) ≡ ok (tx₁, true)
        → config.max_attempts ≤ next_attempt e
        → store.mark_dead_lettered tx₁ e.event_id (display error) (next_attempt e) ≡ ok (tx₂, moved)
        → store.commit tx₂ ≡ ok db'
        → Settled e tx db'

  module _ (e : OutboxEnvelope) (tx : Tx) (db' : Db) where
    failed-Settled :
        (error : OutboxError) (tx₁ : Tx) (wait : Duration) (recorded : Bool)
        → Answered config handlers e (err error)
        → store.mark_failed tx e.event_id (display error) wait (claimed_attempt e)
          ≡ ok (tx₁, recorded)
        → after_failure store config handlers display random e (display error) (tx₁, recorded)
          ≡ ok db'
        → Settled e tx db'
    failed-Settled error tx₁ wait false d m h = refused error tx₁ wait d m h
    failed-Settled error tx₁ wait true d m h =
        elim (Bool-cases (leb config.max_attempts (claimed_attempt e))) [
          | inr f ↦ retries error tx₁ wait d m (ground arith) (ground arith)
          | inl f ↦
              let ((tx₂, moved), b, c) =
                bind_ok
                  (store.mark_dead_lettered tx₁ e.event_id (display error) (claimed_attempt e))
                  (λ p. store.commit p.0) db' (rw f at h) in
              buries error tx₁ tx₂ wait moved d m (ground arith) b c
        ]

    outcome-Settled :
        (answer : Result OutboxError (Unit {0}))
        → Answered config handlers e answer
        → settle_outcome store config handlers display random e answer tx ≡ ok db'
        → Settled e tx db'
    outcome-Settled (ok u) d h =
        let ((tx₁, applied), m, c) =
          bind_ok (store.mark_delivered tx e.event_id (claimed_attempt e)) (λ p. store.commit p.0)
            db' h in
        delivers tx₁ applied d m c
    outcome-Settled (err error) d h =
        let ((tx₁, recorded), m, c) =
          bind_ok
            (store.mark_failed tx e.event_id (display error)
              (retry_delay random config.jitter config.retry_base_delay config.retry_max_delay
                e.attempts)
              (claimed_attempt e))
            (after_failure store config handlers display random e (display error)) db' h in
        failed-Settled error tx₁ _ recorded d m c

  -- If settling an envelope returns, it has committed one transaction, by the answer of its handler:
  -- a success marks the envelope delivered; a failure, which a missing handler and one slower than
  -- the dispatch timeout are too, marks it failed with the error's text. The envelope is
  -- dead-lettered exactly after a failure that was recorded and that used up the attempts. Every mark
  -- carries the attempt that was claimed, which is one more than the envelope's, modulo 2 ^ 32.
  pub dispatch_and_settle-Settled :
      (e : OutboxEnvelope) (db db' : Db)
      → dispatch_and_settle store config handlers display random e db ≡ ok db'
      → (tx : Tx) × (store.begin db ≡ ok tx) × Settled e tx db'
  unfolding dispatch_and_settle
  dispatch_and_settle-Settled e db db' h =
      let (u, a, h₁) = bind_ok (store.acquire db) _ db' h in
      let (tx, b, h₂) = bind_ok (store.begin db) _ db' h₁ in
      (
        tx,
        b,
        outcome-Settled e tx db' (dispatch config handlers e) (dispatch-Answered config handlers e)
            h₂,
      )

  Settled-Lost :
      (e : OutboxEnvelope) (db db' : Db) (tx : Tx)
      → Fenced store
      → store.begin db ≡ ok tx
      → Lost store e tx
      → Settled e tx db'
      → db' ≡ db
  Settled-Lost e db db' tx laws b lost (delivers tx₁ applied d m c) =
      let no = lost.delivery tx₁ applied m in
      let same =
        laws.refused_delivery tx tx₁ e.event_id (claimed_attempt e) (
          subst (λ x. store.mark_delivered tx e.event_id (claimed_attempt e) ≡ ok (tx₁, x)) no m) in
      laws.untouched db db' tx b (subst (λ t. store.commit t ≡ ok db') same c)
  Settled-Lost e db db' tx laws b lost (refused error tx₁ wait d m c) =
      let same =
        laws.refused_failure tx tx₁ e.event_id (claimed_attempt e) (display error) wait m in
      laws.untouched db db' tx b (subst (λ t. store.commit t ≡ ok db') same c)
  Settled-Lost e db db' tx laws b lost (retries error tx₁ wait d m l c) =
      absurd (cc (lost.failure (display error) wait tx₁ true m))
  Settled-Lost e db db' tx laws b lost (buries error tx₁ tx₂ wait moved d m l n c) =
      absurd (cc (lost.failure (display error) wait tx₁ true m))

  -- A worker that lost its lease changes nothing: over a store that keeps the trait's contract on
  -- refusals, if the acknowledgements of the claimed attempt are refused, then settling the
  -- envelope leaves the database as it was, whatever the handler answered; in particular a lost
  -- failure never dead-letters.
  pub dispatch_and_settle-Lost :
      (e : OutboxEnvelope) (db db' : Db) (tx : Tx)
      → Fenced store
      → store.begin db ≡ ok tx
      → Lost store e tx
      → dispatch_and_settle store config handlers display random e db ≡ ok db'
      → db' ≡ db
  dispatch_and_settle-Lost e db db' tx laws b lost h =
      let (tx', b', settled) = dispatch_and_settle-Settled e db db' h in
      let same : tx' ≡ tx = ok-injective tx' tx (sym b' ∙ b) in
      Settled-Lost e db db' tx laws b lost (subst (λ t. Settled e t db') same settled)
