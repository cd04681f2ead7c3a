-- ===== src/Rabbit/Settlement/Once.antt =====
-- A delivery is settled once: crates/hexeract-bus-rabbitmq/src/worker.rs.
use Prim.Native.String.{String}
use hexeract.Common.{
  ℕ, ◌+◌, ◌≡◌, refl, Option, some, none, Bool, true, false, not, List, [], ◌∷◌, ◌++◌, if◌then◌else◌,
  Bool-cases, inl, inr, arith,
}
use mathlib.Core.Option as Option
use hexeract.Common.Bytes.{Bytes}
use hexeract.Common.Result.{ok, err}
use hexeract.Bus.Envelope.{BusEnvelope}
use hexeract.Bus.Error.{BusError, envelope_security, Checked, needs_sanitized_quarantine}
use hexeract.Bus.Security.Types.{broker_user_mismatch, Secured, VerifiedPrincipal}
use hexeract.Rabbit.Delivery.{
  Minted, PublisherAuthentication, delivery_to_envelope, derive_required_envelope_fields,
  authentication_from_verification,
}
use hexeract.Rabbit.Settlement.{
  AckMode, manual, ack_on_receive, unacknowledged, RabbitMqWorkerConfig, Broker, Action, acked,
  nacked, retried, dead_lettered, handled, Handling, settle_by_ack, settle_by_nack,
  publish_then_settle, retry_core, exhausted_core, unsettled_copy, handle_exhausted, poison_in,
  handle_poison, handle_manual_outcome, route_failure, FailureRoute, retry, dead_letter,
  saturating_suc, Flow, break, continue, issuer_differs, acknowledged, verify_before_settlement,
  left_for_redelivery, settle_outcome, visit, run_handler, death_count, wait_queue_name, Delivery,
  verified, handle_flow, dispatch_decoded, dispatch,
}

-- The settlements among the actions.
abbrev pub settlements : List Action → ℕ
settlements [] = 0
settlements (acked ∷ as') = 1 + settlements as'
settlements (nacked _ ∷ as') = 1 + settlements as'
settlements (retried ∷ as') = settlements as'
settlements (dead_lettered _ ∷ as') = settlements as'
settlements (handled _ ∷ as') = settlements as'

-- A consumer without acknowledgements settles nothing.
abbrev pub settlements_due : AckMode → ℕ
settlements_due manual = 1
settlements_due ack_on_receive = 1
settlements_due unacknowledged = 0

published_once :
    (p : Checked (Unit {0})) (copy : Action) (b : Broker) (final : Handling)
    → settlements (copy ∷ []) ≡ 0
    → settlements final.0 ≡ 1
    → settlements (publish_then_settle p copy b final).0 ≡ 1
unfolding publish_then_settle
published_once (err error) copy b final h k = refl
published_once (ok _) acked b final h k = absurd (omega (arith, h))
published_once (ok _) (nacked _) b final h k = absurd (omega (arith, h))
published_once (ok _) retried b final h k = k
published_once (ok _) (dead_lettered _) b final h k = k
published_once (ok _) (handled _) b final h k = k

exhausted_once :
    (key : Option String) (with_headers : Bool) (b : Broker) (final : Handling)
    → settlements final.0 ≡ 1
    → settlements (exhausted_core (Option.map (λ _. dead_lettered with_headers) key) b final).0 ≡ 1
unfolding exhausted_core
exhausted_once none w b final h = h
exhausted_once (some key) w b final h =
    published_once b.publish_dead_letter (dead_lettered w) b final refl h

unsettled :
    (p : Checked (Unit {0})) (key : Option String) (with_headers : Bool)
    → settlements (unsettled_copy p (Option.map (λ _. dead_lettered with_headers) key)).0 ≡ 0
unsettled (ok _) none w = refl
unsettled (ok _) (some key) w = refl
unsettled (err _) none w = refl
unsettled (err _) (some key) w = refl

final_once :
    (b : Broker) (nacks : Bool)
    → settlements (if nacks then settle_by_nack b false else settle_by_ack b).0 ≡ 1
final_once b true = refl
final_once b false = refl

poison_once :
    (mode : AckMode) (c : RabbitMqWorkerConfig) (b : Broker) (error : BusError)
    → settlements (poison_in mode c b error).0 ≡ settlements_due mode
poison_once unacknowledged c b error =
    unsettled b.publish_dead_letter c.dead_letter_routing_key
      (not (needs_sanitized_quarantine error))
poison_once manual c b error =
    exhausted_once c.dead_letter_routing_key (not (needs_sanitized_quarantine error)) b _
      (final_once b _)
poison_once ack_on_receive c b error =
    exhausted_once c.dead_letter_routing_key (not (needs_sanitized_quarantine error)) b _
      (final_once b _)

poison_settled :
    (c : RabbitMqWorkerConfig) (b : Broker) (error : BusError)
    → settlements (handle_poison c b error).0 ≡ settlements_due c.ack_mode
unfolding handle_poison
poison_settled c b error = poison_once c.ack_mode c b error

manual_once :
    (c : RabbitMqWorkerConfig) (b : Broker) (deaths : ℕ) (outcome : Checked (Unit {0}))
    → settlements (handle_manual_outcome c b deaths outcome).0 ≡ 1
unfolding handle_manual_outcome retry_core handle_exhausted
manual_once c b deaths (ok _) = refl
manual_once c b deaths (err error) =
    routed (route_failure error (saturating_suc deaths) c.max_attempts)
  where
    routed :
        (r : FailureRoute)
        → settlements
            (elim r as (λ x. Handling) [
              | retry ↦ retry_core b
              | dead_letter attempts ↦ handle_exhausted c b
            ]).0
          ≡ 1
    routed retry = published_once b.publish_to_wait_queue retried b (settle_by_ack b) refl refl
    routed (dead_letter n) = exhausted_once c.dead_letter_routing_key true b (settle_by_ack b) refl

settlements-append :
    (xs ys : List Action) → settlements (xs ++ ys) ≡ settlements xs + settlements ys
settlements-append [] ys = omega arith
settlements-append (acked ∷ xs) ys = omega (arith, settlements-append xs ys)
settlements-append (nacked _ ∷ xs) ys = omega (arith, settlements-append xs ys)
settlements-append (retried ∷ xs) ys = settlements-append xs ys
settlements-append (dead_lettered _ ∷ xs) ys = settlements-append xs ys
settlements-append (handled _ ∷ xs) ys = settlements-append xs ys

-- The settlements before the handler runs.
abbrev early : AckMode → ℕ
early manual = 0
early ack_on_receive = 1
early unacknowledged = 0

abbrev FlowSettles : AckMode → Flow → Type 0
FlowSettles mode (break handling) = settlements handling.0 ≡ settlements_due mode
FlowSettles mode (continue actions principal) = settlements actions ≡ early mode

acknowledged_once :
    (mode : AckMode) (b : Broker) (principal : Option VerifiedPrincipal)
    → FlowSettles mode (acknowledged mode b principal)
acknowledged_once manual b principal = refl
acknowledged_once unacknowledged b principal = refl
acknowledged_once ack_on_receive b principal = answered b.ack
  where
    answered :
        (a : Checked (Unit {0}))
        → FlowSettles ack_on_receive (elim a as (λ x. Flow) [
          | ok _ ↦ continue (acked ∷ []) principal
          | err _ ↦ break (acked ∷ [], left_for_redelivery)
        ])
    answered (ok _) = refl
    answered (err _) = refl

verify_once :
    (c : RabbitMqWorkerConfig) (b : Broker) (user : Option String)
    (r : Secured (Option VerifiedPrincipal))
    → FlowSettles c.ack_mode (verify_before_settlement c b user r)
unfolding verify_before_settlement
verify_once c b user (err error) = poison_settled c b (envelope_security error)
verify_once c b user (ok principal) = elim (Bool-cases (issuer_differs principal user)) [
  | inl t ↦ rw t (poison_settled c b (envelope_security broker_user_mismatch))
  | inr t ↦ rw t (acknowledged_once c.ack_mode b principal)
]

module _ (from_utf8 : Bytes → Option String) (parse : String → Option ℕ)
    (verifier : BusEnvelope → String → Secured (Option VerifiedPrincipal))
    (handlers : String
      → Option (BusEnvelope → PublisherAuthentication → Option (Checked (Unit {0})))) where
  outcome_once :
      (mode : AckMode) (c : RabbitMqWorkerConfig) (b : Broker) (deaths : ℕ)
      (outcome : Checked (Unit {0}))
      → early mode
          + settlements (settle_outcome from_utf8 parse verifier handlers mode c b deaths outcome).0
        ≡ settlements_due mode
  outcome_once manual c b deaths outcome = omega (arith, manual_once c b deaths outcome)
  outcome_once ack_on_receive c b deaths outcome = refl
  outcome_once unacknowledged c b deaths outcome = refl

  visit_settles_nothing :
      {H : Type 0} (a : PublisherAuthentication) (h : Option H)
      → settlements (visit from_utf8 parse verifier handlers a h) ≡ 0
  visit_settles_nothing a none = refl
  visit_settles_nothing a (some h) = refl

  flow_once :
      (c : RabbitMqWorkerConfig) (b : Broker) (queue : String) (d : Delivery) (e : BusEnvelope)
      (f : Flow)
      → FlowSettles c.ack_mode f
      → settlements (handle_flow from_utf8 parse verifier handlers c b queue d e f).0
        ≡ settlements_due c.ack_mode
  flow_once c b queue d e (break handling) h = h
  flow_once c b queue d e (continue actions principal) h =
      let a = authentication_from_verification c.policy principal in
      let deaths = death_count d.properties.headers (wait_queue_name queue) in
      let outcome = run_handler from_utf8 parse verifier handlers e a in
      let visited = visit from_utf8 parse verifier handlers a (handlers e.message_type) in
      let last =
        (settle_outcome from_utf8 parse verifier handlers c.ack_mode c b deaths outcome).0 in
      omega (
        arith,
        h,
        settlements-append actions (visited ++ last),
        settlements-append visited last,
        visit_settles_nothing a (handlers e.message_type),
        outcome_once c.ack_mode c b deaths outcome,
      )

  -- Every delivery is settled exactly once, whatever it carries and whatever the handler, the verifier
  -- and the broker answer: one acknowledgement or rejection goes to the broker, and none where the
  -- consumer has no acknowledgements.
  pub dispatch-settles_once :
      (c : RabbitMqWorkerConfig) (b : Broker) (queue : String) (d : Delivery) (minted : Minted)
      → settlements (dispatch from_utf8 parse verifier handlers c b queue d minted).0
        ≡ settlements_due c.ack_mode
  unfolding dispatch
  dispatch-settles_once c b queue d minted = decoded (
      delivery_to_envelope from_utf8 parse d.properties d.data' c.max_payload_bytes
        c.metadata_limits (derive_required_envelope_fields c.policy) minted)
    where
      decoded :
          (r : Checked BusEnvelope)
          → settlements (dispatch_decoded from_utf8 parse verifier handlers c b queue d r).0
            ≡ settlements_due c.ack_mode
      decoded (err error) = poison_settled c b error
      decoded (ok e) = flow_once c b queue d e _ (
          verify_once c b d.properties.user_id
            (verified from_utf8 parse verifier handlers c e d.routing_key))
