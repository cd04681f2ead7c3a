-- ===== src/Rabbit/Settlement/Handled.antt =====
-- Which deliveries reach a handler: crates/hexeract-bus-rabbitmq/src/worker.rs.
use Prim.Native.String.{String}
use hexeract.Common.{
  ℕ, ◌≤◌, length, subst, ◌≡◌, refl, sym, ◌∙◌, ap, Option, some, none, Bool, true, false, not, List,
  [], ◌∷◌, ◌++◌, if◌then◌else◌, Bool-cases, inl, inr,
}
use mathlib.Core.List.{append-nil}
use mathlib.Core.Option as Option
use hexeract.Common.Bytes.{Bytes}
use hexeract.Common.Result.{ok, err, Result-cases}
use hexeract.Bus.Envelope.{BusEnvelope}
use hexeract.Bus.Error.{BusError, Checked, envelope_security, needs_sanitized_quarantine}
use hexeract.Bus.Security.Types.{Secured, VerifiedPrincipal, broker_user_mismatch}
use hexeract.Rabbit.Delivery.{
  Minted, PublisherAuthentication, delivery_to_envelope, derive_required_envelope_fields,
  authentication_from_verification,
}
use hexeract.Rabbit.Settlement.{
  AckMode, manual, ack_on_receive, unacknowledged, RabbitMqWorkerConfig, Broker, Action, acked,
  nacked, retried, dead_lettered, handled, Handling, settle_by_ack, settle_by_nack,
  publish_then_settle, retry_core, exhausted_core, unsettled_copy, handle_exhausted, poison_in,
  handle_poison, handle_manual_outcome, route_failure, FailureRoute, retry, dead_letter,
  saturating_suc, Flow, break, continue, issuer_differs, acknowledged, verify_before_settlement,
  settle_outcome, visit, run_handler, death_count, wait_queue_name, Delivery, verified, handle_flow,
  dispatch_decoded, dispatch,
}
use hexeract.Rabbit.Settlement.Vouched.{Vouched, verified-Vouched, decoded_within}

-- What the handlers were told of the publisher.
abbrev pub visits : List Action → List PublisherAuthentication
visits [] = []
visits (handled a ∷ as') = a ∷ visits as'
visits (acked ∷ as') = visits as'
visits (nacked _ ∷ as') = visits as'
visits (retried ∷ as') = visits as'
visits (dead_lettered _ ∷ as') = visits as'

visits-append : (xs ys : List Action) → visits (xs ++ ys) ≡ visits xs ++ visits ys
visits-append [] ys = refl
visits-append (handled a ∷ xs) ys = ap (λ l. a ∷ l) (visits-append xs ys)
visits-append (acked ∷ xs) ys = visits-append xs ys
visits-append (nacked _ ∷ xs) ys = visits-append xs ys
visits-append (retried ∷ xs) ys = visits-append xs ys
visits-append (dead_lettered _ ∷ xs) ys = visits-append xs ys

exhausted_unvisited :
    (key : Option String) (with_headers : Bool) (b : Broker) (final : Handling)
    → visits final.0 ≡ []
    → visits (exhausted_core (Option.map (λ _. dead_lettered with_headers) key) b final).0 ≡ []
unfolding exhausted_core publish_then_settle
exhausted_unvisited none w b final h = h
exhausted_unvisited (some key) w b final h = elim (Result-cases b.publish_dead_letter) [
  | inl (e, p) ↦ rw p refl
  | inr (u, p) ↦ rw p h
]

unsettled_unvisited :
    (p : Checked (Unit {0})) (key : Option String) (with_headers : Bool)
    → visits (unsettled_copy p (Option.map (λ _. dead_lettered with_headers) key)).0 ≡ []
unsettled_unvisited (ok _) none w = refl
unsettled_unvisited (ok _) (some key) w = refl
unsettled_unvisited (err _) none w = refl
unsettled_unvisited (err _) (some key) w = refl

final_unvisited :
    (b : Broker) (nacks : Bool)
    → visits (if nacks then settle_by_nack b false else settle_by_ack b).0 ≡ []
final_unvisited b true = refl
final_unvisited b false = refl

poison_unvisited :
    (mode : AckMode) (c : RabbitMqWorkerConfig) (b : Broker) (error : BusError)
    → visits (poison_in mode c b error).0 ≡ []
poison_unvisited unacknowledged c b error =
    unsettled_unvisited b.publish_dead_letter c.dead_letter_routing_key
      (not (needs_sanitized_quarantine error))
poison_unvisited manual c b error =
    exhausted_unvisited c.dead_letter_routing_key (not (needs_sanitized_quarantine error)) b _
      (final_unvisited b _)
poison_unvisited ack_on_receive c b error =
    exhausted_unvisited c.dead_letter_routing_key (not (needs_sanitized_quarantine error)) b _
      (final_unvisited b _)

refused_unvisited :
    (c : RabbitMqWorkerConfig) (b : Broker) (error : BusError)
    → visits (handle_poison c b error).0 ≡ []
unfolding handle_poison
refused_unvisited c b error = poison_unvisited c.ack_mode c b error

retry_unvisited : (b : Broker) → visits (retry_core b).0 ≡ []
unfolding retry_core publish_then_settle
retry_unvisited b = elim (Result-cases b.publish_to_wait_queue) [
  | inl (e, p) ↦ rw p refl
  | inr (u, p) ↦ rw p refl
]

manual_unvisited :
    (c : RabbitMqWorkerConfig) (b : Broker) (deaths : ℕ) (outcome : Checked (Unit {0}))
    → visits (handle_manual_outcome c b deaths outcome).0 ≡ []
unfolding handle_manual_outcome handle_exhausted
manual_unvisited c b deaths (ok _) = refl
manual_unvisited c b deaths (err error) =
    routed (route_failure error (saturating_suc deaths) c.max_attempts)
  where
    routed :
        (r : FailureRoute)
        → visits
            (elim r as (λ x. Handling) [
              | retry ↦ retry_core b
              | dead_letter attempts ↦ handle_exhausted c b
            ]).0
          ≡ []
    routed retry = retry_unvisited b
    routed (dead_letter n) =
        exhausted_unvisited c.dead_letter_routing_key true b (settle_by_ack b) refl

-- A flow that goes on has verified the envelope, and no handler ran yet.
abbrev Checks : Option String → Secured (Option VerifiedPrincipal) → Flow → Type 0
Checks user r (break handling) = visits handling.0 ≡ []
Checks user r (continue actions principal) =
    (visits actions ≡ []) × (r ≡ ok principal) × (issuer_differs principal user ≡ false)

acknowledged-Checks :
    (mode : AckMode) (b : Broker) (user : Option String) (principal : Option VerifiedPrincipal)
    → issuer_differs principal user ≡ false
    → Checks user (ok principal) (acknowledged mode b principal)
acknowledged-Checks manual b user principal h = (refl, refl, h)
acknowledged-Checks unacknowledged b user principal h = (refl, refl, h)
acknowledged-Checks ack_on_receive b user principal h = elim (Result-cases b.ack) [
  | inl (e, p) ↦ rw p refl
  | inr (u, p) ↦ rw p (refl, refl, h)
]

verify-Checks :
    (c : RabbitMqWorkerConfig) (b : Broker) (user : Option String)
    (r : Secured (Option VerifiedPrincipal))
    → Checks user r (verify_before_settlement c b user r)
unfolding verify_before_settlement
verify-Checks c b user (err error) = refused_unvisited c b (envelope_security error)
verify-Checks c b user (ok principal) = elim (Bool-cases (issuer_differs principal user)) [
  | inl t ↦ rw t (refused_unvisited c b (envelope_security broker_user_mismatch))
  | inr t ↦ rw t (acknowledged-Checks c.ack_mode b user principal t)
]

module _ (from_utf8 : Bytes → Option String) (parse : String → Option ℕ)
    (verifier : BusEnvelope → String → Secured (Option VerifiedPrincipal))
    (handlers : String
      → Option (BusEnvelope → PublisherAuthentication → Option (Checked (Unit {0})))) where
  -- The delivery that a handler may see, under the authentication it is told of.
  pub record Admitted (c : RabbitMqWorkerConfig) (d : Delivery) (minted : Minted)
      (a : PublisherAuthentication) : Type 0 where
    pub envelope : BusEnvelope
    pub decoded :
        delivery_to_envelope from_utf8 parse d.properties d.data' c.max_payload_bytes
          c.metadata_limits
          (derive_required_envelope_fields c.policy)
          minted
        ≡ ok envelope
    pub bounded : length d.data' ≤ c.max_payload_bytes
    pub vouched :
        Vouched from_utf8 parse verifier handlers c envelope d.routing_key d.properties.user_id a

  visit-visits :
      {H : Type 0} (x a : PublisherAuthentication) (rest : List PublisherAuthentication)
      (h : Option H)
      → visits (visit from_utf8 parse verifier handlers x h) ≡ a ∷ rest
      → (a ≡ x) × (rest ≡ [])
  visit-visits x a rest none h = absurd (cc h)
  visit-visits x a rest (some _) h = (cc h, cc h)

  outcome_unvisited :
      (mode : AckMode) (c : RabbitMqWorkerConfig) (b : Broker) (deaths : ℕ)
      (outcome : Checked (Unit {0}))
      → visits (settle_outcome from_utf8 parse verifier handlers mode c b deaths outcome).0 ≡ []
  outcome_unvisited manual c b deaths outcome = manual_unvisited c b deaths outcome
  outcome_unvisited ack_on_receive c b deaths outcome = refl
  outcome_unvisited unacknowledged c b deaths outcome = refl

  flow-Checks :
      (c : RabbitMqWorkerConfig) (b : Broker) (queue : String) (d : Delivery) (e : BusEnvelope)
      (user : Option String) (r : Secured (Option VerifiedPrincipal)) (f : Flow)
      (a : PublisherAuthentication) (rest : List PublisherAuthentication)
      → Checks user r f
      → visits (handle_flow from_utf8 parse verifier handlers c b queue d e f).0 ≡ a ∷ rest
      → (p : Option VerifiedPrincipal) × (r ≡ ok p)
        × (issuer_differs p user ≡ false)
        × (a ≡ authentication_from_verification c.policy p)
        × (rest ≡ [])
  flow-Checks c b queue d e user r (break handling) a rest k h = absurd (cc (k, h))
  flow-Checks c b queue d e user r (continue actions p) a rest (before, verified', agrees) h =
      let x = authentication_from_verification c.policy p in
      let deaths = death_count d.properties.headers (wait_queue_name queue) in
      let seen = visit from_utf8 parse verifier handlers x (handlers e.message_type) in
      let last =
        (settle_outcome from_utf8 parse verifier handlers c.ack_mode c b deaths
          (run_handler from_utf8 parse verifier handlers e x)).0 in
      let only : visits seen ≡ a ∷ rest = cc (
        h,
        before,
        visits-append actions (seen ++ last),
        visits-append seen last,
        append-nil (visits seen),
        outcome_unvisited c.ack_mode c b deaths (run_handler from_utf8 parse verifier handlers e x),
      ) in
      let (told, none_left) = visit-visits x a rest (handlers e.message_type) only in
      (p, verified', agrees, told, none_left)

  -- If a handler runs for a delivery, then the delivery's payload is within the configured bound and
  -- the delivery decodes to an envelope; no second handler runs; and the handler is told one of three
  -- things. Without a policy, that nothing is enforced. With one, the verifier has accepted the
  -- envelope for the routing key that it arrived on: either without a signature, and the handler is
  -- told so, or as signed by a principal, and then the handler is told its issuer, which is also the
  -- broker's user, where the delivery names one.
  pub dispatch-Admitted :
      (c : RabbitMqWorkerConfig) (b : Broker) (queue : String) (d : Delivery) (minted : Minted)
      (a : PublisherAuthentication) (rest : List PublisherAuthentication)
      → visits (dispatch from_utf8 parse verifier handlers c b queue d minted).0 ≡ a ∷ rest
      → Admitted c d minted a × (rest ≡ [])
  unfolding dispatch
  dispatch-Admitted c b queue d minted a rest h =
      let decode =
        delivery_to_envelope from_utf8 parse d.properties d.data' c.max_payload_bytes
          c.metadata_limits (derive_required_envelope_fields c.policy) minted in
      elim (Result-cases decode) [
        | inl (error, p) ↦
            let k : visits (handle_poison c b error).0 ≡ a ∷ rest =
              ap (λ r. visits (dispatch_decoded from_utf8 parse verifier handlers c b queue d r).0)
                (sym p)
              ∙ h in
            absurd (cc (k, refused_unvisited c b error))
        | inr (e, p) ↦
            let r = verified from_utf8 parse verifier handlers c e d.routing_key in
            let user = d.properties.user_id in
            let k =
              ap (λ x. visits (dispatch_decoded from_utf8 parse verifier handlers c b queue d x).0)
                (sym p)
              ∙ h in
            let (principal, found, agrees, told, none_left) =
              flow-Checks c b queue d e user r (verify_before_settlement c b user r) a rest
                (verify-Checks c b user r) k in
            (
              record {
                envelope = e;
                decoded = p;
                bounded = decoded_within from_utf8 parse verifier handlers _ _ _ _ _ _ _ p;
                vouched =
                    subst
                      (Vouched from_utf8 parse verifier handlers c e d.routing_key
                        d.properties.user_id)
                      (sym told)
                      (verified-Vouched from_utf8 parse verifier handlers c e d.routing_key
                        d.properties.user_id principal found agrees);
              },
              none_left,
            )
      ]
