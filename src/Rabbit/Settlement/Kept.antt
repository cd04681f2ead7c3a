-- ===== src/Rabbit/Settlement/Kept.antt =====
-- No failed delivery is lost: crates/hexeract-bus-rabbitmq/src/worker.rs.
use Prim.Native.String.{String}
use hexeract.Common.{ℕ, ◌≡◌, Option, Bool, true, false, not, List, [], ◌∷◌, ◌⊎◌, ◌||◌}
use hexeract.Common.Bytes.{Bytes}
use hexeract.Common.Result.{ok, err}
use hexeract.Bus.Envelope.{BusEnvelope}
use hexeract.Bus.Error.{BusError, Checked}
use hexeract.Bus.Security.Types.{Secured, VerifiedPrincipal}
use hexeract.Rabbit.Delivery.{PublisherAuthentication}
use hexeract.Rabbit.Settlement.{
  Broker, Action, acked, nacked, retried, dead_lettered, handled, requeue_on_publish_failure,
  run_handler, Delivery,
}

-- The delivery leaves its queue.
abbrev pub removed : List Action → Bool
removed [] = false
removed (acked ∷ as') = true
removed (nacked requeue ∷ as') = not requeue || removed as'
removed (retried ∷ as') = removed as'
removed (dead_lettered _ ∷ as') = removed as'
removed (handled _ ∷ as') = removed as'

-- The broker confirmed a copy of it.
abbrev pub copied : List Action → Bool
copied [] = false
copied (retried ∷ as') = true
copied (dead_lettered _ ∷ as') = true
copied (acked ∷ as') = copied as'
copied (nacked _ ∷ as') = copied as'
copied (handled _ ∷ as') = copied as'

abbrev pub Kept : List Action → Type 0
Kept actions = (removed actions ≡ false) ⊎ (copied actions ≡ true)

-- The queues for retries and dead letters exist: no publication comes back as unroutable.
pub record Routable (b : Broker) : Type 0 where
  pub wait_queue :
      (e : BusError) → b.publish_to_wait_queue ≡ err e → requeue_on_publish_failure e ≡ true
  pub dead_letter_queue :
      (e : BusError) → b.publish_dead_letter ≡ err e → requeue_on_publish_failure e ≡ true

module _ (from_utf8 : Bytes → Option String) (parse : String → Option ℕ)
    (verifier : BusEnvelope → String → Secured (Option VerifiedPrincipal))
    (handlers : String
      → Option (BusEnvelope → PublisherAuthentication → Option (Checked (Unit {0})))) where
  -- A handler ran for the envelope and succeeded.
  abbrev pub Succeeded : BusEnvelope → Type 0
  Succeeded e =
      (a : PublisherAuthentication) × (run_handler from_utf8 parse verifier handlers e a ≡ ok tt)
