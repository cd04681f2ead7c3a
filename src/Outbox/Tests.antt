-- ===== src/Outbox/Tests.antt =====
-- The outbox theorems over a small store: the attempt that owns each envelope.
use Prim.Native.String.{String}
use hexeract.Common.{
  inl, inr, ℕ, ◌≡◌, refl, Option, some, none, Bool, true, false, List, [], ◌∷◌, ◌==◌, if◌then◌else◌,
  Bool-cases,
}
use hexeract.Common.Result.{Result, ok}
use hexeract.Common.Map.{lookup, erase}
use hexeract.Outbox.Worker.{
  OutboxEnvelope, OutboxError, OutboxStore, Handler, default_config, dispatch, dispatch_and_settle,
}
use hexeract.Outbox.Outcome.{
  Settled, dispatch_and_settle-Settled, Fenced, Lost, dispatch_and_settle-Lost,
}

abbrev Owners : Type 0
Owners = List (ℕ × ℕ)

abbrev owns : ℕ → Option ℕ → Bool
owns attempt none = false
owns attempt (some current) = current == attempt

abbrev settle_owned : Owners → Owners → ℕ → ℕ → Result OutboxError (Owners × Bool)
settle_owned tx tx' id attempt =
    if owns attempt (lookup id tx) then ok (tx', true) else ok (tx, false)

abbrev owners_store : OutboxStore Owners Owners
owners_store = record {
  acquire = λ db. ok tt;
  begin = λ db. ok db;
  poll = λ tx limit attempts. ok (tx, []);
  claim = λ tx claims lease. ok (tx, []);
  mark_delivered = λ tx id attempt. settle_owned tx (erase id tx) id attempt;
  mark_failed = λ tx id error wait attempt. settle_owned tx tx id attempt;
  mark_dead_lettered = λ tx id error attempt. settle_owned tx (erase id tx) id attempt;
  commit = λ tx. ok tx;
}

settle_owned-refused :
    (tx tx' tx₁ : Owners) (id attempt : ℕ)
    → settle_owned tx tx' id attempt ≡ ok (tx₁, false)
    → tx₁ ≡ tx
settle_owned-refused tx tx' tx₁ id attempt h = elim (Bool-cases (owns attempt (lookup id tx))) [
  | inl p ↦ absurd (cc (rw p at h))
  | inr p ↦ cc (rw p at h)
]

owners_store-Fenced : Fenced owners_store
owners_store-Fenced = record {
  refused_delivery = λ tx tx₁ id n h. settle_owned-refused tx (erase id tx) tx₁ id n h;
  refused_failure = λ tx tx₁ id n error wait h. settle_owned-refused tx tx tx₁ id n h;
  untouched = λ db db' tx b c. cc (b, c);
}

abbrev envelope : OutboxEnvelope
envelope = record {
  event_id = 7;
  event_type = "order.placed";
  payload = [];
  subject_id = none;
  created_at = 0;
  attempts = 4;
  last_error = none;
  next_retry_at = none;
  delivered_at = none;
}

abbrev no_handler : String → Option Handler
no_handler event_type = none

abbrev silent : OutboxError → String
silent e = "failed"

-- The fifth attempt fails, as no handler is registered, and the envelope is dead-lettered.
last_attempt :
    dispatch_and_settle owners_store default_config no_handler silent
      (λ n. 0)
      envelope
      ((7, 5) ∷ [])
    ≡ ok []
unfolding dispatch_and_settle dispatch
last_attempt = refl

dispatch_and_settle-Settled_example :
    (tx : Owners) × (owners_store.begin ((7, 5) ∷ []) ≡ ok tx)
    × Settled owners_store default_config no_handler silent (λ n. 0) envelope tx []
dispatch_and_settle-Settled_example =
    dispatch_and_settle-Settled owners_store default_config no_handler silent (λ n. 0) envelope
      ((7, 5) ∷ []) [] last_attempt

-- A newer owner holds the envelope for its sixth attempt.
lost_attempt :
    dispatch_and_settle owners_store default_config no_handler silent
      (λ n. 0)
      envelope
      ((7, 6) ∷ [])
    ≡ ok ((7, 6) ∷ [])
unfolding dispatch_and_settle dispatch
lost_attempt = refl

newer_owner-Lost : Lost owners_store envelope ((7, 6) ∷ [])
newer_owner-Lost = record { delivery = λ tx₁ b h. cc h; failure = λ error wait tx₁ b h. cc h }

dispatch_and_settle-Lost_example : ◌≡◌ {A = Owners} ((7, 6) ∷ []) ((7, 6) ∷ [])
dispatch_and_settle-Lost_example =
    dispatch_and_settle-Lost owners_store default_config no_handler silent (λ n. 0) envelope
      ((7, 6) ∷ []) ((7, 6) ∷ []) ((7, 6) ∷ []) owners_store-Fenced refl newer_owner-Lost
      lost_attempt
