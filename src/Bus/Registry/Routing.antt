-- ===== src/Bus/Registry/Routing.antt =====
-- What `RequestRegistry::resolve` does with a reply, in every case
-- (crates/hexeract-bus/src/request_registry.rs).
use Prim.Native.String.{String}
use hexeract.Common.{
  ℕ, ◌+◌, ◌%◌, ◌^◌, ◌≡◌, ◌≢◌, refl, sym, ap, inl, inr, Option, some, none, List, ◌==◌, ==_iff,
  arith, Bool-cases, Option-cases, subst,
}
use hexeract.Common.Result.{Result, ok, err}
use hexeract.Common.Map.{lookup, insert, lookup-insert, lookup-erase}
use hexeract.Bus.Envelope.{BusEnvelope}
use hexeract.Bus.Reply.{
  ReplyExpectation, ReplyRejection, ReplyRejectionKind, kind, TransportRefusal, ReplyAuthentication,
  accepts, accepts_error_identity, accepts_reply, undecodable, orphaned, unauthenticated, invalid,
  duplicate, late,
}
use hexeract.Bus.Retired.{SlotRetirement, resolved, abandoned, record_slot, find}
use hexeract.Bus.Registry.Upkeep.{Sound, retires, notes, notes_in, counts}
use hexeract.Bus.Registry.{
  Slot, ReplyCounters, RequestRegistry, fetch_add, record_rejection_kind, note, note_in, straggler,
  readable_request_id, Delivery, resolve_waiting, resolve_at, resolve,
}

abbrev pub expects : Option Slot → Option ReplyExpectation
expects none = none
expects (some s) = some s.expectation

-- The reply that the request `k` waits for, while it waits.
abbrev pub awaited : ℕ → RequestRegistry → Option ReplyExpectation
awaited k r = expects (lookup k r.slots)

pub expects-note :
    (k id : ℕ) (s : Slot) (rejection : ReplyRejection) (slots : List (ℕ × Slot))
    → lookup id slots ≡ some s
    → expects (lookup k (insert id (note rejection s) slots)) ≡ expects (lookup k slots)
expects-note k id s rejection slots e = elim (Bool-cases (id == k)) [
  | inl p ↦
      rw (lookup-insert id k (note rejection s) slots, p)
        (ap expects (sym (subst (λ j. lookup j slots ≡ some s) ((==_iff id k).0 p) e)))
  | inr p ↦ rw (lookup-insert id k (note rejection s) slots, p) refl
]

pub expects-note_in :
    (k : ℕ) (o : Option ℕ) (rejection : ReplyRejection) (slots : List (ℕ × Slot))
    → expects (lookup k (note_in rejection o slots)) ≡ expects (lookup k slots)
expects-note_in k none rejection slots = refl
expects-note_in k (some id) rejection slots = elim (Option-cases (lookup id slots)) [
  | inl e ↦ rw (e, expects, note_in) refl
  | inr (s, e) ↦ rw (e, note_in) (expects-note k id s rejection slots e)
]

-- One counter has gone up by one, modulo 2 ^ 64, and the others have not changed.
pub data Tallied : ReplyRejectionKind → ReplyCounters → ReplyCounters → Type 0 where
  one_undecodable :
      {c : ReplyCounters}
      → Tallied undecodable c (record c { undecodable = (c.undecodable + 1) % 2 ^ 64 })
  one_orphaned :
      {c : ReplyCounters} → Tallied orphaned c (record c { orphaned = (c.orphaned + 1) % 2 ^ 64 })
  one_unauthenticated :
      {c : ReplyCounters}
      → Tallied unauthenticated c (record c { unauthenticated = (c.unauthenticated + 1) % 2 ^ 64 })
  one_invalid :
      {c : ReplyCounters} → Tallied invalid c (record c { invalid = (c.invalid + 1) % 2 ^ 64 })
  one_duplicate :
      {c : ReplyCounters}
      → Tallied duplicate c (record c { duplicate = (c.duplicate + 1) % 2 ^ 64 })
  one_late : {c : ReplyCounters} → Tallied late c (record c { late = (c.late + 1) % 2 ^ 64 })

record_rejection_kind-Tallied :
    (why : ReplyRejectionKind) (c : ReplyCounters) → Tallied why c (record_rejection_kind why c)
unfolding record_rejection_kind fetch_add
record_rejection_kind-Tallied undecodable c = one_undecodable
record_rejection_kind-Tallied orphaned c = one_orphaned
record_rejection_kind-Tallied unauthenticated c = one_unauthenticated
record_rejection_kind-Tallied invalid c = one_invalid
record_rejection_kind-Tallied duplicate c = one_duplicate
record_rejection_kind-Tallied late c = one_late

-- How a reply is counted whose request waits no longer, by what is remembered of that request.
pub data Recalled : Option SlotRetirement → ReplyRejectionKind → Type 0 where
  after_reply : Recalled (some resolved) duplicate
  after_abandonment : Recalled (some abandoned) late
  unheard_of : Recalled none orphaned

straggler-Recalled : (o : Option SlotRetirement) → Recalled o (straggler o)
unfolding straggler
straggler-Recalled (some resolved) = after_reply
straggler-Recalled (some abandoned) = after_abandonment
straggler-Recalled none = unheard_of

-- Whatever the content of a reply is refused for, it is counted as invalid.
accepts_reply-invalid :
    (decode_error : List ℕ → Option ℕ) (expectation : ReplyExpectation) (envelope : BusEnvelope)
    (id : ℕ) (x : ReplyRejection)
    → accepts_reply decode_error expectation envelope id ≡ err x
    → kind x ≡ invalid
unfolding kind accepts_reply accepts accepts_error_identity
accepts_reply-invalid decode_error expectation envelope id x h = ground arith

-- A reply that is refused.
pub record Refused (why : ReplyRejectionKind) (r r' : RequestRegistry) : Type 0 where
  pub still_awaited : (k : ℕ) → awaited k r' ≡ awaited k r
  pub same_retired : r'.retired ≡ r.retired
  pub same_closed : r'.is_closed ≡ r.is_closed
  pub sound : Sound r → Sound r'
  pub counted : Tallied why r.counters r'.counters

-- A reply that wins: the request `id` waits no longer, and every other one as before.
pub record Won (id : ℕ) (r r' : RequestRegistry) : Type 0 where
  pub released : lookup id r'.slots ≡ none
  pub others : (k : ℕ) → id ≢ k → lookup k r'.slots ≡ lookup k r.slots
  pub now_retired : r'.retired ≡ record_slot id resolved r.retired
  pub sound : Sound r → Sound r'
  pub same_closed : r'.is_closed ≡ r.is_closed
  pub same_counters : r'.counters ≡ r.counters

module _ (parse_uuid : String → Option ℕ) (decode_error : List ℕ → Option ℕ)
    {Principal : Type 0} where
  -- The outcomes of `resolve`, each with what it was that decided.
  pub data Routed (envelope : BusEnvelope)
      (authentication : Result TransportRefusal (ReplyAuthentication Principal))
      (r : RequestRegistry) : RequestRegistry × Option (Delivery Principal) → Type 0 where
    untrusted :
        {r' : RequestRegistry} (x : TransportRefusal)
        → authentication ≡ err x
        → Refused unauthenticated r r'
        → Routed envelope authentication r (r', none)
    unreadable :
        {r' : RequestRegistry} (a : ReplyAuthentication Principal)
        → authentication ≡ ok a
        → readable_request_id parse_uuid envelope ≡ none
        → Refused orphaned r r'
        → Routed envelope authentication r (r', none)
    astray :
        {r' : RequestRegistry} (a : ReplyAuthentication Principal) (id : ℕ)
        (why : ReplyRejectionKind)
        → authentication ≡ ok a
        → readable_request_id parse_uuid envelope ≡ some id
        → awaited id r ≡ none
        → Recalled (find id r.retired) why
        → Refused why r r'
        → Routed envelope authentication r (r', none)
    unacceptable :
        {r' : RequestRegistry} (a : ReplyAuthentication Principal) (id : ℕ) (s : Slot)
        (x : ReplyRejection)
        → authentication ≡ ok a
        → readable_request_id parse_uuid envelope ≡ some id
        → lookup id r.slots ≡ some s
        → accepts_reply decode_error s.expectation envelope id ≡ err x
        → Refused invalid r r'
        → Routed envelope authentication r (r', none)
    wins :
        {r' : RequestRegistry} (a : ReplyAuthentication Principal) (id : ℕ) (s : Slot)
        → authentication ≡ ok a
        → readable_request_id parse_uuid envelope ≡ some id
        → lookup id r.slots ≡ some s
        → accepts_reply decode_error s.expectation envelope id ≡ ok tt
        → Won id r r'
        → Routed envelope authentication r (r', some (id, (envelope, a)))

  module _ (envelope : BusEnvelope) (r : RequestRegistry) where
    resolve_waiting-Routed :
        (a : ReplyAuthentication Principal) (id : ℕ) (s : Slot)
        → readable_request_id parse_uuid envelope ≡ some id
        → lookup id r.slots ≡ some s
        → Routed envelope (ok a) r (resolve_waiting decode_error id s envelope a r)
    unfolding resolve_waiting
    resolve_waiting-Routed a id s q e =
        go (accepts_reply decode_error s.expectation envelope id) refl
      where
        go :
            (answer : Result ReplyRejection (Unit {0}))
            → accepts_reply decode_error s.expectation envelope id ≡ answer
            → Routed envelope (ok a) r (resolve_waiting decode_error id s envelope a r)
        go (err x) p =
            rw
              (p, resolve_waiting, accepts_reply-invalid decode_error s.expectation envelope id x p)
              (unacceptable a id s x refl q e p (record {
                still_awaited = λ k. expects-note k id s x r.slots e;
                same_retired = refl;
                same_closed = refl;
                sound = λ v.
                    counts (record r { slots = insert id (note x s) r.slots }) invalid
                      (notes r v id s (note x s) e);
                counted = record_rejection_kind-Tallied _ r.counters;
              }))
        go (ok u) p =
            rw (p, resolve_waiting)
              (wins a id s refl q e p (record {
                released = ground (arith, lookup-erase id id r.slots);
                others = λ k ne. ground (arith, lookup-erase id k r.slots);
                now_retired = refl;
                same_closed = refl;
                sound = λ v. retires r v id resolved;
                same_counters = refl;
              }))

    resolve_at-Routed :
        (a : ReplyAuthentication Principal) (id : ℕ)
        → readable_request_id parse_uuid envelope ≡ some id
        → Routed envelope (ok a) r (resolve_at decode_error id envelope a r)
    unfolding resolve_at
    resolve_at-Routed a id q = elim (Option-cases (lookup id r.slots)) [
      | inl e ↦
          rw (e, resolve_at)
            (astray a id _ refl q (ap expects e) (straggler-Recalled (find id r.retired)) (record {
              still_awaited = λ k. refl;
              same_retired = refl;
              same_closed = refl;
              sound = counts r _;
              counted = record_rejection_kind-Tallied _ r.counters;
            }))
      | inr (s, e) ↦ rw (e, resolve_at) (resolve_waiting-Routed a id s q e)
    ]

    -- A reply is handed to a caller exactly if the transport lets it pass, its header names a
    -- waiting request and its content is acceptable to that request: it then goes to that request
    -- alone, which is recorded as resolved, and nothing is counted. Any other reply is dropped, no
    -- request stops waiting, and exactly one counter goes up by one (modulo 2 ^ 64), that of the first
    -- check that failed: unauthenticated for a reply that the transport refuses, orphaned for one
    -- whose header names no request, duplicate, late or orphaned for one whose request is remembered
    -- as resolved, as abandoned, or not at all, and invalid for content that is not acceptable.
    pub resolve-Routed :
        (authentication : Result TransportRefusal (ReplyAuthentication Principal))
        → Routed envelope authentication r
            (resolve decode_error parse_uuid envelope authentication r)
    unfolding resolve kind
    resolve-Routed (err TransportRefusal.unauthenticated) = untrusted _ refl (record {
      still_awaited = λ k.
          expects-note_in k (readable_request_id parse_uuid envelope) ReplyRejection.unauthenticated
            r.slots;
      same_retired = refl;
      same_closed = refl;
      sound = λ v.
          counts _ _
            (notes_in r (readable_request_id parse_uuid envelope) ReplyRejection.unauthenticated v);
      counted = record_rejection_kind-Tallied _ r.counters;
    })
    resolve-Routed (ok a) = elim (Option-cases (readable_request_id parse_uuid envelope)) [
      | inl q ↦
          rw (q, resolve)
            (unreadable a refl q (record {
              still_awaited = λ k. refl;
              same_retired = refl;
              same_closed = refl;
              sound = counts r _;
              counted = record_rejection_kind-Tallied _ r.counters;
            }))
      | inr (id, q) ↦ rw (q, resolve) (resolve_at-Routed a id q)
    ]
