-- ===== src/Bus/Registry/Stragglers.antt =====
-- What becomes of a reply that comes after its request: the closed registry, and the memory of
-- resolved requests
-- (crates/hexeract-bus/src/request_registry.rs).
use Prim.Native.String.{String}
use hexeract.Common.{
  ℕ, ◌+◌, ◌≤◌, ◌≡◌, ◌≢◌, refl, sym, ◌∙◌, ap, ◌⊎◌, inl, inr, Option, some, none, true, List, [], ◌∷◌,
  ◌==◌, ==_iff, if◌then◌else◌, arith, Bool-cases, Option-cases, subst,
}
use hexeract.Common.Result.{Result}
use hexeract.Common.Map.{lookup}
use hexeract.Bus.Envelope.{BusEnvelope}
use hexeract.Bus.Reply.{
  ReplyExpectation, ReplyRejectionKind, duplicate, TransportRefusal, ReplyAuthentication,
}
use hexeract.Bus.Retired.{SlotRetirement, RetiredSlots, resolved, abandoned, record_slot, find}
use hexeract.Bus.Retired.{new as new_retired}
use hexeract.Bus.Retired.Memory.{Remembers, Recorded, record_slot-Recorded}
use hexeract.Bus.Registry.{
  Slot, RequestRegistry, RegisterRejection, Delivery, remove, drain, close, abandon_all,
  record_undecodable, new, ReplyCounters, readable_request_id, resolve,
}
use hexeract.Bus.Registry.Upkeep.{
  Call, registers, receives, garbles, drops, drains, closes, Sound, new-Sound, Registered, refuses,
  opens, register-Registered, register-closed,
}
use hexeract.Bus.Registry.Routing.{
  Tallied, one_undecodable, one_orphaned, one_unauthenticated, one_invalid, one_duplicate, one_late,
  Recalled, after_reply, after_abandonment, unheard_of, Routed, untrusted, unreadable, astray,
  unacceptable, wins, resolve-Routed,
}
use hexeract.Bus.Registry.History.{
  reaches, registration, apply, run, deliveries, registrations, apply-Sound,
}
use hexeract.Bus.Registry.Delivery.{remove-absent, remove-present}

module _ (k : ℕ) where
  -- No record of another retirement, or of an abandoned request, makes `k` a resolved one.
  record-resolved :
      (id : ℕ) (t : SlotRetirement) (m : RetiredSlots)
      → Remembers m
      → find k (record_slot id t m) ≡ some resolved
      → (find k m ≡ some resolved) ⊎ ((id ≡ k) × (t ≡ resolved))
  record-resolved id t m v e = elim (Bool-cases (id == k)) [
    | inr o ↦ elim (done.others k (λ same. cc ((==_iff id k).1 same))) [
      | inl p ↦ inl (sym p ∙ e)
      | inr p ↦ absurd (cc (p.0))
    ]
    | inl same ↦ inr (
      (==_iff id k).0 same,
      kept (
          subst (λ j. find j (record_slot id t m) ≡ (if m.capacity == 0 then none else some t))
            ((==_iff id k).0 same) done.kept),
    )
  ]
    where
      done : Recorded id t m (record_slot id t m)
      done = record_slot-Recorded id t m v

      kept : find k (record_slot id t m) ≡ (if m.capacity == 0 then none else some t) → t ≡ resolved
      kept p = elim (Bool-cases (m.capacity == 0)) [
        | inl z ↦ absurd (ground (arith, e, p))
        | inr z ↦ ground (arith, e, p)
      ]

  abandon_all-resolved :
      (slots : List (ℕ × Slot)) (m : RetiredSlots)
      → Remembers m
      → find k (abandon_all slots m) ≡ some resolved
      → find k m ≡ some resolved
  unfolding abandon_all
  abandon_all-resolved [] m v e = e
  abandon_all-resolved ((id, s) ∷ slots) m v e =
      let done = record_slot-Recorded id abandoned m v in
      elim (record-resolved id abandoned m v
        (abandon_all-resolved slots (record_slot id abandoned m) done.sound e)) [
          | inl p ↦ p
          | inr p ↦ absurd (cc (p.1))
        ]

  -- The requests that are recorded as resolved: those that were, and the one that the call reaches.
  register-resolved :
      (id : ℕ) (e : ReplyExpectation) (r : RequestRegistry)
      (out : RequestRegistry × Result RegisterRejection ℕ)
      → Registered id e r out
      → (out.0.retired ≡ r.retired) × (out.0.is_closed ≡ r.is_closed)
  register-resolved id e r _ (refuses x) = (refl, refl)
  register-resolved id e r _ (opens c n room) = (refl, refl)

  remove-resolved :
      (id : ℕ) (r : RequestRegistry)
      → Remembers r.retired
      → find k (remove id r).retired ≡ some resolved
      → find k r.retired ≡ some resolved
  remove-resolved id r v e = elim (Option-cases (lookup id r.slots)) [
    | inl n ↦
        subst (λ x. find k (RequestRegistry.retired x) ≡ some resolved) (remove-absent id r n) e
    | inr (s, p) ↦
        elim (record-resolved id abandoned r.retired v (
          subst (λ x. find k (RequestRegistry.retired x) ≡ some resolved) (remove-present id s r p)
            e)) [ inl q ↦ q | inr q ↦ absurd (cc (q.1)) ]
  ]

new-unresolved : (k n : ℕ) → find k (new n).retired ≡ none
unfolding new new_retired find
new-unresolved k n = refl

-- Only a duplicate changes the counter of duplicates.
Tallied-duplicate :
    {why : ReplyRejectionKind} {c c' : ReplyCounters}
    → Tallied why c c'
    → why ≢ duplicate
    → c'.duplicate ≡ c.duplicate
Tallied-duplicate one_undecodable ne = refl
Tallied-duplicate one_orphaned ne = refl
Tallied-duplicate one_unauthenticated ne = refl
Tallied-duplicate one_invalid ne = refl
Tallied-duplicate one_duplicate ne = absurd (ne refl)
Tallied-duplicate one_late ne = refl

Recalled-duplicate :
    (o : Option SlotRetirement) (why : ReplyRejectionKind)
    → Recalled o why
    → (o ≡ some resolved) ⊎ (why ≢ duplicate)
Recalled-duplicate _ _ after_reply = inl refl
Recalled-duplicate _ _ after_abandonment = inr (λ h. cc h)
Recalled-duplicate _ _ unheard_of = inr (λ h. cc h)

remove-shut : (id : ℕ) (r : RequestRegistry) → r.slots ≡ [] → remove id r ≡ r
remove-shut id r n = remove-absent id r (ap (lookup id) n)

module _ (parse_uuid : String → Option ℕ) (decode_error : List ℕ → Option ℕ)
    {Principal : Type 0} where
  Routed-resolved :
      (k : ℕ) (envelope : BusEnvelope) (a : Result TransportRefusal (ReplyAuthentication Principal))
      (r : RequestRegistry) (out : RequestRegistry × Option (Delivery Principal))
      → Routed parse_uuid decode_error envelope a r out
      → Remembers r.retired
      → find k out.0.retired ≡ some resolved
      → (find k r.retired ≡ some resolved) ⊎ (1 ≤ reaches k out.1)
  Routed-resolved k envelope a r _ (untrusted x p f) v e = inl (cc (f.same_retired, e))
  Routed-resolved k envelope a r _ (unreadable x p q f) v e = inl (cc (f.same_retired, e))
  Routed-resolved k envelope a r _ (astray x id why p q n w f) v e = inl (cc (f.same_retired, e))
  Routed-resolved k envelope a r _ (unacceptable x id s y p q n z f) v e =
      inl (cc (f.same_retired, e))
  Routed-resolved k envelope a r _ (wins x id s p q n y w) v e =
      elim (record-resolved k id resolved r.retired v (cc (w.now_retired, e))) [
        | inl m ↦ inl m
        | inr m ↦ inr (ground (arith, m.0))
      ]

  apply-resolved :
      (k : ℕ) (c : Call Principal) (r : RequestRegistry)
      → Sound r
      → find k (apply parse_uuid decode_error c r).0.retired ≡ some resolved
      → (find k r.retired ≡ some resolved) ⊎ (1 ≤ reaches k (apply parse_uuid decode_error c r).1)
  unfolding record_undecodable close drain
  apply-resolved k (registers id x) r v e = inl (
      subst (λ m. find k m ≡ some resolved)
        (register-resolved k id x r _ (register-Registered id x r)).0 e)
  apply-resolved k (receives envelope a) r v e =
      Routed-resolved k envelope a r _ (resolve-Routed parse_uuid decode_error envelope r a)
        v.memory e
  apply-resolved k garbles r v e = inl e
  apply-resolved k (drops id) r v e = inl (remove-resolved k id r v.memory e)
  apply-resolved k drains r v e = inl (abandon_all-resolved k r.slots r.retired v.memory e)
  apply-resolved k closes r v e = inl (abandon_all-resolved k r.slots r.retired v.memory e)

  -- After any calls, a request is recorded as resolved only if it was so at first or one of the calls
  -- handed its caller a reply. Dropped and drained requests never are.
  resolved-delivered :
      (k : ℕ) (cs : List (Call Principal)) (r : RequestRegistry)
      → Sound r
      → find k (run parse_uuid decode_error cs r).retired ≡ some resolved
      → (find k r.retired ≡ some resolved) ⊎ (1 ≤ deliveries parse_uuid decode_error k cs r)
  unfolding run deliveries
  resolved-delivered k [] r v e = inl e
  resolved-delivered k (c ∷ cs) r v e =
      let r' = (apply parse_uuid decode_error c r).0 in
      elim (resolved-delivered k cs r' (apply-Sound parse_uuid decode_error c r v) e) [
        | inr n ↦ inr (omega (arith, n))
        | inl p ↦ elim (apply-resolved k c r v p) [ inl q ↦ inl q | inr n ↦ inr (omega (arith, n)) ]
      ]

  -- The reply that is counted as a duplicate names a request that is remembered as resolved.
  Routed-duplicate :
      (envelope : BusEnvelope) (a : Result TransportRefusal (ReplyAuthentication Principal))
      (r : RequestRegistry) (out : RequestRegistry × Option (Delivery Principal))
      → Routed parse_uuid decode_error envelope a r out
      → out.0.counters.duplicate ≢ r.counters.duplicate
      → (k : ℕ) × (readable_request_id parse_uuid envelope ≡ some k)
        × (find k r.retired ≡ some resolved)
  Routed-duplicate envelope a r _ (untrusted x p f) ne =
      absurd (ne (Tallied-duplicate f.counted (λ h. cc h)))
  Routed-duplicate envelope a r _ (unreadable x p q f) ne =
      absurd (ne (Tallied-duplicate f.counted (λ h. cc h)))
  Routed-duplicate envelope a r _ (astray x id why p q n w f) ne =
      elim (Recalled-duplicate (find id r.retired) why w) [
        | inl m ↦ (id, q, m)
        | inr m ↦ absurd (ne (Tallied-duplicate f.counted m))
      ]
  Routed-duplicate envelope a r _ (unacceptable x id s y p q n z f) ne =
      absurd (ne (Tallied-duplicate f.counted (λ h. cc h)))
  Routed-duplicate envelope a r _ (wins x id s p q n y w) ne =
      absurd (ne (ap (λ c. ReplyCounters.duplicate c) w.same_counters))

  -- A reply is counted as a duplicate only when an earlier one was delivered: if, after any calls on
  -- a new registry, a reply changes the counter of duplicates, then its header names a request to
  -- whose caller one of those calls had handed a reply.
  pub duplicate-delivered :
      (n : ℕ) (cs : List (Call Principal)) (envelope : BusEnvelope)
      (a : Result TransportRefusal (ReplyAuthentication Principal))
      → (resolve decode_error parse_uuid envelope a
          (run parse_uuid decode_error cs (new n))).0.counters.duplicate
        ≢ (run parse_uuid decode_error cs (new n)).counters.duplicate
      → (k : ℕ) × (readable_request_id parse_uuid envelope ≡ some k)
        × (1 ≤ deliveries parse_uuid decode_error k cs (new n))
  duplicate-delivered n cs envelope a ne =
      let r = run parse_uuid decode_error cs (new n) in
      let (k, q, m) =
        Routed-duplicate envelope a r _ (resolve-Routed parse_uuid decode_error envelope r a) ne in
      elim (resolved-delivered k cs (new n) (new-Sound n) m) [
        | inl p ↦ absurd (cc (p, new-unresolved k n))
        | inr d ↦ (k, q, d)
      ]

  Routed-shut :
      (k : ℕ) (envelope : BusEnvelope) (a : Result TransportRefusal (ReplyAuthentication Principal))
      (r : RequestRegistry) (out : RequestRegistry × Option (Delivery Principal))
      → Routed parse_uuid decode_error envelope a r out
      → r.slots ≡ []
      → (out.0.is_closed ≡ r.is_closed) × (reaches k out.1 ≡ 0)
  Routed-shut k envelope a r _ (untrusted x p f) n = (f.same_closed, refl)
  Routed-shut k envelope a r _ (unreadable x p q f) n = (f.same_closed, refl)
  Routed-shut k envelope a r _ (astray x id why p q m w f) n = (f.same_closed, refl)
  Routed-shut k envelope a r _ (unacceptable x id s y p q m z f) n = (f.same_closed, refl)
  Routed-shut k envelope a r _ (wins x id s p q e y w) n = absurd (cc (e, ap (lookup id) n))

  apply-shut :
      (k : ℕ) (c : Call Principal) (r : RequestRegistry)
      → Sound r
      → r.is_closed ≡ true
      → ((apply parse_uuid decode_error c r).0.is_closed ≡ true)
        × (reaches k (apply parse_uuid decode_error c r).1 + registration k c r ≡ 0)
  unfolding record_undecodable close drain
  apply-shut k (registers id x) r v c = rw (register-closed id x r c) (c, ground arith)
  apply-shut k (receives envelope a) r v c =
      let out =
        Routed-shut k envelope a r _ (resolve-Routed parse_uuid decode_error envelope r a)
          (v.idle c) in
      (out.0 ∙ c, omega (arith, out.1))
  apply-shut k garbles r v c = (c, omega arith)
  apply-shut k (drops id) r v c =
      (ap RequestRegistry.is_closed (remove-shut id r (v.idle c)) ∙ c, omega arith)
  apply-shut k drains r v c = (c, omega arith)
  apply-shut k closes r v c = (refl, omega arith)

  -- A closed registry is final: whatever is called, it stays closed, accepts no registration and
  -- hands no reply to anyone.
  pub run-shut :
      (k : ℕ) (cs : List (Call Principal)) (r : RequestRegistry)
      → Sound r
      → r.is_closed ≡ true
      → ((run parse_uuid decode_error cs r).is_closed ≡ true)
        × (deliveries parse_uuid decode_error k cs r + registrations parse_uuid decode_error k cs r
            ≡ 0)
  unfolding run deliveries registrations
  run-shut k [] r v c = (c, omega arith)
  run-shut k (o ∷ cs) r v c =
      let one = apply-shut k o r v c in
      let rest =
        run-shut k cs (apply parse_uuid decode_error o r).0
          (apply-Sound parse_uuid decode_error o r v) one.0 in
      (rest.0, omega (arith, one.1, rest.1))
