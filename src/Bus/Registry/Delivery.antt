-- ===== src/Bus/Registry/Delivery.antt =====
-- Sequences of calls of the registry: what is delivered, how often and to whom
-- (crates/hexeract-bus/src/request_registry.rs).
use Prim.Native.String.{String}
use hexeract.Common.{
  ℕ, ◌+◌, ◌≤◌, ◌≡◌, refl, sym, ap, inl, inr, Option, some, none, Bool, true, false, List, [], ◌∷◌,
  ◌==◌, ==_iff, if◌then◌else◌, arith, Bool-cases, Option-cases, subst,
}
use hexeract.Common.Result.{Result}
use hexeract.Common.Map.{lookup, insert, erase, lookup-insert, lookup-erase}
use hexeract.Bus.Envelope.{BusEnvelope}
use hexeract.Bus.Reply.{ReplyExpectation, TransportRefusal, ReplyAuthentication}
use hexeract.Bus.Retired.{abandoned, record_slot}
use hexeract.Bus.Registry.{
  Slot, RequestRegistry, RegisterRejection, fresh, Delivery, register, remove, drain, close,
  record_undecodable,
}
use hexeract.Bus.Registry.Upkeep.{
  Call, registers, receives, garbles, drops, drains, closes, Registered, refuses, opens,
  register-Registered,
}
use hexeract.Bus.Registry.Routing.{
  expects, Routed, untrusted, unreadable, astray, unacceptable, wins, resolve-Routed,
}
use hexeract.Bus.Registry.History.{
  waiting, waits, opened, reaches, registration, apply, run, deliveries, registrations,
}

waiting_le : (o : Option ReplyExpectation) → waiting o ≤ 1
waiting_le none = omega arith
waiting_le (some e) = omega arith

pub remove-absent : (id : ℕ) (r : RequestRegistry) → lookup id r.slots ≡ none → remove id r ≡ r
unfolding remove
remove-absent id r e = rw (e, remove) refl

pub remove-present :
    (id : ℕ) (s : Slot) (r : RequestRegistry)
    → lookup id r.slots ≡ some s
    → remove id r
      ≡ record r { slots = erase id r.slots; retired = record_slot id abandoned r.retired }
unfolding remove
remove-present id s r e = rw (e, remove) refl

module _ (k : ℕ) where
  register-waits :
      (id : ℕ) (e : ReplyExpectation) (r : RequestRegistry)
      (out : RequestRegistry × Result RegisterRejection ℕ)
      → Registered id e r out
      → waits k out.0 ≤ waits k r + (if id == k then opened out.1 else 0)
  register-waits id e r _ (refuses x) = ground arith
  register-waits id e r _ (opens c n room) = elim (Bool-cases (id == k)) [
    | inl p ↦ rw p (omega (arith, waiting_le (expects (lookup k (insert id (fresh e) r.slots)))))
    | inr p ↦ rw (p, lookup-insert id k (fresh e) r.slots, p) (omega arith)
  ]

  remove-waits : (id : ℕ) (r : RequestRegistry) → waits k (remove id r) ≤ waits k r
  remove-waits id r = elim (Option-cases (lookup id r.slots)) [
    | inl e ↦ subst (λ x. waits k x ≤ waits k r) (sym (remove-absent id r e)) (omega arith)
    | inr (s, e) ↦
        subst (λ x. waits k x ≤ waits k r) (sym (remove-present id s r e))
          (rw (lookup-erase id k r.slots) (fewer (id == k)))
  ]
    where
      fewer :
          (b : Bool)
          → waiting (expects (if b then none else lookup k r.slots))
            ≤ waiting (expects (lookup k r.slots))
      fewer true = omega arith
      fewer false = omega arith

module _ (parse_uuid : String → Option ℕ) (decode_error : List ℕ → Option ℕ)
    {Principal : Type 0} where
  module _ (k : ℕ) where
    Routed-waits :
        (envelope : BusEnvelope) (a : Result TransportRefusal (ReplyAuthentication Principal))
        (r : RequestRegistry) (out : RequestRegistry × Option (Delivery Principal))
        → Routed parse_uuid decode_error envelope a r out
        → reaches k out.1 + waits k out.0 ≡ waits k r
    Routed-waits envelope a r _ (untrusted x p f) = omega (arith, ap waiting (f.still_awaited k))
    Routed-waits envelope a r _ (unreadable x p q f) = omega (arith, ap waiting (f.still_awaited k))
    Routed-waits envelope a r _ (astray x id why p q e w f) =
        omega (arith, ap waiting (f.still_awaited k))
    Routed-waits envelope a r _ (unacceptable x id s y p q e n f) =
        omega (arith, ap waiting (f.still_awaited k))
    Routed-waits envelope a r _ (wins {r' = r'} x id s p q e y w) = elim (Bool-cases (id == k)) [
      | inr o ↦ rw o (
          omega (
            arith,
            ap (λ slot. waiting (expects slot)) (w.others k (λ same. cc ((==_iff id k).1 same))),
          ))
      | inl same ↦ ours ((==_iff id k).0 same)
    ]
      where
        ours : id ≡ k → (if id == k then 1 else 0) + waits k r' ≡ waits k r
        ours same =
            let gone = subst (λ j. lookup j r'.slots ≡ none) same w.released in
            let here = subst (λ j. lookup j r.slots ≡ some s) same e in
            rw (gone, here) (ground (arith, same))

    apply-waits :
        (c : Call Principal) (r : RequestRegistry)
        → reaches k (apply parse_uuid decode_error c r).1
            + waits k (apply parse_uuid decode_error c r).0
          ≤ waits k r + registration k c r
    unfolding record_undecodable close drain
    apply-waits (registers id e) r =
        omega (arith, register-waits k id e r (register id e r) (register-Registered id e r))
    apply-waits (receives envelope a) r =
        omega
          (arith, Routed-waits envelope a r _ (resolve-Routed parse_uuid decode_error envelope r a))
    apply-waits garbles r = omega arith
    apply-waits (drops id) r = omega (arith, remove-waits k id r)
    apply-waits drains r = omega arith
    apply-waits closes r = omega arith

    -- No caller receives more than one reply for each request that it registered: however the calls
    -- interleave, the replies that reach `k`, and 1 if `k` still waits, are no more than the
    -- accepted registrations of `k`, and 1 if it waited at first.
    pub deliveries-registrations :
        (cs : List (Call Principal)) (r : RequestRegistry)
        → deliveries parse_uuid decode_error k cs r + waits k (run parse_uuid decode_error cs r)
          ≤ waits k r + registrations parse_uuid decode_error k cs r
    unfolding run deliveries registrations
    deliveries-registrations [] r = omega arith
    deliveries-registrations (c ∷ cs) r =
        omega (
          arith,
          apply-waits c r,
          deliveries-registrations cs (apply parse_uuid decode_error c r).0,
        )
