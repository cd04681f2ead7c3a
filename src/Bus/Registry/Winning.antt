-- ===== src/Bus/Registry/Winning.antt =====
-- A request that waits, and the replies that come before the one that answers it
-- (crates/hexeract-bus/src/request_registry.rs).
use Prim.Native.String.{String}
use hexeract.Common.{
  ℕ, ◌≡◌, ◌≢◌, ◌∙◌, ap, inl, inr, Option, some, none, List, [], ◌∷◌, ◌==◌, ==_iff, arith,
  Bool-cases, Option-cases, subst,
}
use hexeract.Common.Result.{Result, ok, err}
use hexeract.Common.Map.{lookup, lookup-insert, lookup-erase}
use hexeract.Bus.Envelope.{BusEnvelope}
use hexeract.Bus.Reply.{ReplyExpectation, TransportRefusal, ReplyAuthentication, accepts_reply}
use hexeract.Bus.Registry.{
  Slot, RequestRegistry, RegisterRejection, fresh, readable_request_id, Delivery, resolve, remove,
  record_undecodable,
}
use hexeract.Bus.Registry.Upkeep.{
  Call, registers, receives, garbles, drops, drains, closes, Registered, refuses, opens,
  register-Registered,
}
use hexeract.Bus.Registry.Routing.{
  expects, awaited, Routed, untrusted, unreadable, astray, unacceptable, wins, resolve-Routed,
}
use hexeract.Bus.Registry.History.{apply, run}
use hexeract.Bus.Registry.Delivery.{remove-absent, remove-present}

module _ (k : ℕ) (e : ReplyExpectation) where
  register-patient :
      (id : ℕ) (x : ReplyExpectation) (r : RequestRegistry)
      (out : RequestRegistry × Result RegisterRejection ℕ)
      → Registered id x r out
      → awaited k r ≡ some e
      → awaited k out.0 ≡ some e
  register-patient id x r _ (refuses y) h = h
  register-patient id x r _ (opens c n room) h = elim (Bool-cases (id == k)) [
    | inr o ↦ rw (lookup-insert id k (fresh x) r.slots, o) h
    | inl o ↦
        absurd (cc (ap expects (subst (λ j. lookup j r.slots ≡ none) ((==_iff id k).0 o) n), h))
  ]

  remove-patient :
      (id : ℕ) (r : RequestRegistry)
      → id ≢ k
      → awaited k r ≡ some e
      → awaited k (remove id r) ≡ some e
  remove-patient id r ne h = elim (Option-cases (lookup id r.slots)) [
    | inl n ↦ rw (remove-absent id r n) h
    | inr (s, p) ↦
        ap (awaited k) (remove-present id s r p)
        ∙ ap expects (ground (arith, lookup-erase id k r.slots))
        ∙ h
  ]

  one : (o : Option ℕ) (id : ℕ) → o ≡ some id → o ≡ some k → id ≡ k
  one o id u q = cc (u, q)

  expected :
      (r : RequestRegistry) (s : Slot) (id : ℕ)
      → id ≡ k
      → lookup id r.slots ≡ some s
      → awaited k r ≡ some e
      → s.expectation ≡ e
  expected r s id same n h = cc (ap expects (subst (λ j. lookup j r.slots ≡ some s) same n), h)

module _ (parse_uuid : String → Option ℕ) (decode_error : List ℕ → Option ℕ) {Principal : Type 0}
    (k : ℕ) (e : ReplyExpectation) where
  -- A reply that is no answer to the request `k`: the transport refuses it, it names another request,
  -- or its content is not acceptable.
  pub data Invalid (envelope : BusEnvelope)
      : Result TransportRefusal (ReplyAuthentication Principal) → Type 0 where
    forged : (x : TransportRefusal) → Invalid envelope (err x)
    elsewhere :
        {a : Result TransportRefusal (ReplyAuthentication Principal)}
        → readable_request_id parse_uuid envelope ≢ some k
        → Invalid envelope a
    wrong :
        {a : Result TransportRefusal (ReplyAuthentication Principal)}
        → accepts_reply decode_error e envelope k ≢ ok tt
        → Invalid envelope a

  -- The calls that leave the request `k` waiting.
  abbrev pub Patient : Call Principal → Type 0
  Patient (receives envelope a) = Invalid envelope a
  Patient (drops id) = id ≢ k
  Patient drains = ⊥
  Patient closes = ⊥
  Patient _ = Unit

  abbrev pub AllPatient : List (Call Principal) → Type 0
  AllPatient [] = Unit
  AllPatient (c ∷ cs) = Patient c × AllPatient cs

  not_won :
      (envelope : BusEnvelope) (a : Result TransportRefusal (ReplyAuthentication Principal))
      (x : ReplyAuthentication Principal) (s : Slot)
      → Invalid envelope a
      → a ≡ ok x
      → readable_request_id parse_uuid envelope ≡ some k
      → accepts_reply decode_error s.expectation envelope k ≡ ok tt
      → s.expectation ≢ e
  not_won envelope _ x s (forged y) p q n h = cc
  not_won envelope a x s (elsewhere ne) p q n h = ne q
  not_won envelope a x s (wrong ne) p q n h =
      ne (subst (λ y. accepts_reply decode_error y envelope k ≡ ok tt) h n)

  Routed-patient :
      (envelope : BusEnvelope) (a : Result TransportRefusal (ReplyAuthentication Principal))
      (r : RequestRegistry) (out : RequestRegistry × Option (Delivery Principal))
      → Routed parse_uuid decode_error envelope a r out
      → Invalid envelope a
      → awaited k r ≡ some e
      → awaited k out.0 ≡ some e
  Routed-patient envelope a r _ (untrusted x p f) i h = f.still_awaited k ∙ h
  Routed-patient envelope a r _ (unreadable x p q f) i h = f.still_awaited k ∙ h
  Routed-patient envelope a r _ (astray x id why p q n w f) i h = f.still_awaited k ∙ h
  Routed-patient envelope a r _ (unacceptable x id s y p q n z f) i h = f.still_awaited k ∙ h
  Routed-patient envelope a r _ (wins x id s p q n y w) i h = elim (Bool-cases (id == k)) [
    | inr o ↦ ap expects (w.others k (λ same. cc ((==_iff id k).1 same))) ∙ h
    | inl o ↦
        let same = (==_iff id k).0 o in
        absurd (
          not_won envelope a x s i p (q ∙ ap some same)
            (subst (λ j. accepts_reply decode_error s.expectation envelope j ≡ ok tt) same y)
            (cc (subst (λ j. lookup j r.slots ≡ some s) same n, h)))
  ]

  apply-Patient :
      (c : Call Principal) (r : RequestRegistry)
      → Patient c
      → awaited k r ≡ some e
      → awaited k (apply parse_uuid decode_error c r).0 ≡ some e
  unfolding record_undecodable
  apply-Patient (registers id x) r f h =
      register-patient k e id x r _ (register-Registered id x r) h
  apply-Patient (receives envelope a) r f h =
      Routed-patient envelope a r _ (resolve-Routed parse_uuid decode_error envelope r a) f h
  apply-Patient garbles r f h = h
  apply-Patient (drops id) r f h = remove-patient k e id r f h
  apply-Patient drains r f h = absurd f
  apply-Patient closes r f h = absurd f

  run-patient :
      (cs : List (Call Principal)) (r : RequestRegistry)
      → AllPatient cs
      → awaited k r ≡ some e
      → awaited k (run parse_uuid decode_error cs r) ≡ some e
  unfolding run
  run-patient [] r f h = h
  run-patient (c ∷ cs) r f h =
      run-patient cs (apply parse_uuid decode_error c r).0 f.1 (apply-Patient c r f.0 h)

  Routed-wins :
      (envelope : BusEnvelope) (x : ReplyAuthentication Principal) (r : RequestRegistry)
      (out : RequestRegistry × Option (Delivery Principal))
      → Routed parse_uuid decode_error envelope (ok x) r out
      → awaited k r ≡ some e
      → readable_request_id parse_uuid envelope ≡ some k
      → accepts_reply decode_error e envelope k ≡ ok tt
      → out.1 ≡ some (k, (envelope, x))
  Routed-wins envelope x r _ (untrusted y p f) h q y' = absurd (cc)
  Routed-wins envelope x r _ (unreadable y p u f) h q z = absurd (cc)
  Routed-wins envelope x r _ (astray y id why p u n w f) h q z = absurd (
      cc (
        subst (λ j. awaited j r ≡ none) (one k e (readable_request_id parse_uuid envelope) id u q)
            n,
        h,
      ))
  Routed-wins envelope x r _ (unacceptable y id s v p u n z f) h q w = absurd (
      cc (
        expected k e r s id (one k e (readable_request_id parse_uuid envelope) id u q) n h,
        subst (λ j. accepts_reply decode_error s.expectation envelope j ≡ err v)
            (one k e (readable_request_id parse_uuid envelope) id u q) z,
        w,
      ))
  Routed-wins envelope x r _ (wins y id s p u n v w) h q z =
      cc (one k e (readable_request_id parse_uuid envelope) id u q, p)

  -- The first valid reply wins, whatever came before it: a request that waits is still waiting
  -- after any calls but a drop of that request, a drain and a close, as long as no reply among them
  -- is valid for it, and then a valid reply that the transport lets pass is handed to its caller.
  pub first_valid-wins :
      (cs : List (Call Principal)) (r : RequestRegistry) (envelope : BusEnvelope)
      (x : ReplyAuthentication Principal)
      → awaited k r ≡ some e
      → AllPatient cs
      → readable_request_id parse_uuid envelope ≡ some k
      → accepts_reply decode_error e envelope k ≡ ok tt
      → (awaited k (run parse_uuid decode_error cs r) ≡ some e)
        × ((resolve decode_error parse_uuid envelope (ok x) (run parse_uuid decode_error cs r)).1
            ≡ some (k, (envelope, x)))
  first_valid-wins cs r envelope x h f q z =
      let r' = run parse_uuid decode_error cs r in
      let waiting = run-patient cs r f h in
      (
        waiting,
        Routed-wins envelope x r' _ (resolve-Routed parse_uuid decode_error envelope r' (ok x))
            waiting q z,
      )
