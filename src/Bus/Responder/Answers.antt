-- ===== src/Bus/Responder/Answers.antt =====
-- The replies that a responder publishes: crates/hexeract-bus/src/replied_handler.rs, as the caller's
-- registry judges them (reply_acceptance.rs, request_registry.rs).
use Prim.Native.String.{String}
use text.Mathlib.TextEquality.{eq_iff}
use hexeract.Common.{
  ℕ, ◌≡◌, refl, sym, subst, ◌∙◌, ap, Option, some, none, Bool, true, false, List, [], ◌∷◌, All,
  Option-cases, Bool-cases, inl, inr, ==_refl,
}
use hexeract.Common.Result.{Result, ok, err, ok-injective}
use hexeract.Bus.Envelope.{
  BusEnvelope, header, is_reserved_header, insert_protocol_header, read_protocol_version, parse_u32,
  parse_digits,
}
use hexeract.Bus.Error.{BusError, Checked}
use hexeract.Bus.Reply.{accepts, accepts_error_identity, accepts_reply}
use hexeract.Bus.Registry.{readable_request_id}
use hexeract.Bus.Responder.{
  RemoteErrorType, malformed, unsupported, from_bus_error, ResponderOutcome, dropped,
  DeadlineReading, absent, live, World, Event, counted, ran, published, error_reply,
  encode_ok_reply, deliver_reply, is_late, answer, conclude, run_handler, decoded, judge_deadline,
  is_supported, check_version, dispatch_identified, parse_request_id, dispatch_addressed,
  validated_reply_to, dispatch,
}

module _ {Request Reply : Type 0} (w : World Request Reply) (decode_error : List ℕ → Option ℕ) where
  -- The caller expects the reply type of the request, and waits under this identity.
  abbrev Good : ℕ → BusEnvelope → Type 0
  Good id r =
      (readable_request_id w.parse_uuid r ≡ some id)
      × (accepts_reply decode_error (record { reply_message_type = w.reply_type }) r id ≡ ok tt)

  abbrev GoodTo : ℕ → String → Event → Type 0
  GoodTo id to (published to' r) = (to' ≡ to) × Good id r
  GoodTo id to (counted _) = Unit
  GoodTo id to ran = Unit

  -- What is published for a request goes to the destination that it named, names the request, and is a
  -- reply that the caller accepts.
  abbrev pub AnswersTo : BusEnvelope → Event → Type 0
  AnswersTo e (published to r) =
      (validated_reply_to w e ≡ some to) × ((id : ℕ) × (parse_request_id w e ≡ some id) × Good id r)
  AnswersTo e (counted _) = Unit
  AnswersTo e ran = Unit

  module _ (parses : (n : ℕ) → w.parse_uuid (w.print_uuid n) ≡ some n)
      (reads : (category : RemoteErrorType) (id : ℕ) (payload : List ℕ)
        → w.encode_error category id ≡ some payload
        → decode_error payload ≡ some id) where
    error_reply-Good :
        (category : RemoteErrorType) (correlation id : ℕ) (r : BusEnvelope)
        → error_reply w category correlation id ≡ ok r
        → Good id r
    unfolding error_reply insert_protocol_header readable_request_id header is_reserved_header
        accepts_reply accepts accepts_error_identity read_protocol_version parse_u32 parse_digits
    error_reply-Good category correlation id r h =
        elim (Option-cases (w.encode_error category id)) [
          | inl n ↦ absurd (cc (rw (n, error_reply) at h))
          | inr (payload, p) ↦
              subst (Good id) (ok-injective _ r (rw (p, error_reply) at h))
                (parses id, rw (reads category id payload p, ==_refl id) refl)
        ]

    ok_reply-Good :
        (correlation id : ℕ) (reply : Reply) (r : BusEnvelope)
        → encode_ok_reply w correlation id reply ≡ ok r
        → Good id r
    unfolding encode_ok_reply insert_protocol_header readable_request_id header is_reserved_header
        accepts_reply accepts accepts_error_identity read_protocol_version parse_u32 parse_digits
    ok_reply-Good correlation id reply r h = elim (Option-cases (w.encode_reply reply)) [
      | inl n ↦
          error_reply-Good RemoteErrorType.internal correlation id r (rw (n, encode_ok_reply) at h)
      | inr (payload, p) ↦
          subst (Good id) (ok-injective _ r (rw (p, encode_ok_reply) at h))
            (parses id, rw ((eq_iff w.reply_type w.reply_type).1 refl) refl)
    ]

    deliver_reply-Good :
        (id : ℕ) (to : String) (outcome : ResponderOutcome) (reply : Checked BusEnvelope)
        → ((r : BusEnvelope) → reply ≡ ok r → Good id r)
        → All (GoodTo id to) (deliver_reply w to outcome reply).0
    unfolding deliver_reply
    deliver_reply-Good id to outcome (err error) g = tt
    deliver_reply-Good id to outcome (ok r) g = ((refl, g r refl), tt)

    answer-Good :
        (correlation id : ℕ) (result : Result BusError Reply) (r : BusEnvelope)
        → (answer w correlation id result).0 ≡ ok r
        → Good id r
    answer-Good correlation id (ok reply) r h = ok_reply-Good correlation id reply r h
    answer-Good correlation id (err error) r h =
        error_reply-Good (from_bus_error error) correlation id r h

    conclude-Good :
        (id : ℕ) (to : String) (a : Checked BusEnvelope × ResponderOutcome)
        → ((r : BusEnvelope) → a.0 ≡ ok r → Good id r)
        → All (GoodTo id to) (conclude w to a).0
    conclude-Good id to (err error, outcome) g = tt
    conclude-Good id to (ok r, outcome) g = elim (Bool-cases (is_late w w.deadline)) [
      | inl t ↦ rw t (tt, tt)
      | inr t ↦ rw t (deliver_reply-Good id to outcome (ok r) g)
    ]

    reject-Good :
        (category : RemoteErrorType) (correlation id : ℕ) (to : String)
        → All (GoodTo id to) (deliver_reply w to dropped (error_reply w category correlation id)).0
    reject-Good category correlation id to =
        deliver_reply-Good id to dropped (error_reply w category correlation id)
          (error_reply-Good category correlation id)

    run_handler-Good :
        (e : BusEnvelope) (id : ℕ) (to : String) (request : Option Request)
        → All (GoodTo id to) (run_handler w e id to request).0
    unfolding run_handler
    run_handler-Good e id to none = reject-Good malformed e.correlation_id id to
    run_handler-Good e id to (some request) = (
      tt,
      conclude-Good id to (answer w e.correlation_id id (w.handler request))
          (answer-Good e.correlation_id id (w.handler request)),
    )

    judge_deadline-Good :
        (e : BusEnvelope) (id : ℕ) (to : String) (d : DeadlineReading)
        → All (GoodTo id to) (judge_deadline w e id to d).0
    unfolding judge_deadline
    judge_deadline-Good e id to DeadlineReading.expired = (tt, tt)
    judge_deadline-Good e id to DeadlineReading.invalid =
        (tt, reject-Good malformed e.correlation_id id to)
    judge_deadline-Good e id to absent = run_handler-Good e id to (decoded w e)
    judge_deadline-Good e id to (live late) = run_handler-Good e id to (decoded w e)

    check_version-Good :
        (e : BusEnvelope) (id : ℕ) (to : String) (good : Bool)
        → All (GoodTo id to) (check_version w e id to good).0
    unfolding check_version
    check_version-Good e id to true = judge_deadline-Good e id to w.deadline
    check_version-Good e id to false = (tt, reject-Good unsupported e.correlation_id id to)

    addressed :
        (e : BusEnvelope) (to : String) (id : ℕ) (events : List Event)
        → validated_reply_to w e ≡ some to
        → parse_request_id w e ≡ some id
        → All (GoodTo id to) events
        → All (AnswersTo e) events
    addressed e to id [] v p g = tt
    addressed e to id (counted _ ∷ events) v p (_, g) = (tt, addressed e to id events v p g)
    addressed e to id (ran ∷ events) v p (_, g) = (tt, addressed e to id events v p g)
    addressed e to id (published to' r ∷ events) v p ((same, good), g) =
        ((v ∙ ap some (sym same), (id, p, good)), addressed e to id events v p g)

    -- A request and its reply fit: whatever a responder publishes for a request, on any path, error
    -- replies included, goes to the destination that the request named, carries the identity of
    -- the request, and is accepted by the caller that waits for this request and reply type. The text form
    -- of a UUID and the payload of an error reply are read back as they were written.
    pub dispatch-AnswersTo : (e : BusEnvelope) → All (AnswersTo e) (dispatch w e).0
    unfolding dispatch dispatch_addressed dispatch_identified
    dispatch-AnswersTo e = elim (Option-cases (validated_reply_to w e)) [
      | inl n ↦ rw n (tt, tt)
      | inr (to, v) ↦ elim (Option-cases (parse_request_id w e)) [
        | inl n ↦ rw (v, n) (tt, tt)
        | inr (id, p) ↦
            let good = check_version-Good e id to (is_supported w (read_protocol_version e)) in
            subst (λ run. All (AnswersTo e) run.0) (sym (same_run e to id v p))
              (addressed e to id _ v p good)
      ]
    ]
      where
        same_run :
            (e : BusEnvelope) (to : String) (id : ℕ)
            → validated_reply_to w e ≡ some to
            → parse_request_id w e ≡ some id
            → dispatch w e ≡ check_version w e id to (is_supported w (read_protocol_version e))
        same_run e to id v p = ap (dispatch_addressed w e) v ∙ ap (dispatch_identified w e to) p
