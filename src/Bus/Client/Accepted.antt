-- ===== src/Bus/Client/Accepted.antt =====
-- An accepted reply is no protocol violation: crates/hexeract-bus/src/request_client.rs and
-- reply_acceptance.rs.
use Prim.Native.String.{String}
use text.Mathlib.Text.{◌==◌ as str_eq}
use hexeract.Common.{
  ℕ, ◌≡◌, refl, Option, some, true, List, ◌==◌, if◌then◌else◌, ◌⊎◌, inl, inr, Option-cases,
  Bool-cases,
}
use mathlib.Core.Option as Option
use hexeract.Common.Result.{Result, ok, err, ◌>>=◌}
use hexeract.Bus.Envelope.{
  BusEnvelope, header, read_protocol_version, protocol_version, reply_status_header,
  reply_status_ok, reply_status_error, reply_error_message_type,
}
use hexeract.Bus.Error.{BusError}
use hexeract.Bus.Reply.{
  check_status, check_identity, accepts, accepts_error_identity, accepts_reply,
}
use hexeract.Bus.Responder.{RemoteErrorType}
use hexeract.Bus.Client.{
  RequestError, remote, decode, decode_ok, decode_failure, decode_status, decode_reply,
}

module _ {Reply : Type 0} (reply_type : String) (decode_json : List ℕ → Option Reply)
    (decode_payload : List ℕ → Option (RemoteErrorType × ℕ)) where
  -- The caller gets the reply, learns that its payload does not decode, or learns that the responder failed.
  abbrev pub Settled : ℕ → Result RequestError Reply → Type 0
  Settled id out =
      ((reply : Reply) × (out ≡ ok reply))
      ⊎ (((cause : BusError) × (out ≡ err (decode cause)))
          ⊎ ((category : RemoteErrorType) × (out ≡ err (remote category id))))

  -- The two checks of the registry, after that of the version.
  abbrev Checked : BusEnvelope → ℕ → String → Type 0
  Checked r id status =
      (check_status (record { reply_message_type = reply_type }) r.message_type (some status)
        >>= λ _.
            if str_eq status reply_status_error
            then check_identity
                (λ payload. Option.map (λ (p : RemoteErrorType × ℕ). p.1) (decode_payload payload))
                id (Option.map (λ (p : RemoteErrorType × ℕ). p.1) (decode_payload r.payload))
            else ok tt)
      ≡ ok tt

  decode_ok-Settled :
      (r : BusEnvelope) (id : ℕ)
      → str_eq r.message_type reply_type ≡ true
      → Settled id (decode_ok reply_type decode_json decode_payload r)
  decode_ok-Settled r id h = elim (Option-cases (decode_json r.payload)) [
    | inl n ↦ rw (h, n) (inr (inl (_, refl)))
    | inr (reply, p) ↦ rw (h, p) (inl (reply, refl))
  ]

  decode_failure-Settled :
      (r : BusEnvelope) (id named : ℕ) (category : RemoteErrorType)
      → str_eq r.message_type reply_error_message_type ≡ true
      → decode_payload r.payload ≡ some (category, named)
      → (named == id) ≡ true
      → Settled id (decode_failure reply_type decode_json decode_payload r id)
  decode_failure-Settled r id named category h p t = rw (h, p, t) (inr (inr (category, refl)))

  decode_status-Settled :
      (r : BusEnvelope) (id : ℕ) (status : String)
      → Checked r id status
      → Settled id (decode_status reply_type decode_json decode_payload r id (some status))
  decode_status-Settled r id status h = elim (Bool-cases (str_eq status reply_status_ok)) [
    | inl t ↦ elim (Bool-cases (str_eq r.message_type reply_type)) [
      | inl u ↦ rw t (decode_ok-Settled r id u)
      | inr u ↦ absurd (cc (rw (t, u) at h))
    ]
    | inr t ↦ elim (Bool-cases (str_eq status reply_status_error)) [
      | inr u ↦ absurd (cc (rw (t, u) at h))
      | inl u ↦ elim (Bool-cases (str_eq r.message_type reply_error_message_type)) [
        | inr m ↦ absurd (cc (rw (t, u, m) at h))
        | inl m ↦ elim (Option-cases (decode_payload r.payload)) [
          | inl n ↦ absurd (cc (rw (t, u, m, n) at h))
          | inr ((category, named), p) ↦ elim (Bool-cases (named == id)) [
            | inr f ↦ absurd (cc (rw (t, u, m, p, f) at h))
            | inl e ↦ rw (t, u) (decode_failure-Settled r id named category m p e)
          ]
        ]
      ]
    ]
  ]

  -- The registry and the caller agree: a reply that the registry accepts for a request never surprises
  -- the caller as a violation of the protocol. It decodes to the reply, fails to decode, or is a failure of the
  -- responder under the identity of this request.
  pub decode_reply-Settled :
      (r : BusEnvelope) (id : ℕ)
      → accepts_reply
          (λ payload. Option.map (λ (p : RemoteErrorType × ℕ). p.1) (decode_payload payload))
          (record { reply_message_type = reply_type })
          r
          id
        ≡ ok tt
      → Settled id (decode_reply reply_type decode_json decode_payload r id)
  unfolding decode_reply accepts_reply accepts accepts_error_identity
  decode_reply-Settled r id h = elim (Option-cases (read_protocol_version r)) [
    | inl n ↦ absurd (cc (rw n at h))
    | inr (version, v) ↦ elim (Bool-cases (version == protocol_version)) [
      | inr f ↦ absurd (cc (rw (v, f) at h))
      | inl t ↦ elim (Option-cases (header r reply_status_header)) [
        | inl n ↦ absurd (cc (rw (v, t, n) at h))
        | inr (status, q) ↦ rw (v, t, q) (decode_status-Settled r id status (rw (v, t, q) at h))
      ]
    ]
  ]
