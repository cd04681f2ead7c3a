-- ===== src/Rabbit/Settlement/Vouched.antt =====
-- What the consumer worker tells a handler of the publisher, and the bound on what it decodes:
-- crates/hexeract-bus-rabbitmq/src/worker.rs.
use Prim.Native.String.{String}
use text.Mathlib.TextEquality.{eq_iff}
use hexeract.Common.{
  ℕ, ◌≤◌, ◌≡◌, refl, subst, sym, Option, some, none, false, leb, leb→le, length, arith,
}
use hexeract.Common.Bytes.{Bytes}
use hexeract.Common.Result.{ok, bind_ok, guard, guard_ok}
use hexeract.Bus.Envelope.{BusEnvelope}
use hexeract.Bus.Error.{Checked, payload_too_large}
use hexeract.Bus.Security.Types.{Secured, VerificationPolicy, VerifiedPrincipal}
use hexeract.Rabbit.Metadata.{AmqpMetadataLimits}
use hexeract.Rabbit.Delivery.{
  BasicProperties, RequiredEnvelopeFields, Minted, delivery_to_envelope, PublisherAuthentication,
  not_enforced, waived_unsigned, authenticated, authentication_from_verification,
}
use hexeract.Rabbit.Settlement.{RabbitMqWorkerConfig, issuer_differs, verified}

module _ (from_utf8 : Bytes → Option String) (parse : String → Option ℕ)
    (verifier : BusEnvelope → String → Secured (Option VerifiedPrincipal))
    (handlers : String
      → Option (BusEnvelope → PublisherAuthentication → Option (Checked (Unit {0})))) where
  -- What a handler may be told of the publisher of an envelope, by the configured policy and the
  -- broker's user: that nothing was verified, that the verifier waived a signature, or who signed.
  pub data Vouched (c : RabbitMqWorkerConfig) (envelope : BusEnvelope) (destination : String)
      (user : Option String) : PublisherAuthentication → Type 0 where
    unverified : c.policy ≡ none → Vouched c envelope destination user not_enforced
    unsigned :
        (policy : VerificationPolicy)
        → c.policy ≡ some policy
        → verifier envelope destination ≡ ok none
        → Vouched c envelope destination user waived_unsigned
    signed :
        (policy : VerificationPolicy) (principal : VerifiedPrincipal)
        → c.policy ≡ some policy
        → verifier envelope destination ≡ ok (some principal)
        → ((name : String) → user ≡ some name → principal.issuer ≡ name)
        → Vouched c envelope destination user (authenticated principal.issuer)

  issuer_agrees :
      (principal : VerifiedPrincipal) (user : Option String)
      → issuer_differs (some principal) user ≡ false
      → (name : String) → user ≡ some name
      → principal.issuer ≡ name
  issuer_agrees principal none h name q = absurd (cc q)
  issuer_agrees principal (some user) h name q =
      cc ((eq_iff principal.issuer user).0 (ground arith), q)

  -- The configured verification, with its finding, tells a handler what it may be told.
  pub verified-Vouched :
      (c : RabbitMqWorkerConfig) (envelope : BusEnvelope) (destination : String)
      (user : Option String) (p : Option VerifiedPrincipal)
      → verified from_utf8 parse verifier handlers c envelope destination ≡ ok p
      → issuer_differs p user ≡ false
      → Vouched c envelope destination user (authentication_from_verification c.policy p)
  unfolding authentication_from_verification
  verified-Vouched c envelope destination user p h agrees = go c.policy refl p h agrees
    where
      go :
          (o : Option VerificationPolicy)
          → c.policy ≡ o
          → (p : Option VerifiedPrincipal)
          → verified from_utf8 parse verifier handlers c envelope destination ≡ ok p
          → issuer_differs p user ≡ false
          → Vouched c envelope destination user (authentication_from_verification c.policy p)
      go none q none h agrees =
          subst (λ o. Vouched c envelope destination user (authentication_from_verification o none))
            (sym q) (unverified q)
      go none q (some principal) h agrees = absurd (cc (rw q at h))
      go (some policy) q none h agrees =
          subst (λ o. Vouched c envelope destination user (authentication_from_verification o none))
            (sym q) (unsigned policy q (rw q at h))
      go (some policy) q (some principal) h agrees =
          subst
            (λ o.
              Vouched c envelope destination user
                (authentication_from_verification o (some principal)))
            (sym q) (signed policy principal q (rw q at h) (issuer_agrees principal user agrees))

  -- A payload that decodes is within the bound.
  pub decoded_within :
      (props : BasicProperties) (bytes : Bytes) (bound : ℕ) (limits : AmqpMetadataLimits)
      (fields : RequiredEnvelopeFields) (minted : Minted) (e : BusEnvelope)
      → delivery_to_envelope from_utf8 parse props bytes bound limits fields minted ≡ ok e
      → length bytes ≤ bound
  unfolding delivery_to_envelope
  decoded_within props bytes bound limits fields minted e h =
      let (u, fits, rest) =
        bind_ok (guard (leb (length bytes) bound) (payload_too_large (length bytes) bound)) _ e h in
      leb→le _ _ (guard_ok (leb (length bytes) bound) _ u fits)
