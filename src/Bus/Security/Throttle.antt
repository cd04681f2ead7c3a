-- ===== src/Bus/Security/Throttle.antt =====
-- The refreshes of the key source: crates/hexeract-bus/src/envelope_security/verifier.rs.
use Prim.Native.String.{String}
use hexeract.Common.{
  ◌-◌, ◌<◌, ◌≡◌, refl, ◌∙◌, ap, Option, some, none, false, List, [], ◌∷◌, leb, arith,
}
use hexeract.Common.Result.{Result, ok, err}
use hexeract.Clock.{Instant}
use hexeract.Bus.Envelope.{BusEnvelope, header}
use hexeract.Bus.Security.Types.{Secured, KeySourceError, VerifiedPrincipal, signature_header}
use hexeract.Bus.Security.Verifier.{
  Scheme, VerificationKeySource, EnvelopeVerifier, refresh_if_due, resolved, resolve_key,
  verify_claims, verify_raw, verify, read_claims,
}

module _ (scheme : Scheme) {S : Type 0} (source : VerificationKeySource scheme.Key S) where
  -- A delivery, as `verify` is called for it.
  abbrev Delivery : Type 0
  Delivery = Instant × BusEnvelope × String

  -- The verifier after a series of deliveries.
  abbrev pub verify_all : EnvelopeVerifier S → List Delivery → EnvelopeVerifier S
  verify_all v [] = v
  verify_all v ((now, e, destination) ∷ ds) =
      verify_all (verify scheme source now v e destination).0 ds

  -- Every delivery comes before the interval since `t` is over.
  abbrev pub Within : EnvelopeVerifier S → Instant → List Delivery → Type 0
  Within v t [] = Unit
  Within v t ((now, _, _) ∷ ds) = (now - t < v.config.key_refresh_interval) × Within v t ds

  resolved_state :
      (now : Instant) (v : EnvelopeVerifier S) (r : Result KeySourceError scheme.Key)
      → refresh_if_due scheme source now v ≡ v
      → (resolved scheme source now v r).0 ≡ v
  unfolding resolved
  resolved_state now v (ok key) h = refl
  resolved_state now v (err KeySourceError.revoked_key) h = refl
  resolved_state now v (err KeySourceError.unknown_key) h = h
  resolved_state now v (err KeySourceError.unavailable) h = refl
  resolved_state now v (err KeySourceError.missing_signing_key) h = refl

  verify_claims_state :
      (now : Instant) (v : EnvelopeVerifier S) (e : BusEnvelope) (destination : String)
      (r : Secured (VerifiedPrincipal × scheme.Signature))
      → refresh_if_due scheme source now v ≡ v
      → (verify_claims scheme source now v e destination r).0 ≡ v
  unfolding verify_claims resolve_key
  verify_claims_state now v e destination (err x) h = refl
  verify_claims_state now v e destination (ok (p, s)) h =
      resolved_state now v (source.verification_key v.keys p.issuer p.key_id) h

  verify_raw_state :
      (now : Instant) (v : EnvelopeVerifier S) (e : BusEnvelope) (destination : String)
      (raw : Option String)
      → refresh_if_due scheme source now v ≡ v
      → (verify_raw scheme source now v e destination raw).0 ≡ v
  unfolding verify_raw
  verify_raw_state now v e destination none h = refl
  verify_raw_state now v e destination (some raw) h =
      verify_claims_state now v e destination (read_claims scheme v.config e destination raw) h

  not_due :
      (now t : Instant) (v : EnvelopeVerifier S)
      → v.last_refresh ≡ some t
      → now - t < v.config.key_refresh_interval
      → refresh_if_due scheme source now v ≡ v
  unfolding refresh_if_due
  not_due now t v h k =
      let late : leb v.config.key_refresh_interval (now - t) ≡ false = ground (arith, k) in
      rw (h, late) refl

  -- The refresh of the key source is throttled: while the interval since the last refresh is not over,
  -- no series of deliveries, whatever it claims, makes the verifier refresh its keys again.
  pub verify_all_throttled :
      (t : Instant) (v : EnvelopeVerifier S) (ds : List Delivery)
      → v.last_refresh ≡ some t
      → Within v t ds
      → verify_all v ds ≡ v
  unfolding verify
  verify_all_throttled t v [] h w = refl
  verify_all_throttled t v ((now, e, destination) ∷ ds) h w =
      let same =
        verify_raw_state now v e destination (header e signature_header) (not_due now t v h w.0) in
      ap (λ u. verify_all u ds) same ∙ verify_all_throttled t v ds h w.1
