-- ===== src/Bus/Security/Completeness.antt =====
-- Every authentic envelope is accepted: crates/hexeract-bus/src/envelope_security/verifier.rs.
use Prim.Native.String.{String}
use text.Mathlib.Text.{◌==◌ as str_eq}
use text.Mathlib.TextEquality.{eq_iff}
use hexeract.Common.{◌≡◌, refl, some, true}
use hexeract.Common.Result.{ok}
use hexeract.Clock.{Instant}
use hexeract.Bus.Envelope.{BusEnvelope, header}
use hexeract.Bus.Security.Types.{
  IdentityKind, identity, SignatureAlgorithm, ed25519, as_wire_str, from_wire_str,
  EnvelopeSecurityConfig, VerifiedPrincipal, contains, key_id_header, issuer_header,
  audience_header, algorithm_header, destination_header,
}
use hexeract.Bus.Security.Verifier.{
  Scheme, VerificationKeySource, EnvelopeVerifier, required_header, read_identity, read_algorithm,
  read_principal, read_signature, read_claims, check_signature, resolved, resolve_key,
  verify_claims, verify_raw, verify,
}
use hexeract.Bus.Security.Soundness.{Claimed, DecodesTo}
use hexeract.Bus.Security.Acceptance.{Authentic}

-- The names of a principal, as `Issuer`, `Audience` and `KeyId` hold them.
pub record Valid (p : VerifiedPrincipal) : Type 0 where
  pub issuer : identity IdentityKind.issuer p.issuer ≡ ok p.issuer
  pub audience : identity IdentityKind.audience p.audience ≡ ok p.audience
  pub key_id : identity IdentityKind.key_id p.key_id ≡ ok p.key_id

read_back :
    (e : BusEnvelope) (kind : IdentityKind) (name value : String)
    → header e name ≡ some value
    → identity kind value ≡ ok value
    → read_identity e kind name ≡ ok value
unfolding read_identity required_header
read_back e kind name value h k = rw h k

algorithm_back :
    (e : BusEnvelope) (a : SignatureAlgorithm)
    → header e algorithm_header ≡ some (as_wire_str a)
    → read_algorithm e ≡ ok a
unfolding read_algorithm required_header from_wire_str as_wire_str
algorithm_back e ed25519 h = rw h refl

read_principal-Claimed :
    (e : BusEnvelope) (destination : String) (p : VerifiedPrincipal)
    → Valid p
    → Claimed e destination p
    → read_principal e destination ≡ ok p
unfolding read_principal required_header
read_principal-Claimed e destination p v (d, i, a, k, al) =
    let reached : required_header e destination_header ≡ ok destination =
      rw (required_header, d) refl in
    let arrived : str_eq destination destination ≡ true = (eq_iff destination destination).1 refl in
    rw
      (
        reached,
        arrived,
        read_back e IdentityKind.issuer issuer_header p.issuer i v.issuer,
        read_back e IdentityKind.audience audience_header p.audience a v.audience,
        read_back e IdentityKind.key_id key_id_header p.key_id k v.key_id,
        algorithm_back e p.algorithm al,
      )
      refl

module _ (scheme : Scheme) where
  read_claims-Claimed :
      (config : EnvelopeSecurityConfig) (e : BusEnvelope) (destination raw : String)
      (p : VerifiedPrincipal) (signature : scheme.Signature)
      → Valid p
      → Claimed e destination p
      → contains p.audience config.accepted_audiences ≡ true
      → DecodesTo scheme raw signature
      → read_claims scheme config e destination raw ≡ ok (p, signature)
  unfolding read_claims read_signature
  read_claims-Claimed config e destination raw p signature v c a (bytes, d, f) =
      rw (read_principal-Claimed e destination p v c, a, d, f) refl

  -- The verifier accepts every authentic envelope whose principal has valid names.
  pub verify_complete :
      {S : Type 0} (source : VerificationKeySource scheme.Key S) (now : Instant)
      (v : EnvelopeVerifier S) (e : BusEnvelope) (destination : String) (p : VerifiedPrincipal)
      → Valid p
      → Authentic scheme source v e destination p
      → (verify scheme source now v e destination).1 ≡ ok (some p)
  unfolding verify verify_raw verify_claims resolve_key resolved check_signature
  verify_complete source now v e destination p valid a =
      rw
        (
          a.carried,
          read_claims-Claimed v.config e destination a.raw p a.signature valid a.claimed a.for_us
              a.decoded,
          a.known,
          a.canonical,
          a.signed,
        )
        refl
