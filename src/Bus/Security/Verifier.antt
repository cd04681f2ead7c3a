-- ===== src/Bus/Security/Verifier.antt =====
-- Signing and verification of envelopes:
-- crates/hexeract-bus/src/envelope_security/{signer,verifier,key_source}.rs. Ed25519, SHA-256 and
-- base64 belong to other crates: they are the fields of a `Scheme`.
use Prim.Native.String.{String}
use text.Mathlib.Text.{◌==◌ as str_eq}
use hexeract.Common.{◌-◌, Option, some, none, Bool, true, [], ◌∷◌, leb, if◌then◌else◌}
use hexeract.Common.Bytes.{Bytes}
use hexeract.Common.Result.{Result, ok, err, ◌>>=◌, ◌>>◌, guard, ok_or}
use hexeract.Clock.{Instant}
use hexeract.Bus.Envelope.{BusEnvelope, Headers, header}
use hexeract.Bus.Security.Types.{
  EnvelopeSecurityError, missing_signature, malformed_security_header, destination_mismatch,
  audience_mismatch, signature_mismatch, Secured, KeySourceError, StaticKeySource, verification_key,
  IdentityKind, SignatureAlgorithm, ed25519, as_wire_str, from_wire_str, identity,
  VerificationPolicy, required, allow_insecure_unauthenticated_envelopes, EnvelopeSecurityConfig,
  VerifiedPrincipal, contains, signature_header, key_id_header, issuer_header, audience_header,
  algorithm_header, destination_header,
}
use hexeract.Bus.Security.Canonical.{CanonicalBinding, canonical_representation}

pub record Scheme : Type 1 where
  pub Key : Type 0
  pub SigningKey : Type 0
  pub Signature : Type 0
  pub digest : Bytes → Bytes
  pub encode : Bytes → String
  pub decode : String → Option Bytes
  pub from_slice : Bytes → Option Signature
  pub to_bytes : Signature → Bytes
  pub check : Key → Bytes → Signature → Bool
  pub make : SigningKey → Bytes → Signature

-- `VerificationKeySource`, for a source of type `S`.
pub record VerificationKeySource (Key S : Type 0) : Type 0 where
  pub verification_key : S → String → String → Result KeySourceError Key
  pub refresh : S → S

-- A static source; its `refresh` does nothing.
abbrev pub static_source :
    {Key SigningKey : Type 0} → VerificationKeySource Key (StaticKeySource Key SigningKey)
static_source = record { verification_key = verification_key; refresh = λ keys. keys }

pub record EnvelopeVerifier (S : Type 0) : Type 0 where
  pub keys : S
  pub config : EnvelopeSecurityConfig
  pub last_refresh : Option Instant

unfoldable pub required_header : BusEnvelope → String → Secured String
required_header envelope name = ok_or (header envelope name) (malformed_security_header name)

-- The answer for an envelope without a signature.
abbrev pub without_signature : VerificationPolicy → Secured (Option VerifiedPrincipal)
without_signature required = err missing_signature
without_signature allow_insecure_unauthenticated_envelopes = ok none

abbrev pub malformed_signature : {A : Type 0} → Option A → Secured A
malformed_signature o = ok_or o (malformed_security_header signature_header)

unfoldable pub read_identity : BusEnvelope → IdentityKind → String → Secured String
read_identity envelope kind name = do raw ← required_header envelope name; identity kind raw

unfoldable pub read_algorithm : BusEnvelope → Secured SignatureAlgorithm
read_algorithm envelope = do raw ← required_header envelope algorithm_header; from_wire_str raw

-- The claims of the headers, for the destination that the envelope was delivered to.
unfoldable pub read_principal : BusEnvelope → String → Secured VerifiedPrincipal
read_principal envelope destination = do
  announced ← required_header envelope destination_header
  guard (str_eq announced destination) destination_mismatch
  who ← read_identity envelope IdentityKind.issuer issuer_header
  whom ← read_identity envelope IdentityKind.audience audience_header
  id ← read_identity envelope IdentityKind.key_id key_id_header
  algorithm' ← read_algorithm envelope
  ok (record { issuer = who; audience = whom; key_id = id; algorithm = algorithm' })

module _ (scheme : Scheme) where
  unfoldable pub read_signature : String → Secured scheme.Signature
  read_signature raw_signature = do
    bytes ← malformed_signature (scheme.decode raw_signature)
    malformed_signature (scheme.from_slice bytes)

  -- What `verify` reads before it asks for the key.
  unfoldable pub read_claims :
      EnvelopeSecurityConfig
      → BusEnvelope
      → String
      → String
      → Secured (VerifiedPrincipal × scheme.Signature)
  read_claims config envelope destination raw_signature = do
    principal ← read_principal envelope destination
    guard (contains principal.audience config.accepted_audiences) audience_mismatch
    signature ← read_signature raw_signature
    ok (principal, signature)

  abbrev pub binding_of : String → VerifiedPrincipal → CanonicalBinding
  binding_of destination' p = record {
    destination = destination';
    issuer = p.issuer;
    audience = p.audience;
    key_id = p.key_id;
    algorithm = p.algorithm;
  }

  -- The end of `verify`, under the key.
  unfoldable pub check_signature :
      BusEnvelope
      → String
      → VerifiedPrincipal × scheme.Signature
      → scheme.Key
      → Secured (Option VerifiedPrincipal)
  check_signature envelope destination (principal, signature) key = do
    representation ←
        canonical_representation scheme.digest envelope (binding_of destination principal)
    guard (scheme.check key representation signature) signature_mismatch
    ok (some principal)

  module _ {S : Type 0} (source : VerificationKeySource scheme.Key S) where
    abbrev pub is_due : Instant → EnvelopeVerifier S → Bool
    is_due now v = elim v.last_refresh [
      | none ↦ true
      | some previous ↦ leb v.config.key_refresh_interval (now - previous)
    ]

    unfoldable pub refresh_if_due : Instant → EnvelopeVerifier S → EnvelopeVerifier S
    refresh_if_due now v =
        if is_due now v
        then record v { keys = source.refresh v.keys; last_refresh = some now }
        else v

    -- `resolve_key`, with what the source answers.
    unfoldable pub resolved :
        Instant
        → EnvelopeVerifier S
        → Result KeySourceError scheme.Key
        → EnvelopeVerifier S × Secured scheme.Key
    resolved now v (ok key) = (v, ok key)
    resolved now v (err KeySourceError.revoked_key) = (v, err EnvelopeSecurityError.revoked_key)
    resolved now v (err KeySourceError.unknown_key) =
        (refresh_if_due now v, err EnvelopeSecurityError.unknown_key)
    resolved now v (err KeySourceError.unavailable) =
        (v, err (EnvelopeSecurityError.key_source KeySourceError.unavailable))
    resolved now v (err KeySourceError.missing_signing_key) =
        (v, err (EnvelopeSecurityError.key_source KeySourceError.missing_signing_key))

    unfoldable pub resolve_key :
        Instant → EnvelopeVerifier S → String → String → EnvelopeVerifier S × Secured scheme.Key
    resolve_key now v who id = resolved now v (source.verification_key v.keys who id)

    -- `verify`, once the claims are read.
    unfoldable pub verify_claims :
        Instant
        → EnvelopeVerifier S
        → BusEnvelope
        → String
        → Secured (VerifiedPrincipal × scheme.Signature)
        → EnvelopeVerifier S × Secured (Option VerifiedPrincipal)
    verify_claims now v envelope destination (err error) = (v, err error)
    verify_claims now v envelope destination (ok (principal, signature)) =
        let (w, found) = resolve_key now v principal.issuer principal.key_id in
        (w, found >>= λ key. check_signature envelope destination (principal, signature) key)

    -- `verify`, with the raw signature.
    unfoldable pub verify_raw :
        Instant
        → EnvelopeVerifier S
        → BusEnvelope
        → String
        → Option String
        → EnvelopeVerifier S × Secured (Option VerifiedPrincipal)
    verify_raw now v envelope destination none = (v, without_signature v.config.policy)
    verify_raw now v envelope destination (some raw) =
        verify_claims now v envelope destination (read_claims v.config envelope destination raw)

    unfoldable pub verify :
        Instant
        → EnvelopeVerifier S
        → BusEnvelope
        → String
        → EnvelopeVerifier S × Secured (Option VerifiedPrincipal)
    verify now v envelope destination =
        verify_raw now v envelope destination (header envelope signature_header)

  -- `EnvelopeSigner::sign`, with what the key source answers.
  unfoldable pub sign :
      String
      → Result KeySourceError (String × scheme.SigningKey)
      → BusEnvelope
      → String
      → String
      → Secured Headers
  sign who current envelope destination' whom = elim current [
    | err error ↦ err (EnvelopeSecurityError.key_source error)
    | ok (id, handle) ↦ do
      representation ← canonical_representation scheme.digest envelope (record {
        destination = destination';
        issuer = who;
        audience = whom;
        key_id = id;
        algorithm = ed25519;
      })
      ok (
          (signature_header, scheme.encode (scheme.to_bytes (scheme.make handle representation)))
          ∷ (key_id_header, id)
          ∷ (issuer_header, who)
          ∷ (audience_header, whom)
          ∷ (algorithm_header, as_wire_str ed25519)
          ∷ (destination_header, destination')
          ∷ [])
  ]
