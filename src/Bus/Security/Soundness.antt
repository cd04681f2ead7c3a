-- ===== src/Bus/Security/Soundness.antt =====
-- What an accepted envelope guarantees: crates/hexeract-bus/src/envelope_security/verifier.rs.
use Prim.Native.String.{String}
use text.Mathlib.Text.{◌==◌ as str_eq}
use text.Mathlib.TextEquality.{eq_iff}
use hexeract.Common.{
  ◌≡◌, sym, ◌∙◌, ap, some, true, not, leb, Bool-cases, inl, inr, length, ◌==◌, ◌&&◌,
}
use hexeract.Common.Bytes.{Bytes, as_bytes}
use hexeract.Common.Result.{ok, guard, bind_ok, guard_ok, ok_or-ok}
use hexeract.Bus.Envelope.{BusEnvelope, header}
use hexeract.Bus.Security.Types
use hexeract.Bus.Security.Types.{
  Secured, KeySourceError, IdentityKind, identity, invalid_identity, SignatureAlgorithm, ed25519,
  as_wire_str, from_wire_str, VerificationPolicy, required,
  allow_insecure_unauthenticated_envelopes, EnvelopeSecurityConfig, VerifiedPrincipal, contains,
  signature_header, key_id_header, issuer_header, audience_header, algorithm_header,
  destination_header, malformed_security_header, max_identity_bytes, destination_mismatch,
  audience_mismatch, signature_mismatch, unsupported_algorithm, allows_unauthenticated_envelopes,
}
use hexeract.Bus.Security.Verifier.{
  Scheme, required_header, read_identity, read_algorithm, read_principal, read_signature,
  malformed_signature, read_claims,
}

identity-ok :
    (kind : IdentityKind) (raw value : String) → identity kind raw ≡ ok value → raw ≡ value
unfolding identity
identity-ok kind raw value h =
    let accepted =
      not (length (as_bytes raw) == 0)
      && (leb (length (as_bytes raw)) max_identity_bytes && Types.all_graphic (as_bytes raw)) in
    elim (Bool-cases accepted) [ inl t ↦ cc (rw t at h) | inr t ↦ absurd (cc (rw t at h)) ]

from_wire_str-ok :
    (raw : String) (a : SignatureAlgorithm) → from_wire_str raw ≡ ok a → raw ≡ as_wire_str a
unfolding from_wire_str as_wire_str
from_wire_str-ok raw ed25519 h = elim (Bool-cases (str_eq raw "ed25519")) [
  | inl t ↦ (eq_iff raw "ed25519").0 t
  | inr t ↦ absurd (cc (rw t at h))
]

-- The headers that name what the envelope claims.
abbrev pub Claimed : BusEnvelope → String → VerifiedPrincipal → Type 0
Claimed envelope destination p =
    (header envelope destination_header ≡ some destination)
    × (header envelope issuer_header ≡ some p.issuer)
    × (header envelope audience_header ≡ some p.audience)
    × (header envelope key_id_header ≡ some p.key_id)
    × (header envelope algorithm_header ≡ some (as_wire_str p.algorithm))

required_header-ok :
    (e : BusEnvelope) (name value : String)
    → required_header e name ≡ ok value
    → header e name ≡ some value
unfolding required_header
required_header-ok e name value h =
    ok_or-ok (header e name) (malformed_security_header name) value h

read_identity-ok :
    (e : BusEnvelope) (kind : IdentityKind) (name value : String)
    → read_identity e kind name ≡ ok value
    → header e name ≡ some value
unfolding read_identity
read_identity-ok e kind name value h =
    let (raw, p, k) = bind_ok (required_header e name) _ _ h in
    required_header-ok e name raw p ∙ ap some (identity-ok kind raw value k)

read_algorithm-ok :
    (e : BusEnvelope) (a : SignatureAlgorithm)
    → read_algorithm e ≡ ok a
    → header e algorithm_header ≡ some (as_wire_str a)
unfolding read_algorithm
read_algorithm-ok e a h =
    let (raw, p, k) = bind_ok (required_header e algorithm_header) _ _ h in
    required_header-ok e algorithm_header raw p ∙ ap some (from_wire_str-ok raw a k)

read_principal-ok :
    (e : BusEnvelope) (destination : String) (p : VerifiedPrincipal)
    → read_principal e destination ≡ ok p
    → Claimed e destination p
unfolding read_principal
read_principal-ok e destination p h =
    let (announced, h₁, k₁) = bind_ok (required_header e destination_header) _ _ h in
    let (u, h₂, k₂) = bind_ok (guard (str_eq announced destination) destination_mismatch) _ _ k₁ in
    let (who, h₃, k₃) = bind_ok (read_identity e IdentityKind.issuer issuer_header) _ _ k₂ in
    let (whom, h₄, k₄) = bind_ok (read_identity e IdentityKind.audience audience_header) _ _ k₃ in
    let (id, h₅, k₅) = bind_ok (read_identity e IdentityKind.key_id key_id_header) _ _ k₄ in
    let (al, h₆, k₆) = bind_ok (read_algorithm e) _ _ k₅ in
    let reached =
      (eq_iff announced destination).0
        (guard_ok (str_eq announced destination) destination_mismatch u h₂) in
    (
      required_header-ok e destination_header announced h₁ ∙ ap some reached,
      read_identity-ok e IdentityKind.issuer issuer_header who h₃ ∙ cc k₆,
      read_identity-ok e IdentityKind.audience audience_header whom h₄ ∙ cc k₆,
      read_identity-ok e IdentityKind.key_id key_id_header id h₅ ∙ cc k₆,
      read_algorithm-ok e al h₆ ∙ cc k₆,
    )

module _ (scheme : Scheme) where
  -- The raw signature decodes to the signature.
  abbrev pub DecodesTo : String → scheme.Signature → Type 0
  DecodesTo raw signature =
      (bytes : Bytes) × (scheme.decode raw ≡ some bytes)
      × (scheme.from_slice bytes ≡ some signature)

  read_signature-ok :
      (raw : String) (signature : scheme.Signature)
      → read_signature scheme raw ≡ ok signature
      → DecodesTo raw signature
  unfolding read_signature
  read_signature-ok raw signature h =
      let (bytes, p, k) = bind_ok (malformed_signature (scheme.decode raw)) _ _ h in
      (
        bytes,
        ok_or-ok (scheme.decode raw) _ bytes p,
        ok_or-ok (scheme.from_slice bytes) _ signature k,
      )

  pub read_claims-ok :
      (config : EnvelopeSecurityConfig) (envelope : BusEnvelope) (destination raw : String)
      (p : VerifiedPrincipal) (signature : scheme.Signature)
      → read_claims scheme config envelope destination raw ≡ ok (p, signature)
      → Claimed envelope destination p
        × (contains p.audience config.accepted_audiences ≡ true)
        × DecodesTo raw signature
  unfolding read_claims
  read_claims-ok config envelope destination raw p signature h =
      let (q, h₁, k₁) = bind_ok (read_principal envelope destination) _ _ h in
      let (u, h₂, k₂) =
        bind_ok (guard (contains q.audience config.accepted_audiences) audience_mismatch) _ _ k₁ in
      let (s, h₃, k₃) = bind_ok (read_signature scheme raw) _ _ k₂ in
      let same : q ≡ p = cc k₃ in
      let same_signature : s ≡ signature = cc k₃ in
      (
        read_principal-ok envelope destination p (h₁ ∙ ap ok same),
        ap (λ (x : VerifiedPrincipal). contains x.audience config.accepted_audiences) (sym same)
            ∙ guard_ok (contains q.audience config.accepted_audiences) audience_mismatch u h₂,
        read_signature-ok raw signature (h₃ ∙ ap ok same_signature),
      )
