-- ===== src/Bus/Security/Acceptance.antt =====
-- The verdict of the verifier, on every path:
-- crates/hexeract-bus/src/envelope_security/verifier.rs.
use Prim.Native.String.{String}
use hexeract.Common.{◌≡◌, refl, subst, some, true, List, Option-cases, inl, inr}
use mathlib.Core.List.{Mem}
use hexeract.Common.Bytes.{Bytes}
use hexeract.Common.Result.{Result, ok, err, guard, bind_ok, guard_ok, Result-cases}
use hexeract.Clock.{Instant}
use hexeract.Bus.Envelope.{BusEnvelope, header}
use hexeract.Bus.Security.Types.{
  KeySourceError, unknown_key, revoked_key, unavailable, missing_signing_key, EnvelopeSecurityError,
  VerificationPolicy, required, allow_insecure_unauthenticated_envelopes, VerifiedPrincipal,
  contains, signature_header, signature_mismatch,
}
use hexeract.Bus.Security.Canonical.{CanonicalBinding, canonical_representation}
use hexeract.Bus.Security.Canonical.Covered.{InRange, SameCovered, canonical_representation-inj}
use hexeract.Bus.Security.Verifier.{
  Scheme, VerificationKeySource, EnvelopeVerifier, without_signature, read_claims, binding_of,
  check_signature, resolved, resolve_key, verify_claims, verify_raw, verify,
}
use hexeract.Bus.Security.Soundness.{Claimed, DecodesTo, read_claims-ok}

module _ (scheme : Scheme) {S : Type 0} (source : VerificationKeySource scheme.Key S) where
  -- What makes a verifier accept the envelope, as sent by the principal to the destination.
  pub record Authentic (v : EnvelopeVerifier S) (e : BusEnvelope) (destination : String)
      (p : VerifiedPrincipal) : Type 0 where
    pub claimed : Claimed e destination p
    pub for_us : contains p.audience v.config.accepted_audiences ≡ true
    pub raw : String
    pub carried : header e signature_header ≡ some raw
    pub signature : scheme.Signature
    pub decoded : DecodesTo scheme raw signature
    pub key : scheme.Key
    pub known : source.verification_key v.keys p.issuer p.key_id ≡ ok key
    pub representation : Bytes
    pub canonical :
        canonical_representation scheme.digest e (binding_of scheme destination p)
        ≡ ok representation
    pub signed : scheme.check key representation signature ≡ true

  resolved-ok :
      (now : Instant) (v : EnvelopeVerifier S) (r : Result KeySourceError scheme.Key)
      (key : scheme.Key)
      → (resolved scheme source now v r).1 ≡ ok key
      → (r ≡ ok key) × ((resolved scheme source now v r).0 ≡ v)
  unfolding resolved
  resolved-ok now v (ok k) key h = (cc h, refl)
  resolved-ok now v (err unknown_key) key h = absurd (cc h)
  resolved-ok now v (err revoked_key) key h = absurd (cc h)
  resolved-ok now v (err unavailable) key h = absurd (cc h)
  resolved-ok now v (err missing_signing_key) key h = absurd (cc h)

  check_signature-ok :
      (e : BusEnvelope) (destination : String) (p q : VerifiedPrincipal) (s : scheme.Signature)
      (key : scheme.Key)
      → check_signature scheme e destination (p, s) key ≡ ok (some q)
      → (p ≡ q)
        × ((x : Bytes) × (canonical_representation scheme.digest e (binding_of scheme destination p)
              ≡ ok x)
            × (scheme.check key x s ≡ true))
  unfolding check_signature
  check_signature-ok e destination p q s key h =
      let (x, h₁, k₁) =
        bind_ok (canonical_representation scheme.digest e (binding_of scheme destination p)) _ _
          h in
      let (u, h₂, k₂) = bind_ok (guard (scheme.check key x s) signature_mismatch) _ _ k₁ in
      (cc k₂, (x, h₁, guard_ok (scheme.check key x s) signature_mismatch u h₂))

  verify_claims-ok :
      (now : Instant) (v : EnvelopeVerifier S) (e : BusEnvelope) (destination : String)
      (p q : VerifiedPrincipal) (s : scheme.Signature)
      → (verify_claims scheme source now v e destination (ok (p, s))).1 ≡ ok (some q)
      → (p ≡ q)
        × ((key : scheme.Key) × (source.verification_key v.keys p.issuer p.key_id ≡ ok key)
            × (x : Bytes) × (canonical_representation scheme.digest e
                  (binding_of scheme destination p)
                ≡ ok x)
            × (scheme.check key x s ≡ true))
  unfolding verify_claims resolve_key
  verify_claims-ok now v e destination p q s h =
      let (key, k, c) =
        bind_ok (resolved scheme source now v (source.verification_key v.keys p.issuer p.key_id)).1
          _ _ h in
      let (same, (x, r, good)) = check_signature-ok e destination p q s key c in
      let (found, _) = resolved-ok now v (source.verification_key v.keys p.issuer p.key_id) key k in
      (same, (key, found, x, r, good))

  claims-Authentic :
      (now : Instant) (v : EnvelopeVerifier S) (e : BusEnvelope) (destination raw : String)
      (p q : VerifiedPrincipal) (s : scheme.Signature)
      → header e signature_header ≡ some raw
      → read_claims scheme v.config e destination raw ≡ ok (q, s)
      → (verify_claims scheme source now v e destination (ok (q, s))).1 ≡ ok (some p)
      → Authentic v e destination p
  claims-Authentic now v e destination raw p q s r f h =
      let (same, (key, known, x, canonical, signed)) =
        verify_claims-ok now v e destination q p s h in
      let (claimed, for_us, decoded) = read_claims-ok scheme v.config e destination raw q s f in
      subst (λ q'. Authentic v e destination q') same
        (record {
          claimed = claimed;
          for_us = for_us;
          raw = raw;
          carried = r;
          signature = s;
          decoded = decoded;
          key = key;
          known = known;
          representation = x;
          canonical = canonical;
          signed = signed;
        })

  refused :
      (now : Instant) (v : EnvelopeVerifier S) (e : BusEnvelope) (destination : String)
      (x : EnvelopeSecurityError) (p : VerifiedPrincipal)
      → (verify_claims scheme source now v e destination (err x)).1 ≡ ok (some p)
      → ⊥
  unfolding verify_claims
  refused now v e destination x p h = cc h

  -- If the verifier names a principal for an envelope that was delivered to the destination, then
  -- the envelope is authentic: its headers claim that principal, under that destination; its
  -- audience is an accepted one; and its signature checks, under the key that the source gives for
  -- the issuer and the key id, over the canonical representation of the envelope bound to that
  -- destination and principal.
  pub verify-Authentic :
      (now : Instant) (v : EnvelopeVerifier S) (e : BusEnvelope) (destination : String)
      (p : VerifiedPrincipal)
      → (verify scheme source now v e destination).1 ≡ ok (some p)
      → Authentic v e destination p
  unfolding verify verify_raw
  verify-Authentic now v e destination p h = elim (Option-cases (header e signature_header)) [
    | inl n ↦ absurd (no_principal v.config.policy (rw n at h))
    | inr (raw, r) ↦
        let k : (verify_claims scheme source now v e destination
              (read_claims scheme v.config e destination raw)).1
            ≡ ok (some p) =
          rw r at h in
        elim (Result-cases (read_claims scheme v.config e destination raw)) [
          | inl (x, f) ↦ absurd (refused now v e destination x p (rw f at k))
          | inr ((q, s), f) ↦ claims-Authentic now v e destination raw p q s r f (rw f at k)
        ]
  ]
    where
      no_principal : (c : VerificationPolicy) → without_signature c ≡ ok (some p) → ⊥
      no_principal required k = cc k
      no_principal allow_insecure_unauthenticated_envelopes k = cc k

  -- The representation is that of an envelope that was sent, under its binding.
  abbrev pub Issued : List (BusEnvelope × CanonicalBinding) → Bytes → Type 0
  Issued sent x =
      (f : BusEnvelope) × (c : CanonicalBinding) × Mem (f, c) sent
      × InRange f
      × (canonical_representation scheme.digest f c ≡ ok x)

  -- The signature that the envelope carries is no forgery: if it checks, under the key, over what
  -- the envelope represents, then that was sent.
  abbrev pub Unforged :
      scheme.Key → List (BusEnvelope × CanonicalBinding) → BusEnvelope → CanonicalBinding → Type 0
  Unforged key sent e b =
      (raw : String) (x : Bytes) (s : scheme.Signature)
      → header e signature_header ≡ some raw
      → DecodesTo scheme raw s
      → canonical_representation scheme.digest e b ≡ ok x
      → scheme.check key x s ≡ true
      → Issued sent x

  -- What is accepted was sent. Let the verifier name the principal `p` for an envelope that arrived
  -- at the destination; let `key` be the key that the source gives for the issuer and key id of `p`,
  -- `sent` what its holder has signed, and the signature that the envelope carries no forgery; and
  -- let the ids and times of the accepted envelope be in range. Then one of the envelopes in `sent`
  -- agrees with the accepted one on all that a signature covers, the destination and the principal
  -- included.
  pub verify-SameCovered :
      (now : Instant) (v : EnvelopeVerifier S) (e : BusEnvelope) (destination : String)
      (p : VerifiedPrincipal) (key : scheme.Key) (sent : List (BusEnvelope × CanonicalBinding))
      → InRange e
      → source.verification_key v.keys p.issuer p.key_id ≡ ok key
      → Unforged key sent e (binding_of scheme destination p)
      → (verify scheme source now v e destination).1 ≡ ok (some p)
      → (f : BusEnvelope) × (c : CanonicalBinding) × Mem (f, c) sent
        × SameCovered scheme.digest e (binding_of scheme destination p) f c
  verify-SameCovered now v e destination p key sent re known unforged h =
      let a = verify-Authentic now v e destination p h in
      let same_key : a.key ≡ key = cc (a.known, known) in
      let checked : scheme.check key a.representation a.signature ≡ true =
        cc (a.signed, same_key) in
      let (f, c, there, rf, issued) =
        unforged a.raw a.representation a.signature a.carried a.decoded a.canonical checked in
      (
        f,
        c,
        there,
        canonical_representation-inj scheme.digest e f (binding_of scheme destination p) c
            a.representation re rf a.canonical issued,
      )
