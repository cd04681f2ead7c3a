-- ===== src/Rabbit/Delivery/Signed.antt =====
-- A signed envelope over the wire: `EnvelopeSigner::sign` of
-- crates/hexeract-bus/src/envelope_security/signer.rs, the publication and the reception of
-- crates/hexeract-bus-rabbitmq/src, and `EnvelopeVerifier::verify` of verifier.rs.
use Prim.Native.String.{String}
use hexeract.Common.{
  ℕ, ◌+◌, ◌-◌, ◌/◌, ◌≡◌, refl, sym, subst, ◌∙◌, ap, some, true, List, [], ◌∷◌, ◌++◌, arith,
  Bool-cases, inl, inr,
}
use mathlib.Core.List.{append_assoc, append-nil}
use hexeract.Common.Bytes.{Bytes}
use hexeract.Common.Sort.{sort_by}
use hexeract.Common.Result.{ok, bind_ok}
use hexeract.Clock.{Instant, unix_epoch, nanos_per_second, from_secs}
use hexeract.Bus.Envelope.{BusEnvelope, Headers, get, header, is_reserved_header}
use hexeract.Bus.Security.Types.{
  ed25519, as_wire_str, VerifiedPrincipal, contains, signature_header, key_id_header, issuer_header,
  audience_header, algorithm_header, destination_header,
}
use hexeract.Bus.Security.Canonical.{
  CanonicalBinding, pair_lt, is_security_header, unsigned, covered_pairs, published_seconds,
  canonical_representation,
}
use hexeract.Bus.Security.Verifier.{
  Scheme, VerificationKeySource, EnvelopeVerifier, binding_of, sign, verify,
}
use hexeract.Bus.Security.Soundness.{Claimed}
use hexeract.Bus.Security.Completeness.{Valid, verify_complete}
use hexeract.Rabbit.Metadata.Encoding.{keys_of}
use hexeract.Rabbit.Metadata.Keys.{Absent, DistinctFrom, keys_of-append}
use hexeract.Rabbit.Metadata.RoundTrip.{framework_headers}
use hexeract.Rabbit.Delivery.RoundTrip.{received}

distinct_tail :
    (done ks ls : List String) → DistinctFrom done (ks ++ ls) → DistinctFrom (done ++ ks) ls
distinct_tail done [] ls d = subst (λ l. DistinctFrom l ls) (sym (append-nil done)) d
distinct_tail done (k ∷ ks) ls (a, d) =
    subst (λ l. DistinctFrom l ls) (append_assoc done (k ∷ []) ks)
      (distinct_tail (done ++ (k ∷ [])) ks ls d)

fresh_left : (k : String) (js ls : List String) → Absent k (js ++ ls) → Absent k js
fresh_left k [] ls a = tt
fresh_left k (j ∷ js) ls (e, a) = (e, fresh_left k js ls a)

abbrev Apart : List String → List String → Type 0
Apart done [] = Unit
Apart done (k ∷ ks) = Absent k done × Apart done ks

separate_left : (done more ks : List String) → Apart (done ++ more) ks → Apart done ks
separate_left done more [] a = tt
separate_left done more (k ∷ ks) (a, b) = (fresh_left k done more a, separate_left done more ks b)

-- Later keys are apart from the keys before.
later_keys_separate : (done ks : List String) → DistinctFrom done ks → Apart done ks
later_keys_separate done [] d = tt
later_keys_separate done (k ∷ ks) (a, d) =
    (a, separate_left done (k ∷ []) ks (later_keys_separate (done ++ (k ∷ [])) ks d))

get_behind : (k : String) (p s : Headers) → Absent k (keys_of p) → get k (p ++ s) ≡ get k s
get_behind k [] s a = refl
get_behind k ((j, v) ∷ p) s (e, a) = rw e (get_behind k p s a)

unsigned-append : (m n : Headers) → unsigned (m ++ n) ≡ unsigned m ++ unsigned n
unsigned-append [] n = refl
unsigned-append ((k, v) ∷ m) n = elim (Bool-cases (is_security_header k)) [
  | inl t ↦ rw t (unsigned-append m n)
  | inr t ↦ rw t (ap (λ l. (k, v) ∷ l) (unsigned-append m n))
]

-- The six headers of a signature.
abbrev entries : String → String → String → String → String → String → Headers
entries signature id who whom al to =
    (signature_header, signature)
    ∷ (key_id_header, id)
    ∷ (issuer_header, who)
    ∷ (audience_header, whom)
    ∷ (algorithm_header, al)
    ∷ (destination_header, to)
    ∷ []

unsigned_entries :
    (signature id who whom al to : String) → unsigned (entries signature id who whom al to) ≡ []
unfolding is_security_header
unsigned_entries signature id who whom al to = refl

whole_second :
    (t : Instant) (n : ℕ)
    → published_seconds t ≡ ok n
    → published_seconds (unix_epoch + from_secs ((t - unix_epoch) / nanos_per_second)) ≡ ok n
whole_second t n h = ground (arith, h)

covered_entries :
    (h p : Headers) (signature id who whom al to : String)
    → covered_pairs h (p ++ entries signature id who whom al to) ≡ covered_pairs h p
unfolding covered_pairs
covered_entries h p signature id who whom al to =
    let s = entries signature id who whom al to in
    ap (sort_by pair_lt) (
      ap unsigned (sym (append_assoc h p s))
      ∙ unsigned-append (h ++ p) s
      ∙ ap (λ l. unsigned (h ++ p) ++ l) (unsigned_entries signature id who whom al to)
      ∙ append-nil (unsigned (h ++ p)))

-- The signature of the received envelope covers what the publisher signed.
canonical_received :
    (digest : Bytes → Bytes) (e : BusEnvelope) (b : CanonicalBinding) (x : Bytes)
    (signature id who whom al to : String)
    → canonical_representation digest e b ≡ ok x
    → canonical_representation digest (received e (some (entries signature id who whom al to))) b
      ≡ ok x
unfolding canonical_representation
canonical_received digest e b x signature id who whom al to h =
    let (n, p, k) = bind_ok (published_seconds e.published_at) _ x h in
    rw
      (
        whole_second e.published_at n p,
        covered_entries e.headers e.protocol_headers signature id who whom al to,
      )
      k

-- The headers of a received envelope, where no protocol header of the publisher hides them.
received-Claimed :
    (e : BusEnvelope) (signature id who whom to : String)
    → DistinctFrom []
        (keys_of (e.protocol_headers ++ entries signature id who whom (as_wire_str ed25519) to))
    → (header
          (received e (some (entries signature id who whom (as_wire_str ed25519) to)))
          signature_header
        ≡ some signature)
      × Claimed
          (received e (some (entries signature id who whom (as_wire_str ed25519) to)))
          to
          (record { issuer = who; audience = whom; key_id = id; algorithm = ed25519 })
unfolding header is_reserved_header
received-Claimed e signature id who whom to d =
    let p = e.protocol_headers in
    let s = entries signature id who whom (as_wire_str ed25519) to in
    let split = subst (λ ks. DistinctFrom [] ks) (keys_of-append p s) d in
    let (a, (b, (c, (f, (g, (i, _)))))) =
      later_keys_separate (keys_of p) (keys_of s)
        (distinct_tail [] (keys_of p) (keys_of s) split) in
    (
      get_behind signature_header p s a,
      (
        get_behind destination_header p s i,
        get_behind issuer_header p s c,
        get_behind audience_header p s f,
        get_behind key_id_header p s b,
        get_behind algorithm_header p s g,
      ),
    )

-- The documented laws of base64, of the byte form of a signature, and of a pair of keys.
pub record Laws (scheme : Scheme) : Type 0 where
  pub decode-encode :
      (signature : scheme.Signature)
      → scheme.decode (scheme.encode (scheme.to_bytes signature)) ≡ some (scheme.to_bytes signature)
  pub from_slice-to_bytes :
      (signature : scheme.Signature)
      → scheme.from_slice (scheme.to_bytes signature) ≡ some signature

module _ (scheme : Scheme) (laws : Laws scheme) {S : Type 0}
    (source : VerificationKeySource scheme.Key S) where
  -- A signature survives the wire: where the signer of an issuer signs an envelope for a destination and an
  -- audience, the verifier that receives it there accepts it, and names that issuer, audience and
  -- key, if the names are valid, the audience is accepted, the source gives for the issuer and key id
  -- a key that checks what the signing key signs, and the framework headers are distinct.
  pub verify-sign :
      (now : Instant) (v : EnvelopeVerifier S) (e : BusEnvelope) (destination who whom id : String)
      (handle : scheme.SigningKey) (key : scheme.Key) (security : Headers)
      → ((m : Bytes) → scheme.check key m (scheme.make handle m) ≡ true)
      → source.verification_key v.keys who id ≡ ok key
      → Valid (record { issuer = who; audience = whom; key_id = id; algorithm = ed25519 })
      → contains whom v.config.accepted_audiences ≡ true
      → DistinctFrom [] (keys_of (framework_headers e (some security)))
      → sign scheme who (ok (id, handle)) e destination whom ≡ ok security
      → (verify scheme source now v (received e (some security)) destination).1
        ≡ ok (some (record { issuer = who; audience = whom; key_id = id; algorithm = ed25519 }))
  unfolding sign
  verify-sign now v e destination who whom id handle key security checks known valid accepted d h =
      let p : VerifiedPrincipal = record {
        issuer = who;
        audience = whom;
        key_id = id;
        algorithm = ed25519;
      } in
      let (x, canonical, k) =
        bind_ok (canonical_representation scheme.digest e (binding_of scheme destination p)) _
          security h in
      let signature = scheme.make handle x in
      let raw = scheme.encode (scheme.to_bytes signature) in
      let s = entries raw id who whom (as_wire_str ed25519) destination in
      let same : s ≡ security = cc k in
      let distinct =
        subst (λ l. DistinctFrom [] (keys_of (e.protocol_headers ++ l))) (sym same) d in
      let (carried, claimed) = received-Claimed e raw id who whom destination distinct in
      let accepts =
        verify_complete scheme source now v (received e (some s)) destination p valid (record {
          claimed = claimed;
          for_us = accepted;
          raw = raw;
          carried = carried;
          signature = signature;
          decoded = (
            scheme.to_bytes signature,
            laws.decode-encode signature,
            laws.from_slice-to_bytes signature,
          );
          key = key;
          known = known;
          representation = x;
          canonical =
              canonical_received scheme.digest e (binding_of scheme destination p) x raw id who whom
                (as_wire_str ed25519) destination canonical;
          signed = checks x;
        }) in
      subst (λ l. (verify scheme source now v (received e (some l)) destination).1 ≡ ok (some p))
        same accepts
