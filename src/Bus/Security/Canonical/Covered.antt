-- ===== src/Bus/Security/Canonical/Covered.antt =====
-- What a signature covers: crates/hexeract-bus/src/envelope_security/canonical.rs.
use Prim.Native.String.{String}
use hexeract.Common.{
  ℕ, ◌-◌, ◌^◌, ◌/◌, ◌<◌, ◌≡◌, refl, sym, ◌∙◌, ap, Option, some, none, List, [], ◌∷◌, map, arith,
}
use hexeract.Common.Bytes.{Bytes, as_bytes, as_bytes-inj, to_be_bytes, to_be_bytes-inj}
use hexeract.Common.Result.{ok, bind_ok}
use hexeract.Clock.{Instant, unix_epoch, nanos_per_second}
use hexeract.Bus.Envelope.{BusEnvelope, Headers}
use hexeract.Bus.Security.Types.{SignatureAlgorithm, ed25519}
use hexeract.Bus.Security.Canonical.{
  CanonicalBinding, field, optional, pairs, segments, canonical_representation, published_seconds,
  covered_pairs, pair_bytes, option_bytes,
}
use hexeract.Bus.Security.Canonical.Framing.{push_all-encode, encode_all, AllFit}
use hexeract.Bus.Security.Canonical.Parsing.{encode_all-inj}

-- The two envelopes and bindings agree on all that a signature is to cover.
abbrev pub SameCovered :
    (digest : Bytes → Bytes)
    → BusEnvelope
    → CanonicalBinding
    → BusEnvelope
    → CanonicalBinding
    → Type 0
SameCovered digest e b f c =
    (e.message_id ≡ f.message_id)
    × (e.message_type ≡ f.message_type)
    × (e.correlation_id ≡ f.correlation_id)
    × (e.reply_to ≡ f.reply_to)
    × (published_seconds e.published_at ≡ published_seconds f.published_at)
    × (b.destination ≡ c.destination)
    × (b.issuer ≡ c.issuer)
    × (b.audience ≡ c.audience)
    × (b.key_id ≡ c.key_id)
    × (b.algorithm ≡ c.algorithm)
    × (covered_pairs e.headers e.protocol_headers ≡ covered_pairs f.headers f.protocol_headers)
    × (digest e.payload ≡ digest f.payload)

-- The ids are 128-bit and the time is 64-bit.
pub record InRange (e : BusEnvelope) : Type 0 where
  pub id : e.message_id < 256 ^ 16
  pub correlation : e.correlation_id < 256 ^ 16
  pub seconds : (e.published_at - unix_epoch) / nanos_per_second < 256 ^ 8

published_in_range :
    (t : Instant) (n : ℕ)
    → published_seconds t ≡ ok n
    → (t - unix_epoch) / nanos_per_second < 256 ^ 8
    → n < 256 ^ 8
published_in_range t n h b = ground (arith, h, b)

option_bytes-inj : (o p : Option String) → option_bytes o ≡ option_bytes p → o ≡ p
option_bytes-inj none none h = refl
option_bytes-inj none (some t) h = absurd (cc h)
option_bytes-inj (some s) none h = absurd (cc h)
option_bytes-inj (some s) (some t) h = ap some (as_bytes-inj s t (cc h))

pair_bytes-inj : (m n : Headers) → map pair_bytes m ≡ map pair_bytes n → m ≡ n
pair_bytes-inj [] [] h = refl
pair_bytes-inj [] (y ∷ n) h = absurd (cc h)
pair_bytes-inj (x ∷ m) [] h = absurd (cc h)
pair_bytes-inj ((k, v) ∷ m) ((l, w) ∷ n) h =
    cc (as_bytes-inj k l (cc h), as_bytes-inj v w (cc h), pair_bytes-inj m n (cc h))

field-inj : (f g : Bytes) → field f ≡ field g → f ≡ g
field-inj f g h = cc h

optional-inj : (o p : Option Bytes) → optional o ≡ optional p → o ≡ p
optional-inj o p h = cc h

pairs-inj : (ps qs : List (Bytes × Bytes)) → pairs ps ≡ pairs qs → ps ≡ qs
pairs-inj ps qs h = cc h

text-inj : (s t : String) → field (as_bytes s) ≡ field (as_bytes t) → s ≡ t
text-inj s t h = as_bytes-inj s t (field-inj (as_bytes s) (as_bytes t) h)

number-inj :
    (w n m : ℕ)
    → n < 256 ^ w
    → m < 256 ^ w
    → field (to_be_bytes w n) ≡ field (to_be_bytes w m)
    → n ≡ m
number-inj w n m p q h = to_be_bytes-inj w n m p q (field-inj (to_be_bytes w n) (to_be_bytes w m) h)

-- There is one algorithm.
algorithm_unique : (a b : SignatureAlgorithm) → a ≡ b
algorithm_unique ed25519 ed25519 = refl

module _ (digest : Bytes → Bytes) where
  canonical_representation-encode :
      (e : BusEnvelope) (b : CanonicalBinding) (x : Bytes)
      → canonical_representation digest e b ≡ ok x
      → (n : ℕ) × ((published_seconds e.published_at ≡ ok n)
          × (x ≡ encode_all (segments digest e b n))
          × AllFit (segments digest e b n))
  unfolding canonical_representation
  canonical_representation-encode e b x h =
      let (n, p, k) = bind_ok (published_seconds e.published_at) _ x h in
      let (q, fit) = push_all-encode (segments digest e b n) [] x k in (n, (p, q, fit))

  -- The framing is unambiguous: if two envelopes, whose ids are 128-bit and whose publication time is
  -- 64-bit, have the same canonical representation, each under its binding, then they agree on the
  -- ids, the type, the reply queue, the publication second, the destination, the issuer, the
  -- audience, the key id, the algorithm, all headers but the security headers, and the digest of
  -- the payload.
  pub canonical_representation-inj :
      (e f : BusEnvelope) (b c : CanonicalBinding) (x : Bytes)
      → InRange e
      → InRange f
      → canonical_representation digest e b ≡ ok x
      → canonical_representation digest f c ≡ ok x
      → SameCovered digest e b f c
  canonical_representation-inj e f b c x re rf h k =
      let (n, (pn, xn, fn)) = canonical_representation-encode e b x h in
      let (m, (pm, xm, fm)) = canonical_representation-encode f c x k in
      let (_, (id, (ty, (co, (re', (se, (de, (is', (au, (ki, (_, (ps, (pa, _))))))))))))) =
        encode_all-inj (segments digest e b n) (segments digest f c m)
          (tt, (tt, (tt, (tt, (tt, (tt, (tt, (tt, (tt, (tt, (tt, (tt, (tt, tt))))))))))))) fn fm
          (sym xn ∙ xm) in
      (
        number-inj 16 e.message_id f.message_id re.id rf.id id,
        text-inj e.message_type f.message_type ty,
        number-inj 16 e.correlation_id f.correlation_id re.correlation rf.correlation co,
        option_bytes-inj e.reply_to f.reply_to (optional-inj _ _ re'),
        pn
            ∙ ap ok (
                number-inj 8 n m (published_in_range e.published_at n pn re.seconds)
                  (published_in_range f.published_at m pm rf.seconds) se)
            ∙ sym pm,
        text-inj b.destination c.destination de,
        text-inj b.issuer c.issuer is',
        text-inj b.audience c.audience au,
        text-inj b.key_id c.key_id ki,
        algorithm_unique b.algorithm c.algorithm,
        pair_bytes-inj _ _ (pairs-inj _ _ ps),
        field-inj (digest e.payload) (digest f.payload) pa,
      )
