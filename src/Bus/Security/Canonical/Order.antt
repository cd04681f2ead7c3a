-- ===== src/Bus/Security/Canonical/Order.antt =====
-- The order of the covered headers: crates/hexeract-bus/src/envelope_security/canonical.rs.
use Prim.Native.String.{String}
use hexeract.Common.{◌≡◌, refl, subst, true, false, [], ◌∷◌, arith, Bool-cases, inl, inr}
use mathlib.Core.List.{Permᴰ}
use mathlib.Core.List.Permᴰ
use hexeract.Common.Bytes.{Bytes, as_bytes, as_bytes-inj, bytes_lt}
use hexeract.Common.Sort.{IsOrder, sort_by-Perm}
use hexeract.Bus.Envelope.{BusEnvelope, Headers}
use hexeract.Bus.Security.Canonical.{
  CanonicalBinding, is_security_header, pair_lt, unsigned, covered_pairs, canonical_representation,
}

bytes_lt-asym : (a b : Bytes) → bytes_lt a b ≡ true → bytes_lt b a ≡ false
bytes_lt-asym [] [] h = refl
bytes_lt-asym [] (y ∷ b) h = refl
bytes_lt-asym (x ∷ a) [] h = absurd (ground arith)
bytes_lt-asym (x ∷ a) (y ∷ b) h = ground (arith, bytes_lt-asym a b)

bytes_lt_trans : (a b c : Bytes) → bytes_lt a b ≡ true → bytes_lt b c ≡ true → bytes_lt a c ≡ true
bytes_lt_trans [] [] c h k = k
bytes_lt_trans [] (y ∷ b) [] h k = k
bytes_lt_trans [] (y ∷ b) (z ∷ c) h k = refl
bytes_lt_trans (x ∷ a) [] c h k = absurd (ground arith)
bytes_lt_trans (x ∷ a) (y ∷ b) [] h k = absurd (ground arith)
bytes_lt_trans (x ∷ a) (y ∷ b) (z ∷ c) h k = ground (arith, bytes_lt_trans a b c)

pub bytes_lt-total : (a b : Bytes) → bytes_lt a b ≡ false → bytes_lt b a ≡ false → a ≡ b
bytes_lt-total [] [] h k = refl
bytes_lt-total [] (y ∷ b) h k = absurd (ground arith)
bytes_lt-total (x ∷ a) [] h k = absurd (ground arith)
bytes_lt-total (x ∷ a) (y ∷ b) h k = ground (arith, bytes_lt-total a b)

both_equal :
    (k v l w : String)
    → pair_lt (k, v) (l, w) ≡ false
    → pair_lt (l, w) (k, v) ≡ false
    → (as_bytes k ≡ as_bytes l) × (as_bytes v ≡ as_bytes w)
both_equal k v l w h i =
    ground
      (arith, bytes_lt-total (as_bytes k) (as_bytes l), bytes_lt-total (as_bytes v) (as_bytes w))

pair_lt-IsOrder : IsOrder pair_lt
pair_lt-IsOrder = record { asym = asym'; tran = tran'; total = total' }
  where
    asym' : (p q : String × String) → pair_lt p q ≡ true → pair_lt q p ≡ false
    asym' (k, v) (l, w) h =
        ground
          (arith, bytes_lt-asym (as_bytes k) (as_bytes l), bytes_lt-asym (as_bytes v) (as_bytes w))

    tran' : (p q r : String × String) → pair_lt p q ≡ true → pair_lt q r ≡ true → pair_lt p r ≡ true
    tran' (k, v) (l, w) (m, x) h i = ground (
      arith,
      bytes_lt_trans (as_bytes k) (as_bytes l) (as_bytes m),
      bytes_lt-total (as_bytes k) (as_bytes l),
      bytes_lt-total (as_bytes l) (as_bytes m),
      bytes_lt-asym (as_bytes k) (as_bytes m),
      bytes_lt_trans (as_bytes v) (as_bytes w) (as_bytes x),
    )

    total' : (p q : String × String) → pair_lt p q ≡ false → pair_lt q p ≡ false → p ≡ q
    total' (k, v) (l, w) h i =
        let (e, f) = both_equal k v l w h i in cc (as_bytes-inj k l e, as_bytes-inj v w f)

unsigned-swap :
    (a b : String × String) (l : Headers) → Permᴰ (unsigned (a ∷ b ∷ l)) (unsigned (b ∷ a ∷ l))
unsigned-swap a b l = elim (Bool-cases (is_security_header a.0)) [
  | inl t ↦ rw t (Permᴰ.refl _)
  | inr t ↦ elim (Bool-cases (is_security_header b.0)) [
    | inl u ↦ rw (t, u) (Permᴰ.refl _)
    | inr u ↦ rw (t, u) (Permᴰ.swap refl refl)
  ]
]

unsigned-Perm : {m n : Headers} → Permᴰ m n → Permᴰ (unsigned m) (unsigned n)
unsigned-Perm Permᴰ.nil = Permᴰ.nil
unsigned-Perm (Permᴰ.cons {a} {b} {l₁} {l₂} e p) =
    subst (λ c. Permᴰ (unsigned (a ∷ l₁)) (unsigned (c ∷ l₂))) e
      (elim (Bool-cases (is_security_header a.0)) [
        | inl t ↦ rw t (unsigned-Perm p)
        | inr t ↦ rw t (Permᴰ.cons refl (unsigned-Perm p))
      ])
unsigned-Perm (Permᴰ.swap {a} {b} {a'} {b'} {l} e f) =
    subst (λ c. Permᴰ (unsigned (a ∷ b ∷ l)) (unsigned (a' ∷ c ∷ l))) e
      (subst (λ c. Permᴰ (unsigned (a ∷ b ∷ l)) (unsigned (c ∷ a ∷ l))) f (unsigned-swap a b l))
unsigned-Perm (Permᴰ.trans p q) = Permᴰ.trans (unsigned-Perm p) (unsigned-Perm q)

covered_pairs-Perm :
    (h k p q : Headers) → Permᴰ h k → Permᴰ p q → covered_pairs h p ≡ covered_pairs k q
unfolding covered_pairs
covered_pairs-Perm h k p q d f =
    sort_by-Perm pair_lt pair_lt-IsOrder
      (unsigned-Perm (Permᴰ.trans (Permᴰ.append_right p d) (Permᴰ.append_left k f)))

-- The canonical representation does not depend on the order in which a header map lists its entries.
pub canonical_representation-order_independent :
    (digest : Bytes → Bytes) (e : BusEnvelope) (b : CanonicalBinding)
    (headers protocol_headers : Headers)
    → Permᴰ e.headers headers
    → Permᴰ e.protocol_headers protocol_headers
    → canonical_representation digest
        (record e { headers = headers; protocol_headers = protocol_headers })
        b
      ≡ canonical_representation digest e b
unfolding canonical_representation
canonical_representation-order_independent digest e b headers protocol_headers p q =
    rw (covered_pairs-Perm e.headers headers e.protocol_headers protocol_headers p q) refl
