-- ===== src/Bus/Security/Canonical/Framing.antt =====
-- The framing of the canonical representation
-- (crates/hexeract-bus/src/envelope_security/canonical.rs).
use hexeract.Common.{
  ◌≤◌, ◌≡◌, some, none, List, [], ◌∷◌, ◌++◌, leb, arith, Bool-cases, inl, inr, length,
}
use mathlib.Core.List.{append_assoc, append-nil}
use hexeract.Common.Bytes.{Bytes, to_be_bytes}
use hexeract.Common.Result.{ok, bind_ok}
use hexeract.Clock.{u32_max}
use hexeract.Bus.Security.Canonical.{
  frame, push_field, push_optional_field, push_pairs, push_counted, Segment, field, optional, pairs,
  push, push_all,
}

-- What one segment adds to the bytes.
abbrev pub encode_pairs : List (Bytes × Bytes) → Bytes
encode_pairs [] = []
encode_pairs ((k, v) ∷ ps) = frame k ++ (frame v ++ encode_pairs ps)

abbrev pub encode : Segment → Bytes
encode (field f) = frame f
encode (optional none) = 0 ∷ []
encode (optional (some f)) = 1 ∷ frame f
encode (pairs ps) = to_be_bytes 4 (length ps) ++ encode_pairs ps

abbrev pub encode_all : List Segment → Bytes
encode_all [] = []
encode_all (s ∷ ss) = encode s ++ encode_all ss

-- Every length fits the framing.
abbrev pub PairsFit : List (Bytes × Bytes) → Type 0
PairsFit [] = Unit
PairsFit ((k, v) ∷ ps) = (length k ≤ u32_max) × (length v ≤ u32_max) × PairsFit ps

abbrev pub SegmentFits : Segment → Type 0
SegmentFits (field f) = length f ≤ u32_max
SegmentFits (optional none) = Unit
SegmentFits (optional (some f)) = length f ≤ u32_max
SegmentFits (pairs ps) = (length ps ≤ u32_max) × PairsFit ps

abbrev pub AllFit : List Segment → Type 0
AllFit [] = Unit
AllFit (s ∷ ss) = SegmentFits s × AllFit ss

push_field-frame :
    (bytes f x : Bytes) → push_field bytes f ≡ ok x → (x ≡ bytes ++ frame f) × (length f ≤ u32_max)
unfolding push_field
push_field-frame bytes f x h = elim (Bool-cases (leb (length f) u32_max)) [
  | inl p ↦ (cc (rw p at h), ground arith)
  | inr p ↦ absurd (cc (rw p at h))
]

push_pairs-encode :
    (ps : List (Bytes × Bytes)) (bytes x : Bytes)
    → push_pairs bytes ps ≡ ok x
    → (x ≡ bytes ++ encode_pairs ps) × PairsFit ps
unfolding push_pairs
push_pairs-encode [] bytes x h = (cc (append-nil bytes, h), tt)
push_pairs-encode ((k, v) ∷ ps) bytes x h =
    let (keyed, a, h₁) = bind_ok (push_field bytes k) _ x h in
    let (valued, b, h₂) = bind_ok (push_field keyed v) _ x h₁ in
    let (p, p') = push_field-frame bytes k keyed a in
    let (q, q') = push_field-frame keyed v valued b in
    let (r, r') = push_pairs-encode ps valued x h₂ in
    (
      cc (
        p,
        q,
        r,
        append_assoc bytes (frame k) (frame v ++ encode_pairs ps),
        append_assoc (bytes ++ frame k) (frame v) (encode_pairs ps),
      ),
      (p', q', r'),
    )

push-encode :
    (s : Segment) (bytes x : Bytes) → push bytes s ≡ ok x → (x ≡ bytes ++ encode s) × SegmentFits s
unfolding push_optional_field push_counted
push-encode (field f) bytes x h = push_field-frame bytes f x h
push-encode (optional none) bytes x h = (cc h, tt)
push-encode (optional (some f)) bytes x h =
    let (p, p') = push_field-frame (bytes ++ (1 ∷ [])) f x h in
    (cc (p, append_assoc bytes (1 ∷ []) (frame f)), p')
push-encode (pairs ps) bytes x h = elim (Bool-cases (leb (length ps) u32_max)) [
  | inl t ↦
      let (p, p') = push_pairs-encode ps (bytes ++ to_be_bytes 4 (length ps)) x (rw t at h) in
      (
        cc (p, append_assoc bytes (to_be_bytes 4 (length ps)) (encode_pairs ps)),
        (ground (arith, t), p'),
      )
  | inr t ↦ absurd (cc (rw t at h))
]

-- What is pushed is encoded after the bytes that were there.
pub push_all-encode :
    (ss : List Segment) (bytes x : Bytes)
    → push_all bytes ss ≡ ok x
    → (x ≡ bytes ++ encode_all ss) × AllFit ss
unfolding push_all
push_all-encode [] bytes x h = (cc (append-nil bytes, h), tt)
push_all-encode (s ∷ ss) bytes x h =
    let (pushed, a, h₁) = bind_ok (push bytes s) _ x h in
    let (p, p') = push-encode s bytes pushed a in
    let (q, q') = push_all-encode ss pushed x h₁ in
    (cc (p, q, append_assoc bytes (encode s) (encode_all ss)), (p', q'))
