-- ===== src/Bus/Security/Canonical/Parsing.antt =====
-- The framing of the canonical representation is unambiguous
-- (crates/hexeract-bus/src/envelope_security/canonical.rs).
use hexeract.Common.{
  ℕ, ◌≤◌, ◌≡◌, refl, sym, ◌∙◌, ap, some, none, List, [], ◌∷◌, ◌++◌, arith, length,
}
use mathlib.Core.List.{append_assoc}
use hexeract.Common.Bytes.{Bytes, to_be_bytes, to_be_bytes-inj, length-to_be_bytes, append-inj}
use hexeract.Clock.{u32_max}
use hexeract.Bus.Security.Canonical.{frame, Segment, field, optional, pairs}
use hexeract.Bus.Security.Canonical.Framing.{
  encode_pairs, encode, encode_all, PairsFit, SegmentFits, AllFit,
}

u32_inj :
    (n m : ℕ) (r u : Bytes)
    → n ≤ u32_max
    → m ≤ u32_max
    → to_be_bytes 4 n ++ r ≡ to_be_bytes 4 m ++ u
    → (n ≡ m) × (r ≡ u)
u32_inj n m r u p q h =
    let same = length-to_be_bytes 4 n ∙ sym (length-to_be_bytes 4 m) in
    let (e, f) = append-inj (to_be_bytes 4 n) (to_be_bytes 4 m) r u same h in
    (to_be_bytes-inj 4 n m (omega (arith, p)) (omega (arith, q)) e, f)

frame-inj :
    (f g r u : Bytes)
    → length f ≤ u32_max
    → length g ≤ u32_max
    → frame f ++ r ≡ frame g ++ u
    → (f ≡ g) × (r ≡ u)
unfolding frame
frame-inj f g r u p q h =
    let regrouped =
      sym (append_assoc (to_be_bytes 4 (length f)) f r)
      ∙ h
      ∙ append_assoc (to_be_bytes 4 (length g)) g u in
    let (e, k) = u32_inj (length f) (length g) (f ++ r) (g ++ u) p q regrouped in
    append-inj f g r u e k

encode_pairs-inj :
    (ps qs : List (Bytes × Bytes)) (r u : Bytes)
    → length ps ≡ length qs
    → PairsFit ps
    → PairsFit qs
    → encode_pairs ps ++ r ≡ encode_pairs qs ++ u
    → (ps ≡ qs) × (r ≡ u)
encode_pairs-inj [] [] r u l p q h = (refl, h)
encode_pairs-inj [] (y ∷ qs) r u l p q h = absurd (omega (arith, l))
encode_pairs-inj (y ∷ ps) [] r u l p q h = absurd (omega (arith, l))
encode_pairs-inj ((k, v) ∷ ps) ((k', v') ∷ qs) r u l p q h =
    let (a, h₁) =
      frame-inj k k' _ _ p.0 q.0 (open_pair k v ps r ∙ h' ∙ sym (open_pair k' v' qs u)) in
    let (b, h₂) = frame-inj v v' _ _ p.1 q.1 h₁ in
    let (c, d) = encode_pairs-inj ps qs r u (omega (arith, l)) p.2 q.2 h₂ in (cc (a, b, c), d)
  where
    open_pair :
        (k v : Bytes) (ps : List (Bytes × Bytes)) (r : Bytes)
        → frame k ++ (frame v ++ (encode_pairs ps ++ r)) ≡ encode_pairs ((k, v) ∷ ps) ++ r
    open_pair k v ps r = cc (
      append_assoc (frame k) (frame v ++ encode_pairs ps) r,
      append_assoc (frame v) (encode_pairs ps) r,
    )

    h' : encode_pairs ((k, v) ∷ ps) ++ r ≡ encode_pairs ((k', v') ∷ qs) ++ u
    h' = h

-- Segments that two runs of the same code push at the same place.
abbrev pub Alike : Segment → Segment → Type 0
Alike (field f) (field g) = Unit
Alike (optional o) (optional p) = Unit
Alike (pairs ps) (pairs qs) = Unit
Alike s t = ⊥

abbrev pub AllAlike : List Segment → List Segment → Type 0
AllAlike [] [] = Unit
AllAlike (s ∷ ss) (t ∷ ts) = Alike s t × AllAlike ss ts
AllAlike ss ts = ⊥

encode-inj :
    (s t : Segment) (r u : Bytes)
    → Alike s t
    → SegmentFits s
    → SegmentFits t
    → encode s ++ r ≡ encode t ++ u
    → (s ≡ t) × (r ≡ u)
encode-inj (field f) (field g) r u a p q h = let (e, k) = frame-inj f g r u p q h in (ap field e, k)
encode-inj (optional none) (optional none) r u a p q h = (refl, cc h)
encode-inj (optional none) (optional (some g)) r u a p q h = absurd (ground (arith, h))
encode-inj (optional (some f)) (optional none) r u a p q h = absurd (ground (arith, h))
encode-inj (optional (some f)) (optional (some g)) r u a p q h =
    let (e, k) = frame-inj f g r u p q (cc h) in (cc e, k)
encode-inj (pairs ps) (pairs qs) r u a p q h =
    let regrouped =
      sym (append_assoc (to_be_bytes 4 (length ps)) (encode_pairs ps) r)
      ∙ h
      ∙ append_assoc (to_be_bytes 4 (length qs)) (encode_pairs qs) u in
    let (e, k) =
      u32_inj (length ps) (length qs) (encode_pairs ps ++ r) (encode_pairs qs ++ u) p.0 q.0
        regrouped in
    let (f, m) = encode_pairs-inj ps qs r u e p.1 q.1 k in (ap pairs f, m)
encode-inj (field f) (optional o) r u a p q h = absurd a
encode-inj (field f) (pairs qs) r u a p q h = absurd a
encode-inj (optional none) (field g) r u a p q h = absurd a
encode-inj (optional none) (pairs qs) r u a p q h = absurd a
encode-inj (optional (some f)) (field g) r u a p q h = absurd a
encode-inj (optional (some f)) (pairs qs) r u a p q h = absurd a
encode-inj (pairs ps) (field g) r u a p q h = absurd a
encode-inj (pairs ps) (optional o) r u a p q h = absurd a

-- The two lists, place by place.
abbrev pub AllEqual : List Segment → List Segment → Type 0
AllEqual [] [] = Unit
AllEqual (s ∷ ss) (t ∷ ts) = (s ≡ t) × AllEqual ss ts
AllEqual ss ts = ⊥

-- Alike lists of segments that fit the framing are determined by their bytes.
pub encode_all-inj :
    (ss ts : List Segment)
    → AllAlike ss ts
    → AllFit ss
    → AllFit ts
    → encode_all ss ≡ encode_all ts
    → AllEqual ss ts
encode_all-inj [] [] a p q h = tt
encode_all-inj (s ∷ ss) (t ∷ ts) a p q h =
    let (e, k) = encode-inj s t (encode_all ss) (encode_all ts) a.0 p.0 q.0 h in
    (e, encode_all-inj ss ts a.1 p.1 q.1 k)
encode_all-inj [] (t ∷ ts) a p q h = absurd a
encode_all-inj (s ∷ ss) [] a p q h = absurd a
