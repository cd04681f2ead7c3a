-- ===== src/Common/Sort.antt =====
-- Sorting by a comparison, as the standard library's `sort_by` does it.
use hexeract.Common.{
  ◌≡◌, refl, ◌∙◌, inl, inr, Bool, true, false, List, [], ◌∷◌, if◌then◌else◌, arith, Bool-cases,
}
use mathlib.Core.List.{Perm, Permᴰ}
use mathlib.Core.List.Perm

-- The standard library's `sort_by` is stable: so is insertion, which puts an element before the
-- first that must come after it.
module _ {A : Type 0} (before : A → A → Bool) where
  abbrev pub insert_sorted : A → List A → List A
  insert_sorted a [] = a ∷ []
  insert_sorted a (b ∷ bs) = if before b a then b ∷ insert_sorted a bs else a ∷ b ∷ bs

  unfoldable pub sort_by : List A → List A
  sort_by [] = []
  sort_by (a ∷ as') = insert_sorted a (sort_by as')

module _ {A : Type 0} (before : A → A → Bool) where
  -- The first element, if any, need not come before `a`; and so for each tail.
  abbrev pub Above : A → List A → Type 0
  Above a [] = Unit
  Above a (b ∷ bs) = before b a ≡ false

  abbrev pub Ordered : List A → Type 0
  Ordered [] = Unit
  Ordered (a ∷ as') = Above a as' × Ordered as'

module _ {A : Type 0} (before : A → A → Bool)
    (asym : (a b : A) → before a b ≡ true → before b a ≡ false) where
  insert_sorted-Above :
      (a c : A) (l : List A)
      → before a c ≡ false
      → Above before c l
      → Above before c (insert_sorted before a l)
  insert_sorted-Above a c [] h b = h
  insert_sorted-Above a c (x ∷ xs) h b = ground arith

  insert_sorted-Ordered :
      (a : A) (l : List A) → Ordered before l → Ordered before (insert_sorted before a l)
  insert_sorted-Ordered a [] o = (tt, tt)
  insert_sorted-Ordered a (b ∷ bs) o = elim (Bool-cases (before b a)) [
    | inl t ↦ rw t (insert_sorted-Above a b bs (asym b a t) o.0, insert_sorted-Ordered a bs o.1)
    | inr t ↦ rw t (t, o)
  ]

  pub sort_by-Ordered : (l : List A) → Ordered before (sort_by before l)
  unfolding sort_by
  sort_by-Ordered [] = tt
  sort_by-Ordered (a ∷ l) = insert_sorted-Ordered a (sort_by before l) (sort_by-Ordered l)

module _ {A : Type 0} (before : A → A → Bool) where
  insert_sorted-perm : (a : A) (l : List A) → Perm (insert_sorted before a l) (a ∷ l)
  insert_sorted-perm a [] = Perm.rfl
  insert_sorted-perm a (b ∷ bs) = elim (Bool-cases (before b a)) [
    | inl t ↦ rw t (Perm.trans (Perm.cons b (insert_sorted-perm a bs)) (Perm.swap a b bs))
    | inr t ↦ rw t Perm.rfl
  ]

  pub sort_by-perm : (l : List A) → Perm (sort_by before l) l
  unfolding sort_by
  sort_by-perm [] = Perm.rfl
  sort_by-perm (a ∷ l) =
      Perm.trans (insert_sorted-perm a (sort_by before l)) (Perm.cons a (sort_by-perm l))

-- A strict total order.
pub record IsOrder {A : Type 0} (before : A → A → Bool) : Type 0 where
  pub asym : (a b : A) → before a b ≡ true → before b a ≡ false
  pub tran : (a b c : A) → before a b ≡ true → before b c ≡ true → before a c ≡ true
  pub total : (a b : A) → before a b ≡ false → before b a ≡ false → a ≡ b

module _ {A : Type 0} (before : A → A → Bool) (o : IsOrder before) where
  insert_sorted_comm :
      (a b : A) (l : List A)
      → insert_sorted before a (insert_sorted before b l)
        ≡ insert_sorted before b (insert_sorted before a l)
  insert_sorted_comm a b [] = ground (arith, o.asym a b, o.total a b)
  insert_sorted_comm a b (x ∷ xs) = ground (
    arith,
    insert_sorted_comm a b xs,
    o.asym a b,
    o.total a b,
    o.tran x a b,
    o.tran x b a,
    o.asym a x,
    o.asym b x,
    o.tran a b x,
    o.tran b a x,
    o.asym x a,
    o.asym x b,
    o.asym b a,
  )

  -- In an order, what is sorted does not depend on the order it came in.
  pub sort_by-Perm : {xs ys : List A} → Permᴰ xs ys → sort_by before xs ≡ sort_by before ys
  unfolding sort_by
  sort_by-Perm Permᴰ.nil = refl
  sort_by-Perm (Permᴰ.cons e p) = cc (e, sort_by-Perm p)
  sort_by-Perm (Permᴰ.swap {a} {b} {a'} {b'} {l} e f) =
      insert_sorted_comm a b (sort_by before l) ∙ cc (e, f)
  sort_by-Perm (Permᴰ.trans p q) = sort_by-Perm p ∙ sort_by-Perm q
