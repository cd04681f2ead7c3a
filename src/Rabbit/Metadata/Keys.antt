-- ===== src/Rabbit/Metadata/Keys.antt =====
-- Distinct, reserved and absent header names: crates/hexeract-bus-rabbitmq/src/metadata.rs keeps
-- headers in maps.
use Prim.Native.String.{String}
use text.Mathlib.Text.{◌==◌ as str_eq}
use text.Mathlib.TextEquality.{eq_iff}
use hexeract.Common.{
  suc, ◌≡◌, refl, sym, subst, ◌∙◌, ap, true, false, List, [], ◌∷◌, ◌++◌, length, arith, Bool-cases,
  inl, inr, ◌⊎◌,
}
use mathlib.Core.List.{append_assoc, append-nil}
use hexeract.Common.Bytes.{as_bytes}
use hexeract.Bus.Envelope.{Headers, is_reserved_header, put_header, any_reserved}
use hexeract.Rabbit.Metadata.{long_string, FieldTable}
use hexeract.Rabbit.Metadata.Encoding.{keys_of, any_uppercase}

abbrev pub Absent : String → List String → Type 0
Absent k [] = Unit
Absent k (j ∷ js) = (str_eq j k ≡ false) × Absent k js

-- No key stands twice, nor among those before.
abbrev pub DistinctFrom : List String → List String → Type 0
DistinctFrom done [] = Unit
DistinctFrom done (k ∷ ks) = Absent k done × DistinctFrom (done ++ (k ∷ [])) ks

-- Reserved keys in their canonical form.
abbrev pub Reserved : List String → Type 0
Reserved [] = Unit
Reserved (k ∷ ks) =
    (is_reserved_header k ≡ true) × (any_uppercase (as_bytes k) ≡ false) × Reserved ks

abbrev pub as_fields : Headers → FieldTable
as_fields [] = []
as_fields ((k, v) ∷ m) = (k, long_string (as_bytes v)) ∷ as_fields m

pub put_fresh :
    {V : Type 0} (k : String) (v : V) (m : List (String × V))
    → Absent k (keys_of m)
    → put_header k v m ≡ m ++ ((k, v) ∷ [])
put_fresh k v [] a = refl
put_fresh k v ((j, w) ∷ m) (e, a) = rw e (ap (λ l. (j, w) ∷ l) (put_fresh k v m a))

pub keys_of-append :
    {V : Type 0} (m n : List (String × V)) → keys_of (m ++ n) ≡ keys_of m ++ keys_of n
keys_of-append [] n = refl
keys_of-append ((k, v) ∷ m) n = ap (λ l. k ∷ l) (keys_of-append m n)

pub keys_of-as_fields : (m : Headers) → keys_of (as_fields m) ≡ keys_of m
keys_of-as_fields [] = refl
keys_of-as_fields ((k, v) ∷ m) = ap (λ l. k ∷ l) (keys_of-as_fields m)

pub length-as_fields : (m : Headers) → length (as_fields m) ≡ length m
length-as_fields [] = refl
length-as_fields ((k, v) ∷ m) = ap suc (length-as_fields m)

pub as_fields-append : (m n : Headers) → as_fields (m ++ n) ≡ as_fields m ++ as_fields n
as_fields-append [] n = refl
as_fields-append ((k, v) ∷ m) n = ap (λ l. (k, long_string (as_bytes v)) ∷ l) (as_fields-append m n)

-- A reserved key is none of the application's.
pub framework_key_fresh :
    (k : String) (m : Headers) (done : List String)
    → is_reserved_header k ≡ true
    → any_reserved m ≡ false
    → Absent k done
    → Absent k (keys_of m ++ done)
framework_key_fresh k [] done r n a = a
framework_key_fresh k ((j, v) ∷ m) done r n a =
    (differs (Bool-cases (str_eq j k)), framework_key_fresh k m done r (ground (arith, n)) a)
  where
    differs : (str_eq j k ≡ true) ⊎ (str_eq j k ≡ false) → str_eq j k ≡ false
    differs (inr f) = f
    differs (inl t) =
        let same : is_reserved_header j ≡ true = ap is_reserved_header ((eq_iff j k).0 t) ∙ r in
        absurd (ground (arith, n, same))

pub fresh_after_application :
    (m : Headers) (done ks : List String)
    → any_reserved m ≡ false
    → Reserved ks
    → DistinctFrom done ks
    → DistinctFrom (keys_of m ++ done) ks
fresh_after_application m done [] n r d = tt
fresh_after_application m done (k ∷ ks) n (own, lower, r) (a, d) = (
  framework_key_fresh k m done own n a,
  subst (λ l. DistinctFrom l ks) (sym (append_assoc (keys_of m) done (k ∷ [])))
      (fresh_after_application m (done ++ (k ∷ [])) ks n r d),
)

pub distinct_append :
    (done ks ls : List String)
    → DistinctFrom done ks
    → DistinctFrom (done ++ ks) ls
    → DistinctFrom done (ks ++ ls)
distinct_append done [] ls d e = subst (λ l. DistinctFrom l ls) (append-nil done) e
distinct_append done (k ∷ ks) ls (a, d) e = (
  a,
  distinct_append (done ++ (k ∷ [])) ks ls d
      (subst (λ l. DistinctFrom l ls) (sym (append_assoc done (k ∷ []) ks)) e),
)
