-- ===== src/Common/Bytes.antt =====
-- Bytes: the UTF-8 of a text, big-endian numbers, and the order of byte strings.
use Prim.Native.Char.{code}
use Prim.Native.String.{String}
use Prim.Native.Nat.{ℕ, zero, suc, ◌+◌, ◌/◌, ◌%◌, ◌^◌, ◌<◌}
use mathlib.Core.Path.{◌≡◌, refl, sym, ◌∙◌}
use mathlib.Core.Bool.{Bool, true, false}
use mathlib.Core.Logic.{◌≢◌}
use mathlib.Core.List.{List, [], ◌∷◌, ◌++◌}
use native.Mathlib.Omega.{arith}
use text.Mathlib.TextEquality.{Char-path}
use hexeract.Common.Tests.{ltb, ◌==◌, if◌then◌else◌}
use hexeract.Common.Lists.{length, length-append}

abbrev pub Bytes : Type 0
Bytes = List ℕ

-- The UTF-8 form of one character.
abbrev pub utf8_char : ℕ → Bytes
utf8_char c =
    if ltb c 0x80
    then c ∷ []
    else if ltb c 0x800
    then (0xc0 + c / 64) ∷ (0x80 + c % 64) ∷ []
    else if ltb c 0x10000
    then (0xe0 + c / 4096) ∷ (0x80 + c / 64 % 64) ∷ (0x80 + c % 64) ∷ []
    else (0xf0 + c / 262144) ∷ (0x80 + c / 4096 % 64) ∷ (0x80 + c / 64 % 64) ∷ (0x80 + c % 64) ∷ []

-- `str::as_bytes`.
abbrev pub as_bytes : String → Bytes
as_bytes String.[] = []
as_bytes (String.◌∷◌ c s) = utf8_char (code c) ++ as_bytes s

-- `to_be_bytes` of an integer of `w` bytes.
abbrev pub to_be_bytes : ℕ → ℕ → Bytes
to_be_bytes zero n = []
to_be_bytes (suc w) n = to_be_bytes w (n / 256) ++ (n % 256 ∷ [])

-- `Ord::cmp` of byte strings, as a test for "less".
abbrev pub bytes_lt : Bytes → Bytes → Bool
bytes_lt [] [] = false
bytes_lt [] (y ∷ ys) = true
bytes_lt (x ∷ xs) [] = false
bytes_lt (x ∷ xs) (y ∷ ys) = if x == y then bytes_lt xs ys else ltb x y

cons_head : (x y : ℕ) (xs ys : Bytes) → ◌≡◌ {A = Bytes} (x ∷ xs) (y ∷ ys) → x ≡ y
cons_head x y xs ys h = cc h

cons_tail : (x y : ℕ) (xs ys : Bytes) → ◌≡◌ {A = Bytes} (x ∷ xs) (y ∷ ys) → xs ≡ ys
cons_tail x y xs ys h = cc h

utf8_char-inj :
    (c d : ℕ) (xs ys : Bytes) → utf8_char c ++ xs ≡ utf8_char d ++ ys → (c ≡ d) × (xs ≡ ys)
utf8_char-inj c d xs ys h = ground arith

utf8_char-ne_nil : (c : ℕ) (xs : Bytes) → utf8_char c ++ xs ≢ []
utf8_char-ne_nil c xs h = ground arith

pub as_bytes-inj : (s t : String) → as_bytes s ≡ as_bytes t → s ≡ t
as_bytes-inj String.[] String.[] h = refl
as_bytes-inj String.[] (String.◌∷◌ d t) h = absurd (utf8_char-ne_nil (code d) (as_bytes t) (sym h))
as_bytes-inj (String.◌∷◌ c s) String.[] h = absurd (utf8_char-ne_nil (code c) (as_bytes s) h)
as_bytes-inj (String.◌∷◌ c s) (String.◌∷◌ d t) h =
    let (e, r) = utf8_char-inj (code c) (code d) (as_bytes s) (as_bytes t) h in
    cc (Char-path c d e, as_bytes-inj s t r)

-- Texts of equal length that begin two equal texts are equal, and so are the rests.
pub append-inj : (a b r s : Bytes) → length a ≡ length b → a ++ r ≡ b ++ s → (a ≡ b) × (r ≡ s)
append-inj [] [] r s l h = (refl, h)
append-inj [] (y ∷ b) r s l h = absurd (omega (arith, l))
append-inj (x ∷ a) [] r s l h = absurd (omega (arith, l))
append-inj (x ∷ a) (y ∷ b) r s l h =
    let (e, f) = append-inj a b r s (omega (arith, l)) (cons_tail x y (a ++ r) (b ++ s) h) in
    (cc (cons_head x y (a ++ r) (b ++ s) h, e), f)

pub length-to_be_bytes : (w n : ℕ) → length (to_be_bytes w n) ≡ w
length-to_be_bytes zero n = refl
length-to_be_bytes (suc w) n =
    omega (
      arith,
      length-append (to_be_bytes w (n / 256)) (n % 256 ∷ []),
      length-to_be_bytes w (n / 256),
    )

-- A number is determined by its bytes, if it fits them.
pub to_be_bytes-inj :
    (w n m : ℕ) → n < 256 ^ w → m < 256 ^ w → to_be_bytes w n ≡ to_be_bytes w m → n ≡ m
to_be_bytes-inj zero n m p q h = omega (arith, p, q)
to_be_bytes-inj (suc w) n m p q h =
    let same = length-to_be_bytes w (n / 256) ∙ sym (length-to_be_bytes w (m / 256)) in
    let (high, low) =
      append-inj (to_be_bytes w (n / 256)) (to_be_bytes w (m / 256)) (n % 256 ∷ []) (m % 256 ∷ [])
        same h in
    let e = to_be_bytes-inj w (n / 256) (m / 256) (fits n p) (fits m q) high in
    omega (arith, e, cons_head (n % 256) (m % 256) [] [] low)
  where
    fits : (k : ℕ) → k < 256 ^ suc w → k / 256 < 256 ^ w
    fits k p = grind arith
