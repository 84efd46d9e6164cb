-- ===== src/Prelude/Text.antt =====
-- Texts as lists of code points: equality, order, `strip`, `lower` and `upper`.
-- `strip` removes what `str.isspace` accepts; `lower` and `upper` act on the ASCII letters, which
-- is what the vocabularies are written in, and keep every other character.
use Prim.Native.Char.{code}
use Prim.Native.Nat.{ℕ, ◌+◌, ◌-◌}
use Prim.Native.String.{String}
use mathlib.Core.Path.{◌≡◌, refl}
use mathlib.Core.Logic.{◌↔◌, inl, inr}
use mathlib.Core.Option.{Option, none, some}
use mathlib.Core.Bool.{Bool, true, false, ◌&&◌, ◌||◌}
use mathlib.Core.List.{List, [], ◌∷◌, map, reverse}
use native.Mathlib.Omega.{arith}
use edufurthersf_be.Prelude.Tests.{leb, ltb, ◌==◌, if◌then◌else◌, Bool-cases}

abbrev pub Text : Type 0
Text = List ℕ

-- The code points of a literal.
abbrev pub codes : String → Text
codes String.[] = []
codes (String.◌∷◌ c s) = code c ∷ codes s

unfoldable pub text_eq : Text → Text → Bool
text_eq [] [] = true
text_eq [] (y ∷ ys) = false
text_eq (x ∷ xs) [] = false
text_eq (x ∷ xs) (y ∷ ys) = (x == y) && text_eq xs ys

pub text_eq_refl : (a : Text) → text_eq a a ≡ true
unfolding text_eq
text_eq_refl [] = refl
text_eq_refl (x ∷ xs) = ground (arith, text_eq_refl xs)

pub eq_of_text_eq : (a b : Text) → text_eq a b ≡ true → a ≡ b
unfolding text_eq
eq_of_text_eq [] [] h = refl
eq_of_text_eq [] (y ∷ ys) h = cc
eq_of_text_eq (x ∷ xs) [] h = cc
eq_of_text_eq (x ∷ xs) (y ∷ ys) h = ground (arith, eq_of_text_eq xs ys)

pub text_eq_iff : (a b : Text) → (text_eq a b ≡ true) ↔ (a ≡ b)
text_eq_iff a b = (eq_of_text_eq a b, λ e. rw e (text_eq_refl b))

-- `a < b`: by code points, a proper prefix first.
unfoldable pub text_ltb : Text → Text → Bool
text_ltb xs [] = false
text_ltb [] (y ∷ ys) = true
text_ltb (x ∷ xs) (y ∷ ys) = ltb x y || ((x == y) && text_ltb xs ys)

pub text_ltb_irrefl : (a : Text) → text_ltb a a ≡ false
unfolding text_ltb
text_ltb_irrefl [] = refl
text_ltb_irrefl (x ∷ xs) = ground (arith, text_ltb_irrefl xs)

pub text_ltb_trans :
    (a b c : Text) → text_ltb a b ≡ true → text_ltb b c ≡ true → text_ltb a c ≡ true
unfolding text_ltb
text_ltb_trans a b [] h k = cc
text_ltb_trans a [] (z ∷ zs) h k = ground arith
text_ltb_trans [] (y ∷ ys) (z ∷ zs) h k = refl
text_ltb_trans (x ∷ xs) (y ∷ ys) (z ∷ zs) h k = ground (arith, text_ltb_trans xs ys zs)

-- Two texts that are not ordered either way are one text.
pub text_ltb_total : (a b : Text) → text_ltb a b ≡ false → text_ltb b a ≡ false → a ≡ b
unfolding text_ltb
text_ltb_total [] [] h k = refl
text_ltb_total [] (y ∷ ys) h k = cc
text_ltb_total (x ∷ xs) [] h k = cc
text_ltb_total (x ∷ xs) (y ∷ ys) h k = ground (arith, text_ltb_total xs ys)

is_space : ℕ → Bool
is_space c =
    (leb 9 c && leb c 13)
    || (leb 28 c && leb c 32)
    || (c == 133)
    || (c == 160)
    || (c == 5760)
    || (leb 8192 c && leb c 8202)
    || (c == 8232)
    || (c == 8233)
    || (c == 8239)
    || (c == 8287)
    || (c == 12288)

lstrip : Text → Text
lstrip [] = []
lstrip (c ∷ s) = let rest = lstrip s in if is_space c then rest else c ∷ s

unfoldable pub strip : Text → Text
unfolding lstrip is_space
strip s = reverse (lstrip (reverse (lstrip s)))

lower_code : ℕ → ℕ
lower_code c = if leb b'A' c && leb c b'Z' then c + 32 else c

upper_code : ℕ → ℕ
upper_code c = if leb b'a' c && leb c b'z' then c - 32 else c

unfoldable pub lower : Text → Text
unfolding lower_code
lower s = map lower_code s

unfoldable pub upper : Text → Text
unfolding upper_code
upper s = map upper_code s

lower_code_idem : (c : ℕ) → lower_code (lower_code c) ≡ lower_code c
unfolding lower_code
lower_code_idem c = ground arith

pub lower_idem : (s : Text) → lower (lower s) ≡ lower s
unfolding lower
lower_idem [] = refl
lower_idem (c ∷ s) = cc (lower_code_idem c, lower_idem s)

-- `any(text == x for x in xs)`: `text in xs`.
unfoldable pub mem : Text → List Text → Bool
mem a [] = false
mem a (x ∷ xs) = text_eq x a || mem a xs

-- A dictionary keyed by texts: `table.get(key)`, `key in table` and its keys.
module _ {ℓ} {V : Type ℓ} where
  unfoldable pub lookup : Text → List (Text × V) → Option V
  lookup k [] = none
  lookup k ((j, v) ∷ d) = if text_eq j k then some v else lookup k d

  unfoldable pub keys : List (Text × V) → List Text
  keys [] = []
  keys ((j, v) ∷ d) = j ∷ keys d

-- Whether two sets have a member in common.
unfoldable pub intersects : List Text → List Text → Bool
intersects [] ys = false
intersects (x ∷ xs) ys = mem x ys || intersects xs ys

shared_member :
    (xs ys : List Text)
    → intersects xs ys ≡ true
    → (a : Text) × (mem a xs ≡ true) × (mem a ys ≡ true)
unfolding intersects mem
shared_member [] ys h = cc
shared_member (x ∷ xs) ys h = elim (Bool-cases (mem x ys)) [
  | inl e ↦ (x, rw (text_eq_refl x), e)
  | inr e ↦ let (a, m, n) = shared_member xs ys (rw e at h) in (a, ground arith, n)
]

member_shared :
    (a : Text) (xs ys : List Text) → mem a xs ≡ true → mem a ys ≡ true → intersects xs ys ≡ true
unfolding intersects mem
member_shared a [] ys m n = cc
member_shared a (x ∷ xs) ys m n = ground (arith, member_shared a xs ys, eq_of_text_eq x a)

pub intersects_iff :
    (xs ys : List Text)
    → (intersects xs ys ≡ true) ↔ ((a : Text) × (mem a xs ≡ true) × (mem a ys ≡ true))
intersects_iff xs ys = (shared_member xs ys, λ (a, m, n). member_shared a xs ys m n)

strip-lower_test : lower (strip (codes "  PhD\n")) ≡ codes "phd"
unfolding lower strip
strip-lower_test = refl
