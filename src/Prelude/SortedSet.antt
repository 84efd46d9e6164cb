-- ===== src/Prelude/SortedSet.antt =====
-- `sorted({...})` over texts: the sorted list without repetitions. Two such lists with the same
-- members are one list, so it is a normal form for a set of texts.
use mathlib.Core.Path.{◌≡◌, refl, sym, ap, ◌∙◌}
use mathlib.Core.Logic.{inl, inr}
use mathlib.Core.Bool.{true, false, ◌||◌}
use mathlib.Core.List.{List, [], ◌∷◌}
use native.Mathlib.Omega.{arith}
use edufurthersf_be.Prelude.Tests.{if◌then◌else◌, Bool-cases}
use edufurthersf_be.Prelude.Lists.{All}
use edufurthersf_be.Prelude.Text.{
  Text, text_eq, text_eq_refl, eq_of_text_eq, text_ltb, text_ltb_irrefl, text_ltb_trans,
  text_ltb_total, mem,
}

insert : Text → List Text → List Text
insert a [] = a ∷ []
insert a (x ∷ xs) =
    let deeper = insert a xs in
    if text_ltb a x then a ∷ x ∷ xs else if text_ltb x a then x ∷ deeper else x ∷ xs

unfoldable pub sorted_set : List Text → List Text
unfolding insert
sorted_set [] = []
sorted_set (x ∷ xs) = insert x (sorted_set xs)

-- Strictly ascending: each member is below all that follow.
abbrev pub IsAscending : List Text → Type 0
IsAscending [] = Unit
IsAscending (x ∷ xs) = All (λ y. text_ltb x y ≡ true) xs × IsAscending xs

mem-insert : (a b : Text) (xs : List Text) → mem a (insert b xs) ≡ (text_eq b a || mem a xs)
unfolding insert mem
mem-insert a b [] = refl
mem-insert a b (x ∷ xs) = ground (arith, mem-insert a b xs, text_ltb_total b x)

pub mem-sorted_set : (a : Text) (xs : List Text) → mem a (sorted_set xs) ≡ mem a xs
unfolding sorted_set mem
mem-sorted_set a [] = refl
mem-sorted_set a (x ∷ xs) =
    mem-insert a x (sorted_set xs) ∙ ap (λ r. text_eq x a || r) (mem-sorted_set a xs)

above-insert :
    (y a : Text) (xs : List Text)
    → text_ltb y a ≡ true
    → All (λ z. text_ltb y z ≡ true) xs
    → All (λ z. text_ltb y z ≡ true) (insert a xs)
unfolding insert
above-insert y a [] h k = (h, tt)
above-insert y a (x ∷ xs) h k = ground (arith, above-insert y a xs)

above_trans :
    (a x : Text) (xs : List Text)
    → text_ltb a x ≡ true
    → All (λ z. text_ltb x z ≡ true) xs
    → All (λ z. text_ltb a z ≡ true) xs
above_trans a x [] h k = tt
above_trans a x (z ∷ zs) h k = (text_ltb_trans a x z h k.0, above_trans a x zs h k.1)

insert-IsAscending : (a : Text) (xs : List Text) → IsAscending xs → IsAscending (insert a xs)
unfolding insert
insert-IsAscending a [] h = (tt, tt)
insert-IsAscending a (x ∷ xs) h =
    ground (arith, insert-IsAscending a xs, above-insert x a xs, above_trans a x xs)

pub sorted_set-IsAscending : (xs : List Text) → IsAscending (sorted_set xs)
unfolding sorted_set
sorted_set-IsAscending [] = tt
sorted_set-IsAscending (x ∷ xs) = insert-IsAscending x (sorted_set xs) (sorted_set-IsAscending xs)

insert-above :
    (a : Text) (xs : List Text) → All (λ z. text_ltb a z ≡ true) xs → insert a xs ≡ a ∷ xs
unfolding insert
insert-above a [] h = refl
insert-above a (x ∷ xs) h = rw h.0

-- A list that is sorted already stays as it is.
pub sorted_set_fixed : (xs : List Text) → IsAscending xs → sorted_set xs ≡ xs
unfolding sorted_set
sorted_set_fixed [] h = refl
sorted_set_fixed (x ∷ xs) h = rw (sorted_set_fixed xs h.1) (insert-above x xs h.0)

pub sorted_set_idem : (xs : List Text) → sorted_set (sorted_set xs) ≡ sorted_set xs
sorted_set_idem xs = sorted_set_fixed (sorted_set xs) (sorted_set-IsAscending xs)

mem-above : (a : Text) (xs : List Text) → All (λ z. text_ltb a z ≡ true) xs → mem a xs ≡ false
unfolding mem
mem-above a [] h = refl
mem-above a (x ∷ xs) h = ground (arith, mem-above a xs, eq_of_text_eq x a, text_ltb_irrefl a)

-- A member that stands at the head of one list cannot be missing in front of the other.
not_below :
    (x y : Text) (ys : List Text)
    → mem x (y ∷ ys) ≡ true
    → All (λ z. text_ltb y z ≡ true) ys
    → text_ltb x y ≡ false
not_below x y ys m h = elim (Bool-cases (text_ltb x y)) [
  | inl e ↦ cc (m, mem-above x (y ∷ ys) (e, above_trans x y ys e h))
  | inr e ↦ e
]

tails_agree :
    (x a : Text) (xs ys : List Text)
    → mem a (x ∷ xs) ≡ mem a (x ∷ ys)
    → All (λ z. text_ltb x z ≡ true) xs
    → All (λ z. text_ltb x z ≡ true) ys
    → mem a xs ≡ mem a ys
unfolding mem
tails_agree x a xs ys e h k = ground (arith, eq_of_text_eq x a, mem-above x xs h, mem-above x ys k)

mem_head : (x : Text) (xs : List Text) → mem x (x ∷ xs) ≡ true
unfolding mem
mem_head x xs = rw (text_eq_refl x)

mem_nil : (a : Text) → mem a [] ≡ false
unfolding mem
mem_nil a = refl

-- Two ascending lists with the same members are one list.
pub IsAscending-unique :
    (xs ys : List Text)
    → IsAscending xs
    → IsAscending ys
    → ((a : Text) → mem a xs ≡ mem a ys)
    → xs ≡ ys
IsAscending-unique [] [] h k same = refl
IsAscending-unique [] (y ∷ ys) h k same = cc (same y, mem_head y ys, mem_nil y)
IsAscending-unique (x ∷ xs) [] h k same = cc (same x, mem_head x xs, mem_nil x)
IsAscending-unique (x ∷ xs) (y ∷ ys) h k same =
    let heads : x ≡ y =
      text_ltb_total x y (not_below x y ys (sym (same x) ∙ mem_head x xs) k.0)
        (not_below y x xs (same y ∙ mem_head y ys) h.0) in
    let above : All (λ z. text_ltb x z ≡ true) ys = rw heads k.0 in
    let tails : xs ≡ ys =
      IsAscending-unique xs ys h.1 k.1
        (λ a. tails_agree x a xs ys (same a ∙ ap (λ w. mem a (w ∷ ys)) (sym heads)) h.0 above) in
    cc

-- `sorted({...})` depends only on the set of its members.
pub sorted_set_unique :
    (xs ys : List Text) → ((a : Text) → mem a xs ≡ mem a ys) → sorted_set xs ≡ sorted_set ys
sorted_set_unique xs ys same =
    IsAscending-unique (sorted_set xs) (sorted_set ys) (sorted_set-IsAscending xs)
      (sorted_set-IsAscending ys) (λ a. mem-sorted_set a xs ∙ same a ∙ sym (mem-sorted_set a ys))

module _ (P : Text → Type 0) where
  All-insert : (a : Text) (xs : List Text) → P a → All P xs → All P (insert a xs)
  unfolding insert
  All-insert a [] p h = (p, tt)
  All-insert a (x ∷ xs) p h = ground (arith, All-insert a xs)

  pub All-sorted_set : (xs : List Text) → All P xs → All P (sorted_set xs)
  unfolding sorted_set
  All-sorted_set [] h = h
  All-sorted_set (x ∷ xs) h = All-insert x (sorted_set xs) h.0 (All-sorted_set xs h.1)
