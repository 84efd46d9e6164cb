-- ===== src/Prelude/Lists.antt =====
-- Lists measured by native numbers, tests over lists, and the predicate `All`.
use Prim.Native.Nat.{ℕ, zero, suc, ◌+◌, ◌≤◌}
use mathlib.Core.Path.{◌≡◌, refl, ap, ap₂, subst}
use mathlib.Core.Logic.{◌≢◌, ◌⊎◌, inl, inr}
use mathlib.Core.Bool.{Bool, true, false, ◌&&◌, ◌||◌}
use mathlib.Core.Option.{Option, none, some, some-injective}
use mathlib.Core.List.{List, [], ◌∷◌, ◌++◌, map}
use native.Mathlib.Omega.{arith}
use edufurthersf_be.Prelude.Tests.{if◌then◌else◌, Bool-cases}

module _ {ℓ} {A : Type ℓ} where
  abbrev pub length : List A → ℕ
  length [] = 0
  length (x ∷ xs) = suc (length xs)

  abbrev pub take : ℕ → List A → List A
  take zero xs = []
  take (suc n) [] = []
  take (suc n) (x ∷ xs) = x ∷ take n xs

  -- `any(test(x) for x in xs)` and `all(...)`.
  abbrev pub any : (A → Bool) → List A → Bool
  any p [] = false
  any p (x ∷ xs) = p x || any p xs

  abbrev pub all : (A → Bool) → List A → Bool
  all p [] = true
  all p (x ∷ xs) = p x && all p xs

  -- `[x for x in xs if test(x)]`.
  abbrev pub keep : (A → Bool) → List A → List A
  keep p [] = []
  keep p (x ∷ xs) = let rest = keep p xs in if p x then x ∷ rest else rest

  -- The first row that passes a test.
  abbrev pub find : (A → Bool) → List A → Option A
  find p [] = none
  find p (x ∷ xs) = if p x then some x else find p xs

  -- An empty list is false.
  abbrev pub truthy : List A → Bool
  truthy [] = false
  truthy (x ∷ xs) = true

  pub length-append : (xs ys : List A) → length (xs ++ ys) ≡ length xs + length ys
  length-append [] ys = omega arith
  length-append (x ∷ xs) ys = omega (arith, length-append xs ys)

  pub length-keep-le : (p : A → Bool) (xs : List A) → length (keep p xs) ≤ length xs
  length-keep-le p [] = omega arith
  length-keep-le p (x ∷ xs) = ground (arith, length-keep-le p xs)

  pub length-take-le : (n : ℕ) (xs : List A) → length (take n xs) ≤ n
  length-take-le zero xs = omega arith
  length-take-le (suc n) [] = omega arith
  length-take-le (suc n) (x ∷ xs) = omega (arith, length-take-le n xs)

  -- A page that is large enough holds everything.
  pub take_all : (n : ℕ) (xs : List A) → length xs ≤ n → take n xs ≡ xs
  take_all zero [] h = refl
  take_all zero (x ∷ xs) h = absurd (omega arith)
  take_all (suc n) [] h = refl
  take_all (suc n) (x ∷ xs) h = ap (λ r. x ∷ r) (take_all n xs (omega arith))

module _ {A : Type 0} where
  -- Membership as a sum that computes.
  abbrev pub In : A → List A → Type 0
  In a [] = ⊥
  In a (x ∷ xs) = (x ≡ a) ⊎ In a xs

  pub In-keep : (p : A → Bool) (a : A) (xs : List A) → In a xs → p a ≡ true → In a (keep p xs)
  In-keep p a [] m h = m
  In-keep p a (x ∷ xs) m h = ground (arith, In-keep p a xs)

  pub keep-In : (p : A → Bool) (a : A) (xs : List A) → In a (keep p xs) → In a xs × (p a ≡ true)
  keep-In p a [] m = absurd m
  keep-In p a (x ∷ xs) m = ground (arith, keep-In p a xs)

  pub take-In : (n : ℕ) (a : A) (xs : List A) → In a (take n xs) → In a xs
  take-In zero a xs m = absurd m
  take-In (suc n) a [] m = absurd m
  take-In (suc n) a (x ∷ xs) m = ground (arith, take-In n a xs)

  pub any-In : (p : A → Bool) (xs : List A) → any p xs ≡ true → (a : A) × In a xs × (p a ≡ true)
  any-In p [] h = cc
  any-In p (x ∷ xs) h = elim (Bool-cases (p x)) [
    | inl e ↦ (x, inl refl, e)
    | inr e ↦ let (a, m, k) = any-In p xs (rw e at h) in (a, inr m, k)
  ]

  pub In-any : (p : A → Bool) (a : A) (xs : List A) → In a xs → p a ≡ true → any p xs ≡ true
  In-any p a [] m h = absurd m
  In-any p a (x ∷ xs) m h = ground (arith, In-any p a xs)

module _ {A : Type 0} where
  -- What `find` returns is a member that passes the test.
  pub find-In : (p : A → Bool) (xs : List A) {a : A} → find p xs ≡ some a → In a xs × (p a ≡ true)
  find-In p [] e = cc
  find-In p (x ∷ xs) {a} e = elim (Bool-cases (p x)) [
    | inl y ↦
        let same : x ≡ a = some-injective x a (rw y at e) in
        (inl same, subst (λ w. p w ≡ true) same y)
    | inr n ↦ let (m, h) = find-In p xs (rw n at e) in (inr m, h)
  ]

  -- A test that some member passes finds a row.
  pub find-ne-none : (p : A → Bool) (a : A) (xs : List A) → In a xs → p a ≡ true → find p xs ≢ none
  find-ne-none p a [] m h = absurd m
  find-ne-none p a (x ∷ xs) m h = ground (arith, find-ne-none p a xs)

  pub find-append_none :
      (p : A → Bool) (xs ys : List A) → find p xs ≡ none → find p (xs ++ ys) ≡ find p ys
  find-append_none p [] ys h = refl
  find-append_none p (x ∷ xs) ys h = ground (arith, find-append_none p xs ys)

module _ {ℓ κ} {A : Type ℓ} where
  abbrev pub All : (A → Type κ) → List A → Type κ
  All P [] = Unit
  All P (x ∷ xs) = P x × All P xs

  pub All-append : (P : A → Type κ) (xs ys : List A) → All P xs → All P ys → All P (xs ++ ys)
  All-append P [] ys hx hy = hy
  All-append P (x ∷ xs) ys hx hy = (hx.0, All-append P xs ys hx.1 hy)

  pub All-keep : (P : A → Type κ) (p : A → Bool) (xs : List A) → All P xs → All P (keep p xs)
  All-keep P p [] h = h
  All-keep P p (x ∷ xs) h = elim (Bool-cases (p x)) [
    | inl e ↦ rw e (h.0, All-keep P p xs h.1)
    | inr e ↦ rw e (All-keep P p xs h.1)
  ]

  pub All-take : (P : A → Type κ) (n : ℕ) (xs : List A) → All P xs → All P (take n xs)
  All-take P zero xs h = tt
  All-take P (suc n) [] h = h
  All-take P (suc n) (x ∷ xs) h = (h.0, All-take P n xs h.1)

  pub All-map_of : {P Q : A → Type κ} (f : (a : A) → P a → Q a) (xs : List A) → All P xs → All Q xs
  All-map_of f [] h = h
  All-map_of f (x ∷ xs) h = (f x h.0, All-map_of f xs h.1)

module _ {κ} {A : Type 0} where
  pub All-In : (P : A → Type κ) {a : A} (xs : List A) → All P xs → In a xs → P a
  All-In P [] h m = absurd m
  All-In P (x ∷ xs) h (inl e) = subst P e h.0
  All-In P (x ∷ xs) h (inr m) = All-In P xs h.1 m

  pub All-of_In : (P : A → Type κ) (xs : List A) → ((a : A) → In a xs → P a) → All P xs
  All-of_In P [] f = tt
  All-of_In P (x ∷ xs) f = (f x (inl refl), All-of_In P xs (λ a m. f a (inr m)))

module _ {κ} {A : Type 0} {B : Type κ} where
  -- Two functions that agree on the members of a list map it alike.
  pub map-eq_of_In :
      (f g : A → B) (xs : List A) → ((a : A) → In a xs → f a ≡ g a) → map f xs ≡ map g xs
  map-eq_of_In f g [] h = refl
  map-eq_of_In f g (x ∷ xs) h =
      ap₂ (λ y ys. y ∷ ys) (h x (inl refl)) (map-eq_of_In f g xs (λ a m. h a (inr m)))

module _ {ℓ} {A : Type ℓ} where
  pub keep-eq_of_tests :
      (p q : A → Bool) (xs : List A) → ((a : A) → p a ≡ q a) → keep p xs ≡ keep q xs
  keep-eq_of_tests p q [] h = refl
  keep-eq_of_tests p q (x ∷ xs) h = rw (h x, keep-eq_of_tests p q xs h)
