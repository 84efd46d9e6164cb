-- ===== src/Prelude/Errors.antt =====
-- Python exceptions as values: the exception classes that the code raises
-- (`transport_error` for `httpx.HTTPError`, `integrity_error` for a
-- violated constraint), and `do` blocks.
use Prim.Native.String.{String}
use mathlib.Core.Path.{◌≡◌, refl, ap}
use mathlib.Core.Logic.{◌⊎◌, inl, inr}
use mathlib.Core.Bool.{Bool, true, false}
use mathlib.Core.List.{List, [], ◌∷◌}

pub data Error : Type 0 where
  value_error lookup_error transport_error integrity_error : String → Error

pub data Result {ℓ} (A : Type ℓ) : Type ℓ where
  raise : Error → Result A
  ok : A → Result A

abbrev pub result_or {ℓ} : {A : Type ℓ} → A → Result A → A
result_or d (raise e) = d
result_or d (ok a) = a

pub ok-injective {ℓ} : {A : Type ℓ} {a b : A} → ok a ≡ ok b → a ≡ b
ok-injective {a = a} p = ap (result_or a) p

module _ {ℓ} {B : Type ℓ} where
  abbrev pub cons_result : Result B → Result (List B) → Result (List B)
  cons_result (raise e) rest = raise e
  cons_result (ok y) (raise e) = raise e
  cons_result (ok y) (ok ys) = ok (y ∷ ys)

module _ {ℓ κ} {A : Type ℓ} {B : Type κ} where
  infixl 5 ◌>>=◌
  abbrev pub ◌>>=◌ : Result A → (A → Result B) → Result B
  r >>= f = elim r [ raise e ↦ raise e | ok a ↦ f a ]

  -- A block that returned had a first step that returned.
  pub bind_returned :
      (r : Result A) (f : A → Result B) {b : B}
      → (r >>= f) ≡ ok b
      → (first : A) × (r ≡ ok first) × (f first ≡ ok b)
  bind_returned (raise e) f p = cc
  bind_returned (ok a) f p = (a, refl, p)

  -- `[f(x) for x in xs]` where a call may raise.
  abbrev pub map_result : (A → Result B) → List A → Result (List B)
  map_result f [] = ok []
  map_result f (x ∷ xs) = cons_result (f x) (map_result f xs)

infixl 5 ◌>>◌
abbrev pub ◌>>◌ {ℓ} : {B : Type ℓ} → Result (Unit {0}) → Result B → Result B
check >> rest = check >>= λ done. rest

-- `if test: raise error`.
abbrev pub raise_if : Bool → Error → Result (Unit {0})
raise_if true e = raise e
raise_if false e = ok tt

-- A check before a result: if the block returned, the check passed.
pub check_passed {ℓ} :
    {A : Type ℓ} (failed : Bool) (e : Error) (r : Result A) {a : A}
    → (raise_if failed e >> r) ≡ ok a
    → (failed ≡ false) × (r ≡ ok a)
check_passed true e r p = cc
check_passed false e r p = (refl, p)

pub Result-cases {ℓ} :
    {A : Type ℓ} (r : Result A) → ((a : A) × (r ≡ ok a)) ⊎ ((e : Error) × (r ≡ raise e))
Result-cases (ok a) = inl (a, refl)
Result-cases (raise e) = inr (e, refl)

-- A list that was returned has a head and a tail that were returned.
pub cons_returned {ℓ} :
    {B : Type ℓ} (r : Result B) (rest : Result (List B)) {all : List B}
    → cons_result r rest ≡ ok all
    → (y : B) × (ys : List B) × (r ≡ ok y) × (rest ≡ ok ys) × (y ∷ ys ≡ all)
cons_returned (raise e) rest p = cc
cons_returned (ok y) (raise e) p = cc
cons_returned (ok y) (ok ys) p = (y, ys, refl, refl, ok-injective p)
