-- ===== src/Taxonomy/Codes.antt =====
-- The tables of the taxonomy: a canonical code resolves to itself.
use edufurthersf_be.Prelude.{
  ◌≡◌, refl, ap, sym, ◌∙◌, Bool, true, false, not, List, [], ◌∷◌, arith, all, Result, ok, raise,
  ok-injective, check_passed, value_error,
}
use edufurthersf_be.Prelude.Text.{Text, lookup, keys, mem, text_eq, eq_of_text_eq}
use edufurthersf_be.Taxonomy.{
  Taxonomy, has_key, get_or, fold, degree, field, taxonomy, funding_type, lookup_code,
}

-- The resolver returns this very code for it.
abbrev resolves_to_self : (Text → Result Text) → Text → Bool
resolves_to_self resolver code = elim (resolver code) [ ok c ↦ text_eq c code | raise e ↦ false ]

fields_fixed : all (resolves_to_self (field taxonomy)) (keys taxonomy.fields) ≡ true
unfolding field taxonomy fold lookup keys text_eq
fields_fixed = refl

degrees_fixed : all (resolves_to_self (degree taxonomy)) (keys taxonomy.degrees) ≡ true
unfolding degree taxonomy fold lookup keys text_eq
degrees_fixed = refl

all-mem :
    (p : Text → Bool) (a : Text) (xs : List Text) → all p xs ≡ true → mem a xs ≡ true → p a ≡ true
unfolding mem
all-mem p a [] h m = cc
all-mem p a (x ∷ xs) h m = ground (arith, all-mem p a xs, eq_of_text_eq x a)

mem-keys : (k : Text) (d : List (Text × Text)) → has_key k d ≡ true → mem k (keys d) ≡ true
unfolding lookup keys mem
mem-keys k [] h = cc
mem-keys k ((j, v) ∷ d) h = ground (arith, mem-keys k d)

resolves_to_self_lem :
    (resolver : Text → Result Text) (code : Text)
    → resolves_to_self resolver code ≡ true
    → resolver code ≡ ok code
resolves_to_self_lem resolver code h = go (resolver code) refl h
  where
    go :
        (r : Result Text)
        → resolver code ≡ r
        → elim r [ ok c ↦ text_eq c code | raise e ↦ false ] ≡ true
        → resolver code ≡ ok code
    go (ok c) e t = e ∙ ap ok (eq_of_text_eq c code t)
    go (raise x) e t = cc

pub not-eq-false : (b : Bool) → not b ≡ false → b ≡ true
not-eq-false true h = refl
not-eq-false false h = cc

-- A code that a resolver returns is a key of its table.
pub field-has_key :
    (self : Taxonomy) (value code : Text)
    → field self value ≡ ok code
    → has_key code self.fields ≡ true
unfolding field
field-has_key self value code h =
    let c = get_or (fold value) (fold value) self.field_aliases in
    let (f, r) =
      check_passed (not (has_key c self.fields)) (value_error "Unsupported field") (ok c) h in
    ap (λ k. has_key k self.fields) (sym (ok-injective r)) ∙ not-eq-false (has_key c self.fields) f

pub degree-has_key :
    (self : Taxonomy) (value code : Text)
    → degree self value ≡ ok code
    → has_key code self.degrees ≡ true
unfolding degree
degree-has_key self value code h =
    let c = get_or (fold value) (fold value) self.degree_aliases in
    let (f, r) =
      check_passed (not (has_key c self.degrees)) (value_error "Unsupported degree level") (ok c)
        h in
    ap (λ k. has_key k self.degrees) (sym (ok-injective r))
    ∙ not-eq-false (has_key c self.degrees) f

-- A canonical code resolves to itself: no alias and no folding leads away from it.
pub field_fixed :
    (value code : Text) → field taxonomy value ≡ ok code → field taxonomy code ≡ ok code
field_fixed value code h = resolves_to_self_lem (field taxonomy) code (
    all-mem _ code (keys taxonomy.fields) fields_fixed
      (mem-keys code taxonomy.fields (field-has_key taxonomy value code h)))

pub degree_fixed :
    (value code : Text) → degree taxonomy value ≡ ok code → degree taxonomy code ≡ ok code
degree_fixed value code h = resolves_to_self_lem (degree taxonomy) code (
    all-mem _ code (keys taxonomy.degrees) degrees_fixed
      (mem-keys code taxonomy.degrees (degree-has_key taxonomy value code h)))

funding_types_fixed :
    all (resolves_to_self (funding_type taxonomy)) (keys taxonomy.funding_types) ≡ true
unfolding lookup_code taxonomy fold lookup keys text_eq
funding_types_fixed = refl

pub funding_type-has_key :
    (value code : Text)
    → funding_type taxonomy value ≡ ok code
    → has_key code taxonomy.funding_types ≡ true
unfolding lookup_code
funding_type-has_key value code h =
    let c = fold value in
    let table = taxonomy.funding_types in
    let (f, r) =
      check_passed (not (has_key c table)) (value_error "Unsupported funding type") (ok c) h in
    ap (λ k. has_key k table) (sym (ok-injective r)) ∙ not-eq-false (has_key c table) f

pub funding_type_fixed :
    (value code : Text)
    → funding_type taxonomy value ≡ ok code
    → funding_type taxonomy code ≡ ok code
funding_type_fixed value code h = resolves_to_self_lem (funding_type taxonomy) code (
    all-mem _ code (keys taxonomy.funding_types) funding_types_fixed
      (mem-keys code taxonomy.funding_types (funding_type-has_key value code h)))
