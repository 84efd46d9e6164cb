-- ===== src/Taxonomy/Canonical.antt =====
-- The codes that normalisation ends in.
use edufurthersf_be.Prelude.{
  ◌≡◌, refl, ap, sym, ◌∙◌, true, List, [], ◌∷◌, arith, Result, ok, raise, Bool-cases, inl, inr, All,
  ap₂, Result-cases, ◌↔◌,
}
use edufurthersf_be.Prelude.Text.{Text, mem, text_eq, text_eq_refl, eq_of_text_eq}
use edufurthersf_be.Prelude.SortedSet.{sorted_set, sorted_set_idem, All-sorted_set, mem-sorted_set}
use edufurthersf_be.Taxonomy.{
  Taxonomy, degree, field, resolved, unresolved, add_canonical, normalize_codes, normalize_fields,
  normalize_degrees, taxonomy,
}
use edufurthersf_be.Taxonomy.Codes.{field_fixed, degree_fixed}

sorted_set_nil : sorted_set [] ≡ []
unfolding sorted_set
sorted_set_nil = refl

module _ (resolver : Text → Result Text) where
  abbrev pub IsFixed : Text → Type 0
  IsFixed code = resolver code ≡ ok code

  resolved_fixed : (codes : List Text) → All IsFixed codes → resolved resolver codes ≡ codes
  unfolding resolved
  resolved_fixed [] h = refl
  resolved_fixed (c ∷ cs) h = rw h.0 (ap (λ r. c ∷ r) (resolved_fixed cs h.1))

  unresolved_fixed : (codes : List Text) → All IsFixed codes → unresolved resolver codes ≡ []
  unfolding unresolved
  unresolved_fixed [] h = refl
  unresolved_fixed (c ∷ cs) h = rw h.0 (unresolved_fixed cs h.1)

  mem-resolved :
      (values : List Text) (code : Text)
      → mem code (resolved resolver values) ≡ true
      → (value : Text) × (mem value values ≡ true) × (resolver value ≡ ok code)
  unfolding resolved mem
  mem-resolved [] code h = cc
  mem-resolved (v ∷ vs) code h = elim (Result-cases (resolver v)) [
    | inl (c, e) ↦ elim (Bool-cases (text_eq c code)) [
      | inl y ↦ (v, rw (text_eq_refl v), e ∙ ap ok (eq_of_text_eq c code y))
      | inr n ↦ let (w, m, f) = mem-resolved vs code (rw (e, n) at h) in (w, ground arith, f)
    ]
    | inr (x, e) ↦ let (w, m, f) = mem-resolved vs code (rw e at h) in (w, ground arith, f)
  ]

  resolved-mem :
      (values : List Text) (value code : Text)
      → mem value values ≡ true
      → resolver value ≡ ok code
      → mem code (resolved resolver values) ≡ true
  unfolding resolved mem
  resolved-mem [] value code m e = cc
  resolved-mem (v ∷ vs) value code m e = elim (Bool-cases (text_eq v value)) [
    | inl y ↦
        let same : resolver v ≡ ok code = ap resolver (eq_of_text_eq v value y) ∙ e in
        rw (same, text_eq_refl code)
    | inr n ↦ kept (resolver v) (resolved-mem vs value code (rw n at m) e)
  ]
    where
      kept :
          (r : Result Text)
          → mem code (resolved resolver vs) ≡ true
          → mem code (add_canonical r (resolved resolver vs)) ≡ true
      kept (ok c) k = ground arith
      kept (raise x) k = k

  -- A code comes out exactly if some value resolves to it.
  normalize_codes_exact :
      (values : List Text) (code : Text)
      → (mem code (normalize_codes resolver values).0 ≡ true)
        ↔ ((value : Text) × (mem value values ≡ true) × (resolver value ≡ ok code))
  unfolding normalize_codes
  normalize_codes_exact values code = (
    λ h. mem-resolved values code (sym (mem-sorted_set code (resolved resolver values)) ∙ h),
    λ (v, m, e). mem-sorted_set code (resolved resolver values) ∙ resolved-mem values v code m e,
  )

  resolved-IsFixed :
      ((value code : Text) → resolver value ≡ ok code → IsFixed code)
      → (values : List Text) → All IsFixed (resolved resolver values)
  unfolding resolved
  resolved-IsFixed fixed [] = tt
  resolved-IsFixed fixed (v ∷ vs) = add (resolver v) refl (resolved-IsFixed fixed vs)
    where
      add :
          (r : Result Text)
          → resolver v ≡ r
          → All IsFixed (resolved resolver vs)
          → All IsFixed (add_canonical r (resolved resolver vs))
      add (ok c) e h = (fixed v c e, h)
      add (raise x) e h = h

  -- Codes that are normal already stay as they are, and none of them is unmapped.
  normalize_codes_idem :
      ((value code : Text) → resolver value ≡ ok code → IsFixed code)
      → (values : List Text)
      → normalize_codes resolver (normalize_codes resolver values).0
        ≡ ((normalize_codes resolver values).0, [])
  unfolding normalize_codes
  normalize_codes_idem fixed values =
      let codes = sorted_set (resolved resolver values) in
      let h = All-sorted_set IsFixed (resolved resolver values) (resolved-IsFixed fixed values) in
      rw (resolved_fixed codes h, unresolved_fixed codes h)
        (ap₂ (λ a b. (a, b)) (sorted_set_idem (resolved resolver values)) sorted_set_nil)

  -- A sorted set of codes that are fixed is normal.
  pub normalize_codes_fixed :
      (codes : List Text)
      → All IsFixed codes
      → (normalize_codes resolver (sorted_set codes)).0 ≡ sorted_set codes
  unfolding normalize_codes
  normalize_codes_fixed codes h =
      rw (resolved_fixed (sorted_set codes) (All-sorted_set IsFixed codes h))
        (sorted_set_idem codes)

-- Normalising the fields or the levels of a record twice gives what normalising once gives, and
-- leaves nothing unmapped the second time.
pub normalize_idem :
    (values : List Text)
    → (normalize_fields taxonomy (normalize_fields taxonomy values).0
        ≡ ((normalize_fields taxonomy values).0, []))
      × (normalize_degrees taxonomy (normalize_degrees taxonomy values).0
          ≡ ((normalize_degrees taxonomy values).0, []))
normalize_idem values = (
  normalize_codes_idem (field taxonomy) field_fixed values,
  normalize_codes_idem (degree taxonomy) degree_fixed values,
)

-- A code is among the normalised fields, or levels, exactly if some given value resolves to it.
pub normalize_exact :
    (self : Taxonomy) (values : List Text) (code : Text)
    → ((mem code (normalize_fields self values).0 ≡ true)
        ↔ ((value : Text) × (mem value values ≡ true) × (field self value ≡ ok code)))
      × ((mem code (normalize_degrees self values).0 ≡ true)
          ↔ ((value : Text) × (mem value values ≡ true) × (degree self value ≡ ok code)))
normalize_exact self values code = (
  normalize_codes_exact (field self) values code,
  normalize_codes_exact (degree self) values code,
)
