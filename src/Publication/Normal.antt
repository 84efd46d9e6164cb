-- ===== src/Publication/Normal.antt =====
-- The parts of a validated cycle, read again.
use edufurthersf_be.Prelude.{
  ℕ, ◌≡◌, ◌≤◌, refl, ap, subst, true, not, ◌&&◌, Option, none, some, List, [], ◌∷◌, arith, truthy,
  All, Result, ok, ok-injective, bind_returned, check_passed, map_result, cons_returned,
  value_error,
}
use edufurthersf_be.Prelude.Text.{Text, codes, mem, text_eq_refl, eq_of_text_eq}
use edufurthersf_be.Prelude.SortedSet.{sorted_set, sorted_set_idem}
use edufurthersf_be.Zones.{ZoneLookup}
use edufurthersf_be.Json.{null, str}
use edufurthersf_be.Taxonomy.{
  taxonomy, degree, field, funding_type, normalize_fields, normalize_degrees,
}
use edufurthersf_be.Taxonomy.Codes.{field_fixed, degree_fixed, funding_type_fixed}
use edufurthersf_be.Taxonomy.Canonical.{IsFixed, normalize_codes_fixed}
use edufurthersf_be.Countries.{CountryVocabulary, origin, destination}
use edufurthersf_be.Facts.{
  clamp_mode, read_month, read_funding, read_note, some_text, some_month, accepted,
}
use edufurthersf_be.Facts.Parts.{value_or}
use edufurthersf_be.Facts.Contract.{AtSome}
use edufurthersf_be.Publication.{
  CycleInputs, Normalized, nonempty, published_funding, is_restricted, bad_zone, normalized,
}

pub clamped :
    (first second s : Text)
    → mem s (first ∷ second ∷ codes "unknown" ∷ []) ≡ true
    → clamp_mode first second (str s) ≡ s
unfolding clamp_mode mem
clamped first second s h = ground (
  arith,
  eq_of_text_eq first s,
  eq_of_text_eq second s,
  eq_of_text_eq (codes "unknown") s,
  text_eq_refl s,
)

pub month_kept :
    (m : Option ℕ)
    → AtSome (λ n. (1 ≤ n) × (n ≤ 12)) m
    → read_month (value_or null (some_month m)) ≡ m
unfolding read_month
month_kept none h = refl
month_kept (some n) h = ground arith

pub note_kept :
    (note : Option Text) → read_note (value_or null (some_text (nonempty note))) ≡ nonempty note
unfolding read_note
note_kept none = refl
note_kept (some []) = refl
note_kept (some (c ∷ s)) = refl

funding_code :
    (s code : Text) → funding_type taxonomy s ≡ ok code → read_funding (str code) ≡ some code
unfolding read_funding
funding_code s code e = ap accepted (funding_type_fixed s code e)

no_funding : read_funding null ≡ none
unfolding read_funding
no_funding = refl

funding_kept :
    (given n : Option Text)
    → published_funding given ≡ ok n
    → read_funding (value_or null (some_text n)) ≡ n
unfolding published_funding
funding_kept none n h =
    subst (λ o. read_funding (value_or null (some_text o)) ≡ o) (ok-injective h) no_funding
funding_kept (some []) n h =
    subst (λ o. read_funding (value_or null (some_text o)) ≡ o) (ok-injective h) no_funding
funding_kept (some (c ∷ s)) n h =
    let (code, e, f) = bind_returned (funding_type taxonomy (c ∷ s)) (λ code. ok (some code)) h in
    subst (λ o. read_funding (value_or null (some_text o)) ≡ o) (ok-injective f)
      (funding_code (c ∷ s) code e)

module _ (f : Text → Result Text) (P : Text → Type 0)
    (returns : (value code : Text) → f value ≡ ok code → P code) where
  pub All-map_result :
      (values : List Text) {codes : List Text} → map_result f values ≡ ok codes → All P codes
  All-map_result [] h = subst (All P) (ok-injective h) tt
  All-map_result (v ∷ vs) h =
      let (c, cs, e, r, same) = cons_returned (f v) (map_result f vs) h in
      subst (All P) same (returns v c e, All-map_result vs r)

-- What the parts of a validated cycle have in common with a reading: they are normal.
pub record IsNormal (cycle : CycleInputs) (n : Normalized) : Type 0 where
  pub destinations : sorted_set n.destinations ≡ n.destinations
  pub levels : (normalize_degrees taxonomy n.levels).0 ≡ n.levels
  pub fields : (normalize_fields taxonomy n.fields).0 ≡ n.fields
  pub funded : read_funding (value_or null (some_text n.funding)) ≡ n.funding

module _ (zone_info : Text → ZoneLookup) (countries : CountryVocabulary) where
  pub normalized-IsNormal :
      (cycle : CycleInputs) (n : Normalized)
      → normalized zone_info countries cycle ≡ ok n
      → IsNormal cycle n
  unfolding normalized
  normalized-IsNormal cycle n h =
      let (ds, e1, h1) =
        bind_returned (map_result (destination countries) cycle.destinations) _ h in
      let (c1, h2) =
        check_passed (not (truthy (sorted_set ds)))
          (value_error "At least one destination is required") _ h1 in
      let (ls, e2, h3) = bind_returned (map_result (degree taxonomy) cycle.levels) _ h2 in
      let (c2, h4) =
        check_passed (not (truthy (sorted_set ls)))
          (value_error "At least one degree level is required") _ h3 in
      let (os, e3, h5) = bind_returned (map_result (origin countries) cycle.origins) _ h4 in
      let (c3, h6) =
        check_passed (is_restricted cycle.origin_mode && not (truthy (sorted_set os)))
          (value_error "origin_mode 'restricted' requires at least one origin") _ h5 in
      let (fs, e4, h7) = bind_returned (map_result (field taxonomy) cycle.fields) _ h6 in
      let (c4, h8) =
        check_passed (is_restricted cycle.field_mode && not (truthy (sorted_set fs)))
          (value_error "field_mode 'restricted' requires at least one field") _ h7 in
      let (c5, h9) =
        check_passed (bad_zone zone_info countries cycle.deadline_timezone)
          (value_error "Unknown deadline_timezone") _ h8 in
      let (funding, e5, h10) = bind_returned (published_funding cycle.funding) _ h9 in
      let same = ok-injective h10 in
      subst (IsNormal cycle) same (record {
        destinations = sorted_set_idem ds;
        levels = normalize_codes_fixed (degree taxonomy) ls (
            All-map_result (degree taxonomy) (IsFixed (degree taxonomy)) degree_fixed cycle.levels
              e2);
        fields = normalize_codes_fixed (field taxonomy) fs (
            All-map_result (field taxonomy) (IsFixed (field taxonomy)) field_fixed cycle.fields e4);
        funded = funding_kept cycle.funding funding e5;
      })
