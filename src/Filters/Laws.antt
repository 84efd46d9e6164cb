-- ===== src/Filters/Laws.antt =====
-- How the requested countries are split into covered and uncovered ones.
use edufurthersf_be.Prelude.{
  ◌≡◌, refl, ap, ◌∙◌, inl, inr, Bool, true, not, ◌&&◌, Option, List, [], ◌∷◌, arith, keep, truthy,
  ok, ok-injective, Result-cases, check_passed, map_result, subst,
}
use edufurthersf_be.Prelude.Text.{Text, mem, eq_of_text_eq}
use edufurthersf_be.Prelude.SortedSet.{sorted_set, mem-sorted_set}
use edufurthersf_be.Taxonomy.{taxonomy, degree}
use edufurthersf_be.Taxonomy.Codes.{not-eq-false}
use edufurthersf_be.Countries.{CountryVocabulary, origin}
use edufurthersf_be.Filters.{
  SearchFilters, vocabulary_or_seed, optional_field, normalize_search_filters,
}

-- Which of the requested codes are covered, and which are not.
pub record IsSplit (requested destinations : List Text) (filters : SearchFilters) : Type 0 where
  pub covers : (c : Text) → mem c filters.covered ≡ (mem c requested && mem c destinations)
  pub rest : (c : Text) → mem c filters.uncovered ≡ (mem c requested && not (mem c destinations))
  pub leveled : truthy filters.degrees ≡ true

pub mem-keep : (p : Text → Bool) (a : Text) (xs : List Text) → mem a (keep p xs) ≡ (mem a xs && p a)
unfolding mem
mem-keep p a [] = refl
mem-keep p a (x ∷ xs) = ground (arith, mem-keep p a xs, eq_of_text_eq x a)

split_covered :
    (destinations codes : List Text) (c : Text)
    → mem c (keep (λ code. mem code destinations) (sorted_set codes))
      ≡ (mem c codes && mem c destinations)
split_covered destinations codes c =
    mem-keep (λ code. mem code destinations) c (sorted_set codes)
    ∙ ap (λ b. b && mem c destinations) (mem-sorted_set c codes)

split_uncovered :
    (destinations codes : List Text) (c : Text)
    → let covered = keep (λ code. mem code destinations) (sorted_set codes) in
      mem c (keep (λ code. not (mem code covered)) (sorted_set codes))
      ≡ (mem c codes && not (mem c destinations))
split_uncovered destinations codes c =
    let covered = keep (λ code. mem code destinations) (sorted_set codes) in
    ground (
      arith,
      mem-keep (λ code. not (mem code covered)) c (sorted_set codes),
      mem-sorted_set c codes,
      split_covered destinations codes c,
    )

-- Filters that are accepted hold at least one level, and split the normalised target countries:
-- those with coverage are searched, and exactly the others are reported as not covered.
pub covered_or_reported :
    (origin_country : Text) (targets levels : List Text) (field_name : Option Text)
    (countries : Option CountryVocabulary) (filters : SearchFilters)
    → normalize_search_filters origin_country targets levels field_name countries ≡ ok filters
    → (requested : List Text) × (map_result (origin (vocabulary_or_seed countries)) targets
        ≡ ok requested)
      × IsSplit requested (vocabulary_or_seed countries).destinations filters
unfolding normalize_search_filters
covered_or_reported origin_country targets levels field_name countries filters h =
    let v : CountryVocabulary = vocabulary_or_seed countries in
    elim (Result-cases (origin v origin_country)) [
      | inr (e, a) ↦ cc
      | inl (o, a) ↦ elim (Result-cases (map_result (origin v) targets)) [
        | inr (e, b) ↦ absurd (cc (rw (a, b) at h))
        | inl (codes, b) ↦ elim (Result-cases (optional_field field_name)) [
          | inr (e, c) ↦ absurd (cc (rw (a, b, c) at h))
          | inl (f, c) ↦ elim (Result-cases (map_result (degree taxonomy) levels)) [
            | inr (e, d) ↦ absurd (cc (rw (a, b, c, d) at h))
            | inl (ds, d) ↦
                let (nonempty, r) =
                  check_passed (not (truthy (sorted_set ds))) _ _ (rw (a, b, c, d) at h) in
                (
                  codes,
                  b,
                  subst (IsSplit codes v.destinations) (ok-injective r) (record {
                    covers = split_covered v.destinations codes;
                    rest = split_uncovered v.destinations codes;
                    leveled = not-eq-false (truthy (sorted_set ds)) nonempty;
                  }),
                )
          ]
        ]
      ]
    ]
