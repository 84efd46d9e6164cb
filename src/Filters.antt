-- ===== src/Filters.antt =====
-- `normalize_search_filters` of src/app/domain/taxonomy.py. A frozenset is the sorted list of its members.
pub mod Laws
use edufurthersf_be.Prelude.{
  Bool, not, Option, none, some, List, [], ◌∷◌, keep, truthy, Result, ok, raise, value_error, ◌>>=◌,
  ◌>>◌, raise_if, map_result,
}
use edufurthersf_be.Prelude.Text.{Text, mem}
use edufurthersf_be.Prelude.SortedSet.{sorted_set}
use edufurthersf_be.Taxonomy.{taxonomy, field, degree}
use edufurthersf_be.Countries.{CountryVocabulary, origin, seed_countries, supported_destinations}

pub record SearchFilters : Type 0 where
  pub origin : Text
  pub covered : List Text
  pub uncovered : List Text
  pub degrees : List Text
  pub normalized_field : Option Text
  pub accepted_fields : Option (List Text)

-- `countries or CountryVocabulary(...)`.
abbrev pub vocabulary_or_seed : Option CountryVocabulary → CountryVocabulary
vocabulary_or_seed none = record { names = seed_countries; destinations = supported_destinations }
vocabulary_or_seed (some countries) = countries

-- `TAXONOMY.field(field) if field else None`.
abbrev pub optional_field : Option Text → Result (Option Text)
optional_field none = ok none
optional_field (some []) = ok none
optional_field (some (c ∷ name)) = do code ← field taxonomy (c ∷ name); ok (some code)

abbrev pub singleton : Option Text → Option (List Text)
singleton none = none
singleton (some code) = some (code ∷ [])

unfoldable pub normalize_search_filters :
    Text → List Text → List Text → Option Text → Option CountryVocabulary → Result SearchFilters
normalize_search_filters origin_country target_countries program_levels field_name countries = do
  let vocabulary = vocabulary_or_seed countries
  origin_code ← origin vocabulary origin_country
  codes ← map_result (origin vocabulary) target_countries
  let requested = sorted_set codes
  let covered = keep (λ code. mem code vocabulary.destinations) requested
  let uncovered = keep (λ code. not (mem code covered)) requested
  normalized_field ← optional_field field_name
  levels ← map_result (degree taxonomy) program_levels
  raise_if (not (truthy (sorted_set levels))) (value_error "At least one program level is required")
  ok (record {
    origin = origin_code;
    covered = covered;
    uncovered = uncovered;
    degrees = sorted_set levels;
    normalized_field = normalized_field;
    accepted_fields = singleton normalized_field;
  })
