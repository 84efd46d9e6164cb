-- ===== src/Taxonomy/Tests.antt =====
-- Runs of the vocabularies, and the theorems about them at concrete inputs.
use edufurthersf_be.Prelude.{◌≡◌, refl, none, some, List, [], ◌∷◌, ok}
use edufurthersf_be.Prelude.Text.{Text, codes, strip, upper, lookup, mem, text_eq, text_ltb}
use edufurthersf_be.Prelude.SortedSet.{sorted_set}
use edufurthersf_be.Taxonomy.{
  taxonomy, field, degree, fold, normalize_codes, normalize_fields, resolved, unresolved,
}
use edufurthersf_be.Countries.{origin}
use edufurthersf_be.Filters.{SearchFilters, normalize_search_filters}

abbrev wordings : List Text
wordings = codes " ICT" ∷ codes "Law" ∷ codes "alchemy" ∷ codes "cs" ∷ []

normalized :
    normalize_fields taxonomy wordings
    ≡ (codes "law" ∷ codes "technology" ∷ [], codes "alchemy" ∷ [])
unfolding normalize_codes taxonomy field fold lookup text_eq resolved unresolved sorted_set text_ltb
normalized = refl

-- Nigeria has no coverage in the seed, Canada has.
abbrev filters : SearchFilters
filters = record {
  origin = codes "NG";
  covered = codes "CA" ∷ [];
  uncovered = codes "NG" ∷ [];
  degrees = codes "doctorate" ∷ [];
  normalized_field = some (codes "technology");
  accepted_fields = some (codes "technology" ∷ []);
}

normalize_run :
    normalize_search_filters
      (codes "ng")
      (codes "ng" ∷ codes " ca" ∷ [])
      (codes "PhD" ∷ [])
      (some (codes "CS"))
      none
    ≡ ok filters
unfolding normalize_search_filters origin degree field taxonomy fold strip upper lookup text_eq
    sorted_set text_ltb mem
normalize_run = refl
