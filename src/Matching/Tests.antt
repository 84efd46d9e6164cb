-- ===== src/Matching/Tests.antt =====
-- A search at concrete inputs, and the theorems about it.
use edufurthersf_be.Prelude.{◌≡◌, refl, ◌↔◌, true, some, List, [], ◌∷◌, is_some, map}
use edufurthersf_be.Prelude.Text.{
  Text, codes, strip, lower, lookup, mem, text_eq, text_ltb, intersects,
}
use edufurthersf_be.Prelude.SortedSet.{sorted_set}
use edufurthersf_be.Json.{Json, str, arr, bool, Dict, get, is_truthy, str_items, to_items}
use edufurthersf_be.Taxonomy.{taxonomy, field, degree, fold, normalize_codes, resolved, unresolved}
use edufurthersf_be.Matching.{
  SearchProfile, confirmed, origin_eligible, field_compatible, fresh_verified_evidence,
  MatchDecision, normalised_set, is_mode, evaluate_match,
}
use edufurthersf_be.Matching.Gates.{IsEligible, match_exact}
use edufurthersf_be.Matching.Score.{Scores, match_score}

-- `str` on a value that is no text.
abbrev text_of : Json → Text
text_of v = codes "None"

abbrev texts : List Text → Json
texts values = arr (to_items (map (λ s. str s) values))

abbrev profile : SearchProfile
profile = record {
  origin_country = codes "NG";
  target_countries = codes "CA" ∷ [];
  program_levels = codes "doctorate" ∷ [];
  fields = some (codes "technology" ∷ []);
}

abbrev cycle : Dict
cycle =
    ("destinations", texts (codes "CA" ∷ []))
    ∷ ("levels", texts (codes "PhD" ∷ []))
    ∷ ("origin_mode", str (codes "restricted"))
    ∷ ("origins", texts (codes "ng" ∷ []))
    ∷ ("field_mode", str (codes "all"))
    ∷ ("evidence_fresh", bool true)
    ∷ []

abbrev match : MatchDecision
match = record {
  fit = confirmed;
  score = 50;
  reason_codes = field_compatible ∷ origin_eligible ∷ fresh_verified_evidence ∷ [];
  caveats = [];
}

match_run : evaluate_match text_of profile cycle ≡ some match
unfolding evaluate_match normalised_set get is_mode is_truthy str_items normalize_codes degree field
    taxonomy fold strip lower lookup mem text_eq text_ltb intersects sorted_set resolved unresolved
match_run = refl

match_exact_example :
    (is_some (evaluate_match text_of profile cycle) ≡ true) ↔ IsEligible text_of profile cycle
match_exact_example = match_exact text_of profile cycle

match_score_example :
    Scores (is_mode "unknown" "origin_mode" cycle) (is_mode "unknown" "field_mode" cycle) match
match_score_example = match_score text_of profile cycle match match_run

-- The mode is misspelt, and no origin is listed.
abbrev stray : Dict
stray =
    ("destinations", texts (codes "CA" ∷ []))
    ∷ ("levels", texts (codes "doctorate" ∷ []))
    ∷ ("origin_mode", str (codes "Restricted"))
    ∷ ("field_mode", str (codes "all"))
    ∷ []

abbrev stray_match : MatchDecision
stray_match = record {
  fit = confirmed;
  score = 25;
  reason_codes = field_compatible ∷ [];
  caveats = [];
}

stray_run : evaluate_match text_of profile stray ≡ some stray_match
unfolding evaluate_match normalised_set get is_mode is_truthy str_items normalize_codes degree field
    taxonomy fold strip lower lookup mem text_eq text_ltb intersects sorted_set resolved unresolved
stray_run = refl
