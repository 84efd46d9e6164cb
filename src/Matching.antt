-- ===== src/Matching.antt =====
-- src/app/domain/matching.py: the hard gates and the score of one cycle against a search profile. A set
-- is a list of its members. `text_of` is `str` on the items that are not texts.
pub mod Gates
pub mod Score
mod Tests
use edufurthersf_be.Prelude.{
  ℕ, ◌+◌, String, Bool, true, false, not, ◌&&◌, ◌||◌, Option, none, some, List, [], ◌∷◌, ◌++◌, map,
  str_eq, if◌then◌else◌,
}
use edufurthersf_be.Prelude.Text.{Text, codes, mem, intersects}
use edufurthersf_be.Json.{
  Json, null, bool, str, arr, items, Dict, get, get_or, is_truthy, is_str, str_items,
}
use edufurthersf_be.Taxonomy.{taxonomy, fold, normalize_fields, normalize_degrees}

pub record SearchProfile : Type 0 where
  pub origin_country : Text
  pub target_countries : List Text
  pub program_levels : List Text
  pub fields : Option (List Text)

pub data Fit : Type 0 where
  possible confirmed : Fit

pub data Reason : Type 0 where
  field_compatible origin_eligible fresh_verified_evidence : Reason

pub data Caveat : Type 0 where
  conditions_need_checking : Caveat

pub record MatchDecision : Type 0 where
  pub fit : Fit
  pub score : ℕ
  pub reason_codes : List Reason
  pub caveats : List Caveat

-- `facts.get(key) or "unknown"`.
abbrev pub mode_of : String → Dict → Json
mode_of key facts =
    let mode = get_or key null facts in if is_truthy mode then mode else str (codes "unknown")

-- The branch `not fields.isdisjoint(accepted_fields)`, where there is a preference.
abbrev pub accepts : Option (List Text) → List Text → Bool
accepts none fields = false
accepts (some accepted) fields = intersects fields (map fold accepted)

-- `score += points; reasons.append(reason)`.
abbrev pub award : Bool → ℕ → Reason → ℕ × List Reason → ℕ × List Reason
award true points reason (score, reasons) = (score + points, reasons ++ reason ∷ [])
award false points reason tally = tally

-- What follows the gates.
abbrev pub decision : Bool → Bool → Bool → Bool → MatchDecision
decision unknown field_ok origin_ok fresh =
    let (score, reasons) =
      award fresh 10 fresh_verified_evidence
        (award origin_ok 15 origin_eligible (award field_ok 25 field_compatible (0, []))) in
    record {
      fit = if unknown then possible else confirmed;
      score = score;
      reason_codes = reasons;
      caveats = if unknown then conditions_need_checking ∷ [] else [];
    }

abbrev pub has_preference : Option (List Text) → Bool
has_preference none = false
has_preference (some accepted) = true

-- Where a mode is compared with one of its words.
unfoldable pub is_mode : String → String → Dict → Bool
is_mode word key facts = is_str (codes word) (mode_of key facts)

module _ (text_of : Json → Text) where
  -- `_normalise(str(v))`.
  abbrev pub normalise : Json → Text
  normalise (str s) = fold s
  normalise v = fold (text_of v)

  abbrev pub normalised_list : String → List Json → List Text
  normalised_list key values =
      if str_eq key "fields"
      then (normalize_fields taxonomy (str_items values)).0
      else if str_eq key "levels"
      then (normalize_degrees taxonomy (str_items values)).0
      else map normalise values

  normalised_value : String → Json → List Text
  normalised_value key (arr values) = normalised_list key (items values)
  normalised_value key _ = []

  unfoldable pub normalised_set : Dict → String → List Text
  unfolding normalised_value
  normalised_set facts key = normalised_value key (get_or key null facts)

  unfoldable pub evaluate_match : SearchProfile → Dict → Option MatchDecision
  evaluate_match profile facts =
      let destinations = normalised_set facts "destinations" in
      let origins = normalised_set facts "origins" in
      let fields = normalised_set facts "fields" in
      let from_origin = mem (fold profile.origin_country) origins in
      if not (intersects destinations (map fold profile.target_countries))
      then none
      else if not (intersects (map fold profile.program_levels) (normalised_set facts "levels"))
      then none
      else if is_mode "restricted" "origin_mode" facts && not from_origin
      then none
      else if is_mode "restricted" "field_mode" facts
          && has_preference profile.fields
          && not (accepts profile.fields fields)
      then none
      else some (
          decision (is_mode "unknown" "origin_mode" facts || is_mode "unknown" "field_mode" facts)
            (is_mode "all" "field_mode" facts || accepts profile.fields fields)
            (is_mode "unrestricted" "origin_mode" facts || from_origin)
            (is_truthy (get_or "evidence_fresh" (bool false) facts)))
