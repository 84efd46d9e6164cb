-- ===== src/Publication.antt =====
-- src/app/domain/publication.py: the facts of a cycle, validated before they are published. `isoformat`
-- is the text of a timestamp, and `zone_info` the time zone database.
pub mod Normal
pub mod Readback
mod Tests
use edufurthersf_be.Prelude.{
  ℕ, String, Bool, true, false, not, ◌&&◌, Option, none, some, List, [], ◌∷◌, map, keep, truthy,
  if◌then◌else◌, Result, ok, raise, value_error, ◌>>=◌, ◌>>◌, raise_if, map_result,
}
use edufurthersf_be.Prelude.Text.{Text, codes, strip, text_eq}
use edufurthersf_be.Prelude.SortedSet.{sorted_set}
use edufurthersf_be.Zones.{DateTime, ZoneLookup, found, not_found, malformed}
use edufurthersf_be.Status.{Precision}
use edufurthersf_be.Json.{Json, str, bool, Dict}
use edufurthersf_be.Taxonomy.{taxonomy, degree, field, funding_type}
use edufurthersf_be.Countries.{CountryVocabulary, origin, destination}
use edufurthersf_be.Facts.{
  texts, label, present, some_texts, some_text, some_month, some_timestamp, with_deadline,
  precision_name,
}

pub record CycleInputs : Type 0 where
  pub destinations : List Text
  pub levels : List Text
  pub origin_mode : Text
  pub origins : List Text
  pub field_mode : Text
  pub fields : List Text
  pub evidence_fresh : Bool
  pub deadline_at : Option DateTime
  pub deadline_precision : Precision
  pub deadline_timezone : Option Text
  pub eligibility_note : Option Text
  pub expected_reopen_month : Option ℕ
  pub field_names : Option (List Text)
  pub programme_names : Option (List Text)
  pub funding : Option Text

-- The local variables `normalized_...`, and the funding type.
pub record Normalized : Type 0 where
  pub destinations : List Text
  pub levels : List Text
  pub origins : List Text
  pub fields : List Text
  pub programmes : List Text
  pub funding : Option Text

-- `programme_names if programme_names is not None else field_names or []`.
abbrev pub programme_source : Option (List Text) → Option (List Text) → List Text
programme_source (some names) field_names = names
programme_source none (some names) = names
programme_source none none = []

-- `sorted({name.strip() for name in names if name.strip()})`.
unfoldable pub normalized_names : List Text → List Text
normalized_names names = sorted_set (keep truthy (map strip names))

-- `if value: ...`.
abbrev pub nonempty : Option Text → Option Text
nonempty none = none
nonempty (some []) = none
nonempty (some (c ∷ s)) = some (c ∷ s)

unfoldable pub published_funding : Option Text → Result (Option Text)
published_funding none = ok none
published_funding (some []) = ok none
published_funding (some (c ∷ s)) = do code ← funding_type taxonomy (c ∷ s); ok (some code)

abbrev pub is_unknown_zone : ZoneLookup → Bool
is_unknown_zone (found zone) = false
is_unknown_zone _ = true

abbrev pub is_restricted : Text → Bool
is_restricted mode = text_eq mode (codes "restricted")

module _ (zone_info : Text → ZoneLookup) (countries : CountryVocabulary) where
  -- A zone name is refused by a ValueError whether it is unknown or malformed.
  abbrev pub bad_zone : Option Text → Bool
  bad_zone none = false
  bad_zone (some name) = is_unknown_zone (zone_info name)

  unfoldable pub normalized : CycleInputs → Result Normalized
  unfolding destination published_funding normalized_names
  normalized cycle = do
    destinations ← map_result (destination countries) cycle.destinations
    raise_if (not (truthy (sorted_set destinations)))
        (value_error "At least one destination is required")
    levels ← map_result (degree taxonomy) cycle.levels
    raise_if (not (truthy (sorted_set levels)))
        (value_error "At least one degree level is required")
    origins ← map_result (origin countries) cycle.origins
    raise_if (is_restricted cycle.origin_mode && not (truthy (sorted_set origins)))
        (value_error "origin_mode 'restricted' requires at least one origin")
    fields ← map_result (field taxonomy) cycle.fields
    raise_if (is_restricted cycle.field_mode && not (truthy (sorted_set fields)))
        (value_error "field_mode 'restricted' requires at least one field")
    raise_if (bad_zone cycle.deadline_timezone) (value_error "Unknown deadline_timezone")
    funding ← published_funding cycle.funding
    ok (record {
      destinations = sorted_set destinations;
      levels = sorted_set levels;
      origins = sorted_set origins;
      fields = sorted_set fields;
      programmes = normalized_names (programme_source cycle.programme_names cycle.field_names);
      funding = funding;
    })

  module _ (isoformat : DateTime → Text) where
    abbrev pub published_entries : CycleInputs → Normalized → List (String × Option Json)
    published_entries cycle n =
        ("destinations", some (texts n.destinations))
        ∷ ("levels", some (texts n.levels))
        ∷ ("origin_mode", some (str cycle.origin_mode))
        ∷ ("origins", some (texts n.origins))
        ∷ ("field_mode", some (str cycle.field_mode))
        ∷ ("fields", some (texts n.fields))
        ∷ ("evidence_fresh", some (bool cycle.evidence_fresh))
        ∷ ("eligibility_note", some_text (nonempty cycle.eligibility_note))
        ∷ ("expected_reopen_month", some_month cycle.expected_reopen_month)
        ∷ ("field_names", some_texts (map label n.fields))
        ∷ ("programme_names", some_texts n.programmes)
        ∷ ("funding_type", some_text n.funding)
        ∷ ("deadline_at", some_timestamp isoformat cycle.deadline_at)
        ∷ (
          "deadline_precision",
          with_deadline cycle.deadline_at (some (str (precision_name cycle.deadline_precision))),
        )
        ∷ ("deadline_timezone", with_deadline cycle.deadline_at (some_text cycle.deadline_timezone))
        ∷ []

    unfoldable pub build_cycle_facts : CycleInputs → Result Dict
    unfolding normalized present
    build_cycle_facts cycle = do n ← normalized cycle; ok (present (published_entries cycle n))
