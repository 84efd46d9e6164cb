-- ===== src/Facts.antt =====
-- src/app/domain/facts.py: the one reading of a cycle's stored facts, and the facts rebuilt from it.
-- The texts of timestamps are a parameter: `isoformat`, and `fromisoformat`, which is `none` where
-- Python raises ValueError. `text_of` is `str` on the values that are not texts.
pub mod Lookup
pub mod Parts
pub mod Sanitized
pub mod Contract
mod Tests
use edufurthersf_be.Prelude.{
  ℕ, zero, suc, String, Bool, true, false, not, ◌&&◌, ◌||◌, Option, none, some, List, [], ◌∷◌, map,
  leb, truthy, if◌then◌else◌, is_some, Result, ok, raise,
}
use edufurthersf_be.Prelude.Text.{Text, codes, text_eq, lookup}
use edufurthersf_be.Prelude.SortedSet.{sorted_set}
use edufurthersf_be.Zones.{DateTime}
use edufurthersf_be.Status.{Precision, date, datetime}
use edufurthersf_be.Json.{
  ℤ, pos, Json, null, bool, int, str, arr, items, nil, to_items, Dict, get, get_or, is_truthy,
  string_list,
}
use edufurthersf_be.Taxonomy.{taxonomy, normalize_fields, normalize_degrees, funding_type}

pub record DerivedFacts : Type 0 where
  pub deadline_at : Option DateTime
  pub deadline_precision : Precision
  pub deadline_timezone : Option Text
  pub degree_levels : List Text
  pub expected_reopen_month : Option ℕ
  pub funding : Option Text
  pub destinations : List Text
  pub eligibility_note : Option Text
  pub field_names : List Text
  pub programme_names : List Text
  pub origin_mode : Text
  pub origins : List Text
  pub field_mode : Text
  pub fields : List Text
  pub evidence_fresh : Bool

-- `value if isinstance(value, str) and value in (first, second, "unknown") else "unknown"`.
unfoldable pub clamp_mode : Text → Text → Json → Text
clamp_mode first second (str s) = if text_eq s first || text_eq s second then s else codes "unknown"
clamp_mode first second _ = codes "unknown"

unfoldable pub read_precision : Json → Precision
read_precision (str s) = if text_eq s (codes "date") then date else datetime
read_precision _ = datetime

unfoldable pub read_month : Json → Option ℕ
read_month (int (pos n)) = if leb 1 n && leb n 12 then some n else none
read_month _ = none

abbrev pub accepted : Result Text → Option Text
accepted (ok code) = some code
accepted (raise e) = none

unfoldable pub read_funding : Json → Option Text
read_funding (str s) = accepted (funding_type taxonomy s)
read_funding _ = none

unfoldable pub read_note : Json → Option Text
read_note (str s) = if truthy s then some s else none
read_note _ = none

abbrev pub read_timezone : Json → Option Text
read_timezone (str s) = some s
read_timezone _ = none

abbrev pub read_fresh : Json → Bool
read_fresh (bool b) = b
read_fresh _ = false

-- `TAXONOMY.fields[value]`; the normalised codes are keys of the table.
abbrev pub label : Text → Text
label code = elim (lookup code taxonomy.fields) [ none ↦ code | some name ↦ name ]

-- A list of texts as JSON.
abbrev pub texts : List Text → Json
texts values = arr (to_items (map (λ s. str s) values))

module _ (text_of : Json → Text) where
  abbrev pub str_of : Json → Text
  str_of (str s) = s
  str_of v = text_of v

  unfoldable pub read_destinations : Json → List Text
  read_destinations (arr values) = sorted_set (map str_of (items values))
  read_destinations _ = []

module _ (fromisoformat : Text → Option DateTime) where
  read_timestamp : Json → Option DateTime
  read_timestamp (str s) = fromisoformat s
  read_timestamp _ = none

  unfoldable pub safe_deadline_at : Json → Option DateTime
  unfolding read_timestamp
  safe_deadline_at value = if not (is_truthy value) then none else read_timestamp value

module _ (text_of : Json → Text) (fromisoformat : Text → Option DateTime) where
  -- `facts_get key default` is `facts.get(key, default)`.
  abbrev pub derive_from : (String → Json → Json) → DerivedFacts
  derive_from facts_get =
      let canonical_fields =
        (normalize_fields taxonomy (string_list (facts_get "fields" (arr nil)))).0 in
      let canonical_degrees =
        (normalize_degrees taxonomy (string_list (facts_get "levels" (arr nil)))).0 in
      record {
        deadline_at = safe_deadline_at fromisoformat (facts_get "deadline_at" null);
        deadline_precision =
            read_precision (facts_get "deadline_precision" (str (codes "datetime")));
        deadline_timezone = read_timezone (facts_get "deadline_timezone" null);
        degree_levels = canonical_degrees;
        expected_reopen_month = read_month (facts_get "expected_reopen_month" null);
        funding = read_funding (facts_get "funding_type" null);
        destinations = read_destinations text_of (facts_get "destinations" (arr nil));
        eligibility_note = read_note (facts_get "eligibility_note" null);
        field_names = sorted_set (map label canonical_fields);
        programme_names = string_list (facts_get "programme_names" (arr nil));
        origin_mode =
            clamp_mode (codes "restricted") (codes "unrestricted") (facts_get "origin_mode" null);
        origins = string_list (facts_get "origins" (arr nil));
        field_mode = clamp_mode (codes "restricted") (codes "all") (facts_get "field_mode" null);
        fields = canonical_fields;
        evidence_fresh = read_fresh (facts_get "evidence_fresh" null);
      }

  unfoldable pub derive_facts : Dict → DerivedFacts
  derive_facts facts = derive_from (λ key default. get_or key default facts)

-- `public_deadline_precision`.
abbrev pub public_deadline_precision : DerivedFacts → Option Precision
public_deadline_precision d = if is_some d.deadline_at then some d.deadline_precision else none

abbrev pub precision_name : Precision → Text
precision_name date = codes "date"
precision_name datetime = codes "datetime"

-- `result[key] = value` for the entries that have a value, in order.
unfoldable pub present : List (String × Option Json) → Dict
present [] = []
present ((key, none) ∷ entries) = present entries
present ((key, some value) ∷ entries) = (key, value) ∷ present entries

abbrev pub some_texts : List Text → Option Json
some_texts [] = none
some_texts (s ∷ values) = some (texts (s ∷ values))

abbrev pub some_text : Option Text → Option Json
some_text none = none
some_text (some s) = some (str s)

abbrev pub some_month : Option ℕ → Option Json
some_month none = none
some_month (some n) = some (int (pos n))

-- What is written only with a deadline.
abbrev pub with_deadline : Option DateTime → Option Json → Option Json
with_deadline none value = none
with_deadline (some deadline) value = value

module _ (isoformat : DateTime → Text) where
  abbrev pub some_timestamp : Option DateTime → Option Json
  some_timestamp none = none
  some_timestamp (some deadline) = some (str (isoformat deadline))

  abbrev pub sanitized_entries : DerivedFacts → List (String × Option Json)
  sanitized_entries d =
      ("destinations", some (texts d.destinations))
      ∷ ("levels", some (texts d.degree_levels))
      ∷ ("origin_mode", some (str d.origin_mode))
      ∷ ("origins", some (texts d.origins))
      ∷ ("field_mode", some (str d.field_mode))
      ∷ ("fields", some (texts d.fields))
      ∷ ("evidence_fresh", some (bool d.evidence_fresh))
      ∷ ("eligibility_note", some_text d.eligibility_note)
      ∷ ("expected_reopen_month", some_month d.expected_reopen_month)
      ∷ ("field_names", some_texts d.field_names)
      ∷ ("programme_names", some_texts d.programme_names)
      ∷ ("funding_type", some_text d.funding)
      ∷ ("deadline_at", some_timestamp d.deadline_at)
      ∷ (
        "deadline_precision",
        with_deadline d.deadline_at (some (str (precision_name d.deadline_precision))),
      )
      ∷ ("deadline_timezone", with_deadline d.deadline_at (some_text d.deadline_timezone))
      ∷ []

  unfoldable pub sanitized_dict : DerivedFacts → Dict
  unfolding present
  sanitized_dict d = present (sanitized_entries d)
