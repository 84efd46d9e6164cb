-- ===== src/Facts/Sanitized.antt =====
-- The rebuilt facts, read again.
use edufurthersf_be.Prelude.{
  ◌≡◌, refl, ap, ◌∙◌, true, Option, none, some, List, [], ◌∷◌, map, truthy,
}
use edufurthersf_be.Prelude.Text.{Text, codes}
use edufurthersf_be.Prelude.SortedSet.{sorted_set}
use edufurthersf_be.Zones.{DateTime}
use edufurthersf_be.Status.{Precision, datetime}
use edufurthersf_be.Json.{Json, null, str, arr, nil, Dict, get_or, string_list}
use edufurthersf_be.Taxonomy.{taxonomy, normalize_fields, normalize_degrees}
use edufurthersf_be.Taxonomy.Canonical.{normalize_idem}
use edufurthersf_be.Facts.{
  DerivedFacts, read_precision, precision_name, read_timezone, label, derive_facts, derive_from,
  sanitized_entries, sanitized_dict, texts, some_text, some_texts, with_deadline,
}
use edufurthersf_be.Facts.Lookup.{pick, get_or-present, string_list-texts}
use edufurthersf_be.Facts.Parts.{
  value_or, clamp_mode_idem, precision_read, month_read, note_read, timezone_read,
  destinations_read, funding_read, timestamp_read,
}

-- What is shown of the facts: without a deadline, neither its precision nor its zone.
abbrev pub shown_precision : Option DateTime → Precision → Precision
shown_precision none precision = datetime
shown_precision (some deadline) precision = precision

abbrev pub shown_timezone : Option DateTime → Option Text → Option Text
shown_timezone none timezone = none
shown_timezone (some deadline) timezone = timezone

abbrev pub shown : DerivedFacts → DerivedFacts
shown d = record d {
  deadline_precision = shown_precision d.deadline_at d.deadline_precision;
  deadline_timezone = shown_timezone d.deadline_at d.deadline_timezone;
}

pub string_list_or :
    (values : List Text) → string_list (value_or (arr nil) (some_texts values)) ≡ values
unfolding string_list
string_list_or [] = refl
string_list_or (s ∷ values) = string_list-texts (s ∷ values)

pub shown_precision_read :
    (t : Option DateTime) (p : Precision)
    → read_precision
        (value_or (str (codes "datetime")) (with_deadline t (some (str (precision_name p)))))
      ≡ shown_precision t p
shown_precision_read none p = precision_read datetime
shown_precision_read (some d) p = precision_read p

pub shown_timezone_read :
    (t : Option DateTime) (z : Option Text)
    → read_timezone (value_or null (with_deadline t (some_text z))) ≡ shown_timezone t z
shown_timezone_read none z = refl
shown_timezone_read (some d) z = timezone_read z

levels_read :
    (values : List Text)
    → let codes = (normalize_degrees taxonomy values).0 in
      (normalize_degrees taxonomy (string_list (texts codes))).0 ≡ codes
levels_read values =
    let codes = (normalize_degrees taxonomy values).0 in
    ap (λ vs. (normalize_degrees taxonomy vs).0) (string_list-texts codes)
    ∙ ap (λ r. r.0) ((normalize_idem values).1)

fields_read :
    (values : List Text)
    → let codes = (normalize_fields taxonomy values).0 in
      (normalize_fields taxonomy (string_list (texts codes))).0 ≡ codes
fields_read values =
    let codes = (normalize_fields taxonomy values).0 in
    ap (λ vs. (normalize_fields taxonomy vs).0) (string_list-texts codes)
    ∙ ap (λ r. r.0) ((normalize_idem values).0)

module _ (text_of : Json → Text) (isoformat : DateTime → Text)
    (fromisoformat : Text → Option DateTime)
    (read_back : (d : DateTime) → fromisoformat (isoformat d) ≡ some d)
    (never_empty : (d : DateTime) → truthy (isoformat d) ≡ true) where
  picked_read :
      (facts : Dict)
      → let d = derive_facts text_of fromisoformat facts in
        derive_from text_of fromisoformat
          (λ key default. pick key default (sanitized_entries isoformat d))
        ≡ shown d
  unfolding derive_facts
  picked_read facts =
      let d = derive_facts text_of fromisoformat facts in
      let timestamp = timestamp_read isoformat fromisoformat read_back never_empty d.deadline_at in
      let precision = shown_precision_read d.deadline_at d.deadline_precision in
      let timezone = shown_timezone_read d.deadline_at d.deadline_timezone in
      let levels = levels_read (string_list (get_or "levels" (arr nil) facts)) in
      let month = month_read (get_or "expected_reopen_month" null facts) in
      let funded = funding_read (get_or "funding_type" null facts) in
      let places = destinations_read text_of (get_or "destinations" (arr nil) facts) in
      let note = note_read (get_or "eligibility_note" null facts) in
      let subjects = fields_read (string_list (get_or "fields" (arr nil) facts)) in
      let programmes = string_list_or d.programme_names in
      let origin =
        clamp_mode_idem (codes "restricted") (codes "unrestricted")
          (get_or "origin_mode" null facts) in
      let places_of_origin = string_list-texts d.origins in
      let scope =
        clamp_mode_idem (codes "restricted") (codes "all") (get_or "field_mode" null facts) in
      λ i. record {
        deadline_at = timestamp i;
        deadline_precision = precision i;
        deadline_timezone = timezone i;
        degree_levels = levels i;
        expected_reopen_month = month i;
        funding = funded i;
        destinations = places i;
        eligibility_note = note i;
        field_names = sorted_set (map label (subjects i));
        programme_names = programmes i;
        origin_mode = origin i;
        origins = places_of_origin i;
        field_mode = scope i;
        fields = subjects i;
        evidence_fresh = d.evidence_fresh;
      }

  -- The facts that are rebuilt from a reading are read again as they are shown: without a deadline
  -- its precision and its zone are forgotten, and every other part stays as it is.
  pub sanitized_read :
      (facts : Dict)
      → let d = derive_facts text_of fromisoformat facts in
        derive_facts text_of fromisoformat (sanitized_dict isoformat d) ≡ shown d
  unfolding derive_facts sanitized_dict
  sanitized_read facts =
      let d = derive_facts text_of fromisoformat facts in
      (λ i.
        derive_from text_of fromisoformat
          (λ key default. get_or-present key default (sanitized_entries isoformat d) i))
      ∙ picked_read facts
