-- ===== src/Publication/Readback.antt =====
-- The published facts, read by `derive_facts`.
use edufurthersf_be.Prelude.{
  ◌≡◌, ◌≤◌, ap, ◌∙◌, subst, true, Option, some, List, [], ◌∷◌, map, truthy, ok, ok-injective,
  bind_returned,
}
use edufurthersf_be.Prelude.Text.{Text, codes, mem}
use edufurthersf_be.Prelude.SortedSet.{sorted_set}
use edufurthersf_be.Zones.{DateTime, ZoneLookup}
use edufurthersf_be.Json.{Json, Dict, string_list}
use edufurthersf_be.Taxonomy.{taxonomy, normalize_fields, normalize_degrees}
use edufurthersf_be.Countries.{CountryVocabulary}
use edufurthersf_be.Facts.{DerivedFacts, label, texts, derive_facts, derive_from, present}
use edufurthersf_be.Facts.Lookup.{pick, get_or-present, string_list-texts}
use edufurthersf_be.Facts.Parts.{reread, timestamp_read}
use edufurthersf_be.Facts.Contract.{AtSome}
use edufurthersf_be.Facts.Sanitized.{
  shown_precision, shown_timezone, shown_precision_read, shown_timezone_read, string_list_or,
}
use edufurthersf_be.Publication.{
  CycleInputs, Normalized, nonempty, normalized, published_entries, build_cycle_facts,
}
use edufurthersf_be.Publication.Normal.{
  clamped, month_kept, note_kept, IsNormal, normalized-IsNormal,
}

-- What the facts are to say: the normalised parts, and the others as they were given.
abbrev pub reading : CycleInputs → Normalized → DerivedFacts
reading cycle n = record {
  deadline_at = cycle.deadline_at;
  deadline_precision = shown_precision cycle.deadline_at cycle.deadline_precision;
  deadline_timezone = shown_timezone cycle.deadline_at cycle.deadline_timezone;
  degree_levels = n.levels;
  expected_reopen_month = cycle.expected_reopen_month;
  funding = n.funding;
  destinations = n.destinations;
  eligibility_note = nonempty cycle.eligibility_note;
  field_names = sorted_set (map label n.fields);
  programme_names = n.programmes;
  origin_mode = cycle.origin_mode;
  origins = n.origins;
  field_mode = cycle.field_mode;
  fields = n.fields;
  evidence_fresh = cycle.evidence_fresh;
}

-- What a request to publish promises of the two modes and the month.
pub record IsRequest (cycle : CycleInputs) : Type 0 where
  pub origin_mode :
      mem cycle.origin_mode (codes "restricted" ∷ codes "unrestricted" ∷ codes "unknown" ∷ [])
      ≡ true
  pub field_mode :
      mem cycle.field_mode (codes "restricted" ∷ codes "all" ∷ codes "unknown" ∷ []) ≡ true
  pub month : AtSome (λ m. (1 ≤ m) × (m ≤ 12)) cycle.expected_reopen_month

normal_degrees :
    (codes : List Text)
    → (normalize_degrees taxonomy codes).0 ≡ codes
    → (normalize_degrees taxonomy (string_list (texts codes))).0 ≡ codes
normal_degrees codes h = ap (λ vs. (normalize_degrees taxonomy vs).0) (string_list-texts codes) ∙ h

normal_fields :
    (codes : List Text)
    → (normalize_fields taxonomy codes).0 ≡ codes
    → (normalize_fields taxonomy (string_list (texts codes))).0 ≡ codes
normal_fields codes h = ap (λ vs. (normalize_fields taxonomy vs).0) (string_list-texts codes) ∙ h

module _ (text_of : Json → Text) (isoformat : DateTime → Text)
    (fromisoformat : Text → Option DateTime)
    (read_back : (d : DateTime) → fromisoformat (isoformat d) ≡ some d)
    (never_empty : (d : DateTime) → truthy (isoformat d) ≡ true) (zone_info : Text → ZoneLookup)
    (countries : CountryVocabulary) where
  picked_reading :
      (cycle : CycleInputs) (n : Normalized)
      → IsRequest cycle
      → IsNormal cycle n
      → derive_from text_of fromisoformat (λ key default.
        pick key default (published_entries zone_info countries isoformat cycle n))
        ≡ reading cycle n
  picked_reading cycle n request normal =
      let timestamp =
        timestamp_read isoformat fromisoformat read_back never_empty cycle.deadline_at in
      let precision = shown_precision_read cycle.deadline_at cycle.deadline_precision in
      let timezone = shown_timezone_read cycle.deadline_at cycle.deadline_timezone in
      let levels = normal_degrees n.levels normal.levels in
      let month = month_kept cycle.expected_reopen_month request.month in
      let funded = normal.funded in
      let places = reread text_of n.destinations ∙ normal.destinations in
      let note = note_kept cycle.eligibility_note in
      let subjects = normal_fields n.fields normal.fields in
      let programmes = string_list_or n.programmes in
      let mode =
        clamped (codes "restricted") (codes "unrestricted") cycle.origin_mode request.origin_mode in
      let origins = string_list-texts n.origins in
      let scope = clamped (codes "restricted") (codes "all") cycle.field_mode request.field_mode in
      λ i. record {
        deadline_at = timestamp i;
        deadline_precision = precision i;
        deadline_timezone = timezone i;
        degree_levels = levels i;
        expected_reopen_month = month i;
        funding = funded i;
        destinations = places i;
        eligibility_note = note i;
        field_names = sorted_set (map label (subjects i));
        programme_names = programmes i;
        origin_mode = mode i;
        origins = origins i;
        field_mode = scope i;
        fields = subjects i;
        evidence_fresh = cycle.evidence_fresh;
      }

  -- If a request with modes among their words and a month from 1 to 12 is published, reading the published facts
  -- gives the normalised destinations, levels, origins, fields, programmes and funding type; the labels of the
  -- normalised fields, sorted, as field names; the note as it was requested, where an empty note is read as none;
  -- the two modes, the month, the freshness of the evidence and the deadline as they were requested; and where there
  -- is a deadline its precision and zone as requested, but without one the precision "datetime" and no zone;
  -- provided that a written timestamp is read back and is never empty.
  pub published_read :
      (cycle : CycleInputs) (facts : Dict)
      → IsRequest cycle
      → build_cycle_facts zone_info countries isoformat cycle ≡ ok facts
      → (n : Normalized) × (normalized zone_info countries cycle ≡ ok n)
        × (derive_facts text_of fromisoformat facts ≡ reading cycle n)
  unfolding build_cycle_facts derive_facts
  published_read cycle facts request h =
      let entries = published_entries zone_info countries isoformat cycle in
      let (n, e, f) =
        bind_returned (normalized zone_info countries cycle) (λ n. ok (present (entries n))) h in
      let normal = normalized-IsNormal zone_info countries cycle n e in
      let read =
        (λ i.
          derive_from text_of fromisoformat
            (λ key default. get_or-present key default (entries n) i))
        ∙ picked_reading cycle n request normal in
      (
        n,
        e,
        subst (λ d. derive_facts text_of fromisoformat d ≡ reading cycle n) (ok-injective f) read,
      )
