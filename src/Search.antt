-- ===== src/Search.antt =====
-- src/app/api/routes.py: what a search returns (_search_result, _result_sort_value, and the handler search
-- from the scan of the published cycles to the page). `isoformat` and the texts of ids are
-- parameters, as are the providers by their ids.
pub mod Order
pub mod Results
pub mod Pages
mod Tests
use edufurthersf_be.Prelude.{
  ℕ, zero, suc, ◌+◌, ◌-◌, ◌/◌, ◌%◌, Bool, true, false, not, ◌&&◌, ◌||◌, Option, none, some, List,
  [], ◌∷◌, ◌++◌, map, ◌==◌, leb, ltb, if◌then◌else◌, is_some, length, take, Result, ok, raise,
  ◌>>=◌, truthy,
}
use edufurthersf_be.Prelude.Text.{Text, codes, text_eq, text_ltb}
use edufurthersf_be.Time.{Instant}
use edufurthersf_be.Calendar.{month}
use edufurthersf_be.Zones.{DateTime, ZoneLookup}
use edufurthersf_be.Json.{Json}
use edufurthersf_be.Status.{
  PublicStatus, open_verified, expected_to_reopen, status_unknown, Precision, StatusDetail,
  open_now, closing_soon, likely_to_open, evaluate_public_status, evaluate_status_detail,
}
use edufurthersf_be.Facts.{DerivedFacts, derive_facts, public_deadline_precision}
use edufurthersf_be.Freshness.{months_until}
use edufurthersf_be.Matching.{
  SearchProfile, Fit, confirmed, possible, Caveat, MatchDecision, evaluate_match,
}
use edufurthersf_be.Catalogue.{Provider, Scholarship, ScholarshipCycle, Catalogue, by_id}
use edufurthersf_be.Refresh.{same_status, published_cycles}

-- The sentences that a result may carry.
pub data ResultCaveat : Type 0 where
  of_match : Caveat → ResultCaveat
  requires_re_verification automated_evidence_review : ResultCaveat

pub record SearchResult : Type 0 where
  pub scholarship_id : ℕ
  pub cycle_id : ℕ
  pub name : Text
  pub provider : Text
  pub award_type : Text
  pub status : StatusDetail
  pub fit : Fit
  pub official_url : Text
  pub last_verified_at : Option Instant
  pub eligibility_note : Option Text
  pub field_names : List Text
  pub fields : List Text
  pub programme_names : List Text
  pub destinations : List Text
  pub deadline_at : Option DateTime
  pub deadline_precision : Option Precision
  pub degree_levels : List Text
  pub expected_reopen_month : Option ℕ
  pub funding_type : Option Text
  pub provider_country : Option Text
  pub caveats : List ResultCaveat

-- A row of the scan, with the rows that are loaded with it.
pub record SearchRow : Type 0 where
  pub cycle : ScholarshipCycle
  pub scholarship : Scholarship
  pub provider : Provider

-- `selectinload` of the scholarship and of its provider.
abbrev pub row_of : (ℕ → Scholarship) → (ℕ → Provider) → ScholarshipCycle → SearchRow
row_of scholarship_of provider_of cycle =
    let scholarship = scholarship_of cycle.scholarship_id in
    record {
      cycle = cycle;
      scholarship = scholarship;
      provider = provider_of scholarship.provider_id;
    }

abbrev pub caveats_of : ScholarshipCycle → PublicStatus → MatchDecision → List ResultCaveat
caveats_of cycle status decision =
    map (λ c. of_match c) decision.caveats
    ++ (if same_status status cycle.public_status then [] else requires_re_verification ∷ [])
    ++ (if cycle.is_auto_approved then automated_evidence_review ∷ [] else [])

abbrev pub result_of :
    SearchRow → DerivedFacts → PublicStatus → StatusDetail → MatchDecision → SearchResult
result_of row derived status status_detail decision = record {
  scholarship_id = row.cycle.scholarship_id;
  cycle_id = row.cycle.cycle_id;
  name = row.scholarship.name;
  provider = row.provider.name;
  award_type = row.scholarship.award_type;
  status = status_detail;
  fit = decision.fit;
  official_url = row.cycle.official_cycle_url;
  last_verified_at = row.cycle.last_verified_at;
  eligibility_note = derived.eligibility_note;
  field_names = derived.field_names;
  fields = derived.fields;
  programme_names = derived.programme_names;
  destinations = derived.destinations;
  deadline_at = derived.deadline_at;
  deadline_precision = public_deadline_precision derived;
  degree_levels = derived.degree_levels;
  expected_reopen_month = derived.expected_reopen_month;
  funding_type = derived.funding;
  provider_country = row.provider.country;
  caveats = caveats_of row.cycle status decision;
}

-- `if status == PublicStatus.status_unknown: return None`.
abbrev pub unless_unknown : PublicStatus → SearchResult → Option SearchResult
unless_unknown status_unknown r = none
unless_unknown _ r = some r

-- What `[... for row in rows if ...]` adds for one row.
abbrev pub cons_some : Option SearchResult → List SearchResult → List SearchResult
cons_some none rest = rest
cons_some (some r) rest = r ∷ rest

module _ (zone_info : Text → ZoneLookup) (text_of : Json → Text)
    (fromisoformat : Text → Option DateTime) where
  unfoldable pub search_result : SearchRow → MatchDecision → Instant → Result (Option SearchResult)
  search_result row decision evaluated_at =
      let derived = derive_facts text_of fromisoformat row.cycle.facts in
      do
        status ←
            evaluate_public_status zone_info row.cycle.public_status derived.deadline_at
              row.cycle.status_valid_until derived.deadline_precision derived.deadline_timezone
              evaluated_at
        status_detail ←
            evaluate_status_detail zone_info status derived.deadline_at derived.deadline_precision
              derived.deadline_timezone derived.expected_reopen_month evaluated_at
        ok (unless_unknown status (result_of row derived status status_detail decision))

  abbrev pub result_if : SearchRow → Instant → Option MatchDecision → Result (Option SearchResult)
  result_if row evaluated_at none = ok none
  result_if row evaluated_at (some decision) = search_result row decision evaluated_at

  -- `matched`, before it is sorted; `profile` is matched against the raw facts.
  unfoldable pub matched_rows :
      SearchProfile → Instant → List SearchRow → Result (List SearchResult)
  matched_rows profile evaluated_at [] = ok []
  matched_rows profile evaluated_at (row ∷ rows) =
      result_if row evaluated_at (evaluate_match text_of profile row.cycle.facts) >>= λ first.
      matched_rows profile evaluated_at rows >>= λ rest. ok (cons_some first rest)

-- The key by which results are sorted.
pub record SortKey : Type 0 where
  pub fit_rank : ℕ
  pub status_rank : ℕ
  pub has_value : ℕ
  pub value : Text
  pub id : Text

abbrev pub fit_rank_of : Fit → ℕ
fit_rank_of confirmed = 0
fit_rank_of possible = 1

abbrev pub status_rank_of : StatusDetail → ℕ
status_rank_of open_now = 0
status_rank_of closing_soon = 1
status_rank_of likely_to_open = 2
status_rank_of _ = 9

-- `f"{n:02d}"`, for n below 100.
abbrev pub two_digits : ℕ → Text
two_digits n = (48 + n / 10) ∷ (48 + n % 10) ∷ []

module _ (isoformat : DateTime → Text) where
  abbrev pub deadline_value : Option DateTime → ℕ × Text
  deadline_value none = (1, [])
  deadline_value (some deadline) = (0, isoformat deadline)

  abbrev pub month_value : Option ℕ → Instant → ℕ × Text
  month_value none now = (1, codes "13")
  month_value (some expected) now = (0, two_digits (months_until expected now))

  -- `_result_sort_value`.
  unfoldable pub result_sort_value : SearchResult → Instant → ℕ × Text
  result_sort_value item evaluated_at = elim item.status [
    | open_now ↦ deadline_value item.deadline_at
    | closing_soon ↦ deadline_value item.deadline_at
    | _ ↦ month_value item.expected_reopen_month evaluated_at
  ]

  module _ (id_text : ℕ → Text) where
    unfoldable pub sort_key : Instant → SearchResult → SortKey
    unfolding result_sort_value
    sort_key evaluated_at item =
        let (has_value, value) = result_sort_value item evaluated_at in
        record {
          fit_rank = fit_rank_of item.fit;
          status_rank = status_rank_of item.status;
          has_value = has_value;
          value = value;
          id = id_text item.cycle_id;
        }

-- `a < b` for tuples: the first components that differ decide.
abbrev pub lex : ℕ → ℕ → Bool → Bool
lex a b rest = ltb a b || ((a == b) && rest)

abbrev pub lex_text : Text → Text → Bool → Bool
lex_text a b rest = text_ltb a b || (text_eq a b && rest)

unfoldable pub key_ltb : SortKey → SortKey → Bool
key_ltb k l = lex k.fit_rank l.fit_rank (
    lex k.status_rank l.status_rank
      (lex k.has_value l.has_value (lex_text k.value l.value (text_ltb k.id l.id))))

-- `sort(key=...)`, which is stable.
module _ {A : Type 0} (key : A → SortKey) where
  unfoldable pub insert_sorted : A → List A → List A
  insert_sorted a [] = a ∷ []
  insert_sorted a (b ∷ t) =
      let deeper = insert_sorted a t in if key_ltb (key b) (key a) then b ∷ deeper else a ∷ b ∷ t

  unfoldable pub sort_by : List A → List A
  unfolding insert_sorted
  sort_by [] = []
  sort_by (a ∷ t) = insert_sorted a (sort_by t)

-- `matched[offset : offset + limit]`.
module _ {A : Type 0} where
  abbrev pub drop : ℕ → List A → List A
  drop zero xs = xs
  drop (suc n) [] = []
  drop (suc n) (x ∷ xs) = drop n xs

  abbrev pub page_data : ℕ → ℕ → List A → List A
  page_data offset limit matched = take limit (drop offset matched)

  -- `has_next_page`, and the offset that the next cursor carries.
  abbrev pub has_next_page : ℕ → ℕ → List A → Bool
  has_next_page offset limit matched = ltb (offset + limit) (length matched)

  abbrev pub next_offset : ℕ → ℕ → List A → Option ℕ
  next_offset offset limit matched =
      if has_next_page offset limit matched then some (offset + limit) else none

-- `offset // payload.limit + 1`.
abbrev pub page_number : ℕ → ℕ → ℕ
page_number offset limit = offset / limit + 1

abbrev pub published_cycle_scan_limit : ℕ
published_cycle_scan_limit = 2000

module _ (zone_info : Text → ZoneLookup) (text_of : Json → Text)
    (fromisoformat : Text → Option DateTime) (isoformat : DateTime → Text) (id_text : ℕ → Text)
    (scholarship_of : ℕ → Scholarship) (provider_of : ℕ → Provider) where
  -- The sorted matches, and whether the scan was truncated.
  unfoldable pub search_matches :
      SearchProfile → Instant → Catalogue → Result (List SearchResult) × Bool
  unfolding matched_rows sort_by
  search_matches profile evaluated_at db =
      let (cycles, truncated) = published_cycles published_cycle_scan_limit (λ id. false) db in
      (
        matched_rows zone_info text_of fromisoformat profile evaluated_at
              (map (row_of scholarship_of provider_of) cycles)
            >>= λ matched. ok (sort_by (sort_key isoformat id_text evaluated_at) matched),
        truncated,
      )
