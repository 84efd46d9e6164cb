-- ===== src/Search/Tests.antt =====
-- A search at a concrete input: one public cycle, which matches and is open.
use edufurthersf_be.Prelude.{
  ℕ, ◌≡◌, ◌≢◌, ◌↔◌, refl, inl, Bool, true, false, none, some, List, [], ◌∷◌, ok, Result, In, arith,
}
use edufurthersf_be.Prelude.Text.{Text, codes, text_eq, text_ltb, lower, strip, mem, intersects}
use edufurthersf_be.Prelude.SortedSet.{sorted_set}
use edufurthersf_be.Time.{hours}
use edufurthersf_be.Zones.{DateTime}
use edufurthersf_be.Json.{str, arr, cons, nil, Dict, get, is_truthy}
use edufurthersf_be.Status.{
  PublicStatus, status_unknown, open_now, evaluate_public_status, evaluate_status_detail,
}
use edufurthersf_be.Facts.{derive_facts}
use edufurthersf_be.Matching.{possible, conditions_need_checking, SearchProfile, evaluate_match}
use edufurthersf_be.Rows.{select_where}
use edufurthersf_be.Catalogue.{Provider, Scholarship, ScholarshipCycle, Catalogue, is_public}
use edufurthersf_be.Samples.{no_zones, no_text, no_timestamps, id_text, cycle_of, award, stored}
use edufurthersf_be.Refresh.{published_cycles, read_status}
use edufurthersf_be.Search.{
  of_match, SearchResult, search_matches, matched_rows, search_result, sort_key, sort_by,
}
use edufurthersf_be.Search.Order.{IsSorted}
use edufurthersf_be.Search.Pages.{follow, ArePages, pages_complete}
use edufurthersf_be.Search.Results.{Shows, search_exact, search_never_unknown}
use edufurthersf_be.Matching.{normalised_set, is_mode}
use edufurthersf_be.Taxonomy.{
  fold, normalize_codes, resolved, degree, taxonomy, field, lookup_code, unresolved,
}
use edufurthersf_be.Json.{str_items, string_list}
use edufurthersf_be.Prelude.Text.{lookup}
use edufurthersf_be.Calendar.{month}
use edufurthersf_be.Facts.{
  clamp_mode, read_destinations, read_funding, read_month, read_note, read_precision,
  safe_deadline_at,
}
use edufurthersf_be.Rows.{insert_by, order_by}
use edufurthersf_be.Search.{insert_sorted, key_ltb, result_sort_value}
use edufurthersf_be.Status.{date_cutoff, deadline_cutoff}

abbrev host : Provider
host = record { provider_id = 1; name = codes "FCDO"; country = some (codes "GB") }

abbrev facts : Dict
facts =
    ("destinations", arr (cons (str (codes "gb")) nil))
    ∷ ("levels", arr (cons (str (codes "masters")) nil))
    ∷ []

abbrev open_cycle : ScholarshipCycle
open_cycle = record (cycle_of 10 1) { facts = facts }

abbrev index : Catalogue
index = record stored { cycles = open_cycle ∷ [] }

abbrev profile : SearchProfile
profile = record {
  origin_country = codes "NG";
  target_countries = codes "GB" ∷ [];
  program_levels = codes "masters" ∷ [];
  fields = none;
}

abbrev no_isoformat : DateTime → Text
no_isoformat d = []

abbrev scholarship_of : ℕ → Scholarship
scholarship_of id = award

abbrev provider_of : ℕ → Provider
provider_of id = host

abbrev found : Result (List SearchResult) × Bool
found =
    search_matches no_zones no_text no_timestamps no_isoformat id_text scholarship_of provider_of
      profile (hours 1) index

abbrev shown : SearchResult
shown = record {
  scholarship_id = 1;
  cycle_id = 10;
  name = codes "Chevening";
  provider = codes "FCDO";
  award_type = codes "scholarship";
  status = open_now;
  fit = possible;
  official_url = codes "https://a.test/";
  last_verified_at = none;
  eligibility_note = none;
  field_names = [];
  fields = [];
  programme_names = [];
  destinations = codes "gb" ∷ [];
  deadline_at = none;
  deadline_precision = none;
  degree_levels = codes "masters" ∷ [];
  expected_reopen_month = none;
  funding_type = none;
  provider_country = some (codes "GB");
  caveats = of_match conditions_need_checking ∷ [];
}

search_run : found ≡ (ok (shown ∷ []), false)
unfolding search_matches published_cycles select_where evaluate_match intersects normalised_set get
    mem text_eq fold normalize_codes sorted_set resolved str_items degree lookup taxonomy is_mode
    month clamp_mode derive_facts read_destinations read_funding read_month read_note read_precision
    safe_deadline_at is_truthy string_list lower strip text_ltb insert_by order_by insert_sorted
    key_ltb matched_rows result_sort_value search_result sort_by sort_key date_cutoff
    deadline_cutoff evaluate_public_status evaluate_status_detail field lookup_code unresolved
search_run = refl

search_exact_example :
    IsSorted (sort_key no_isoformat id_text (hours 1)) (shown ∷ [])
    × ((r : SearchResult)
        → In r (shown ∷ []) ↔ (
            (c : ScholarshipCycle) × In c index.cycles
            × (is_public index.scholarships c ≡ true)
            × Shows no_zones no_text no_timestamps scholarship_of provider_of profile
                (hours 1)
                r
                c))
search_exact_example =
    search_exact no_zones no_text no_timestamps scholarship_of provider_of no_isoformat id_text
      profile (hours 1) index (shown ∷ []) search_run

search_never_unknown_example :
    (c : ScholarshipCycle) × In c index.cycles
    × (is_public index.scholarships c ≡ true)
    × (shown.cycle_id ≡ c.cycle_id)
    × ((status : PublicStatus) × (read_status no_zones no_text no_timestamps c (hours 1)
          ≡ ok status)
        × (status ≢ status_unknown))
search_never_unknown_example =
    search_never_unknown no_zones no_text no_timestamps scholarship_of provider_of no_isoformat
      id_text profile (hours 1) index (shown ∷ []) false shown search_run (inl refl)

pages_complete_example :
    (pages : List (List ℕ)) × (follow {A = ℕ} 4 2 (some 0) (1 ∷ 2 ∷ 3 ∷ []) ≡ some pages)
    × ArePages {A = ℕ} 2 (1 ∷ 2 ∷ 3 ∷ []) pages
pages_complete_example = pages_complete 2 (1 ∷ 2 ∷ 3 ∷ []) (omega arith)
