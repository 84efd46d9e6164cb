-- ===== src/Search/Results.antt =====
-- Which cycles a search returns.
use edufurthersf_be.Prelude.{
  ℕ, zero, suc, ◌+◌, ◌≡◌, ◌≢◌, ◌≤◌, ◌↔◌, refl, sym, ap, ◌∙◌, subst, ◌⊎◌, inl, inr, Bool, true,
  false, not, ◌&&◌, Option, none, some, List, [], ◌∷◌, map, arith, length, take, take-In, take_all,
  keep, In, In-keep, ok, bind_returned, ok-injective,
}
use edufurthersf_be.Prelude.Text.{Text}
use edufurthersf_be.Time.{Instant}
use edufurthersf_be.Zones.{DateTime, ZoneLookup}
use edufurthersf_be.Json.{Json}
use edufurthersf_be.Matching.{SearchProfile, MatchDecision, evaluate_match}
use edufurthersf_be.Rows.{order_by, select_where}
use edufurthersf_be.Rows.Laws.{order_by-In, select_where-In}
use edufurthersf_be.Catalogue.{
  Provider, Scholarship, ScholarshipCycle, Catalogue, cycle_key, is_public,
}
use edufurthersf_be.Status.{
  PublicStatus, open_verified, expected_to_reopen, status_unknown, evaluate_status_detail,
}
use edufurthersf_be.Refresh.{published_cycles, read_status, derived_facts}
use mathlib.Core.Option.{some-injective}
use edufurthersf_be.Search.{
  SearchResult, SearchRow, row_of, result_of, unless_unknown, cons_some, search_result, result_if,
  matched_rows, sort_key, sort_by, published_cycle_scan_limit, search_matches,
}
use edufurthersf_be.Search.Order.{IsSorted, sort-IsSorted, In-sort, sort-In}

-- A prefix that is shorter than it may be is everything.
take_short : {A : Type 0} (n : ℕ) (t : List A) → length (take (suc n) t) ≤ n → take (suc n) t ≡ t
take_short n [] h = refl
take_short zero (x ∷ t) h = absurd (omega arith)
take_short (suc n) (x ∷ t) h = ap (λ r. x ∷ r) (take_short n t (omega arith))

plus_one : (n : ℕ) → n + 1 ≡ suc n
plus_one n = omega arith

-- A scan that was not truncated holds exactly the public cycles.
scan_all :
    (limit : ℕ) (db : Catalogue) (c : ScholarshipCycle)
    → (published_cycles limit (λ id. false) db).1 ≡ false
    → In c db.cycles
    → is_public db.scholarships c ≡ true
    → In c (published_cycles limit (λ id. false) db).0
unfolding published_cycles select_where
scan_all limit db c h m visible =
    let wanted : ScholarshipCycle → Bool = λ a. is_public db.scholarships a && not false in
    let all_rows = order_by cycle_key (keep wanted db.cycles) in
    let short : length (take (suc limit) all_rows) ≤ limit =
      subst (λ n. length (take n all_rows) ≤ limit) (plus_one limit) (ground arith) in
    let whole : take (limit + 1) all_rows ≡ all_rows =
      ap (λ n. take n all_rows) (plus_one limit) ∙ take_short limit all_rows short in
    let fits : length all_rows ≤ limit =
      subst (λ l. length l ≤ limit) (take_short limit all_rows short) short in
    subst (In c) (sym (ap (take limit) whole ∙ take_all limit all_rows fits)) (
      order_by-In cycle_key c (keep wanted db.cycles) (In-keep wanted c db.cycles m (ground arith)))

all_scanned :
    (limit : ℕ) (db : Catalogue) (c : ScholarshipCycle)
    → In c (published_cycles limit (λ id. false) db).0
    → In c db.cycles × (is_public db.scholarships c ≡ true)
unfolding published_cycles
all_scanned limit db c m =
    let rows =
      select_where cycle_key (is_public db.scholarships) (λ id. false) (limit + 1) db.cycles in
    let (k, visible, free) =
      select_where-In cycle_key (is_public db.scholarships) (λ id. false) (limit + 1) c db.cycles
        (take-In limit c rows m) in
    (k, visible)

module _ (zone_info : Text → ZoneLookup) (text_of : Json → Text)
    (fromisoformat : Text → Option DateTime) (scholarship_of : ℕ → Scholarship)
    (provider_of : ℕ → Provider) where
  -- The cycle matches the profile, and `r` is what is shown of it at this moment.
  pub record Shows (profile : SearchProfile) (now : Instant) (r : SearchResult)
      (c : ScholarshipCycle) : Type 0 where
    pub decision : MatchDecision
    pub matched : evaluate_match text_of profile c.facts ≡ some decision
    pub shown :
        search_result zone_info text_of fromisoformat
          (row_of scholarship_of provider_of c)
          decision
          now
        ≡ ok (some r)

  Shows-decision :
      (profile : SearchProfile) (now : Instant) (r : SearchResult) (c : ScholarshipCycle)
      (found : Option MatchDecision)
      → evaluate_match text_of profile c.facts ≡ found
      → result_if zone_info text_of fromisoformat (row_of scholarship_of provider_of c) now found
        ≡ ok (some r)
      → Shows profile now r c
  Shows-decision profile now r c none e h = cc
  Shows-decision profile now r c (some decision) e h = record {
    decision = decision;
    matched = e;
    shown = h;
  }

  cons-In :
      (r : SearchResult) (first : Option SearchResult) (rest : List SearchResult)
      → In r (cons_some first rest)
      → (first ≡ some r) ⊎ In r rest
  cons-In r none rest m = inr m
  cons-In r (some x) rest (inl e) = inl (ap some e)
  cons-In r (some x) rest (inr m) = inr m

  In-cons :
      (r : SearchResult) (first : Option SearchResult) (rest : List SearchResult)
      → In r rest
      → In r (cons_some first rest)
  In-cons r none rest m = m
  In-cons r (some x) rest m = inr m

  abbrev rows_of : List ScholarshipCycle → List SearchRow
  rows_of = map (row_of scholarship_of provider_of)

  matched-In :
      (profile : SearchProfile) (now : Instant) (cycles : List ScholarshipCycle)
      (ms : List SearchResult) (r : SearchResult)
      → matched_rows zone_info text_of fromisoformat profile now (rows_of cycles) ≡ ok ms
      → In r ms
      → (c : ScholarshipCycle) × In c cycles × Shows profile now r c
  unfolding matched_rows
  matched-In profile now [] ms r h m =
      let e : [] ≡ ms = ok-injective h in absurd (subst (In r) (sym e) m)
  matched-In profile now (c ∷ cycles) ms r h m =
      let found = evaluate_match text_of profile c.facts in
      let (first, e, h1) =
        bind_returned
          (result_if zone_info text_of fromisoformat (row_of scholarship_of provider_of c) now
            found)
          _ h in
      let (rest, f, h2) =
        bind_returned (matched_rows zone_info text_of fromisoformat profile now (rows_of cycles)) _
          h1 in
      elim (cons-In r first rest (subst (In r) (sym (ok-injective h2)) m)) [
        | inl own ↦ (c, inl refl, Shows-decision profile now r c found refl (e ∙ ap ok own))
        | inr later ↦ let (d, k, s) = matched-In profile now cycles rest r f later in (d, inr k, s)
      ]

  In-matched :
      (profile : SearchProfile) (now : Instant) (cycles : List ScholarshipCycle)
      (ms : List SearchResult) (r : SearchResult) (c : ScholarshipCycle)
      → matched_rows zone_info text_of fromisoformat profile now (rows_of cycles) ≡ ok ms
      → In c cycles
      → Shows profile now r c
      → In r ms
  unfolding matched_rows
  In-matched profile now [] ms r c h m s = absurd m
  In-matched profile now (d ∷ cycles) ms r c h m s =
      let found = evaluate_match text_of profile d.facts in
      let (first, e, h1) =
        bind_returned
          (result_if zone_info text_of fromisoformat (row_of scholarship_of provider_of d) now
            found)
          _ h in
      let (rest, f, h2) =
        bind_returned (matched_rows zone_info text_of fromisoformat profile now (rows_of cycles)) _
          h1 in
      subst (In r) (ok-injective h2) (elim m [
        | inl same ↦
            let t = subst (Shows profile now r) (sym same) s in
            let hit : first ≡ some r = ok-injective (
              sym e
              ∙ ap
                  (result_if zone_info text_of fromisoformat (row_of scholarship_of provider_of d)
                    now)
                  t.matched
              ∙ t.shown) in
            head-In first hit rest
        | inr k ↦ In-cons r first rest (In-matched profile now cycles rest r c f k s)
      ])
    where
      head-In :
          (first : Option SearchResult)
          → first ≡ some r
          → (rest : List SearchResult) → In r (cons_some first rest)
      head-In none e rest = cc
      head-In (some x) e rest = inl (some_same x e)
        where
          some_same : (x : SearchResult) → some x ≡ some r → x ≡ r
          some_same x e = ap (λ o. elim o [ none ↦ x | some y ↦ y ]) e

  not_unknown :
      (status : PublicStatus) (x r : SearchResult)
      → unless_unknown status x ≡ some r
      → (status ≢ status_unknown) × (x ≡ r)
  not_unknown open_verified x r h = ((λ e. cc), some-injective x r h)
  not_unknown expected_to_reopen x r h = ((λ e. cc), some-injective x r h)
  not_unknown status_unknown x r h = cc

  -- What is shown of a cycle names it, and its status is not unknown at this moment.
  shown_status :
      (profile : SearchProfile) (now : Instant) (r : SearchResult) (c : ScholarshipCycle)
      → Shows profile now r c
      → (r.cycle_id ≡ c.cycle_id)
        × ((status : PublicStatus) × (read_status zone_info text_of fromisoformat c now ≡ ok status)
            × (status ≢ status_unknown))
  unfolding search_result
  shown_status profile now r c s =
      let (status, e, h1) =
        bind_returned (read_status zone_info text_of fromisoformat c now) _ s.shown in
      let derived = derived_facts zone_info text_of fromisoformat c in
      let detail =
        evaluate_status_detail zone_info status derived.deadline_at derived.deadline_precision
          derived.deadline_timezone derived.expected_reopen_month now in
      let (status_detail, f, h2) = bind_returned detail _ h1 in
      let row = row_of scholarship_of provider_of c in
      let (known, same) =
        not_unknown status (result_of row derived status status_detail s.decision) r
          (ok-injective h2) in
      (ap (λ x. x.cycle_id) (sym same), (status, e, known))

  module _ (isoformat : DateTime → Text) (id_text : ℕ → Text) where
    matches_of :
        (profile : SearchProfile) (now : Instant) (db : Catalogue) (ms : List SearchResult)
        (truncated : Bool)
        → search_matches zone_info text_of fromisoformat isoformat id_text scholarship_of
            provider_of profile now db
          ≡ (ok ms, truncated)
        → (unsorted : List SearchResult) × (matched_rows zone_info text_of fromisoformat profile now
              (rows_of (published_cycles published_cycle_scan_limit (λ id. false) db).0)
            ≡ ok unsorted)
          × (sort_by (sort_key isoformat id_text now) unsorted ≡ ms)
          × ((published_cycles published_cycle_scan_limit (λ id. false) db).1 ≡ truncated)
    unfolding search_matches
    matches_of profile now db ms truncated h =
        let cycles = (published_cycles published_cycle_scan_limit (λ id. false) db).0 in
        let (unsorted, e, f) =
          bind_returned (matched_rows zone_info text_of fromisoformat profile now (rows_of cycles))
            _ (ap (λ t. t.0) h) in
        (unsorted, e, ok-injective f, ap (λ t. t.1) h)

    -- A search whose scan was not truncated, and that returns, lists exactly what is shown at this moment of
    -- the public cycles that match the profile, in the order of the sort key.
    pub search_exact :
        (profile : SearchProfile) (now : Instant) (db : Catalogue) (ms : List SearchResult)
        → search_matches zone_info text_of fromisoformat isoformat id_text scholarship_of
            provider_of profile now db
          ≡ (ok ms, false)
        → IsSorted (sort_key isoformat id_text now) ms
          × ((r : SearchResult)
              → In r ms ↔ (
                  (c : ScholarshipCycle) × In c db.cycles
                  × (is_public db.scholarships c ≡ true)
                  × Shows profile now r c))
    search_exact profile now db ms h =
        let (unsorted, e, f, whole) = matches_of profile now db ms false h in
        let cycles = (published_cycles published_cycle_scan_limit (λ id. false) db).0 in
        let key = sort_key isoformat id_text now in
        (
          subst (IsSorted key) f (sort-IsSorted key unsorted),
          λ r. (
            λ m.
                let (c, k, s) =
                  matched-In profile now cycles unsorted r e
                    (In-sort key r unsorted (subst (In r) (sym f) m)) in
                let (stored, visible) = all_scanned published_cycle_scan_limit db c k in
                (c, stored, visible, s),
            λ (c, stored, visible, s). subst (In r) f (
                sort-In key r unsorted (
                  In-matched profile now cycles unsorted r c e
                    (scan_all published_cycle_scan_limit db c whole stored visible) s)),
          ),
        )

    -- What a search returns, of a truncated scan too, is of a public cycle whose status is not unknown
    -- when it is read at this moment.
    pub search_never_unknown :
        (profile : SearchProfile) (now : Instant) (db : Catalogue) (ms : List SearchResult)
        (truncated : Bool) (r : SearchResult)
        → search_matches zone_info text_of fromisoformat isoformat id_text scholarship_of
            provider_of profile now db
          ≡ (ok ms, truncated)
        → In r ms
        → (c : ScholarshipCycle) × In c db.cycles
          × (is_public db.scholarships c ≡ true)
          × (r.cycle_id ≡ c.cycle_id)
          × ((status : PublicStatus) × (read_status zone_info text_of fromisoformat c now
                ≡ ok status)
              × (status ≢ status_unknown))
    search_never_unknown profile now db ms truncated r h m =
        let (unsorted, e, f, whole) = matches_of profile now db ms truncated h in
        let cycles = (published_cycles published_cycle_scan_limit (λ id. false) db).0 in
        let key = sort_key isoformat id_text now in
        let (c, k, s) =
          matched-In profile now cycles unsorted r e
            (In-sort key r unsorted (subst (In r) (sym f) m)) in
        let (stored, visible) = all_scanned published_cycle_scan_limit db c k in
        let (named, known) = shown_status profile now r c s in (c, stored, visible, named, known)
