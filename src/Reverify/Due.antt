-- ===== src/Reverify/Due.antt =====
-- src/app/infra/freshness.py: the sweep over the cycles that are due for a fetch.
use edufurthersf_be.Prelude.{
  ℕ, ◌+◌, String, str_eq, Bool, true, false, not, ◌&&◌, Option, none, some, List, [], ◌∷◌, ◌==◌,
  leb, if◌then◌else◌, find, Result, ok, raise, ◌>>=◌,
}
use edufurthersf_be.Prelude.Text.{Text}
use edufurthersf_be.Prelude.Session.{Session, opened, commit, rollback}
use edufurthersf_be.Time.{Instant}
use edufurthersf_be.Zones.{DateTime, ZoneLookup}
use edufurthersf_be.Json.{Json}
use edufurthersf_be.Freshness.{FreshnessConfig, is_reverify_due}
use edufurthersf_be.Urls.{UrlLibrary}
use edufurthersf_be.Catalogue.{ScholarshipCycle, Catalogue, is_public}
use edufurthersf_be.Refresh.{published_cycles, bucket_of}
use edufurthersf_be.Pages.{Source, Site, Clients}
use edufurthersf_be.Reverify.{Outcome, renewed, flagged, deferred, reverify_one_cycle}

pub record Counts : Type 0 where
  pub checked : ℕ
  pub renewed : ℕ
  pub flagged : ℕ
  pub deferred : ℕ

abbrev pub no_counts : Counts
no_counts = record { checked = 0; renewed = 0; flagged = 0; deferred = 0 }

abbrev pub check_one : Counts → Counts
check_one n = record n { checked = n.checked + 1 }

abbrev pub count : Outcome → Counts → Counts
count renewed n = record n { renewed = n.renewed + 1 }
count flagged n = record n { flagged = n.flagged + 1 }
count deferred n = record n { deferred = n.deferred + 1 }

abbrev pub official_source_name : String
official_source_name = "Official Cycle Pages"

abbrev pub scan_limit : ℕ
scan_limit = 5000

abbrev pub official_source : Site → Option Source
official_source site = find (λ s. str_eq s.name official_source_name) site.sources

abbrev pub or_due : Bool → ℕ → List ℕ → List ℕ
or_due true id ids = id ∷ ids
or_due false id ids = ids

-- A cycle that is public at this moment.
abbrev pub public_cycle : ℕ → Catalogue → Option ScholarshipCycle
public_cycle id db = find (λ c. c.cycle_id == id && is_public db.scholarships c) db.cycles

module _ (zone_info : Text → ZoneLookup) (text_of : Json → Text)
    (fromisoformat : Text → Option DateTime) (cfg : FreshnessConfig) (now : Instant) where
  -- The scan stops as soon as `batch_limit` cycles are due.
  unfoldable pub due_cycles : ℕ → ℕ → List ScholarshipCycle → Result (List ℕ)
  due_cycles batch_limit found [] = ok []
  due_cycles batch_limit found (cycle ∷ candidates) =
      bucket_of zone_info text_of fromisoformat cycle now cfg >>= λ bucket.
      let due = is_reverify_due bucket cycle.last_verified_at now cfg in
      let found_now = if due then found + 1 else found in
      let rest = due_cycles batch_limit found_now candidates in
      if leb batch_limit found_now
      then ok (or_due due cycle.cycle_id [])
      else rest >>= λ ids. ok (or_due due cycle.cycle_id ids)

abbrev pub Step : Type 0
Step = ℕ → ScholarshipCycle → Session Site → Session Site × Result Outcome

-- An outcome is committed and counted; what raised is rolled back.
abbrev pub settle : Session Site × Result Outcome → Counts → Session Site × Counts
settle (db, raise e) n = (rollback db, check_one n)
settle (db, ok outcome) n = (commit db, count outcome (check_one n))

module _ (step : Step) (others : ℕ → Site → Site) where
  abbrev pub reverify_found :
      Option ScholarshipCycle → ℕ → Session Site → Counts → Session Site × Counts
  reverify_found none id db n = (db, n)
  reverify_found (some cycle) id db n = settle (step id cycle db) n

  unfoldable pub reverify_each : List ℕ → Session Site → Counts → Session Site × Counts
  reverify_each [] db n = (db, n)
  reverify_each (id ∷ ids) db n =
      let site = others id db.current in
      let (next, m) = reverify_found (public_cycle id site.catalogue) id (opened site) n in
      reverify_each ids next m

  abbrev pub reverify_ids : Result (List ℕ) → Site → Site × Result Counts
  reverify_ids (raise e) site = (site, raise e)
  reverify_ids (ok ids) site =
      let (db, n) = reverify_each ids (opened site) no_counts in (db.current, ok n)

module _ (zone_info : Text → ZoneLookup) (text_of : Json → Text)
    (fromisoformat : Text → Option DateTime) (urls : UrlLibrary) (id_text : ℕ → Text)
    (cfg : FreshnessConfig) (now : Instant) (clients : ℕ → Clients)
    (fresh_task fresh_page fresh_snapshot : ℕ → ℕ) where
  -- One cycle of the sweep, with the fresh ids and the answers that it gets.
  abbrev pub step_of : ℕ → Step
  step_of source_id id cycle db =
      reverify_one_cycle zone_info text_of fromisoformat urls id_text cfg now (clients id)
        (fresh_snapshot id) (fresh_task id) (fresh_page id) source_id cycle db

  abbrev pub reverify_from : Option Source → ℕ → (ℕ → Site → Site) → Site → Site × Result Counts
  reverify_from none batch_limit others site = (site, ok no_counts)
  reverify_from (some source) batch_limit others site =
      if not source.active
      then (site, ok no_counts)
      else reverify_ids (step_of source.source_id) others
          (due_cycles zone_info text_of fromisoformat cfg now batch_limit 0
            (published_cycles scan_limit (λ id. false) site.catalogue).0)
          site

  unfoldable pub reverify_due_cycles : ℕ → (ℕ → Site → Site) → Site → Site × Result Counts
  unfolding due_cycles reverify_each
  reverify_due_cycles batch_limit others site =
      reverify_from (official_source site) batch_limit others site
