-- ===== src/History.antt =====
-- The operations that write published records (src/app/infra/publication.py, src/app/infra/withdrawals.py and the
-- two jobs of src/app/infra/freshness.py) as steps of one site, in any order, and with any answers of the
-- outside. A correction is loaded and written in one step, since it holds the lock on the scholarship.
pub mod Invariant
mod Tests
use edufurthersf_be.Prelude.{ℕ, ◌≡◌, ◌≢◌, Bool, String, List, All, Option, Result, ok}
use edufurthersf_be.Prelude.Text.{Text}
use edufurthersf_be.Time.{Instant}
use edufurthersf_be.Zones.{DateTime, ZoneLookup}
use edufurthersf_be.Json.{Json}
use edufurthersf_be.Freshness.{FreshnessConfig}
use edufurthersf_be.Urls.{UrlLibrary}
use edufurthersf_be.Catalogue.{ScholarshipCycle, Catalogue}
use edufurthersf_be.Publishing.{CycleValues, publish_cycle, load_cycle_for_update, update_cycle}
use edufurthersf_be.Withdrawals.{withdraw_scholarship}
use edufurthersf_be.Refresh.{refresh_due_statuses}
use edufurthersf_be.Pages.{Site, Clients}
use edufurthersf_be.Prelude.Session.{opened}
use edufurthersf_be.Reverify.Due.{public_cycle, no_counts, reverify_found, step_of}

abbrev pub set_catalogue : Catalogue → Site → Site
set_catalogue catalogue site = record site { catalogue = catalogue }

module _ (zone_info : Text → ZoneLookup) (text_of : Json → Text)
    (fromisoformat : Text → Option DateTime) (urls : UrlLibrary) (id_text : ℕ → Text)
    (published_key : ℕ → Text → Text → String) (withdrawn_key : ℕ → String) where
  pub data Step (s : Site) : Site → Type 0 where
    publish :
        (cycle_id event_id : ℕ) (created_at : Instant) (id : ℕ) (v : CycleValues) (actor : Text)
        → All (λ c. c.cycle_id ≢ cycle_id) s.catalogue.cycles
        → Step s (
            set_catalogue
              (publish_cycle id_text published_key cycle_id event_id created_at id v actor
                s.catalogue).0
              s)
    update :
        (id cycle_id : ℕ) (cycle : ScholarshipCycle) (v : CycleValues) (changed_fields : List Text)
        (actor : Text)
        → load_cycle_for_update id cycle_id s.catalogue ≡ ok cycle
        → Step s (set_catalogue (update_cycle id_text cycle v changed_fields actor s.catalogue).0 s)
    withdraw :
        (event_id id : ℕ) (reason actor : Text)
        → Step s (
            set_catalogue
              (withdraw_scholarship id_text withdrawn_key event_id id reason actor s.catalogue).0
              s)
    refresh :
        (cfg : FreshnessConfig) (limit : ℕ) (now : Instant) (locked : ℕ → Bool)
        → Step s (
            set_catalogue
              (refresh_due_statuses zone_info text_of fromisoformat cfg limit now locked
                s.catalogue).0
              s)
    reverify :
        (cfg : FreshnessConfig) (now : Instant) (clients : ℕ → Clients)
        (fresh_task fresh_page fresh_snapshot : ℕ → ℕ) (source_id id : ℕ)
        → Step s
            (reverify_found
              (step_of zone_info text_of fromisoformat urls id_text cfg now clients fresh_task
                fresh_page fresh_snapshot source_id)
              (λ id site. site)
              (public_cycle id s.catalogue)
              id
              (opened s)
              no_counts).0.current

  -- Any number of steps.
  pub data Reaches (s : Site) : Site → Type 0 where
    start : Reaches s s
    then : {t u : Site} → Reaches s t → Step t u → Reaches s u
