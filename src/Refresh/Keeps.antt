-- ===== src/Refresh/Keeps.antt =====
-- The catalogue through a sweep of refreshes.
use edufurthersf_be.Prelude.{ℕ, ◌+◌, refl, ap, Bool, Option}
use edufurthersf_be.Prelude.Text.{Text}
use edufurthersf_be.Time.{Instant}
use edufurthersf_be.Zones.{DateTime, ZoneLookup}
use edufurthersf_be.Json.{Json}
use edufurthersf_be.Freshness.{FreshnessConfig}
use edufurthersf_be.Rows.Laws.{DistinctKeys, DistinctKeys-select_where, DistinctKeys-take}
use edufurthersf_be.Catalogue.{ScholarshipCycle, Catalogue, cycle_key, is_public}
use edufurthersf_be.Catalogue.Invariant.{IsCatalogue}
use edufurthersf_be.Catalogue.Invariant.Mapped.{IsQuiet-lowered, IsCatalogue-update_each}
use edufurthersf_be.Refresh.{published_cycles, refreshed, refresh_due_statuses}
use edufurthersf_be.Refresh.Parts.{refreshed-rest}

pub DistinctKeys-published :
    (limit : ℕ) (locked : ℕ → Bool) (db : Catalogue)
    → DistinctKeys cycle_key db.cycles
    → DistinctKeys cycle_key (published_cycles limit locked db).0
unfolding published_cycles
DistinctKeys-published limit locked db h =
    DistinctKeys-take cycle_key limit _ (
      DistinctKeys-select_where cycle_key (is_public db.scholarships) locked (limit + 1) db.cycles
        h)

module _ (zone_info : Text → ZoneLookup) (text_of : Json → Text)
    (fromisoformat : Text → Option DateTime) where
  abbrev pub refreshed_row : FreshnessConfig → Instant → ScholarshipCycle → ScholarshipCycle
  refreshed_row cfg now c = (refreshed zone_info text_of fromisoformat cfg now c).0

  -- A sweep of refreshes keeps the catalogue consistent.
  pub refresh_due_statuses-IsCatalogue :
      (cfg : FreshnessConfig) (limit : ℕ) (now : Instant) (locked : ℕ → Bool) (db : Catalogue)
      → IsCatalogue db
      → IsCatalogue (refresh_due_statuses zone_info text_of fromisoformat cfg limit now locked db).0
  unfolding refresh_due_statuses
  refresh_due_statuses-IsCatalogue cfg limit now locked db good =
      let rest : (c : ScholarshipCycle) → _ =
        λ c. refreshed-rest zone_info text_of fromisoformat cfg now c _ refl in
      IsCatalogue-update_each (refreshed_row cfg now) (published_cycles limit locked db).0 db
        (λ c. (rest c).1) (λ c. (rest c).0) (DistinctKeys-published limit locked db good.cycle_ids)
        (λ c m e.
          IsQuiet-lowered db.scholarships c (refreshed_row cfg now c) (ap (λ t. t.0) (rest c).0)
            (rest c).2)
        good
