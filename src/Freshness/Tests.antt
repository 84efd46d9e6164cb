-- ===== src/Freshness/Tests.antt =====
-- Runs of src/app/domain/freshness.py, and the theorems about it at concrete inputs.
use edufurthersf_be.Prelude.{◌≡◌, refl, none, some, ok}
use edufurthersf_be.Prelude.Text.{Text}
use edufurthersf_be.Time.{days}
use edufurthersf_be.Zones.{ZoneLookup, not_found}
use edufurthersf_be.Status.{open_verified, date, deadline_cutoff}
use edufurthersf_be.Status.Cutoff.{naive}
use edufurthersf_be.Freshness.{open_far, FreshnessConfig, classify_bucket}

-- The defaults of src/app/core/config.py.
abbrev cadence : FreshnessConfig
cadence = record {
  near_deadline_days = 14;
  upcoming_near_months = 1;
  upcoming_far_months = 2;
  open_far_fetch_hours = 24;
  open_far_max_age_hours = 48;
  open_near_fetch_hours = 6;
  open_near_max_age_hours = 12;
  rolling_fetch_hours = 24;
  rolling_max_age_hours = 48;
  upcoming_near_fetch_hours = 24;
  upcoming_far_fetch_hours = 168;
  upcoming_max_age_hours = 336;
  unknown_fetch_hours = 720;
  unknown_max_age_hours = 1440;
  closed_fetch_hours = 2160;
  closed_max_age_hours = 4320;
}

no_zones : Text → ZoneLookup
no_zones name = not_found

far_at :
    classify_bucket no_zones open_verified
      (some (naive (days 100)))
      date
      none
      none
      (days 50)
      cadence
    ≡ ok open_far
unfolding classify_bucket deadline_cutoff
far_at = refl
