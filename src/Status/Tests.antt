-- ===== src/Status/Tests.antt =====
-- Runs of src/app/domain/status.py, and the theorems about it at concrete inputs.
use edufurthersf_be.Prelude.{◌+◌, ◌-◌, ◌≡◌, refl, ◌↔◌, Option, none, some, ok, if◌then◌else◌}
use edufurthersf_be.Prelude.Text.{Text, codes, text_eq}
use edufurthersf_be.Time.{seconds, hours, days}
use edufurthersf_be.Zones.{WallTime, east, fixed, ZoneLookup, found, not_found, malformed}
use edufurthersf_be.Status.{open_verified, date, deadline_cutoff, evaluate_public_status}
use edufurthersf_be.Status.Cutoff.{naive}
use edufurthersf_be.Status.Open.{DeadlineAhead, ValidityAhead, open_exact}

-- Two zones of fixed offset; a name that climbs out of the database is malformed.
zones : Text → ZoneLookup
zones name =
    if text_eq name (codes "Etc/GMT-5")
    then found (fixed (east 5))
    else if text_eq name (codes "../UTC")
    then malformed
    else not_found

abbrev noon : WallTime
noon = days 100 + hours 12

abbrev gmt_5 : Option Text
gmt_5 = some (codes "Etc/GMT-5")

-- The end of day 100 is 9 hours later at UTC+5 than at UTC+14.
cutoffs :
    (deadline_cutoff zones (naive noon) date none ≡ ok (days 101 + seconds 86399 - hours 14))
    × (deadline_cutoff zones (naive noon) date gmt_5 ≡ ok (days 101 + seconds 86399 - hours 5))
unfolding deadline_cutoff zones text_eq
cutoffs = (refl, refl)

open_exact_example :
    (evaluate_public_status zones open_verified (some (naive noon)) none date none (days 100)
      ≡ ok open_verified)
    ↔ ((open_verified ≡ open_verified)
        × DeadlineAhead zones (some (naive noon)) date none (days 100)
        × ValidityAhead zones none (days 100))
open_exact_example = open_exact zones open_verified (some (naive noon)) none date none (days 100)

open_at :
    evaluate_public_status zones open_verified (some (naive noon)) none date none (days 100)
    ≡ ok open_verified
unfolding evaluate_public_status deadline_cutoff zones text_eq
open_at = refl
