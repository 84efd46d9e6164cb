-- ===== src/Status/Cutoff.antt =====
-- Where the cutoff of a deadline falls, with and without a time zone.
use edufurthersf_be.Prelude.{◌≤◌, ◌≡◌, refl, ◌≢◌, Option, none, some, arith, ok}
use edufurthersf_be.Prelude.Text.{Text}
use edufurthersf_be.Time.{Instant}
use edufurthersf_be.Zones.{
  WallTime, Offset, at_offset, localize, east, end_of_day, Zone, DateTime, ZoneLookup, found,
  not_found, malformed,
}
use edufurthersf_be.Status.{
  Precision, date, datetime, naive_cutoff, date_cutoff, exact_cutoff, lookup_zone, deadline_cutoff,
}

-- A deadline that is stated as a date and has no offset of its own.
abbrev pub naive : WallTime → DateTime
naive wall = record { wall = wall; offset = none }

naive_cutoff_total :
    (wall : WallTime) (zone : ZoneLookup)
    → zone ≢ malformed
    → (c : Instant) × (naive_cutoff wall zone ≡ ok c)
unfolding naive_cutoff
naive_cutoff_total wall (found zone) h = (_, refl)
naive_cutoff_total wall not_found h = (_, refl)
naive_cutoff_total wall malformed h = absurd (h refl)

date_cutoff_total :
    (wall : WallTime) (zone : ZoneLookup)
    → zone ≢ malformed
    → (c : Instant) × (date_cutoff wall zone ≡ ok c)
unfolding date_cutoff
date_cutoff_total wall (found zone) h = (_, refl)
date_cutoff_total wall not_found h = (_, refl)
date_cutoff_total wall malformed h = absurd (h refl)

exact_cutoff_total :
    (wall : WallTime) (offset : Option Offset) (zone : ZoneLookup)
    → zone ≢ malformed
    → (c : Instant) × (exact_cutoff wall offset zone ≡ ok c)
unfolding exact_cutoff
exact_cutoff_total wall (some offset) zone h = (_, refl)
exact_cutoff_total wall none zone h = naive_cutoff_total wall zone h

module _ (zone_info : Text → ZoneLookup) where
  -- The deadline of a date in a zone that is not known passes no later than that of the same date
  -- in any zone that is at most 14 hours ahead of UTC.
  pub cutoff_fails_closed :
      (wall : WallTime) (unknown known : Option Text) (zone : Zone)
      → lookup_zone zone_info unknown ≡ not_found
      → lookup_zone zone_info known ≡ found zone
      → zone (end_of_day wall) ≤ east 14
      → (early late : Instant) × (deadline_cutoff zone_info (naive wall) date unknown ≡ ok early)
        × (deadline_cutoff zone_info (naive wall) date known ≡ ok late)
        × (early ≤ late)
  unfolding deadline_cutoff
  cutoff_fails_closed wall unknown known zone u k z = (
    at_offset (end_of_day wall) (east 14),
    localize (end_of_day wall) zone,
    rw (u, date_cutoff),
    rw (k, date_cutoff),
    omega arith,
  )

  pub cutoff_total :
      (deadline : DateTime) (precision : Precision) (timezone : Option Text)
      → lookup_zone zone_info timezone ≢ malformed
      → (c : Instant) × (deadline_cutoff zone_info deadline precision timezone ≡ ok c)
  unfolding deadline_cutoff
  cutoff_total deadline date timezone h = date_cutoff_total deadline.wall _ h
  cutoff_total deadline datetime timezone h = exact_cutoff_total deadline.wall deadline.offset _ h
