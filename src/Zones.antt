-- ===== src/Zones.antt =====
-- What src/app/domain/status.py uses of `datetime` and `zoneinfo`: local date-times, offsets from UTC,
-- the end of a day, and zones looked up by name.
use edufurthersf_be.Prelude.{ℕ, ◌+◌, ◌-◌, ◌/◌, Option}
use edufurthersf_be.Time.{Instant, seconds, hours, days}

-- Microseconds on the wall clock since 0001-01-01T00:00 local time.
abbrev pub WallTime : Type 0
WallTime = ℕ

-- An offset from UTC, with 24 hours added: `utcoffset` is more than -24 and less than 24 hours.
abbrev pub Offset : Type 0
Offset = ℕ

-- `dt.timezone(dt.timedelta(hours=h))` east of Greenwich.
abbrev pub east : ℕ → Offset
east h = hours (24 + h)

abbrev pub utc : Offset
utc = east 0

-- The instant at which a clock with this offset shows this wall time.
abbrev pub at_offset : WallTime → Offset → Instant
at_offset wall offset = wall + hours 48 - offset

-- A zone gives the offset that is in force at a wall time.
abbrev pub Zone : Type 0
Zone = WallTime → Offset

abbrev pub fixed : Offset → Zone
fixed offset wall = offset

-- `value.replace(tzinfo=zone).astimezone(UTC)`.
abbrev pub localize : WallTime → Zone → Instant
localize wall zone = at_offset wall (zone wall)

-- `dt.datetime.combine(value.date(), dt.time(23, 59, 59))`.
abbrev pub end_of_day : WallTime → WallTime
end_of_day wall = days (wall / days 1) + seconds 86399

-- A `datetime`: with `tzinfo` the offset is known, without it the value is naive.
pub record DateTime : Type 0 where
  pub wall : WallTime
  pub offset : Option Offset

-- `ZoneInfo(name)`: a zone, `ZoneInfoNotFoundError`, or the `ValueError` of a malformed name.
pub data ZoneLookup : Type 0 where
  found : Zone → ZoneLookup
  not_found malformed : ZoneLookup
