-- ===== src/Status.antt =====
-- src/app/domain/status.py: the public status of a cycle, evaluated again at each read. The database of
-- time zones is the parameter `zone_info`.
pub mod Cutoff
pub mod Open
pub mod Total
mod Tests
use edufurthersf_be.Prelude.{
  ℕ, ◌+◌, Bool, false, Option, none, some, [], ◌∷◌, leb, if◌then◌else◌, Result, ok, raise,
  value_error, ◌>>=◌,
}
use edufurthersf_be.Prelude.Text.{Text}
use edufurthersf_be.Time.{Instant, days}
use edufurthersf_be.Zones.{
  WallTime, Offset, east, utc, at_offset, localize, end_of_day, DateTime, ZoneLookup, found,
  not_found, malformed,
}

pub data PublicStatus : Type 0 where
  open_verified expected_to_reopen status_unknown : PublicStatus

-- `deadline_precision`: "date", and any other text is taken for "datetime".
pub data Precision : Type 0 where
  date datetime : Precision

pub data StatusDetail : Type 0 where
  open_now closing_soon likely_to_open status_unknown : StatusDetail

abbrev pub fail_closed_tz : Offset
fail_closed_tz = east 14

abbrev pub closing_soon_window_days : ℕ
closing_soon_window_days = 14

-- `cutoff` in the branch of an exact date and time without an offset of its own.
naive_cutoff : WallTime → ZoneLookup → Result Instant
naive_cutoff wall (found zone) = ok (localize wall zone)
naive_cutoff wall not_found = ok (at_offset wall utc)
naive_cutoff wall malformed = raise (value_error "ZoneInfo keys must be normalized relative paths")

-- The end of the day where the provider is, or where that day ends first.
unfoldable pub date_cutoff : WallTime → ZoneLookup → Result Instant
date_cutoff wall (found zone) = ok (localize (end_of_day wall) zone)
date_cutoff wall not_found = ok (at_offset (end_of_day wall) fail_closed_tz)
date_cutoff wall malformed = raise (value_error "ZoneInfo keys must be normalized relative paths")

exact_cutoff : WallTime → Option Offset → ZoneLookup → Result Instant
exact_cutoff wall (some offset) zone = ok (at_offset wall offset)
exact_cutoff wall none zone = naive_cutoff wall zone

module _ (zone_info : Text → ZoneLookup) where
  -- `if timezone: try: ZoneInfo(timezone)`: an empty name counts as no name.
  abbrev pub lookup_zone : Option Text → ZoneLookup
  lookup_zone none = not_found
  lookup_zone (some []) = not_found
  lookup_zone (some (c ∷ name)) = zone_info (c ∷ name)

  unfoldable pub deadline_cutoff : DateTime → Precision → Option Text → Result Instant
  unfolding naive_cutoff date_cutoff exact_cutoff
  deadline_cutoff deadline datetime timezone =
      exact_cutoff deadline.wall deadline.offset (lookup_zone timezone)
  deadline_cutoff deadline date timezone = date_cutoff deadline.wall (lookup_zone timezone)

  -- `if deadline_at: cutoff = ...; cutoff <= current`.
  abbrev pub has_lapsed : Option DateTime → Precision → Option Text → Instant → Result Bool
  has_lapsed none precision timezone now = ok false
  has_lapsed (some deadline) precision timezone now = do
    cutoff ← deadline_cutoff deadline precision timezone
    ok (leb cutoff now)

  -- `status_valid_until and status_valid_until <= current`.
  abbrev pub has_expired : Option Instant → Instant → Bool
  has_expired none now = false
  has_expired (some valid_until) now = leb valid_until now

  unfoldable pub evaluate_public_status :
      PublicStatus
      → Option DateTime
      → Option Instant
      → Precision
      → Option Text
      → Instant
      → Result PublicStatus
  evaluate_public_status open_verified deadline valid_until precision timezone now = do
    lapsed ← has_lapsed deadline precision timezone now
    ok (
        if lapsed
        then status_unknown
        else if has_expired valid_until now
        then status_unknown
        else open_verified)
  evaluate_public_status stored deadline valid_until precision timezone now = ok stored

  -- `cutoff - current <= timedelta(days=n)`.
  abbrev pub is_within : Instant → Instant → ℕ → Bool
  is_within cutoff now n = leb cutoff (now + days n)

  unfoldable pub evaluate_status_detail :
      PublicStatus
      → Option DateTime
      → Precision
      → Option Text
      → Option ℕ
      → Instant
      → Result StatusDetail
  evaluate_status_detail open_verified none precision timezone reopen_month now = ok open_now
  evaluate_status_detail open_verified (some deadline) precision timezone reopen_month now = do
    cutoff ← deadline_cutoff deadline precision timezone
    ok (if is_within cutoff now closing_soon_window_days then closing_soon else open_now)
  evaluate_status_detail expected_to_reopen deadline precision timezone reopen_month now =
      ok likely_to_open
  evaluate_status_detail status_unknown deadline precision timezone reopen_month now =
      ok StatusDetail.status_unknown
