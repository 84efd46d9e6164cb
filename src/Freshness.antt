-- ===== src/Freshness.antt =====
-- src/app/domain/freshness.py: the bucket of a cycle in the re-verification cadence, and when its
-- evidence is due.
pub mod Buckets
pub mod Recheck
mod Tests
use edufurthersf_be.Prelude.{
  ℕ, ◌+◌, ◌-◌, ◌%◌, Bool, true, false, not, ◌&&◌, ◌||◌, Option, none, some, leb, ltb, if◌then◌else◌,
  Result, ok, ◌>>=◌,
}
use edufurthersf_be.Prelude.Text.{Text, text_eq}
use edufurthersf_be.Time.{Instant, hours, days}
use edufurthersf_be.Calendar.{month}
use edufurthersf_be.Zones.{DateTime, ZoneLookup}
use edufurthersf_be.Status.{
  PublicStatus, open_verified, expected_to_reopen, status_unknown, Precision, deadline_cutoff,
  is_within,
}

pub data FreshnessBucket : Type 0 where
  open_far open_near rolling_open upcoming_near upcoming_far : FreshnessBucket
  expected_or_unknown closed_archive : FreshnessBucket

pub record FreshnessConfig : Type 0 where
  pub near_deadline_days : ℕ
  pub upcoming_near_months : ℕ
  pub upcoming_far_months : ℕ
  pub open_far_fetch_hours : ℕ
  pub open_far_max_age_hours : ℕ
  pub open_near_fetch_hours : ℕ
  pub open_near_max_age_hours : ℕ
  pub rolling_fetch_hours : ℕ
  pub rolling_max_age_hours : ℕ
  pub upcoming_near_fetch_hours : ℕ
  pub upcoming_far_fetch_hours : ℕ
  pub upcoming_max_age_hours : ℕ
  pub unknown_fetch_hours : ℕ
  pub unknown_max_age_hours : ℕ
  pub closed_fetch_hours : ℕ
  pub closed_max_age_hours : ℕ

abbrev pub fetch_hours_field : FreshnessBucket → FreshnessConfig → ℕ
fetch_hours_field open_far cfg = cfg.open_far_fetch_hours
fetch_hours_field open_near cfg = cfg.open_near_fetch_hours
fetch_hours_field rolling_open cfg = cfg.rolling_fetch_hours
fetch_hours_field upcoming_near cfg = cfg.upcoming_near_fetch_hours
fetch_hours_field upcoming_far cfg = cfg.upcoming_far_fetch_hours
fetch_hours_field expected_or_unknown cfg = cfg.unknown_fetch_hours
fetch_hours_field closed_archive cfg = cfg.closed_fetch_hours

abbrev pub max_age_hours_field : FreshnessBucket → FreshnessConfig → ℕ
max_age_hours_field open_far cfg = cfg.open_far_max_age_hours
max_age_hours_field open_near cfg = cfg.open_near_max_age_hours
max_age_hours_field rolling_open cfg = cfg.rolling_max_age_hours
max_age_hours_field upcoming_near cfg = cfg.upcoming_max_age_hours
max_age_hours_field upcoming_far cfg = cfg.upcoming_max_age_hours
max_age_hours_field expected_or_unknown cfg = cfg.unknown_max_age_hours
max_age_hours_field closed_archive cfg = cfg.closed_max_age_hours

abbrev pub fetch_interval : FreshnessBucket → FreshnessConfig → ℕ
fetch_interval bucket cfg = hours (fetch_hours_field bucket cfg)

abbrev pub max_evidence_age : FreshnessBucket → FreshnessConfig → ℕ
max_evidence_age bucket cfg = hours (max_age_hours_field bucket cfg)

-- `(expected_reopen_month - now.month) % 12`, where `%` is never negative.
abbrev pub months_until : ℕ → Instant → ℕ
months_until expected now = (expected + 12 - month now) % 12

reopen_bucket : Option ℕ → Instant → FreshnessConfig → FreshnessBucket
reopen_bucket none now cfg = expected_or_unknown
reopen_bucket (some expected) now cfg =
    if leb (months_until expected now) cfg.upcoming_near_months
    then upcoming_near
    else if leb (months_until expected now) cfg.upcoming_far_months
    then upcoming_far
    else expected_or_unknown

module _ (zone_info : Text → ZoneLookup) where
  unfoldable pub classify_bucket :
      PublicStatus
      → Option DateTime
      → Precision
      → Option Text
      → Option ℕ
      → Instant
      → FreshnessConfig
      → Result FreshnessBucket
  unfolding reopen_bucket
  classify_bucket open_verified none precision timezone reopen_month now cfg = ok rolling_open
  classify_bucket open_verified (some deadline) precision timezone reopen_month now cfg = do
    cutoff ← deadline_cutoff zone_info deadline precision timezone
    ok (if leb cutoff (now + days cfg.near_deadline_days) then open_near else open_far)
  classify_bucket expected_to_reopen deadline precision timezone reopen_month now cfg =
      ok (reopen_bucket reopen_month now cfg)
  classify_bucket status_unknown deadline precision timezone reopen_month now cfg =
      ok expected_or_unknown

-- `now - last_verified_at >= fetch_interval(...)`.
unfoldable pub is_reverify_due : FreshnessBucket → Option Instant → Instant → FreshnessConfig → Bool
is_reverify_due bucket none now cfg = true
is_reverify_due bucket (some last_verified_at) now cfg =
    leb (last_verified_at + fetch_interval bucket cfg) now

unfoldable pub is_unchanged_recheck : Option Text → Text → ℕ → Bool → Bool
is_unchanged_recheck none new_hash http_status status_still_valid = false
is_unchanged_recheck (some previous_hash) new_hash http_status status_still_valid =
    if not (leb 200 http_status && ltb http_status 400)
    then false
    else if not (text_eq new_hash previous_hash)
    then false
    else status_still_valid
