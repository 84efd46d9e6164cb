-- ===== src/Status/Total.antt =====
-- Where the read path of a status returns, and where it raises.
use edufurthersf_be.Prelude.{
  ℕ, ◌+◌, ◌≡◌, refl, ◌≢◌, Option, none, some, leb, ok, false, Bool, if◌then◌else◌,
}
use edufurthersf_be.Prelude.Text.{Text}
use edufurthersf_be.Time.{Instant, days}
use edufurthersf_be.Zones.{DateTime, ZoneLookup, malformed}
use edufurthersf_be.Status.{
  PublicStatus, open_verified, expected_to_reopen, status_unknown, Precision, date, datetime,
  StatusDetail, closing_soon, open_now, lookup_zone, has_lapsed, has_expired,
  evaluate_public_status, evaluate_status_detail,
}
use edufurthersf_be.Status.Cutoff.{cutoff_total}

module _ (zone_info : Text → ZoneLookup) where
  abbrev reopened : Option Instant → Instant → Bool → PublicStatus
  reopened valid_until now lapsed =
      if lapsed
      then status_unknown
      else if has_expired zone_info valid_until now
      then status_unknown
      else open_verified

  has_lapsed_total :
      (deadline : Option DateTime) (precision : Precision) (timezone : Option Text) (now : Instant)
      → lookup_zone zone_info timezone ≢ malformed
      → (b : Bool) × (has_lapsed zone_info deadline precision timezone now ≡ ok b)
  has_lapsed_total none precision timezone now h = (false, refl)
  has_lapsed_total (some deadline) precision timezone now h =
      let (c, e) = cutoff_total zone_info deadline precision timezone h in (leb c now, rw e)

  public_total :
      (stored : PublicStatus) (deadline : Option DateTime) (valid_until : Option Instant)
      (precision : Precision) (timezone : Option Text) (now : Instant)
      → lookup_zone zone_info timezone ≢ malformed
      → (shown : PublicStatus) × (evaluate_public_status zone_info stored deadline valid_until
            precision timezone now
          ≡ ok shown)
  unfolding evaluate_public_status
  public_total open_verified deadline valid_until precision timezone now h =
      let (b, e) = has_lapsed_total deadline precision timezone now h in
      (reopened valid_until now b, rw e)
  public_total expected_to_reopen deadline valid_until precision timezone now h = (_, refl)
  public_total status_unknown deadline valid_until precision timezone now h = (_, refl)

  detail_total :
      (shown : PublicStatus) (deadline : Option DateTime) (precision : Precision)
      (timezone : Option Text) (month : Option ℕ) (now : Instant)
      → lookup_zone zone_info timezone ≢ malformed
      → (detail : StatusDetail) × (evaluate_status_detail zone_info shown deadline precision
            timezone month now
          ≡ ok detail)
  unfolding evaluate_status_detail
  detail_total open_verified none precision timezone month now h = (_, refl)
  detail_total open_verified (some deadline) precision timezone month now h =
      let (c, e) = cutoff_total zone_info deadline precision timezone h in
      (if leb c (now + days 14) then closing_soon else open_now, rw e)
  detail_total expected_to_reopen deadline precision timezone month now h = (_, refl)
  detail_total status_unknown deadline precision timezone month now h = (_, refl)

  -- Reading a status and its detail returns unless the name of the time zone is malformed.
  pub status_total :
      (stored : PublicStatus) (deadline : Option DateTime) (valid_until : Option Instant)
      (precision : Precision) (timezone : Option Text) (month : Option ℕ) (now : Instant)
      → lookup_zone zone_info timezone ≢ malformed
      → (shown : PublicStatus) × (detail : StatusDetail) × (evaluate_public_status zone_info stored
            deadline valid_until precision timezone now
          ≡ ok shown)
        × (evaluate_status_detail zone_info shown deadline precision timezone month now ≡ ok detail)
  status_total stored deadline valid_until precision timezone month now h =
      let (shown, e) = public_total stored deadline valid_until precision timezone now h in
      let (detail, f) = detail_total shown deadline precision timezone month now h in
      (shown, detail, e, f)

  -- What makes the read of a status raise: the cycle is stored as open, and its deadline needs the zone, since it is a
  -- date or has no offset of its own, but the name of the zone is malformed.
  abbrev pub NeedsZone : Option DateTime → Precision → Type 0
  NeedsZone none precision = ⊥
  NeedsZone (some deadline) date = Unit
  NeedsZone (some deadline) datetime = deadline.offset ≡ none

  abbrev pub IsBroken : PublicStatus → Option DateTime → Precision → Option Text → Type 0
  IsBroken stored deadline precision timezone =
      (stored ≡ open_verified)
      × NeedsZone deadline precision
      × (lookup_zone zone_info timezone ≡ malformed)
