-- ===== src/Status/Open.antt =====
-- When a cycle is shown open, and how its detail refines that.
use edufurthersf_be.Prelude.{
  ℕ, ◌+◌, ◌≤◌, ◌<◌, ◌≡◌, refl, ◌↔◌, Option, none, some, arith, leb, ok, bind_returned, ok-injective,
  Bool-cases, inl, inr, false, Bool, ◌⊎◌, if◌then◌else◌,
}
use edufurthersf_be.Prelude.Text.{Text}
use edufurthersf_be.Time.{Instant, days}
use edufurthersf_be.Zones.{WallTime, east, end_of_day, Zone, DateTime, ZoneLookup, found, not_found}
use edufurthersf_be.Status.{
  PublicStatus, open_verified, expected_to_reopen, status_unknown, Precision, date, closing_soon,
  open_now, lookup_zone, has_lapsed, has_expired, deadline_cutoff, evaluate_public_status,
  evaluate_status_detail,
}
use edufurthersf_be.Status.Cutoff.{naive, cutoff_fails_closed}

module _ (zone_info : Text → ZoneLookup) where
  -- The deadline of a cycle, if it has one, has a cutoff after `now`.
  abbrev pub DeadlineAhead : Option DateTime → Precision → Option Text → Instant → Type 0
  DeadlineAhead none precision timezone now = Unit
  DeadlineAhead (some deadline) precision timezone now =
      (cutoff : Instant) × (deadline_cutoff zone_info deadline precision timezone ≡ ok cutoff)
      × (now < cutoff)

  abbrev pub ValidityAhead : Option Instant → Instant → Type 0
  ValidityAhead none now = Unit
  ValidityAhead (some valid_until) now = now < valid_until

  has_lapsed-eq-false :
      (deadline : Option DateTime) (precision : Precision) (timezone : Option Text) (now : Instant)
      → (has_lapsed zone_info deadline precision timezone now ≡ ok false)
        ↔ DeadlineAhead deadline precision timezone now
  has_lapsed-eq-false none precision timezone now = (λ h. tt, λ h. refl)
  has_lapsed-eq-false (some deadline) precision timezone now = (
    λ h.
        let (cutoff, c, r) =
          bind_returned (deadline_cutoff zone_info deadline precision timezone)
            (λ cutoff. ok (leb cutoff now)) h in
        (cutoff, c, ground (arith, ok-injective r)),
    λ (cutoff, c, l). rw c (ground arith),
  )

  has_expired-eq-false :
      (valid_until : Option Instant) (now : Instant)
      → (has_expired zone_info valid_until now ≡ false) ↔ ValidityAhead valid_until now
  has_expired-eq-false none now = (λ h. tt, λ h. refl)
  has_expired-eq-false (some v) now = (λ h. ground arith, λ h. ground arith)

  abbrev reopened : Option Instant → Instant → Bool → PublicStatus
  reopened valid_until now lapsed =
      if lapsed
      then status_unknown
      else if has_expired zone_info valid_until now
      then status_unknown
      else open_verified

  open_needs :
      (deadline : Option DateTime) (valid_until : Option Instant) (precision : Precision)
      (timezone : Option Text) (now : Instant)
      → evaluate_public_status zone_info open_verified deadline valid_until precision timezone now
        ≡ ok open_verified
      → DeadlineAhead deadline precision timezone now × ValidityAhead valid_until now
  unfolding evaluate_public_status
  open_needs deadline valid_until precision timezone now h =
      let (lapsed, l, r) =
        bind_returned (has_lapsed zone_info deadline precision timezone now)
          (λ lapsed. ok (reopened valid_until now lapsed)) h in
      let status : reopened valid_until now lapsed ≡ open_verified = ok-injective r in
      let live : lapsed ≡ false = ground arith in
      let fresh : has_expired zone_info valid_until now ≡ false = ground arith in
      (
        (has_lapsed-eq-false deadline precision timezone now).0 (cc),
        (has_expired-eq-false valid_until now).0 fresh,
      )

  open_suffices :
      (deadline : Option DateTime) (valid_until : Option Instant) (precision : Precision)
      (timezone : Option Text) (now : Instant)
      → DeadlineAhead deadline precision timezone now
      → ValidityAhead valid_until now
      → evaluate_public_status zone_info open_verified deadline valid_until precision timezone now
        ≡ ok open_verified
  unfolding evaluate_public_status
  open_suffices deadline valid_until precision timezone now d v = rw (
    (has_lapsed-eq-false deadline precision timezone now).1 d,
    (has_expired-eq-false valid_until now).1 v,
  )

  stored_open :
      (stored : PublicStatus) (deadline : Option DateTime) (valid_until : Option Instant)
      (precision : Precision) (timezone : Option Text) (now : Instant)
      → evaluate_public_status zone_info stored deadline valid_until precision timezone now
        ≡ ok open_verified
      → stored ≡ open_verified
  unfolding evaluate_public_status
  stored_open open_verified deadline valid_until precision timezone now h = refl
  stored_open expected_to_reopen deadline valid_until precision timezone now h = ok-injective h
  stored_open status_unknown deadline valid_until precision timezone now h = ok-injective h

  -- A cycle is shown open exactly if it is stored as open, its deadline, if it has one, has a
  -- cutoff later than now, and the end of its validity, if it has one, is later than now.
  pub open_exact :
      (stored : PublicStatus) (deadline : Option DateTime) (valid_until : Option Instant)
      (precision : Precision) (timezone : Option Text) (now : Instant)
      → (evaluate_public_status zone_info stored deadline valid_until precision timezone now
          ≡ ok open_verified)
        ↔ ((stored ≡ open_verified)
            × DeadlineAhead deadline precision timezone now
            × ValidityAhead valid_until now)
  open_exact stored deadline valid_until precision timezone now = (
    λ h.
        let s : stored ≡ open_verified =
          stored_open stored deadline valid_until precision timezone now h in
        let (d, v) = open_needs deadline valid_until precision timezone now (rw s at h) in
        (s, d, v),
    λ (s, d, v). rw s (open_suffices deadline valid_until precision timezone now d v),
  )

  ahead_earlier :
      (deadline : Option DateTime) (precision : Precision) (timezone : Option Text)
      (now later : Instant)
      → now ≤ later
      → DeadlineAhead deadline precision timezone later
      → DeadlineAhead deadline precision timezone now
  ahead_earlier none precision timezone now later h d = tt
  ahead_earlier (some deadline) precision timezone now later h (c, e, l) = (c, e, omega arith)

  valid_earlier :
      (valid_until : Option Instant) (now later : Instant)
      → now ≤ later
      → ValidityAhead valid_until later
      → ValidityAhead valid_until now
  valid_earlier none now later h v = tt
  valid_earlier (some u) now later h v = omega arith

  -- Time never opens a cycle: one that is shown open at some time was shown open at every earlier
  -- time, if what is stored is the same.
  pub open_earlier :
      (stored : PublicStatus) (deadline : Option DateTime) (valid_until : Option Instant)
      (precision : Precision) (timezone : Option Text) (now later : Instant)
      → now ≤ later
      → evaluate_public_status zone_info stored deadline valid_until precision timezone later
        ≡ ok open_verified
      → evaluate_public_status zone_info stored deadline valid_until precision timezone now
        ≡ ok open_verified
  open_earlier stored deadline valid_until precision timezone now later h o =
      let (s, d, v) = (open_exact stored deadline valid_until precision timezone later).0 o in
      (open_exact stored deadline valid_until precision timezone now).1 (
        s,
        ahead_earlier deadline precision timezone now later h d,
        valid_earlier valid_until now later h v,
      )

  -- A cycle whose date has no known zone, and that is shown open, would be shown open in every
  -- known zone that is at most 14 hours ahead of UTC on that day.
  pub open_fails_closed :
      (wall : WallTime) (valid_until : Option Instant) (unknown known : Option Text) (zone : Zone)
      (now : Instant)
      → lookup_zone zone_info unknown ≡ not_found
      → lookup_zone zone_info known ≡ found zone
      → zone (end_of_day wall) ≤ east 14
      → evaluate_public_status zone_info open_verified
          (some (naive wall))
          valid_until
          date
          unknown
          now
        ≡ ok open_verified
      → evaluate_public_status zone_info open_verified
          (some (naive wall))
          valid_until
          date
          known
          now
        ≡ ok open_verified
  open_fails_closed wall valid_until unknown known zone now u k z o =
      let deadline : Option DateTime = some (naive wall) in
      let (s, (c, e, l), v) =
        (open_exact open_verified deadline valid_until date unknown now).0 o in
      let (early, late, p, q, w) = cutoff_fails_closed zone_info wall unknown known zone u k z in
      let same : c ≡ early = ok-injective (cc) in
      (open_exact open_verified deadline valid_until date known now).1
        (refl, (late, q, omega arith), v)

  -- The two displays agree: a cycle that is shown open with a deadline is shown "closing soon"
  -- exactly if its cutoff is at most 14 days away, and "open" exactly if it is further away.
  pub detail_agrees :
      (stored : PublicStatus) (deadline : DateTime) (valid_until : Option Instant)
      (precision : Precision) (timezone : Option Text) (month : Option ℕ) (now : Instant)
      → evaluate_public_status zone_info stored (some deadline) valid_until precision timezone now
        ≡ ok open_verified
      → (cutoff : Instant) × (deadline_cutoff zone_info deadline precision timezone ≡ ok cutoff)
        × ((cutoff ≤ now + days 14)
              × (evaluate_status_detail zone_info open_verified
                    (some deadline)
                    precision
                    timezone
                    month
                    now
                  ≡ ok closing_soon)
            ⊎ (now + days 14 < cutoff)
              × (evaluate_status_detail zone_info open_verified
                    (some deadline)
                    precision
                    timezone
                    month
                    now
                  ≡ ok open_now))
  unfolding evaluate_status_detail
  detail_agrees stored deadline valid_until precision timezone month now o =
      let (s, (c, e, l), v) =
        (open_exact stored (some deadline) valid_until precision timezone now).0 o in
      (
        c,
        e,
        elim (Bool-cases (leb c (now + days 14))) [
          | inl y ↦ inl (ground arith, rw (e, y))
          | inr n ↦ inr (ground arith, rw (e, n))
        ],
      )
