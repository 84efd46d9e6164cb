-- ===== src/Freshness/Buckets.antt =====
-- How a cycle's bucket follows from its status, and when it turns due.
use edufurthersf_be.Prelude.{
  ℕ, ◌+◌, ◌≤◌, ◌<◌, ◌≡◌, refl, ◌≢◌, ◌⊎◌, inl, inr, Option, none, some, arith, leb, ok,
  bind_returned, ok-injective, Bool-cases, sym, subst, if◌then◌else◌,
}
use edufurthersf_be.Prelude.Text.{Text}
use edufurthersf_be.Time.{Instant, days}
use edufurthersf_be.Calendar.{month, month_range}
use edufurthersf_be.Zones.{DateTime, ZoneLookup, malformed}
use edufurthersf_be.Status.{
  PublicStatus, open_verified, expected_to_reopen, status_unknown, Precision, lookup_zone,
  deadline_cutoff, evaluate_status_detail, closing_soon, open_now,
}
use edufurthersf_be.Freshness.{
  FreshnessBucket, open_far, open_near, rolling_open, upcoming_near, upcoming_far, closed_archive,
  expected_or_unknown, FreshnessConfig, months_until, classify_bucket,
}
use edufurthersf_be.Status.Cutoff.{cutoff_total}

-- Which statuses a bucket holds.
abbrev pub Holds : FreshnessBucket → PublicStatus → Type 0
Holds open_far s = s ≡ open_verified
Holds open_near s = s ≡ open_verified
Holds rolling_open s = s ≡ open_verified
Holds upcoming_near s = s ≡ expected_to_reopen
Holds upcoming_far s = s ≡ expected_to_reopen
Holds expected_or_unknown s = s ≢ open_verified
Holds closed_archive s = ⊥

-- The months until a stated month are less than twelve, and lead from this month to that one.
pub months_until_lem :
    (expected : ℕ) (now : Instant)
    → 1 ≤ expected
    → expected ≤ 12
    → (months_until expected now < 12)
      × ((month now + months_until expected now ≡ expected)
          ⊎ (month now + months_until expected now ≡ expected + 12))
months_until_lem expected now h k = let (lo, hi) = month_range now in (omega arith, omega arith)

beyond :
    (cutoff now : Instant) (cfg : FreshnessConfig)
    → 14 ≤ cfg.near_deadline_days
    → (if leb cutoff (now + days cfg.near_deadline_days) then open_near else open_far) ≡ open_far
    → (if leb cutoff (now + days 14) then closing_soon else open_now) ≡ closing_soon
    → ⊥
beyond cutoff now cfg w far soon = ground arith

module _ (zone_info : Text → ZoneLookup) where
  -- Every cycle with a time zone that is not malformed falls into one bucket, which holds its
  -- status; no cycle is ever put into the archive.
  pub classify_total :
      (status : PublicStatus) (deadline : Option DateTime) (precision : Precision)
      (timezone : Option Text) (reopen_month : Option ℕ) (now : Instant) (cfg : FreshnessConfig)
      → lookup_zone zone_info timezone ≢ malformed
      → (bucket : FreshnessBucket) × (classify_bucket zone_info status deadline precision timezone
            reopen_month now cfg
          ≡ ok bucket)
        × Holds bucket status
  unfolding classify_bucket
  classify_total open_verified none precision timezone reopen_month now cfg h =
      (rolling_open, refl, refl)
  classify_total open_verified (some deadline) precision timezone reopen_month now cfg h =
      let (c, e) = cutoff_total zone_info deadline precision timezone h in
      elim (Bool-cases (leb c (now + days cfg.near_deadline_days))) [
        | inl y ↦ (open_near, rw (e, y), refl)
        | inr n ↦ (open_far, rw (e, n), refl)
      ]
  classify_total expected_to_reopen deadline precision timezone none now cfg h =
      (expected_or_unknown, refl, λ e. cc)
  classify_total expected_to_reopen deadline precision timezone (some m) now cfg h =
      elim (Bool-cases (leb (months_until m now) cfg.upcoming_near_months)) [
        | inl y ↦ (upcoming_near, rw y, refl)
        | inr n ↦ elim (Bool-cases (leb (months_until m now) cfg.upcoming_far_months)) [
          | inl y ↦ (upcoming_far, rw (n, y), refl)
          | inr k ↦ (expected_or_unknown, rw (n, k), λ e. cc)
        ]
      ]
  classify_total status_unknown deadline precision timezone reopen_month now cfg h =
      (expected_or_unknown, refl, λ e. cc)

  -- An open cycle that is in the far bucket is never displayed as closing soon, if the near bucket
  -- begins at least 14 days before the deadline.
  pub far_not_closing :
      (deadline : DateTime) (precision : Precision) (timezone : Option Text)
      (reopen_month : Option ℕ) (now : Instant) (cfg : FreshnessConfig)
      → 14 ≤ cfg.near_deadline_days
      → classify_bucket zone_info open_verified
          (some deadline)
          precision
          timezone
          reopen_month
          now
          cfg
        ≡ ok open_far
      → evaluate_status_detail zone_info open_verified
          (some deadline)
          precision
          timezone
          reopen_month
          now
        ≢ ok closing_soon
  unfolding classify_bucket evaluate_status_detail
  far_not_closing deadline precision timezone reopen_month now cfg w far soon =
      let cutoff = deadline_cutoff zone_info deadline precision timezone in
      let (c, e, f) =
        bind_returned cutoff
          (λ c. ok (if leb c (now + days cfg.near_deadline_days) then open_near else open_far))
          far in
      let (d, e', g) =
        bind_returned cutoff (λ c. ok (if leb c (now + days 14) then closing_soon else open_now))
          soon in
      let same : c ≡ d = ok-injective (cc) in
      beyond c now cfg w (ok-injective f) (
        subst (λ x. (if leb x (now + days 14) then closing_soon else open_now) ≡ closing_soon)
          (sym same) (ok-injective g))
