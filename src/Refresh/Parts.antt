-- ===== src/Refresh/Parts.antt =====
-- The steps of one refresh, and the fields that it does not write.
use edufurthersf_be.Prelude.{
  ◌≡◌, refl, sym, ◌⊎◌, inl, inr, Bool, true, false, Option, leb, Bool-cases, Result, ok, raise,
  bind_returned, ok-injective,
}
use edufurthersf_be.Prelude.Text.{Text}
use edufurthersf_be.Time.{Instant}
use edufurthersf_be.Zones.{DateTime, ZoneLookup}
use edufurthersf_be.Json.{Json}
use edufurthersf_be.Status.{PublicStatus, open_verified, expected_to_reopen, status_unknown}
use edufurthersf_be.Freshness.{FreshnessBucket, FreshnessConfig}
use edufurthersf_be.Catalogue.{ScholarshipCycle}
use edufurthersf_be.Catalogue.Invariant.{identity}
use edufurthersf_be.Refresh.{
  evidence_deadline, target, same_status, apply_target, bucket_of, read_status, renewed_until,
  refresh_one_status, refreshed,
}

module _ (zone_info : Text → ZoneLookup) (text_of : Json → Text)
    (fromisoformat : Text → Option DateTime) where
  -- What a refresh that returned computed.
  pub record Steps (cfg : FreshnessConfig) (now : Instant) (c : ScholarshipCycle)
      (r : ScholarshipCycle × Bool) : Type 0 where
    pub bucket : FreshnessBucket
    pub evaluated : PublicStatus
    pub until : Option Instant
    pub classified : bucket_of zone_info text_of fromisoformat c now cfg ≡ ok bucket
    pub read : read_status zone_info text_of fromisoformat c now ≡ ok evaluated
    pub renewed :
        renewed_until zone_info text_of fromisoformat c c.public_status
          (evidence_deadline c bucket cfg)
        ≡ ok until
    pub result :
        apply_target
          (record c { status_valid_until = until })
          (target evaluated c.public_status (leb (evidence_deadline c bucket cfg) now))
        ≡ r

  pub steps :
      (cfg : FreshnessConfig) (now : Instant) (c : ScholarshipCycle) (r : ScholarshipCycle × Bool)
      → refresh_one_status zone_info text_of fromisoformat cfg now c ≡ ok r
      → Steps cfg now c r
  unfolding refresh_one_status
  steps cfg now c r h =
      let (bucket, e, h1) =
        bind_returned (bucket_of zone_info text_of fromisoformat c now cfg) _ h in
      let (evaluated, f, h2) =
        bind_returned (read_status zone_info text_of fromisoformat c now) _ h1 in
      let (until, g, h3) =
        bind_returned
          (renewed_until zone_info text_of fromisoformat c c.public_status
            (evidence_deadline c bucket cfg))
          _ h2 in
      record {
        bucket = bucket;
        evaluated = evaluated;
        until = until;
        classified = e;
        read = f;
        renewed = g;
        result = ok-injective h3;
      }

apply_target-rest :
    (c : ScholarshipCycle) (p : PublicStatus × Bool)
    → (identity (apply_target c p).0 ≡ identity c) × ((apply_target c p).0.cycle_id ≡ c.cycle_id)
apply_target-rest c (status, stale) = elim (Bool-cases (same_status status c.public_status)) [
  | inl e ↦ rw e (refl, refl)
  | inr e ↦ rw e (refl, refl)
]

-- The two statuses that a refresh may leave.
pub same-or-unknown :
    (c : ScholarshipCycle) (evaluated : PublicStatus) (stale : Bool)
    → ((apply_target c (target evaluated c.public_status stale)).0.public_status ≡ c.public_status)
      ⊎ ((apply_target c (target evaluated c.public_status stale)).0.public_status ≡ status_unknown)
same-or-unknown c evaluated stale = by_status c.public_status refl evaluated stale
  where
    by_status :
        (s : PublicStatus)
        → c.public_status ≡ s
        → (evaluated : PublicStatus) (stale : Bool)
        → ((apply_target c (target evaluated c.public_status stale)).0.public_status
            ≡ c.public_status)
          ⊎ ((apply_target c (target evaluated c.public_status stale)).0.public_status
              ≡ status_unknown)
    by_status open_verified e open_verified true = inr (rw e refl)
    by_status open_verified e open_verified false = inl (rw e refl)
    by_status open_verified e expected_to_reopen true = inr (rw e refl)
    by_status open_verified e expected_to_reopen false = inl (rw e refl)
    by_status open_verified e status_unknown stale = inr (rw e refl)
    by_status expected_to_reopen e open_verified stale = inl (rw e refl)
    by_status expected_to_reopen e expected_to_reopen stale = inl (rw e refl)
    by_status expected_to_reopen e status_unknown stale = inr (rw e refl)
    by_status status_unknown e open_verified stale = inl (rw e refl)
    by_status status_unknown e expected_to_reopen stale = inl (rw e refl)
    by_status status_unknown e status_unknown stale = inl (rw e refl)

module _ (zone_info : Text → ZoneLookup) (text_of : Json → Text)
    (fromisoformat : Text → Option DateTime) where
  -- A refresh writes neither the key nor the triple of a cycle, and leaves its status or makes it unknown.
  pub refreshed-rest :
      (cfg : FreshnessConfig) (now : Instant) (c : ScholarshipCycle)
      (r : Result (ScholarshipCycle × Bool))
      → refresh_one_status zone_info text_of fromisoformat cfg now c ≡ r
      → let d = (refreshed zone_info text_of fromisoformat cfg now c).0 in
        (identity d ≡ identity c)
        × (d.cycle_id ≡ c.cycle_id)
        × ((d.public_status ≡ c.public_status) ⊎ (d.public_status ≡ status_unknown))
  refreshed-rest cfg now c (raise e) h = rw h (refl, refl, inl refl)
  refreshed-rest cfg now c (ok r) h =
      let s = steps zone_info text_of fromisoformat cfg now c r h in
      let kept = record c { status_valid_until = s.until } in
      let stale = leb (evidence_deadline c s.bucket cfg) now in
      let (i, k) = apply_target-rest kept (target s.evaluated c.public_status stale) in
      rw (h, sym s.result) (i, k, same-or-unknown kept s.evaluated stale)
