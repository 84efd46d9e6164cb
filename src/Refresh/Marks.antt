-- ===== src/Refresh/Marks.antt =====
-- When a downgrade is marked as one for staleness, which alone a later recheck may take back.
use edufurthersf_be.Prelude.{
  ℕ, ◌≡◌, ◌≤◌, refl, sym, ap, ◌∙◌, subst, Bool, true, false, Option, none, some, leb, leb→le,
  if◌then◌else◌, ok, bind_returned, ok-injective, arith, min,
}
use edufurthersf_be.Prelude.Text.{Text}
use edufurthersf_be.Time.{Instant}
use edufurthersf_be.Zones.{DateTime, ZoneLookup}
use edufurthersf_be.Json.{Json}
use edufurthersf_be.Status.{
  PublicStatus, open_verified, expected_to_reopen, status_unknown, deadline_cutoff,
  evaluate_public_status,
}
use edufurthersf_be.Facts.{DerivedFacts}
use edufurthersf_be.Freshness.{FreshnessBucket, FreshnessConfig}
use edufurthersf_be.Catalogue.{ScholarshipCycle}
use edufurthersf_be.Refresh.{
  bucket_of, evidence_deadline, target, apply_target, derived_facts, read_status, earliest,
  renewed_until, refresh_one_status,
}
use edufurthersf_be.Refresh.Parts.{steps}
use edufurthersf_be.Refresh.Reads.{leaves_open, reads_until}

pub passes : (a b c : ℕ) → a ≤ b → b ≤ c → leb a c ≡ true
passes a b c h k = ground arith

-- Where the status is read as unknown, no downgrade is marked.
unmarked :
    (k : ScholarshipCycle) (s : PublicStatus) (stale : Bool)
    → ((apply_target k (target status_unknown s stale)).0.public_status ≡ status_unknown)
      × ((apply_target k (target status_unknown s stale)).0.auto_downgraded ≡ k.auto_downgraded)
unmarked k s stale = by_status k.public_status refl
  where
    by_status :
        (t : PublicStatus)
        → k.public_status ≡ t
        → ((apply_target k (status_unknown, false)).0.public_status ≡ status_unknown)
          × ((apply_target k (status_unknown, false)).0.auto_downgraded ≡ k.auto_downgraded)
    by_status open_verified e = rw e (refl, refl)
    by_status expected_to_reopen e = rw e (refl, refl)
    by_status status_unknown e = rw e (refl, refl)

-- A mark is set only at a cycle that was open and stale.
marked :
    (k : ScholarshipCycle) (evaluated s : PublicStatus) (stale : Bool) (d : ScholarshipCycle)
    (changed : Bool)
    → k.public_status ≡ s
    → k.auto_downgraded ≡ false
    → apply_target k (target evaluated s stale) ≡ (d, changed)
    → d.auto_downgraded ≡ true
    → (s ≡ open_verified)
      × (stale ≡ true)
      × (d.status_valid_until ≡ k.status_valid_until)
      × (d.facts ≡ k.facts)
      × (d.public_status ≡ status_unknown)
marked k open_verified open_verified true d changed e m h o =
    let same = ap (λ t. t.0) (rw e at h) in
    (
      refl,
      refl,
      ap (λ x. x.status_valid_until) (sym same),
      ap (λ x. x.facts) (sym same),
      ap (λ x. x.public_status) (sym same),
    )
marked k expected_to_reopen open_verified true d changed e m h o =
    let same = ap (λ t. t.0) (rw e at h) in
    (
      refl,
      refl,
      ap (λ x. x.status_valid_until) (sym same),
      ap (λ x. x.facts) (sym same),
      ap (λ x. x.public_status) (sym same),
    )
marked k open_verified open_verified false d changed e m h o = cc (rw e at h)
marked k expected_to_reopen open_verified false d changed e m h o = cc (rw e at h)
marked k status_unknown open_verified stale d changed e m h o = cc (rw e at h)
marked k open_verified expected_to_reopen stale d changed e m h o = cc (rw e at h)
marked k expected_to_reopen expected_to_reopen stale d changed e m h o = cc (rw e at h)
marked k status_unknown expected_to_reopen stale d changed e m h o = cc (rw e at h)
marked k open_verified status_unknown stale d changed e m h o = cc (rw e at h)
marked k expected_to_reopen status_unknown stale d changed e m h o = cc (rw e at h)
marked k status_unknown status_unknown stale d changed e m h o = cc (rw e at h)

min_passes : (evidence cutoff now : ℕ) → leb evidence now ≡ true → min evidence cutoff ≤ now
min_passes evidence cutoff now h = ground arith

earliest-passed :
    (zone_info : Text → ZoneLookup) (derived : DerivedFacts) (deadline : Option DateTime)
    (evidence until now : Instant)
    → earliest zone_info derived deadline evidence ≡ ok until
    → leb evidence now ≡ true
    → until ≤ now
earliest-passed zone_info derived none evidence until now h stale =
    subst (λ x. x ≤ now) (ok-injective h) (leb→le evidence now stale)
earliest-passed zone_info derived (some deadline) evidence until now h stale =
    let (cutoff, e, f) =
      bind_returned
        (deadline_cutoff zone_info deadline derived.deadline_precision derived.deadline_timezone) _
        h in
    subst (λ x. x ≤ now) (ok-injective f) (min_passes evidence cutoff now stale)

module _ (zone_info : Text → ZoneLookup) (text_of : Json → Text)
    (fromisoformat : Text → Option DateTime) where
  -- A refresh of a cycle that is read as unknown makes it unknown and sets no mark.
  pub unknown-unmarked :
      (cfg : FreshnessConfig) (now : Instant) (c d : ScholarshipCycle) (changed : Bool)
      → read_status zone_info text_of fromisoformat c now ≡ ok status_unknown
      → refresh_one_status zone_info text_of fromisoformat cfg now c ≡ ok (d, changed)
      → (d.public_status ≡ status_unknown) × (d.auto_downgraded ≡ c.auto_downgraded)
  unknown-unmarked cfg now c d changed read h =
      let s = steps zone_info text_of fromisoformat cfg now c (d, changed) h in
      let unknown : s.evaluated ≡ status_unknown = ok-injective (sym s.read ∙ read) in
      let kept : ScholarshipCycle = record c { status_valid_until = s.until } in
      let old = leb (evidence_deadline c s.bucket cfg) now in
      subst (λ r. (r.public_status ≡ status_unknown) × (r.auto_downgraded ≡ c.auto_downgraded))
        (ap (λ v. (apply_target kept (target v c.public_status old)).0) (sym unknown)
          ∙ ap (λ r. r.0) s.result)
        (unmarked kept c.public_status old)

  -- After a refresh that left a cycle open, the refresh that finds its evidence stale, in the same
  -- bucket, makes it unknown, but does not mark that as a downgrade for staleness: the validity that
  -- the first one stored has passed by then.
  pub stale_unmarked :
      (cfg : FreshnessConfig) (now later : Instant) (c d e : ScholarshipCycle)
      (changed changed' : Bool) (bucket : FreshnessBucket)
      → refresh_one_status zone_info text_of fromisoformat cfg now c ≡ ok (d, changed)
      → d.public_status ≡ open_verified
      → bucket_of zone_info text_of fromisoformat c now cfg ≡ ok bucket
      → evidence_deadline d bucket cfg ≤ later
      → refresh_one_status zone_info text_of fromisoformat cfg later d ≡ ok (e, changed')
      → (e.public_status ≡ status_unknown) × (e.auto_downgraded ≡ d.auto_downgraded)
  stale_unmarked cfg now later c d e changed changed' bucket h o b stale k =
      let first = leaves_open zone_info text_of fromisoformat cfg now c d changed h o in
      let same : first.bucket ≡ bucket = ok-injective (sym first.classified ∙ b) in
      let near : first.until ≤ evidence_deadline d bucket cfg =
        subst (λ x. first.until ≤ evidence_deadline d x cfg) same first.bound in
      let passed : leb first.until later ≡ true =
        passes first.until (evidence_deadline d bucket cfg) later near stale in
      unknown-unmarked cfg later d e changed'
        (first.reads later ∙ ap (λ x. ok (if x then status_unknown else open_verified)) passed) k

  -- What a downgrade for staleness leaves: a validity that has passed.
  pub record Marked (now : Instant) (d : ScholarshipCycle) : Type 0 where
    pub until : Instant
    pub stored : d.status_valid_until ≡ some until
    pub passed : until ≤ now
    pub unknown : d.public_status ≡ status_unknown
    pub reads :
        (later : Instant)
        → let derived = derived_facts zone_info text_of fromisoformat d in
          evaluate_public_status zone_info open_verified derived.deadline_at
            (some until)
            derived.deadline_precision
            derived.deadline_timezone
            later
          ≡ ok (if leb until later then status_unknown else open_verified)

  pub marks :
      (cfg : FreshnessConfig) (now : Instant) (c d : ScholarshipCycle) (changed : Bool)
      → refresh_one_status zone_info text_of fromisoformat cfg now c ≡ ok (d, changed)
      → c.auto_downgraded ≡ false
      → d.auto_downgraded ≡ true
      → Marked now d
  unfolding renewed_until
  marks cfg now c d changed h m o =
      let s = steps zone_info text_of fromisoformat cfg now c (d, changed) h in
      let kept : ScholarshipCycle = record c { status_valid_until = s.until } in
      let (was, stale, stored, facts, unknown) =
        marked kept s.evaluated c.public_status (leb (evidence_deadline c s.bucket cfg) now) d
          changed refl m s.result o in
      let derived = derived_facts zone_info text_of fromisoformat c in
      let evidence = evidence_deadline c s.bucket cfg in
      let (until, e, f) =
        bind_returned (earliest zone_info derived derived.deadline_at evidence) _
          (rw was at s.renewed) in
      record {
        until = until;
        stored = stored ∙ sym (ok-injective f);
        passed = earliest-passed zone_info derived derived.deadline_at evidence until now e stale;
        unknown = unknown;
        reads =
            rw facts
              (λ later. reads_until zone_info derived derived.deadline_at evidence until later e);
      }
