-- ===== src/Refresh/Reads.antt =====
-- What a read returns after a refresh, and when a downgrade is marked as one for staleness.
use edufurthersf_be.Prelude.{
  ℕ, ◌≡◌, ◌≢◌, ◌<◌, ◌≤◌, min, refl, sym, ap, ◌∙◌, subst, inl, inr, Bool, true, false, Option, none,
  some, leb, Bool-cases, if◌then◌else◌, ok, bind_returned, ok-injective, arith,
}
use edufurthersf_be.Prelude.Text.{Text}
use edufurthersf_be.Time.{Instant}
use edufurthersf_be.Zones.{DateTime, ZoneLookup}
use edufurthersf_be.Json.{Json}
use edufurthersf_be.Status.{
  PublicStatus, open_verified, expected_to_reopen, status_unknown, deadline_cutoff,
  evaluate_public_status,
}
use edufurthersf_be.Facts.{DerivedFacts}
use edufurthersf_be.Freshness.{FreshnessBucket, FreshnessConfig}
use edufurthersf_be.Catalogue.{ScholarshipCycle}
use edufurthersf_be.Refresh.{
  bucket_of, evidence_deadline, same_status, target, apply_target, derived_facts, read_status,
  earliest, renewed_until, refresh_one_status,
}
use edufurthersf_be.Refresh.Parts.{steps}

same_status_refl : (s : PublicStatus) → same_status s s ≡ true
same_status_refl open_verified = refl
same_status_refl expected_to_reopen = refl
same_status_refl status_unknown = refl

unmoved :
    (k : ScholarshipCycle) (s : PublicStatus)
    → k.public_status ≡ s
    → apply_target k (s, false) ≡ (k, false)
unmoved k s e =
    let same : same_status s k.public_status ≡ true =
      subst (λ t. same_status s t ≡ true) (sym e) (same_status_refl s) in
    rw same refl

-- A refresh that leaves a cycle open found it open, with fresh evidence, and wrote nothing but the validity.
left_open :
    (k : ScholarshipCycle) (evaluated s : PublicStatus) (stale : Bool) (d : ScholarshipCycle)
    (changed : Bool)
    → k.public_status ≡ s
    → apply_target k (target evaluated s stale) ≡ (d, changed)
    → d.public_status ≡ open_verified
    → (s ≡ open_verified) × (evaluated ≢ status_unknown) × (stale ≡ false) × (k ≡ d)
left_open k open_verified open_verified true d changed e h o = cc (rw e at h)
left_open k open_verified open_verified false d changed e h o =
    (refl, (λ p. cc), refl, ap (λ t. t.0) (sym (unmoved k open_verified e) ∙ h))
left_open k expected_to_reopen open_verified true d changed e h o = cc (rw e at h)
left_open k expected_to_reopen open_verified false d changed e h o =
    (refl, (λ p. cc), refl, ap (λ t. t.0) (sym (unmoved k open_verified e) ∙ h))
left_open k status_unknown open_verified stale d changed e h o = cc (rw e at h)
left_open k status_unknown expected_to_reopen stale d changed e h o = cc (rw e at h)
left_open k status_unknown status_unknown stale d changed e h o = cc (rw e at h)
left_open k open_verified expected_to_reopen stale d changed e h o = cc (rw e at h)
left_open k open_verified status_unknown stale d changed e h o = cc (rw e at h)
left_open k expected_to_reopen expected_to_reopen stale d changed e h o = cc (rw e at h)
left_open k expected_to_reopen status_unknown stale d changed e h o = cc (rw e at h)

min_of :
    (evidence cutoff now : ℕ)
    → (if leb cutoff now
        then status_unknown
        else if leb (min evidence cutoff) now
        then status_unknown
        else open_verified)
      ≡ (if leb (min evidence cutoff) now then status_unknown else open_verified)
min_of evidence cutoff now = elim (Bool-cases (leb cutoff now)) [
  | inl e ↦ let hit : leb (min evidence cutoff) now ≡ true = ground arith in rw (e, hit) refl
  | inr e ↦ rw e refl
]

module _ (zone_info : Text → ZoneLookup) where
  pub reads_until :
      (derived : DerivedFacts) (deadline : Option DateTime) (evidence until now : Instant)
      → earliest zone_info derived deadline evidence ≡ ok until
      → evaluate_public_status zone_info open_verified deadline
          (some until)
          derived.deadline_precision
          derived.deadline_timezone
          now
        ≡ ok (if leb until now then status_unknown else open_verified)
  unfolding evaluate_public_status
  reads_until derived none evidence until now h = refl
  reads_until derived (some deadline) evidence until now h =
      let (cutoff, e, f) =
        bind_returned
          (deadline_cutoff zone_info deadline derived.deadline_precision derived.deadline_timezone)
          _ h in
      rw (e, sym (ok-injective f)) (ap ok (min_of evidence cutoff now))

  still_valid :
      (derived : DerivedFacts) (deadline : Option DateTime) (valid_until : Option Instant)
      (evidence until now : Instant) (evaluated : PublicStatus)
      → earliest zone_info derived deadline evidence ≡ ok until
      → evaluate_public_status zone_info open_verified deadline valid_until
          derived.deadline_precision derived.deadline_timezone now
        ≡ ok evaluated
      → evaluated ≢ status_unknown
      → leb evidence now ≡ false
      → (now < until) × (until ≤ evidence)
  unfolding evaluate_public_status
  still_valid derived none valid_until evidence until now evaluated h r n fresh =
      let e : evidence ≡ until = ok-injective h in (ground arith, omega arith)
  still_valid derived (some deadline) valid_until evidence until now evaluated h r n fresh =
      let (cutoff, e, f) =
        bind_returned
          (deadline_cutoff zone_info deadline derived.deadline_precision derived.deadline_timezone)
          _ h in
      let g : min evidence cutoff ≡ until = ok-injective f in
      elim (Bool-cases (leb cutoff now)) [
        | inl lapsed ↦ absurd (n (sym (ok-injective (rw (e, lapsed) at r))))
        | inr later ↦ (ground arith, omega arith)
      ]

module _ (zone_info : Text → ZoneLookup) (text_of : Json → Text)
    (fromisoformat : Text → Option DateTime) where
  abbrev pub ReadsAs : ScholarshipCycle → Instant → Instant → Type 0
  ReadsAs d until later =
      read_status zone_info text_of fromisoformat d later
      ≡ ok (if leb until later then status_unknown else open_verified)

  -- What a refresh that leaves a cycle open stored.
  pub record LeftOpen (cfg : FreshnessConfig) (now : Instant) (c d : ScholarshipCycle)
      : Type 0 where
    pub bucket : FreshnessBucket
    pub until : Instant
    pub classified : bucket_of zone_info text_of fromisoformat c now cfg ≡ ok bucket
    pub stored : d.status_valid_until ≡ some until
    pub ahead : now < until
    pub bound : until ≤ evidence_deadline d bucket cfg
    pub reads : (later : Instant) → ReadsAs d until later

  pub leaves_open :
      (cfg : FreshnessConfig) (now : Instant) (c d : ScholarshipCycle) (changed : Bool)
      → refresh_one_status zone_info text_of fromisoformat cfg now c ≡ ok (d, changed)
      → d.public_status ≡ open_verified
      → LeftOpen cfg now c d
  unfolding renewed_until
  leaves_open cfg now c d changed h o =
      let s = steps zone_info text_of fromisoformat cfg now c (d, changed) h in
      let kept : ScholarshipCycle = record c { status_valid_until = s.until } in
      let (was, known, fresh, same) =
        left_open kept s.evaluated c.public_status (leb (evidence_deadline c s.bucket cfg) now) d
          changed refl s.result o in
      let derived = derived_facts zone_info text_of fromisoformat c in
      let evidence = evidence_deadline c s.bucket cfg in
      let (until, e, f) =
        bind_returned (earliest zone_info derived derived.deadline_at evidence) _
          (rw was at s.renewed) in
      let stored : s.until ≡ some until = sym (ok-injective f) in
      let (later, bound) =
        still_valid zone_info derived derived.deadline_at c.status_valid_until evidence until now
          s.evaluated e (rw was at s.read) known fresh in
      record {
        bucket = s.bucket;
        until = until;
        classified = s.classified;
        stored = ap (λ x. x.status_valid_until) (sym same) ∙ stored;
        ahead = later;
        bound = subst (λ x. until ≤ evidence_deadline x s.bucket cfg) same bound;
        reads = λ t.
            subst (λ x. ReadsAs x until t) same
              (rw (was, stored)
                (reads_until zone_info derived derived.deadline_at evidence until t e));
      }

  -- A refresh at `now` that leaves a cycle open stores an instant after `now`, and every read returns
  -- open before that instant and unknown from it on.
  pub refresh_reads :
      (cfg : FreshnessConfig) (now : Instant) (c d : ScholarshipCycle) (changed : Bool)
      → refresh_one_status zone_info text_of fromisoformat cfg now c ≡ ok (d, changed)
      → d.public_status ≡ open_verified
      → (until : Instant) × (d.status_valid_until ≡ some until)
        × (now < until)
        × ((later : Instant) → ReadsAs d until later)
  refresh_reads cfg now c d changed h o =
      let s = leaves_open cfg now c d changed h o in (s.until, s.stored, s.ahead, s.reads)
