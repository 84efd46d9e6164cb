-- ===== src/Refresh.antt =====
-- src/app/infra/freshness.py: the scan of the published cycles, and the job that evaluates their stored
-- status again without a fetch. The rows that other sessions have locked are an argument; the texts
-- of timestamps and the time zones are parameters, as in Facts and Status.
pub mod Parts
pub mod Reads
pub mod Marks
mod Tests
pub mod Keeps
use edufurthersf_be.Prelude.{
  ℕ, ◌+◌, min, Bool, true, false, not, Option, none, some, List, [], ◌∷◌, leb, ltb, if◌then◌else◌,
  take, keep, length, Result, ok, raise, ◌>>=◌, result_or,
}
use edufurthersf_be.Prelude.Text.{Text}
use edufurthersf_be.Time.{Instant}
use edufurthersf_be.Zones.{DateTime, ZoneLookup}
use edufurthersf_be.Status.{
  PublicStatus, open_verified, expected_to_reopen, status_unknown, deadline_cutoff,
  evaluate_public_status,
}
use edufurthersf_be.Json.{Json}
use edufurthersf_be.Facts.{DerivedFacts, derive_facts}
use edufurthersf_be.Freshness.{FreshnessBucket, FreshnessConfig, max_evidence_age, classify_bucket}
use edufurthersf_be.Rows.{select_where, update_each}
use edufurthersf_be.Catalogue.{ScholarshipCycle, Catalogue, cycle_key, is_public}

-- `cycle.last_verified_at or cycle.created_at`.
abbrev pub anchor : Option Instant → Instant → Instant
anchor none created_at = created_at
anchor (some last_verified_at) created_at = last_verified_at

abbrev pub evidence_deadline : ScholarshipCycle → FreshnessBucket → FreshnessConfig → Instant
evidence_deadline cycle bucket cfg =
    anchor cycle.last_verified_at cycle.created_at + max_evidence_age bucket cfg

-- The scan, and whether it was truncated.
unfoldable pub published_cycles : ℕ → (ℕ → Bool) → Catalogue → List ScholarshipCycle × Bool
published_cycles limit locked db =
    let rows = select_where cycle_key (is_public db.scholarships) locked (limit + 1) db.cycles in
    (take limit rows, ltb limit (length rows))

-- `target_status`, and `downgrading_for_staleness`.
abbrev pub target : PublicStatus → PublicStatus → Bool → PublicStatus × Bool
target status_unknown stored stale = (status_unknown, false)
target evaluated open_verified true = (status_unknown, true)
target evaluated stored stale = (stored, false)

abbrev pub same_status : PublicStatus → PublicStatus → Bool
same_status open_verified open_verified = true
same_status expected_to_reopen expected_to_reopen = true
same_status status_unknown status_unknown = true
same_status _ _ = false

-- Whether the status changed.
abbrev pub apply_target : ScholarshipCycle → PublicStatus × Bool → ScholarshipCycle × Bool
apply_target cycle (status, for_staleness) =
    if same_status status cycle.public_status then (cycle, false) else (
      record cycle {
        public_status = status;
        auto_downgraded = if for_staleness then true else cycle.auto_downgraded;
      },
      true,
    )

abbrev pub RefreshCounts : Type 0
RefreshCounts = ℕ × ℕ

module _ (zone_info : Text → ZoneLookup) where
  -- `min(candidates)`.
  abbrev pub earliest : DerivedFacts → Option DateTime → Instant → Result Instant
  earliest derived none evidence = ok evidence
  earliest derived (some deadline) evidence = do
    cutoff ← deadline_cutoff zone_info deadline derived.deadline_precision derived.deadline_timezone
    ok (min evidence cutoff)

module _ (zone_info : Text → ZoneLookup) (text_of : Json → Text)
    (fromisoformat : Text → Option DateTime) where
  abbrev pub derived_facts : ScholarshipCycle → DerivedFacts
  derived_facts cycle = derive_facts text_of fromisoformat cycle.facts

  abbrev pub bucket_of : ScholarshipCycle → Instant → FreshnessConfig → Result FreshnessBucket
  bucket_of cycle now cfg =
      let derived = derived_facts cycle in
      classify_bucket zone_info cycle.public_status derived.deadline_at derived.deadline_precision
        derived.deadline_timezone derived.expected_reopen_month now cfg

  -- The status that a read returns.
  abbrev pub read_status : ScholarshipCycle → Instant → Result PublicStatus
  read_status cycle now =
      let derived = derived_facts cycle in
      evaluate_public_status zone_info cycle.public_status derived.deadline_at
        cycle.status_valid_until derived.deadline_precision derived.deadline_timezone now

  -- `status_valid_until` after the refresh.
  unfoldable pub renewed_until : ScholarshipCycle → PublicStatus → Instant → Result (Option Instant)
  renewed_until cycle open_verified evidence = do
    until ← earliest zone_info (derived_facts cycle) (derived_facts cycle).deadline_at evidence
    ok (some until)
  renewed_until cycle _ evidence = ok cycle.status_valid_until

  -- The cycle afterwards, and whether its status changed; a cycle that raises was not written yet.
  unfoldable pub refresh_one_status :
      FreshnessConfig → Instant → ScholarshipCycle → Result (ScholarshipCycle × Bool)
  unfolding renewed_until
  refresh_one_status cfg now cycle = do
    bucket ← bucket_of cycle now cfg
    evaluated ← read_status cycle now
    valid_until ← renewed_until cycle cycle.public_status (evidence_deadline cycle bucket cfg)
    ok (
        apply_target (record cycle { status_valid_until = valid_until })
          (target evaluated cycle.public_status (leb (evidence_deadline cycle bucket cfg) now)))

  -- A malformed cycle does not abort the batch.
  abbrev pub refreshed : FreshnessConfig → Instant → ScholarshipCycle → ScholarshipCycle × Bool
  refreshed cfg now cycle = result_or (cycle, false) (refresh_one_status cfg now cycle)

  unfoldable pub refresh_due_statuses :
      FreshnessConfig → ℕ → Instant → (ℕ → Bool) → Catalogue → Catalogue × RefreshCounts
  unfolding published_cycles refresh_one_status
  refresh_due_statuses cfg batch_limit now locked db =
      let cycles = (published_cycles batch_limit locked db).0 in
      (
        record db {
          cycles = update_each cycle_key (λ c. (refreshed cfg now c).0) cycles db.cycles;
        },
        (length cycles, length (keep (λ c. (refreshed cfg now c).1) cycles)),
      )
