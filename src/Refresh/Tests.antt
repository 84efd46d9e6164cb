-- ===== src/Refresh/Tests.antt =====
-- The refresh of a cycle at concrete inputs.
use edufurthersf_be.Prelude.{◌≡◌, ◌<◌, refl, true, false, some, ok, arith}
use edufurthersf_be.Time.{Instant, hours}
use edufurthersf_be.Freshness.{rolling_open, classify_bucket}
use edufurthersf_be.Status.{evaluate_public_status, status_unknown}
use edufurthersf_be.Facts.{derive_facts, safe_deadline_at}
use edufurthersf_be.Json.{is_truthy, get}
use edufurthersf_be.Catalogue.{ScholarshipCycle}
use edufurthersf_be.Samples.{cadence, no_zones, no_text, no_timestamps, cycle_of}
use edufurthersf_be.Refresh.{bucket_of, refresh_one_status, renewed_until}
use edufurthersf_be.Refresh.Reads.{ReadsAs, refresh_reads}
use edufurthersf_be.Refresh.Marks.{stale_unmarked}

abbrev first : ScholarshipCycle
first = record (cycle_of 10 1) { status_valid_until = some (hours 48) }

first_run :
    refresh_one_status no_zones no_text no_timestamps cadence (hours 1) (cycle_of 10 1)
    ≡ ok (first, false)
unfolding refresh_one_status renewed_until classify_bucket evaluate_public_status derive_facts
    safe_deadline_at is_truthy get
first_run = refl

refresh_reads_example :
    (until : Instant) × (first.status_valid_until ≡ some until)
    × (hours 1 < until)
    × ((later : Instant) → ReadsAs no_zones no_text no_timestamps first until later)
refresh_reads_example =
    refresh_reads no_zones no_text no_timestamps cadence (hours 1) (cycle_of 10 1) first false
      first_run refl

-- Two days after its creation, the evidence of the cycle is stale.
abbrev second : ScholarshipCycle
second = record first { public_status = status_unknown }

second_run :
    refresh_one_status no_zones no_text no_timestamps cadence (hours 49) first ≡ ok (second, true)
unfolding refresh_one_status renewed_until classify_bucket evaluate_public_status derive_facts
    safe_deadline_at is_truthy get
second_run = refl

bucket_run :
    bucket_of no_zones no_text no_timestamps (cycle_of 10 1) (hours 1) cadence ≡ ok rolling_open
unfolding classify_bucket derive_facts safe_deadline_at is_truthy get
bucket_run = refl

stale_unmarked_example : (second.public_status ≡ status_unknown) × (second.auto_downgraded ≡ false)
stale_unmarked_example =
    stale_unmarked no_zones no_text no_timestamps cadence (hours 1) (hours 49) (cycle_of 10 1) first
      second false true rolling_open first_run refl bucket_run (omega arith) second_run
