-- ===== src/Reverify/Tests.antt =====
-- A downgrade, a recheck and a sweep at concrete inputs.
use edufurthersf_be.Prelude.{ℕ, ◌+◌, ◌≡◌, refl, Result, true, false, some, ok, arith}
use edufurthersf_be.Time.{hours}
use edufurthersf_be.Freshness.{classify_bucket, is_reverify_due}
use edufurthersf_be.Status.{evaluate_public_status, open_verified, status_unknown}
use edufurthersf_be.Facts.{derive_facts, safe_deadline_at}
use edufurthersf_be.Json.{is_truthy, get}
use edufurthersf_be.Catalogue.{ScholarshipCycle}
use edufurthersf_be.Samples.{
  cadence, no_zones, no_text, no_timestamps, id_text, cycle_of, site, site-IsSite, urls, clients,
}
use edufurthersf_be.Prelude.Text.{text_eq, lower}
use edufurthersf_be.Rows.{select_where, update_row}
use edufurthersf_be.Urls.{canonicalize_url}
use edufurthersf_be.Pages.{Site, fetch_and_persist_page}
use edufurthersf_be.Refresh.{refresh_one_status, renewed_until, read_status, published_cycles}
use edufurthersf_be.Reverify.{renew, reverify_one_cycle}
use edufurthersf_be.Reverify.Restored.{restored_hidden}
use edufurthersf_be.Reverify.Due.{Counts, reverify_due_cycles, due_cycles, reverify_each}
use edufurthersf_be.Reverify.Sweep.{IsSite, sweep-IsSite}

-- A refresh two days after the creation of the cycle, a recheck an hour later, and the next refresh.
abbrev downgraded : ScholarshipCycle
downgraded = record (cycle_of 10 1) {
  public_status = status_unknown;
  status_valid_until = some (hours 48);
  auto_downgraded = true;
}

downgraded_run :
    refresh_one_status no_zones no_text no_timestamps cadence (hours 50) (cycle_of 10 1)
    ≡ ok (downgraded, true)
unfolding refresh_one_status renewed_until classify_bucket evaluate_public_status derive_facts
    safe_deadline_at is_truthy get
downgraded_run = refl

abbrev lost : ScholarshipCycle
lost = record downgraded {
  last_verified_at = some (hours 51);
  status_valid_until = some (hours 99);
  auto_downgraded = false;
}

lost_run :
    refresh_one_status no_zones no_text no_timestamps cadence
      (hours 52)
      (renew (hours 51) downgraded)
    ≡ ok (lost, true)
unfolding refresh_one_status renewed_until classify_bucket evaluate_public_status derive_facts
    safe_deadline_at is_truthy get
lost_run = refl

restored_hidden_example :
    ((renew (hours 51) downgraded).public_status ≡ open_verified)
    × (read_status no_zones no_text no_timestamps (renew (hours 51) downgraded) (hours 52)
        ≡ ok status_unknown)
    × (lost.public_status ≡ status_unknown)
    × (lost.auto_downgraded ≡ false)
restored_hidden_example =
    restored_hidden no_zones no_text no_timestamps cadence (hours 50) (hours 51) (hours 52)
      (cycle_of 10 1) downgraded lost true true downgraded_run refl refl (omega arith) lost_run

abbrev fresh : ℕ → ℕ
fresh id = id + 100

abbrev sweep : Site × Result Counts
sweep =
    reverify_due_cycles no_zones no_text no_timestamps urls id_text cadence (hours 1) clients fresh
      fresh fresh 5 (λ id s. s) site

sweep-IsSite_example : IsSite sweep.0
sweep-IsSite_example =
    sweep-IsSite no_zones no_text no_timestamps urls id_text cadence (hours 1) clients fresh fresh
      fresh 5 (λ id s. s) site (λ id s h. h) site-IsSite

-- The first fetch of a page has nothing to compare with.
abbrev counted : Counts
counted = record { checked = 1; renewed = 0; flagged = 0; deferred = 1 }

sweep_run : sweep.1 ≡ ok counted
unfolding reverify_due_cycles due_cycles reverify_each published_cycles select_where classify_bucket
    derive_facts safe_deadline_at is_truthy get is_reverify_due reverify_one_cycle canonicalize_url
    text_eq lower fetch_and_persist_page update_row
sweep_run = refl
