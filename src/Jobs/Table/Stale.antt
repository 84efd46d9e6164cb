-- ===== src/Jobs/Table/Stale.antt =====
-- What a worker does that outlived its lease: the writes of `fail_job_for_execution` go to the row
-- whoever runs it, and are decided by the attempts of the worker's own copy.
use edufurthersf_be.Prelude.{◌+◌, ◌≤◌, ◌<◌, ◌≡◌, refl, inl, inr, true, some, arith, ok}
use edufurthersf_be.Prelude.Text.{Text}
use edufurthersf_be.Time.{Instant, seconds}
use edufurthersf_be.Jobs.{running, backoff, lease_expiry, is_retryable, fail_job}
use edufurthersf_be.Jobs.Table.{
  ProcessingJob, Table, by_id, apply_fail, fail_job_for_execution, claim_job_for_execution,
  due_predicate,
}
use edufurthersf_be.Rows.Laws.{find-update_row}
use edufurthersf_be.Jobs.Table.Laws.{claim_exact}
use edufurthersf_be.Jobs.Table.{key_of}

stale_row_due :
    (stale row : ProcessingJob) (error : Text) (now now' : Instant)
    → is_retryable stale.kind ≡ true
    → stale.attempts < 5
    → now + seconds (backoff stale.attempts) ≤ now'
    → due_predicate now' (apply_fail (fail_job stale.kind stale.attempts error now) row) ≡ true
unfolding fail_job
stale_row_due stale row error now now' k n w = ground arith

-- If a worker whose lease has run out reports a failure from an old copy with fewer than five
-- attempts, of a retryable kind, then the row can be claimed once that copy's backoff has passed,
-- whatever its state and however many attempts it has used: also while another worker runs it,
-- and beyond five attempts.
pub stale_fail_reopens :
    (stale row : ProcessingJob) (error : Text) (now now' later : Instant) (t : Table)
    → by_id stale.job_id t ≡ some row
    → is_retryable stale.kind ≡ true
    → stale.attempts < 5
    → now + seconds (backoff stale.attempts) ≤ now'
    → (claimed : ProcessingJob) × ((claim_job_for_execution stale.job_id now' later
          (fail_job_for_execution stale error now t)).1
        ≡ ok claimed)
      × (claimed.state ≡ running)
      × (claimed.attempts ≡ row.attempts + 1)
unfolding fail_job_for_execution
stale_fail_reopens stale row error now now' later t e k n w =
    let tr = fail_job stale.kind stale.attempts error now in
    let failed : ProcessingJob = apply_fail tr row in
    let found : by_id stale.job_id (fail_job_for_execution stale error now t) ≡ some failed =
      find-update_row key_of stale.job_id (apply_fail tr) t (λ j. refl) e in
    elim (claim_exact stale.job_id now' later (fail_job_for_execution stale error now t) failed
      found) [
        | inl (d, r, b) ↦ (
          record failed {
            state = running;
            attempts = failed.attempts + 1;
            lease_expires_at = some (lease_expiry later);
          },
          r,
          refl,
          refl,
        )
        | inr (d, u, x) ↦ absurd (cc (stale_row_due stale row error now now' k n w))
      ]
