-- ===== src/Jobs/Table/Tests.antt =====
-- Runs of the job table, and the theorems about it at concrete inputs.
use edufurthersf_be.Prelude.{
  ℕ, ◌≡◌, ◌≢◌, ◌≤◌, refl, Bool, false, some, [], ◌∷◌, map, All, arith, not, ◌&&◌, ok, raise,
  value_error, keep, length,
}
use edufurthersf_be.Prelude.Text.{codes}
use edufurthersf_be.Time.{seconds}
use edufurthersf_be.Jobs.{queued, running, retry_wait, is_retryable, backoff, claim_job}
use edufurthersf_be.Jobs.Backoff.{FailsByBudget, fail_job_lem}
use edufurthersf_be.Jobs.Table.{
  ProcessingJob, Table, new_job, enqueue_job, claim_job_for_execution, fail_job_for_execution,
  reconcile_stuck_jobs, is_stuck, due_jobs,
}
use edufurthersf_be.Jobs.Table.Invariant.{IsSafe}
use edufurthersf_be.Jobs.Table.Invariant.History.{History, empty, after, Step, History-IsSafe}
use edufurthersf_be.Jobs.Table.Laws.{ClaimsExactly, claim_exact, claim_excludes}
use edufurthersf_be.Jobs.Table.Once.{Later, Enqueues, Redelivers, enqueue_once}
use edufurthersf_be.Jobs.Table.Sweep.{Sweeps, reconcile_exact}
use edufurthersf_be.Jobs.Table.Stale.{stale_fail_reopens}
use edufurthersf_be.Rows.{update_row, select_where}

abbrev refresh : ProcessingJob
refresh = new_job 1 "refresh_status" "refresh:1" []

abbrev normalize : ProcessingJob
normalize = new_job 2 "normalize_discovery" "normalize:2" []

abbrev waiting : Table
waiting = refresh ∷ normalize ∷ []

-- The table of two enqueued jobs, the first of which is claimed at second 10.
abbrev claimed : Table
claimed = (claim_job_for_execution 1 (seconds 10) (seconds 10) waiting).0

abbrev unlocked : ℕ → Bool
unlocked n = false

enqueued : (enqueue_job 2 "normalize_discovery" "normalize:2" [] (refresh ∷ [])).0 ≡ waiting
unfolding enqueue_job
enqueued = refl

History-waiting : History waiting
unfolding enqueue_job
History-waiting =
    after (Step.enqueue 2 "normalize_discovery" "normalize:2" [] ((omega arith), tt))
      (after (Step.enqueue 1 "refresh_status" "refresh:1" [] tt) empty)

History-claimed : History claimed
History-claimed = after (Step.claim 1 (seconds 10) (seconds 10)) History-waiting

History-IsSafe_example : IsSafe claimed
History-IsSafe_example = History-IsSafe History-claimed

stuck_short : length (keep (λ j. is_stuck (seconds 910) j && not (unlocked j.job_id)) claimed) ≤ 1
unfolding claim_job_for_execution claim_job update_row
stuck_short = omega arith

-- The same event is delivered again after the job was claimed.
enqueue_once_example :
    (job : ProcessingJob) × (created : Bool) × Enqueues 2 "normalize_discovery" "normalize:2" []
      (refresh ∷ [])
      job
      created
    × Redelivers 3 "link_canonical" "normalize:2" []
        (claim_job_for_execution 2
          (seconds 10)
          (seconds 10)
          (enqueue_job 2 "normalize_discovery" "normalize:2" [] (refresh ∷ [])).0).0
        job.job_id
enqueue_once_example =
    enqueue_once 2 3 "normalize_discovery" "link_canonical" "normalize:2" [] [] (refresh ∷ [])
      (claim_job_for_execution 2 (seconds 10) (seconds 10)
        (enqueue_job 2 "normalize_discovery" "normalize:2" [] (refresh ∷ [])).0).0
      (Later.claimed 2 (seconds 10) (seconds 10) Later.same)

abbrev refresh_running : ProcessingJob
refresh_running = record refresh {
  state = running;
  attempts = 1;
  lease_expires_at = some (seconds 910);
}

row_claimed : (claim_job_for_execution 1 (seconds 10) (seconds 10) waiting).1 ≡ ok refresh_running
unfolding claim_job_for_execution claim_job
row_claimed = refl

claim_exact_example : ClaimsExactly 2 (seconds 10) (seconds 11) waiting normalize
claim_exact_example = claim_exact 2 (seconds 10) (seconds 11) waiting normalize refl

claim_excludes_example :
    (claim_job_for_execution 1 (seconds 99) (seconds 99) claimed
      ≡ (claimed, raise (value_error "Job is not claimable")))
    × All (λ a. a.job_id ≢ 1) (due_jobs 200 unlocked (seconds 99) claimed)
claim_excludes_example =
    claim_excludes 1 (seconds 10) (seconds 10) (seconds 99) (seconds 99) 200 unlocked waiting
      refresh_running (History-IsSafe History-waiting) row_claimed

fail_job_lem_example : FailsByBudget "refresh_status" 3 (codes "timeout") (seconds 20)
fail_job_lem_example = fail_job_lem "refresh_status" 3 (codes "timeout") (seconds 20)

-- At second 910 the lease has run out.
reconcile_exact_example :
    Sweeps
      (seconds 910)
      unlocked
      claimed
      (reconcile_stuck_jobs 1 unlocked (seconds 910) claimed).0
      (reconcile_stuck_jobs 1 unlocked (seconds 910) claimed).1
reconcile_exact_example =
    reconcile_exact 1 unlocked (seconds 910) claimed (History-IsSafe History-claimed) stuck_short

reconcile_run :
    let (t, n) = reconcile_stuck_jobs 100 unlocked (seconds 910) claimed in
    (n ≡ 1) × (map (λ j. j.state) t ≡ retry_wait ∷ queued ∷ [])
unfolding reconcile_stuck_jobs claim_job_for_execution claim_job update_row is_retryable
    select_where
reconcile_run = (refl, refl)

-- A row that was claimed five times runs; the worker of the first claim reports a failure late.
abbrev overrun : Table
overrun =
    record refresh { state = running; attempts = 5; lease_expires_at = some (seconds 9000) } ∷ []

stale_fail_reopens_example :
    (reclaimed : ProcessingJob) × ((claim_job_for_execution 1
        (seconds 8100)
        (seconds 8100)
        (fail_job_for_execution refresh_running (codes "late") (seconds 8000) overrun)).1
      ≡ ok reclaimed)
    × (reclaimed.state ≡ running)
    × (reclaimed.attempts ≡ 6)
unfolding backoff is_retryable
stale_fail_reopens_example =
    stale_fail_reopens refresh_running
      (record refresh { state = running; attempts = 5; lease_expires_at = some (seconds 9000) })
      (codes "late") (seconds 8000) (seconds 8100) (seconds 8100) overrun refl refl (omega arith)
      (omega arith)
