-- ===== src/Jobs/Table/Invariant/History.antt =====
-- The operations of src/app/infra/jobs.py as steps on the job table, in any order.
use edufurthersf_be.Prelude.{ℕ, ◌≢◌, String, Bool, [], All}
use edufurthersf_be.Prelude.Text.{Text}
use edufurthersf_be.Json.{Dict}
use edufurthersf_be.Time.{Instant}
use edufurthersf_be.Jobs.Table.{
  ProcessingJob, Table, enqueue_job, claim_job_for_execution, complete_job, fail_job_for_execution,
  reconcile_stuck_jobs,
}
use edufurthersf_be.Jobs.Table.Invariant.{IsSafe, IsCurrent}
use edufurthersf_be.Jobs.Table.Invariant.Keeps.{
  enqueue-IsSafe, claim-IsSafe, complete-IsSafe, fail-IsSafe, reconcile-IsSafe,
}

-- A job id is fresh (UUIDv7), and a worker that reports a failure holds the current copy. A worker
-- may complete a job whatever copy it holds.
pub data Step (t : Table) : Table → Type 0 where
  enqueue :
      (new_id : ℕ) (kind key : String) (payload : Dict)
      → All (λ k. k.job_id ≢ new_id) t
      → Step t (enqueue_job new_id kind key payload t).0
  claim : (job_id : ℕ) (now later : Instant) → Step t (claim_job_for_execution job_id now later t).0
  complete : (job : ProcessingJob) → Step t (complete_job job t)
  fail :
      (job : ProcessingJob) (error : Text) (now : Instant)
      → IsCurrent job t
      → Step t (fail_job_for_execution job error now t)
  reconcile :
      (limit : ℕ) (locked : ℕ → Bool) (now : Instant)
      → Step t (reconcile_stuck_jobs limit locked now t).0

-- The tables that the operations make out of the empty one.
pub data History : Table → Type 0 where
  empty : History []
  after : {t u : Table} → Step t u → History t → History u

Step-IsSafe : {t u : Table} → IsSafe t → Step t u → IsSafe u
Step-IsSafe {t} h (enqueue new_id kind key payload f) = enqueue-IsSafe new_id kind key payload t f h
Step-IsSafe {t} h (claim job_id now later) = claim-IsSafe job_id now later t h
Step-IsSafe {t} h (complete job) = complete-IsSafe job t h
Step-IsSafe {t} h (fail job error now c) = fail-IsSafe job error now t c h
Step-IsSafe {t} h (reconcile limit locked now) = reconcile-IsSafe limit locked now t h

IsSafe-empty : IsSafe []
IsSafe-empty = record { rows = tt; ids = tt; keys = tt }

-- Whatever the order of enqueues, claims, completions, failures reported from a current copy and
-- reconcile sweeps, from an empty table: ids and dedupe keys stay unique, a row holds a lease
-- exactly while it runs, a retry waits for a stored time, and no job is attempted more than five
-- times, or more than once if its kind is not retryable.
pub History-IsSafe : {t : Table} → History t → IsSafe t
History-IsSafe empty = IsSafe-empty
History-IsSafe (after s h) = Step-IsSafe (History-IsSafe h) s
