-- ===== src/Jobs/Table.antt =====
-- src/app/infra/jobs.py and the `processing_jobs` table of src/app/domain/models.py. A function that
-- commits returns the new table. What the database gives is an argument: a fresh `job_id`, the
-- clock at each reading, and the rows that other sessions have locked.
pub mod Invariant
pub mod Laws
pub mod Once
pub mod Sweep
pub mod Stale
mod Tests
use edufurthersf_be.Prelude.{
  ℕ, String, str_eq, Bool, true, false, not, ◌&&◌, ◌||◌, ◌≡◌, Option, none, some, List, [], ◌∷◌,
  ◌++◌, leb, ◌==◌, if◌then◌else◌, is_some, find, keep, take, length, Result, ok, raise,
  lookup_error,
}
use edufurthersf_be.Prelude.Text.{Text, codes}
use edufurthersf_be.Time.{Instant}
use edufurthersf_be.Json.{Dict}
use edufurthersf_be.Rows.{update_row, select_where}
use edufurthersf_be.Jobs.{
  JobState, queued, running, retry_wait, JobTransition, claim_job, lease_expiry, is_lease_expired,
  is_claimable, is_waiting, finish_job, fail_job,
}

pub record ProcessingJob : Type 0 where
  pub job_id : ℕ
  pub kind : String
  pub dedupe_key : String
  pub state : JobState
  pub attempts : ℕ
  pub payload : Dict
  pub last_error : Option Text
  pub next_attempt_at : Option Instant
  pub lease_expires_at : Option Instant
  pub correlation_id : Option Text

abbrev pub Table : Type 0
Table = List ProcessingJob

-- `where(ProcessingJob.job_id == job_id)` and `where(ProcessingJob.dedupe_key == dedupe_key)`.
abbrev pub by_id : ℕ → Table → Option ProcessingJob
by_id job_id = find (λ j. j.job_id == job_id)

abbrev pub by_key : String → Table → Option ProcessingJob
by_key dedupe_key = find (λ j. str_eq j.dedupe_key dedupe_key)

abbrev pub key_of : ProcessingJob → ℕ
key_of job = job.job_id

-- An UPDATE of the row with this primary key.
abbrev pub update : ℕ → (ProcessingJob → ProcessingJob) → Table → Table
update = update_row key_of

-- The row that an INSERT makes, with the defaults of the columns.
abbrev pub new_job : ℕ → String → String → Dict → ProcessingJob
new_job job_id kind dedupe_key payload = record {
  job_id = job_id;
  kind = kind;
  dedupe_key = dedupe_key;
  state = queued;
  attempts = 0;
  payload = payload;
  last_error = none;
  next_attempt_at = none;
  lease_expires_at = none;
  correlation_id = none;
}

-- `on_conflict_do_nothing(index_elements=["dedupe_key"]).returning(job_id)`.
insert_once : ProcessingJob → Table → Table × Option ℕ
insert_once job t = elim (by_key job.dedupe_key t) [
  | none ↦ (t ++ job ∷ [], some job.job_id)
  | some _ ↦ (t, none)
]

or_disappeared : Option ProcessingJob → Bool → Result (ProcessingJob × Bool)
or_disappeared none created = raise (lookup_error "Job disappeared immediately after insert")
or_disappeared (some job) created = ok (job, created)

unfoldable pub enqueue_job :
    ℕ → String → String → Dict → Table → Table × Result (ProcessingJob × Bool)
unfolding insert_once or_disappeared
enqueue_job new_id kind dedupe_key payload t =
    let (t', inserted) = insert_once (new_job new_id kind dedupe_key payload) t in
    (t', or_disappeared (by_key dedupe_key t') (is_some inserted))

abbrev pub apply_claim : JobTransition → Instant → ProcessingJob → ProcessingJob
apply_claim transition later job = record job {
  state = transition.state;
  attempts = transition.attempts;
  lease_expires_at = some (lease_expiry later);
}

unfoldable pub claim_row :
    ProcessingJob → Result JobTransition → Instant → Table → Table × Result ProcessingJob
claim_row job (raise e) later t = (t, raise e)
claim_row job (ok transition) later t =
    (update job.job_id (apply_claim transition later) t, ok (apply_claim transition later job))

-- `now` and `later` are the clock at its two readings.
unfoldable pub claim_job_for_execution :
    ℕ → Instant → Instant → Table → Table × Result ProcessingJob
unfolding claim_row
claim_job_for_execution job_id now later t = elim (by_id job_id t) [
  | none ↦ (t, raise (lookup_error "Job not found"))
  | some job ↦ claim_row job (claim_job job.state job.attempts now job.next_attempt_at) later t
]

-- `job` is the object that the worker holds; the write goes to its row. Every attribute that the code assigns is
-- written, also where the object holds that value already, as it may hold an empty `next_attempt_at`; then the ORM
-- writes nothing, which differs only where another session has failed the job since.
unfoldable pub complete_job : ProcessingJob → Table → Table
complete_job job =
    update job.job_id λ row. record row {
      state = finish_job.state;
      lease_expires_at = none;
      next_attempt_at = none;
    }

abbrev pub apply_fail : JobTransition → ProcessingJob → ProcessingJob
apply_fail transition row = record row {
  state = transition.state;
  last_error = transition.error;
  next_attempt_at = transition.next_attempt_at;
  lease_expires_at = none;
}

unfoldable pub fail_job_for_execution : ProcessingJob → Text → Instant → Table → Table
unfolding fail_job
fail_job_for_execution job error now =
    update job.job_id (apply_fail (fail_job job.kind job.attempts error now))

-- `WHERE test ORDER BY job_id LIMIT limit FOR UPDATE SKIP LOCKED`.
abbrev pub select_rows : (ProcessingJob → Bool) → (ℕ → Bool) → ℕ → Table → Table
select_rows = select_where key_of

abbrev pub is_running : JobState → Bool
is_running running = true
is_running _ = false

abbrev pub is_stuck : Instant → ProcessingJob → Bool
is_stuck now j = is_running j.state && is_lease_expired j.lease_expires_at now

pub reconcile_error : Text
reconcile_error = codes "lease expired before completion"

-- The loop of `reconcile_stuck_jobs`.
unfoldable pub reconcile_rows : Instant → Table → Table → Table
unfolding fail_job_for_execution reconcile_error
reconcile_rows now [] t = t
reconcile_rows now (job ∷ stuck) t =
    reconcile_rows now stuck (fail_job_for_execution job reconcile_error now t)

unfoldable pub reconcile_stuck_jobs : ℕ → (ℕ → Bool) → Instant → Table → Table × ℕ
unfolding reconcile_rows
reconcile_stuck_jobs limit locked now t =
    let stuck = select_rows (is_stuck now) locked limit t in
    (reconcile_rows now stuck t, length stuck)

abbrev pub due_predicate : Instant → ProcessingJob → Bool
due_predicate now j = is_claimable j.state && not (is_waiting j.next_attempt_at now)

unfoldable pub due_jobs : ℕ → (ℕ → Bool) → Instant → Table → Table
due_jobs limit locked now = select_rows (due_predicate now) locked limit

unfoldable pub count_due_jobs : Instant → Table → ℕ
count_due_jobs now t = length (keep (due_predicate now) t)
