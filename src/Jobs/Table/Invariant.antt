-- ===== src/Jobs/Table/Invariant.antt =====
-- What holds of the job table between two operations, and how the operations keep it.
pub mod Keeps
pub mod History
use edufurthersf_be.Prelude.{ℕ, ◌≤◌, ◌<◌, ◌≡◌, ◌≢◌, Bool, true, false, [], ◌∷◌, is_some, All}
use edufurthersf_be.Jobs.{queued, running, retry_wait, completed, failed_review, is_retryable}
use edufurthersf_be.Jobs.Table.{ProcessingJob, Table}

-- A row is leased exactly while it runs, and its attempts stay within the budget of its kind.
pub record IsWellFormed (j : ProcessingJob) : Type 0 where
  pub leased : j.state ≡ running → is_some j.lease_expires_at ≡ true
  pub lease_held : is_some j.lease_expires_at ≡ true → j.state ≡ running
  pub attempted : j.state ≡ running → 0 < j.attempts
  pub fresh : j.state ≡ queued → j.attempts ≡ 0
  pub waits : j.state ≡ retry_wait → is_some j.next_attempt_at ≡ true
  pub retried : j.state ≡ retry_wait → is_retryable j.kind ≡ true
  pub budget_left : j.state ≡ retry_wait → j.attempts < 5
  pub settled : j.state ≡ failed_review → is_some j.next_attempt_at ≡ false
  pub closed : j.state ≡ completed → is_some j.next_attempt_at ≡ false
  pub capped : j.attempts ≤ 5
  pub once : is_retryable j.kind ≡ false → j.attempts ≤ 1

abbrev pub DistinctIds : Table → Type 0
DistinctIds [] = Unit
DistinctIds (j ∷ t) = All (λ k. k.job_id ≢ j.job_id) t × DistinctIds t

abbrev pub DistinctKeys : Table → Type 0
DistinctKeys [] = Unit
DistinctKeys (j ∷ t) = All (λ k. k.dedupe_key ≢ j.dedupe_key) t × DistinctKeys t

pub record IsSafe (t : Table) : Type 0 where
  pub rows : All IsWellFormed t
  pub ids : DistinctIds t
  pub keys : DistinctKeys t

-- A worker's copy of a job is current: no session has claimed its row again since.
abbrev pub SameRun : ProcessingJob → ProcessingJob → Type 0
SameRun job row =
    row.job_id ≡ job.job_id
    → (row.kind ≡ job.kind) × (row.attempts ≡ job.attempts) × (0 < row.attempts)

abbrev pub IsCurrent : ProcessingJob → Table → Type 0
IsCurrent job = All (SameRun job)
