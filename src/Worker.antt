-- ===== src/Worker.antt =====
-- `execute_job` and `execute_due_jobs` of src/app/infra/worker.py over the job table. Arguments stand for
-- the handlers of the kinds, by what they do to the job table and whether they raise, for the text
-- of an exception, for the clock: `clock job_id n` is its reading number `n` in that job, and for the database:
-- `commit job_id 0` is the error of the commit that completes the job, and `commit job_id 1` that of the one that
-- records its failure, none where it goes through. A commit that raises leaves the tables as they are.
pub mod Settled
mod Tests
use edufurthersf_be.Prelude.{
  ℕ, ◌+◌, String, str_eq, Bool, true, false, Option, none, some, List, [], ◌∷◌, any, if◌then◌else◌,
  Error, value_error, Result, ok, raise,
}
use edufurthersf_be.Prelude.Text.{Text}
use edufurthersf_be.Time.{Instant}
use edufurthersf_be.Jobs.{JobState, finish_job}
use edufurthersf_be.Jobs.Table.{
  ProcessingJob, Table, claim_job_for_execution, complete_job, fail_job_for_execution, due_jobs,
}

-- The kinds that `execute_job` dispatches on.
abbrev pub handled_kinds : List String
handled_kinds =
    "normalize_discovery" ∷ "link_canonical" ∷ "fetch_source_page" ∷ "dispatch_outbox"
    ∷ "reconcile_stuck_jobs" ∷ "sweep_due_jobs" ∷ "sync_countries" ∷ "extract_candidate"
    ∷ "prepare_review" ∷ "harvest_parsebot" ∷ "harvest_tavily" ∷ "refresh_status" ∷ "reverify_due"
    ∷ "auto_approve_sweep" ∷ []

unfoldable pub is_handled : String → Bool
is_handled kind = any (λ k. str_eq k kind) handled_kinds

-- `completed += 1` and `failed += 1`.
abbrev pub tally : Result JobState → ℕ × ℕ → ℕ × ℕ
tally (ok state) (completed, failed) = (completed + 1, failed)
tally (raise e) (completed, failed) = (completed, failed + 1)

module _ (handle : ProcessingJob → Table → Table × Result (Unit {0})) (message : Error → Text)
    (clock : ℕ → ℕ → Instant) (commit : ℕ → ℕ → Option Error) where
  unfoldable pub run_handler : ProcessingJob → Table → Table × Result (Unit {0})
  unfolding is_handled
  run_handler job t =
      if is_handled job.kind then handle job t else (t, raise (value_error "No worker handler"))

  -- The `except` clause: the error is raised again, or that of the commit is raised in its place.
  unfoldable pub record_failure : ProcessingJob → Error → Table → Table × Result JobState
  record_failure job e t = elim (commit job.job_id 1) [
    | none ↦ (fail_job_for_execution job (message e) (clock job.job_id 2) t, raise e)
    | some lost ↦ (t, raise lost)
  ]

  unfoldable pub settle : ProcessingJob → Result (Unit {0}) → Table → Table × Result JobState
  unfolding record_failure
  settle job (ok done) t = elim (commit job.job_id 0) [
    | none ↦ (complete_job job t, ok finish_job.state)
    | some e ↦ record_failure job e t
  ]
  settle job (raise e) t = record_failure job e t

  unfoldable pub execute_claimed : Table × Result ProcessingJob → Table × Result JobState
  unfolding run_handler settle
  execute_claimed (t, raise e) = (t, raise e)
  execute_claimed (t, ok job) = let (u, result) = run_handler job t in settle job result u

  unfoldable pub execute_job : ℕ → Table → Table × Result JobState
  unfolding execute_claimed
  execute_job job_id t =
      execute_claimed (claim_job_for_execution job_id (clock job_id 0) (clock job_id 1) t)

  -- The loop of `execute_due_jobs`: an exception is counted and the loop goes on.
  unfoldable pub execute_each : List ProcessingJob → ℕ × ℕ → Table → Table × (ℕ × ℕ)
  unfolding execute_job
  execute_each [] counts t = (t, counts)
  execute_each (due ∷ rest) counts t =
      let (u, result) = execute_job due.job_id t in execute_each rest (tally result counts) u

  unfoldable pub execute_due_jobs : ℕ → (ℕ → Bool) → Instant → Table → Table × (ℕ × ℕ)
  unfolding execute_each
  execute_due_jobs limit locked now t = execute_each (due_jobs limit locked now t) (0, 0) t
