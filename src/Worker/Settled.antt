-- ===== src/Worker/Settled.antt =====
-- How the execution of a job ends, and what a sweep counts.
use edufurthersf_be.Prelude.{
  ℕ, ◌+◌, ◌≤◌, ◌≡◌, ◌≢◌, refl, ap, ◌∙◌, subst, ◌⊎◌, inl, inr, String, Bool, Option, none, some,
  List, [], ◌∷◌, arith, Option-cases, Bool-cases, Result, ok, raise, ok-injective, Error, length,
}
use edufurthersf_be.Prelude.Text.{Text}
use edufurthersf_be.Time.{Instant}
use edufurthersf_be.Jobs.{JobState, retry_wait, completed, failed_review, finish_job, fail_job}
use edufurthersf_be.Jobs.Table.{
  ProcessingJob, Table, by_id, claim_job_for_execution, complete_job, apply_fail,
  fail_job_for_execution, due_jobs,
}
use edufurthersf_be.Rows.Laws.{find-update_row}
use edufurthersf_be.Jobs.Table.Laws.{claimed_row, by_id-id}
use edufurthersf_be.Jobs.Table.Sweep.{due_jobs_page}
use edufurthersf_be.Worker.{
  run_handler, record_failure, settle, execute_claimed, execute_job, tally, execute_each,
  execute_due_jobs, is_handled,
}
use edufurthersf_be.Jobs.Table.{key_of}

-- How an execution ends: the row holds no lease, and it is completed or waits for a retry or a
-- review, according to whether the execution returned or raised.
pub record IsSettled (job_id : ℕ) (t : Table) (r : Result JobState) : Type 0 where
  pub row : ProcessingJob
  pub stored : by_id job_id t ≡ some row
  pub free : row.lease_expires_at ≡ none
  pub outcome :
      ((r ≡ ok completed) × (row.state ≡ completed))
      ⊎ (((e : Error) × (r ≡ raise e)) × ((row.state ≡ retry_wait) ⊎ (row.state ≡ failed_review)))

fail_job-state :
    (kind : String) (attempts : ℕ) (error : Text) (now : Instant)
    → let s = (fail_job kind attempts error now).state in (s ≡ retry_wait) ⊎ (s ≡ failed_review)
unfolding fail_job
fail_job-state kind attempts error now = ground arith

module _ (handle : ProcessingJob → Table → Table × Result (Unit {0})) (message : Error → Text)
    (clock : ℕ → ℕ → Instant) (commit : ℕ → ℕ → Option Error)
    (keeps : (job : ProcessingJob) (id : ℕ) (t : Table)
      → by_id id t ≢ none
      → by_id id (handle job t).0 ≢ none) where
  -- The failure could not be recorded: the error of its commit is raised, and the table is what the handler left.
  abbrev pub IsUnrecorded : ℕ → Table → Table → Result JobState → Type 0
  IsUnrecorded job_id handled u r =
      (lost : Error) × (commit job_id 1 ≡ some lost) × (r ≡ raise lost) × (u ≡ handled)

  abbrev pub Ends : ℕ → Table → Table × Result JobState → Type 0
  Ends job_id handled done =
      IsSettled job_id done.0 done.1 ⊎ IsUnrecorded job_id handled done.0 done.1

  record_failure-Ends :
      (job : ProcessingJob) (x : Error) (t : Table)
      → by_id job.job_id t ≢ none
      → Ends job.job_id t (record_failure handle message clock commit job x t)
  unfolding record_failure fail_job_for_execution
  record_failure-Ends job x t h = elim (Option-cases (commit job.job_id 1)) [
    | inl works ↦ elim (Option-cases (by_id job.job_id t)) [
      | inl e ↦ absurd (h e)
      | inr (row, e) ↦
          let tr = fail_job job.kind job.attempts (message x) (clock job.job_id 2) in
          rw (works, record_failure)
            (inl (record {
              row = apply_fail tr row;
              stored = find-update_row key_of job.job_id (apply_fail tr) t (λ j. refl) e;
              free = refl;
              outcome = inr (
                (x, refl),
                fail_job-state job.kind job.attempts (message x) (clock job.job_id 2),
              );
            }))
    ]
    | inr (lost, e) ↦ rw (e, record_failure) (inr (lost, refl, refl, refl))
  ]

  settle-Ends :
      (job : ProcessingJob) (r : Result (Unit {0})) (t : Table)
      → by_id job.job_id t ≢ none
      → Ends job.job_id t (settle handle message clock commit job r t)
  unfolding settle complete_job
  settle-Ends job (ok done) t h = elim (Option-cases (commit job.job_id 0)) [
    | inl works ↦ elim (Option-cases (by_id job.job_id t)) [
      | inl e ↦ absurd (h e)
      | inr (row, e) ↦
          rw (works, settle)
            (inl (record {
              row = record row {
                state = finish_job.state;
                lease_expires_at = none;
                next_attempt_at = none;
              };
              stored = find-update_row key_of job.job_id _ t (λ j. refl) e;
              free = refl;
              outcome = inl (refl, refl);
            }))
    ]
    | inr (x, e) ↦ rw (e, settle) (record_failure-Ends job x t h)
  ]
  settle-Ends job (raise x) t h = record_failure-Ends job x t h

  run_handler-keeps :
      (job : ProcessingJob) (t : Table)
      → by_id job.job_id t ≢ none
      → by_id job.job_id (run_handler handle message clock commit job t).0 ≢ none
  unfolding run_handler
  run_handler-keeps job t h = elim (Bool-cases (is_handled job.kind)) [
    | inl e ↦ rw e (keeps job job.job_id t h)
    | inr e ↦ rw e h
  ]

  claimed-Ends :
      (r : Result ProcessingJob) (t : Table) (job : ProcessingJob)
      → r ≡ ok job
      → by_id job.job_id t ≡ some job
      → Ends job.job_id
          (run_handler handle message clock commit job t).0
          (execute_claimed handle message clock commit (t, r))
  unfolding execute_claimed
  claimed-Ends (raise e) t job h b = cc
  claimed-Ends (ok j) t job h b =
      let same : j ≡ job = ok-injective h in
      subst
        (λ k.
          Ends k.job_id (run_handler handle message clock commit k t).0
            (execute_claimed handle message clock commit (t, ok j)))
        same
        (settle-Ends j (run_handler handle message clock commit j t).1
          (run_handler handle message clock commit j t).0 (run_handler-keeps j t (λ n. cc)))

  -- An execution whose claim succeeded, if no handler deletes a row, ends in one of two ways. Either its row holds no
  -- lease: it is completed exactly as the execution returned, and waits for a retry or a review as it raised,
  -- for a kind without a handler too. Or the commit of the failure failed itself: then that error is raised, and the
  -- table is as the handler left it.
  pub execute_settles :
      (job_id : ℕ) (t : Table) (job : ProcessingJob)
      → (claim_job_for_execution job_id (clock job_id 0) (clock job_id 1) t).1 ≡ ok job
      → Ends job_id
          (run_handler handle message clock commit job
            (claim_job_for_execution job_id (clock job_id 0) (clock job_id 1) t).0).0
          (execute_job handle message clock commit job_id t)
  unfolding execute_job
  execute_settles job_id t job h =
      let claim = claim_job_for_execution job_id (clock job_id 0) (clock job_id 1) t in
      let (stored, runs) = claimed_row job_id (clock job_id 0) (clock job_id 1) t job h in
      let same : job.job_id ≡ job_id = by_id-id job_id claim.0 job stored in
      subst
        (λ id.
          Ends id (run_handler handle message clock commit job claim.0).0
            (execute_claimed handle message clock commit claim))
        same (claimed-Ends claim.1 claim.0 job h (ap (λ id. by_id id claim.0) same ∙ stored))

module _ (handle : ProcessingJob → Table → Table × Result (Unit {0})) (message : Error → Text)
    (clock : ℕ → ℕ → Instant) (commit : ℕ → ℕ → Option Error) where
  tally_sum : (r : Result JobState) (n m : ℕ) → (tally r (n, m)).0 + (tally r (n, m)).1 ≡ n + m + 1
  tally_sum (ok s) n m = omega arith
  tally_sum (raise e) n m = omega arith

  each_counts :
      (jobs : List ProcessingJob) (n m : ℕ) (t : Table)
      → let c = (execute_each handle message clock commit jobs (n, m) t).1 in
        c.0 + c.1 ≡ n + m + length jobs
  unfolding execute_each
  each_counts [] n m t = omega arith
  each_counts (due ∷ rest) n m t =
      let run = execute_job handle message clock commit due.job_id t in
      let c = tally run.1 (n, m) in
      omega (arith, each_counts rest c.0 c.1 run.0, tally_sum run.1 n m)

  -- The counts of a sweep add up to the jobs that were due, at most `limit`.
  pub sweep_counts :
      (limit : ℕ) (locked : ℕ → Bool) (now : Instant) (t : Table)
      → let c = (execute_due_jobs handle message clock commit limit locked now t).1 in
        (c.0 + c.1 ≡ length (due_jobs limit locked now t)) × (c.0 + c.1 ≤ limit)
  unfolding execute_due_jobs
  sweep_counts limit locked now t =
      let sum = each_counts (due_jobs limit locked now t) 0 0 t in
      (omega (arith, sum), omega (arith, sum, (due_jobs_page limit locked now t).0))
