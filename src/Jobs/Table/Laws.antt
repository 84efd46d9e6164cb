-- ===== src/Jobs/Table/Laws.antt =====
-- What enqueueing, claiming and counting do, as their callers see it.
use edufurthersf_be.Prelude.{
  ℕ, All, All-of_In, subst, sym, ◌∙◌, ==_iff, ◌+◌, ◌≡◌, refl, ◌≢◌, ap, ◌⊎◌, inl, inr, String, Bool,
  true, false, none, some, arith, ◌==◌, Bool-cases, Option-cases, find-In, Result, ok, raise,
  value_error, lookup_error, ok-injective,
}
use edufurthersf_be.Time.{Instant}
use edufurthersf_be.Jobs.{JobTransition, running, lease_expiry, is_claimable, claim_job}
use edufurthersf_be.Jobs.Table.{
  ProcessingJob, Table, by_id, apply_claim, claim_row, claim_job_for_execution, due_predicate,
  due_jobs,
}
use edufurthersf_be.Rows.Laws.{select_where-In, find-update_row}
use edufurthersf_be.Jobs.Table.Invariant.{IsSafe}
use edufurthersf_be.Jobs.Table.Invariant.Keeps.{DistinctIds-unique, claim-IsSafe}
use edufurthersf_be.Jobs.Table.{key_of}

claim_due :
    (job : ProcessingJob) (now : Instant)
    → due_predicate now job ≡ true
    → claim_job job.state job.attempts now job.next_attempt_at
      ≡ ok (record {
        state = running;
        attempts = job.attempts + 1;
        next_attempt_at = none;
        error = none;
      })
unfolding claim_job
claim_due job now h = ground arith

claim_refused :
    (job : ProcessingJob) (now : Instant)
    → due_predicate now job ≡ false
    → (s : String) × (claim_job job.state job.attempts now job.next_attempt_at
        ≡ raise (value_error s))
unfolding claim_job
claim_refused job now h = elim (Bool-cases (is_claimable job.state)) [
  | inl c ↦ ("Job is not due yet", ground arith)
  | inr c ↦ ("Job is not claimable", ground arith)
]

claim_found :
    (job_id : ℕ) (now later : Instant) (t : Table) (job : ProcessingJob) (r : Result JobTransition)
    → by_id job_id t ≡ some job
    → claim_job job.state job.attempts now job.next_attempt_at ≡ r
    → claim_job_for_execution job_id now later t ≡ claim_row job r later t
unfolding claim_job_for_execution
claim_found job_id now later t job r e c = rw (e, claim_job_for_execution, c) refl

pub by_id-id :
    (job_id : ℕ) (t : Table) (job : ProcessingJob) → by_id job_id t ≡ some job → job.job_id ≡ job_id
by_id-id job_id t job e = (==_iff job.job_id job_id).0 (find-In (λ j. j.job_id == job_id) t e).1

abbrev pub ClaimsExactly : ℕ → Instant → Instant → Table → ProcessingJob → Type 0
ClaimsExactly job_id now later t job =
    let (t', r) = claim_job_for_execution job_id now later t in
    let claimed = record job {
      state = running;
      attempts = job.attempts + 1;
      lease_expires_at = some (lease_expiry later);
    } in
    ((due_predicate now job ≡ true) × (r ≡ ok claimed) × (by_id job.job_id t' ≡ some claimed))
    ⊎ ((due_predicate now job ≡ false) × (t' ≡ t) × ((s : String) × (r ≡ raise (value_error s))))

-- A claim of a row succeeds exactly if the row is due. It then sets the row running with one more
-- attempt and a lease of 900 seconds; a refused claim leaves the table as it is.
pub claim_exact :
    (job_id : ℕ) (now later : Instant) (t : Table) (job : ProcessingJob)
    → by_id job_id t ≡ some job
    → ClaimsExactly job_id now later t job
unfolding claim_job_for_execution
claim_exact job_id now later t job e =
    let own : by_id job.job_id t ≡ some job =
      subst (λ n. by_id n t ≡ some job) (sym (by_id-id job_id t job e)) e in
    elim (Bool-cases (due_predicate now job)) [
      | inl d ↦
          let tr : JobTransition = record {
            state = running;
            attempts = job.attempts + 1;
            next_attempt_at = none;
            error = none;
          } in
          let run = claim_found job_id now later t job (ok tr) e (claim_due job now d) in
          inl (
            d,
            ap (λ p. p.1) run,
            ap (λ p. by_id job.job_id p.0) run
                ∙ find-update_row key_of job.job_id (apply_claim tr later) t (λ j. refl) own,
          )
      | inr n ↦
          let (s, c) = claim_refused job now n in
          let run = claim_found job_id now later t job (raise (value_error s)) e c in
          inr (n, ap (λ p. p.0) run, (s, ap (λ p. p.1) run))
    ]

claim_missing :
    (job_id : ℕ) (now later : Instant) (t : Table)
    → by_id job_id t ≡ none
    → (claim_job_for_execution job_id now later t).1 ≡ raise (lookup_error "Job not found")
unfolding claim_job_for_execution
claim_missing job_id now later t n = rw (n, claim_job_for_execution)

pub claimed_row :
    (job_id : ℕ) (now later : Instant) (t : Table) (job : ProcessingJob)
    → (claim_job_for_execution job_id now later t).1 ≡ ok job
    → (by_id job_id (claim_job_for_execution job_id now later t).0 ≡ some job)
      × (job.state ≡ running)
claimed_row job_id now later t job e = elim (Option-cases (by_id job_id t)) [
  | inl n ↦ cc (e, claim_missing job_id now later t n)
  | inr (row, f) ↦ elim (claim_exact job_id now later t row f) [
    | inl (d, r, b) ↦
        let same : job ≡ record row {
          state = running;
          attempts = row.attempts + 1;
          lease_expires_at = some (lease_expiry later);
        } =
          ok-injective (sym e ∙ r) in
        (cc (by_id-id job_id t row f), ap (λ j. j.state) same)
    | inr (d, u, (s, r)) ↦ cc
  ]
]

running_refused :
    (job : ProcessingJob) (now : Instant)
    → job.state ≡ running
    → claim_job job.state job.attempts now job.next_attempt_at
      ≡ raise (value_error "Job is not claimable")
unfolding claim_job
running_refused job now h = rw h

-- A claim that succeeded excludes every other: as long as the row is not written again, a second
-- claim of the job is refused at any time and changes nothing, and no page of due jobs holds it.
pub claim_excludes :
    (job_id : ℕ) (now later now' later' : Instant) (limit : ℕ) (locked : ℕ → Bool) (t : Table)
    (job : ProcessingJob)
    → IsSafe t
    → (claim_job_for_execution job_id now later t).1 ≡ ok job
    → let t' = (claim_job_for_execution job_id now later t).0 in
      (claim_job_for_execution job_id now' later' t'
        ≡ (t', raise (value_error "Job is not claimable")))
      × All (λ a. a.job_id ≢ job_id) (due_jobs limit locked now' t')
unfolding due_jobs claim_row
claim_excludes job_id now later now' later' limit locked t job h e =
    let t' = (claim_job_for_execution job_id now later t).0 in
    let (found, runs) = claimed_row job_id now later t job e in
    (
      claim_found job_id now' later' t' job (raise (value_error "Job is not claimable")) found
          (running_refused job now' runs),
      All-of_In (λ a. a.job_id ≢ job_id) (due_jobs limit locked now' t')
          λ a m same.
            let (n, due, _) = select_where-In key_of (due_predicate now') locked limit a t' m in
            let (k, own) = find-In (λ j. j.job_id == job_id) t' found in
            let one : a ≡ job =
              DistinctIds-unique a job t' (claim-IsSafe job_id now later t h).ids n k
                (same ∙ sym (by_id-id job_id t' job found)) in
            let idle : due_predicate now' job ≡ true =
              subst (λ j. due_predicate now' j ≡ true) one due in
            ground arith,
    )
