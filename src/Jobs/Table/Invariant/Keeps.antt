-- ===== src/Jobs/Table/Invariant/Keeps.antt =====
-- The operations on the job table and the invariant.
use edufurthersf_be.Prelude.{
  ℕ, inl, inr, ◌≡◌, refl, ◌≢◌, sym, ap, String, eq_iff, Bool, none, [], ◌∷◌, ◌++◌, ◌∙◌, arith, ◌==◌,
  All, All-In, All-append, All-of_In, find-In, In, Bool-cases, Option-cases, Result, ok, raise,
  subst, All-map_of,
}
use edufurthersf_be.Prelude.Text.{Text}
use edufurthersf_be.Json.{Dict}
use edufurthersf_be.Time.{Instant}
use edufurthersf_be.Jobs.{JobTransition, running, claim_job, finish_job, fail_job}
use edufurthersf_be.Jobs.Table.{
  ProcessingJob, Table, by_id, by_key, update, new_job, insert_once, claim_row, enqueue_job,
  apply_claim, claim_job_for_execution, complete_job, apply_fail, fail_job_for_execution,
  reconcile_rows, reconcile_error, reconcile_stuck_jobs, is_stuck, select_rows,
}
use edufurthersf_be.Rows.Laws.{All-update_row, select_where-In}
use edufurthersf_be.Jobs.Table.Invariant.{
  IsWellFormed, DistinctIds, DistinctKeys, IsSafe, SameRun, IsCurrent,
}
use edufurthersf_be.Jobs.Table.{key_of}
use edufurthersf_be.Rows.{update_row}

-- An UPDATE that leaves the two unique columns alone keeps them unique.
module _ (job_id : ℕ) (f : ProcessingJob → ProcessingJob)
    (same_id : (j : ProcessingJob) → (f j).job_id ≡ j.job_id)
    (same_key : (j : ProcessingJob) → (f j).dedupe_key ≡ j.dedupe_key) where
  other_ids :
      (n : ℕ) (t : Table) → All (λ k. k.job_id ≢ n) t → All (λ k. k.job_id ≢ n) (update job_id f t)
  other_ids n t =
      All-update_row key_of (λ k. k.job_id ≢ n) job_id f t (λ j m e h. λ p. h (sym (same_id j) ∙ p))

  other_keys :
      (s : String) (t : Table)
      → All (λ k. k.dedupe_key ≢ s) t
      → All (λ k. k.dedupe_key ≢ s) (update job_id f t)
  other_keys s t =
      All-update_row key_of (λ k. k.dedupe_key ≢ s) job_id f t
        (λ j m e h. λ p. h (sym (same_key j) ∙ p))

  DistinctIds-update : (t : Table) → DistinctIds t → DistinctIds (update job_id f t)
  unfolding update_row
  DistinctIds-update [] h = h
  DistinctIds-update (j ∷ t) h = elim (Bool-cases (j.job_id == job_id)) [
    | inl e ↦ rw e (rw (same_id j) (other_ids j.job_id t h.0), DistinctIds-update t h.1)
    | inr e ↦ rw e (other_ids j.job_id t h.0, DistinctIds-update t h.1)
  ]

  DistinctKeys-update : (t : Table) → DistinctKeys t → DistinctKeys (update job_id f t)
  unfolding update_row
  DistinctKeys-update [] h = h
  DistinctKeys-update (j ∷ t) h = elim (Bool-cases (j.job_id == job_id)) [
    | inl e ↦ rw e (rw (same_key j) (other_keys j.dedupe_key t h.0), DistinctKeys-update t h.1)
    | inr e ↦ rw e (other_keys j.dedupe_key t h.0, DistinctKeys-update t h.1)
  ]

  pub IsSafe-update :
      (t : Table)
      → ((j : ProcessingJob) → In j t → j.job_id ≡ job_id → IsWellFormed j → IsWellFormed (f j))
      → IsSafe t
      → IsSafe (update job_id f t)
  IsSafe-update t keeps h = record {
    rows = All-update_row key_of IsWellFormed job_id f t keeps h.rows;
    ids = DistinctIds-update t h.ids;
    keys = DistinctKeys-update t h.keys;
  }

-- Two rows with one primary key are one row.
pub DistinctIds-unique :
    (a b : ProcessingJob) (t : Table)
    → DistinctIds t
    → In a t
    → In b t
    → a.job_id ≡ b.job_id
    → a ≡ b
DistinctIds-unique a b [] h m n e = absurd m
DistinctIds-unique a b (j ∷ t) h (inl p) (inl q) e = sym p ∙ q
DistinctIds-unique a b (j ∷ t) h (inl p) (inr n) e =
    absurd (All-In (λ k. k.job_id ≢ j.job_id) t h.0 n (cc (ap (λ k. k.job_id) p)))
DistinctIds-unique a b (j ∷ t) h (inr m) (inl q) e =
    absurd (All-In (λ k. k.job_id ≢ j.job_id) t h.0 m (cc (ap (λ k. k.job_id) q)))
DistinctIds-unique a b (j ∷ t) h (inr m) (inr n) e = DistinctIds-unique a b t h.1 m n e

claim-IsWellFormed :
    (j : ProcessingJob) (now later : Instant) (tr : JobTransition)
    → claim_job j.state j.attempts now j.next_attempt_at ≡ ok tr
    → IsWellFormed j
    → IsWellFormed (apply_claim tr later j)
unfolding claim_job
claim-IsWellFormed j now later tr e h = ground arith

fail-IsWellFormed :
    (job j : ProcessingJob) (error : Text) (now : Instant)
    → SameRun job j
    → j.job_id ≡ job.job_id
    → IsWellFormed j
    → IsWellFormed (apply_fail (fail_job job.kind job.attempts error now) j)
unfolding fail_job
fail-IsWellFormed job j error now same e h = let (k, n, p) = same e in ground arith

complete-IsWellFormed :
    (j : ProcessingJob)
    → IsWellFormed j
    → IsWellFormed
        (record j { state = finish_job.state; lease_expires_at = none; next_attempt_at = none })
complete-IsWellFormed j h = ground arith

new_job-IsWellFormed :
    (new_id : ℕ) (kind key : String) (payload : Dict)
    → IsWellFormed (new_job new_id kind key payload)
new_job-IsWellFormed new_id kind key payload = ground arith

DistinctIds-insert :
    (job : ProcessingJob) (t : Table)
    → All (λ k. k.job_id ≢ job.job_id) t
    → DistinctIds t
    → DistinctIds (t ++ job ∷ [])
DistinctIds-insert job [] f h = (tt, tt)
DistinctIds-insert job (j ∷ t) f h = (
  All-append (λ k. k.job_id ≢ j.job_id) t (job ∷ []) h.0 ((λ e. f.0 (sym e)), tt),
  DistinctIds-insert job t f.1 h.1,
)

DistinctKeys-insert :
    (job : ProcessingJob) (t : Table)
    → by_key job.dedupe_key t ≡ none
    → DistinctKeys t
    → DistinctKeys (t ++ job ∷ [])
DistinctKeys-insert job [] e h = (tt, tt)
DistinctKeys-insert job (j ∷ t) e h = (
  All-append (λ k. k.dedupe_key ≢ j.dedupe_key) t (job ∷ []) h.0
      ((λ p. ground (arith, eq_iff j.dedupe_key job.dedupe_key)), tt),
  DistinctKeys-insert job t (ground arith) h.1,
)

pub enqueue-IsSafe :
    (new_id : ℕ) (kind key : String) (payload : Dict) (t : Table)
    → All (λ k. k.job_id ≢ new_id) t
    → IsSafe t
    → IsSafe (enqueue_job new_id kind key payload t).0
unfolding enqueue_job
enqueue-IsSafe new_id kind key payload t f h = elim (Option-cases (by_key key t)) [
  | inl e ↦
      rw (e, insert_once)
        (record {
          rows =
              All-append IsWellFormed t (new_job new_id kind key payload ∷ []) h.rows
                (new_job-IsWellFormed new_id kind key payload, tt);
          ids = DistinctIds-insert (new_job new_id kind key payload) t f h.ids;
          keys = DistinctKeys-insert (new_job new_id kind key payload) t e h.keys;
        })
  | inr (j, e) ↦ rw (e, insert_once) h
]

claim_row-IsSafe :
    (job : ProcessingJob) (r : Result JobTransition) (now later : Instant) (t : Table)
    → claim_job job.state job.attempts now job.next_attempt_at ≡ r
    → In job t
    → IsSafe t
    → IsSafe (claim_row job r later t).0
unfolding claim_row
claim_row-IsSafe job (raise e) now later t c m h = h
claim_row-IsSafe job (ok tr) now later t c m h =
    IsSafe-update job.job_id (apply_claim tr later) (λ j. refl) (λ j. refl) t
      (λ j n e w.
        subst (λ k. IsWellFormed (apply_claim tr later k))
          (DistinctIds-unique job j t h.ids m n (sym e))
          (claim-IsWellFormed job now later tr c (All-In IsWellFormed t h.rows m)))
      h

pub claim-IsSafe :
    (job_id : ℕ) (now later : Instant) (t : Table)
    → IsSafe t
    → IsSafe (claim_job_for_execution job_id now later t).0
unfolding claim_job_for_execution
claim-IsSafe job_id now later t h = elim (Option-cases (by_id job_id t)) [
  | inl e ↦ rw (e, claim_job_for_execution) h
  | inr (job, e) ↦
      rw (e, claim_job_for_execution)
        (claim_row-IsSafe job (claim_job job.state job.attempts now job.next_attempt_at) now later t
          refl (find-In (λ j. j.job_id == job_id) t e).0 h)
]

pub complete-IsSafe : (job : ProcessingJob) (t : Table) → IsSafe t → IsSafe (complete_job job t)
unfolding complete_job
complete-IsSafe job t h =
    IsSafe-update job.job_id _ (λ j. refl) (λ j. refl) t (λ j m e w. complete-IsWellFormed j w) h

pub fail-IsSafe :
    (job : ProcessingJob) (error : Text) (now : Instant) (t : Table)
    → IsCurrent job t
    → IsSafe t
    → IsSafe (fail_job_for_execution job error now t)
unfolding fail_job_for_execution
fail-IsSafe job error now t c h =
    IsSafe-update job.job_id _ (λ j. refl) (λ j. refl) t
      (λ j m e w. fail-IsWellFormed job j error now (All-In (SameRun job) t c m) e w) h

pub IsCurrent-fail :
    (a job : ProcessingJob) (error : Text) (now : Instant) (t : Table)
    → IsCurrent a t
    → IsCurrent a (fail_job_for_execution job error now t)
unfolding fail_job_for_execution
IsCurrent-fail a job error now t =
    All-update_row key_of (SameRun a) job.job_id
      (apply_fail (fail_job job.kind job.attempts error now)) t (λ j m e s. s)

reconcile_rows-IsSafe :
    (now : Instant) (stuck t : Table)
    → All (λ a. IsCurrent a t) stuck
    → IsSafe t
    → IsSafe (reconcile_rows now stuck t)
unfolding reconcile_rows
reconcile_rows-IsSafe now [] t c h = h
reconcile_rows-IsSafe now (job ∷ stuck) t c h =
    reconcile_rows-IsSafe now stuck (fail_job_for_execution job reconcile_error now t)
      (All-map_of (λ a. IsCurrent-fail a job reconcile_error now t) stuck c.1)
      (fail-IsSafe job reconcile_error now t c.0 h)

-- A running row of the table is its own current copy.
pub In-IsCurrent :
    (job : ProcessingJob) (t : Table) → IsSafe t → In job t → job.state ≡ running → IsCurrent job t
In-IsCurrent job t h m r = All-of_In (SameRun job) t λ row n e.
    let same : row ≡ job = DistinctIds-unique row job t h.ids n m e in
    let w : IsWellFormed job = All-In IsWellFormed t h.rows m in
    (ap (λ k. k.kind) same, ap (λ k. k.attempts) same, rw same (w.attempted r))

pub reconcile-IsSafe :
    (limit : ℕ) (locked : ℕ → Bool) (now : Instant) (t : Table)
    → IsSafe t
    → IsSafe (reconcile_stuck_jobs limit locked now t).0
unfolding reconcile_stuck_jobs
reconcile-IsSafe limit locked now t h =
    let stuck = select_rows (is_stuck now) locked limit t in
    reconcile_rows-IsSafe now stuck t
      (All-of_In (λ a. IsCurrent a t) stuck
        λ a m.
          let (n, test, free) = select_where-In key_of (is_stuck now) locked limit a t m in
          In-IsCurrent a t h n (ground arith))
      h
