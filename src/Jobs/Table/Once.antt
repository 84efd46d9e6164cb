-- ===== src/Jobs/Table/Once.antt =====
-- The deliveries of one dedupe key: the first enqueues, and every later one finds its job.
use edufurthersf_be.Prelude.{
  ℕ, ◌≡◌, refl, ap, ◌∙◌, inl, inr, String, str_eq, eq_iff, Bool, true, false, not, none, some, [],
  ◌∷◌, ◌++◌, arith, ◌==◌, Bool-cases, Option-cases, is_some, find-append_none, Result, ok, raise,
}
use edufurthersf_be.Prelude.Text.{Text}
use edufurthersf_be.Json.{Dict}
use edufurthersf_be.Time.{Instant}
use edufurthersf_be.Rows.{update_row}
use edufurthersf_be.Jobs.{JobTransition, fail_job, claim_job}
use edufurthersf_be.Jobs.Table.{
  ProcessingJob, Table, key_of, by_id, by_key, new_job, enqueue_job, insert_once, or_disappeared,
  apply_claim, claim_row, claim_job_for_execution, complete_job, apply_fail, fail_job_for_execution,
  reconcile_rows, reconcile_error, select_rows, is_stuck, reconcile_stuck_jobs,
}

-- The tables that any operations make out of a table, whatever job a worker holds a copy of.
pub data Later (t : Table) : Table → Type 0 where
  same : Later t t
  enqueued :
      {u : Table} (new_id : ℕ) (kind key : String) (payload : Dict)
      → Later t u
      → Later t (enqueue_job new_id kind key payload u).0
  claimed :
      {u : Table} (job_id : ℕ) (now later : Instant)
      → Later t u
      → Later t (claim_job_for_execution job_id now later u).0
  completed : {u : Table} (job : ProcessingJob) → Later t u → Later t (complete_job job u)
  failed :
      {u : Table} (job : ProcessingJob) (error : Text) (now : Instant)
      → Later t u
      → Later t (fail_job_for_execution job error now u)
  reconciled :
      {u : Table} (limit : ℕ) (locked : ℕ → Bool) (now : Instant)
      → Later t u
      → Later t (reconcile_stuck_jobs limit locked now u).0

-- The row of a key, as the row of one job.
abbrev pub Holds : String → ℕ → Table → Type 0
Holds key id t = (row : ProcessingJob) × (by_key key t ≡ some row) × (row.job_id ≡ id)

by_key-insert :
    (job : ProcessingJob) (t : Table)
    → by_key job.dedupe_key t ≡ none
    → by_key job.dedupe_key (t ++ job ∷ []) ≡ some job
by_key-insert job t e =
    rw (find-append_none (λ j. str_eq j.dedupe_key job.dedupe_key) t (job ∷ []) e)
      (ground (arith, eq_iff job.dedupe_key job.dedupe_key))

update-Holds :
    (key : String) (id target : ℕ) (f : ProcessingJob → ProcessingJob) (t : Table)
    → ((j : ProcessingJob) → (f j).dedupe_key ≡ j.dedupe_key)
    → ((j : ProcessingJob) → (f j).job_id ≡ j.job_id)
    → Holds key id t
    → Holds key id (update_row key_of target f t)
unfolding update_row
update-Holds key id target f [] same_key same_id (row, e, i) = cc
update-Holds key id target f (j ∷ t) same_key same_id (row, e, i) =
    elim (Bool-cases (str_eq j.dedupe_key key)) [
      | inl y ↦
          let own : j ≡ row = some-injective (rw y at e) in
          elim (Bool-cases (j.job_id == target)) [
            | inl hit ↦
                rw (hit, ap (λ k. str_eq k key) (same_key j) ∙ y)
                  (f j, refl, same_id j ∙ ap (λ r. r.job_id) own ∙ i)
            | inr miss ↦ rw (miss, y) (j, refl, ap (λ r. r.job_id) own ∙ i)
          ]
      | inr n ↦
          let rest = update-Holds key id target f t same_key same_id (row, rw n at e, i) in
          elim (Bool-cases (j.job_id == target)) [
            | inl hit ↦ rw (hit, ap (λ k. str_eq k key) (same_key j) ∙ n) rest
            | inr miss ↦ rw (miss, n) rest
          ]
    ]
  where
    some-injective : {a b : ProcessingJob} → some a ≡ some b → a ≡ b
    some-injective h = cc

append-Holds : (key : String) (id : ℕ) (t u : Table) → Holds key id t → Holds key id (t ++ u)
append-Holds key id [] u (row, e, i) = cc
append-Holds key id (j ∷ t) u (row, e, i) = elim (Bool-cases (str_eq j.dedupe_key key)) [
  | inl y ↦ rw y (row, rw y at e, i)
  | inr n ↦ rw n (append-Holds key id t u (row, rw n at e, i))
]

enqueue-Holds :
    (key : String) (id new_id : ℕ) (kind other : String) (payload : Dict) (t : Table)
    → Holds key id t
    → Holds key id (enqueue_job new_id kind other payload t).0
unfolding enqueue_job insert_once
enqueue-Holds key id new_id kind other payload t h = elim (Option-cases (by_key other t)) [
  | inl e ↦
      rw (e, enqueue_job, insert_once)
        (append-Holds key id t (new_job new_id kind other payload ∷ []) h)
  | inr (found, e) ↦ rw (e, enqueue_job, insert_once) h
]

claim_row-Holds :
    (key : String) (id : ℕ) (job : ProcessingJob) (r : Result JobTransition) (later : Instant)
    (t : Table)
    → Holds key id t
    → Holds key id (claim_row job r later t).0
unfolding claim_row
claim_row-Holds key id job (raise e) later t h = h
claim_row-Holds key id job (ok tr) later t h =
    update-Holds key id job.job_id (apply_claim tr later) t (λ j. refl) (λ j. refl) h

claim-Holds :
    (key : String) (id job_id : ℕ) (now later : Instant) (t : Table)
    → Holds key id t
    → Holds key id (claim_job_for_execution job_id now later t).0
unfolding claim_job_for_execution
claim-Holds key id job_id now later t h = elim (Option-cases (by_id job_id t)) [
  | inl e ↦ rw (e, claim_job_for_execution) h
  | inr (job, e) ↦
      rw (e, claim_job_for_execution)
        (claim_row-Holds key id job (claim_job job.state job.attempts now job.next_attempt_at) later
          t h)
]

fail-Holds :
    (key : String) (id : ℕ) (job : ProcessingJob) (error : Text) (now : Instant) (t : Table)
    → Holds key id t
    → Holds key id (fail_job_for_execution job error now t)
unfolding fail_job_for_execution
fail-Holds key id job error now t h =
    update-Holds key id job.job_id (apply_fail (fail_job job.kind job.attempts error now)) t
      (λ j. refl) (λ j. refl) h

reconcile-Holds :
    (key : String) (id : ℕ) (now : Instant) (stuck t : Table)
    → Holds key id t
    → Holds key id (reconcile_rows now stuck t)
unfolding reconcile_rows
reconcile-Holds key id now [] t h = h
reconcile-Holds key id now (job ∷ stuck) t h =
    reconcile-Holds key id now stuck (fail_job_for_execution job reconcile_error now t)
      (fail-Holds key id job reconcile_error now t h)

Later-Holds : (key : String) (id : ℕ) {t u : Table} → Later t u → Holds key id t → Holds key id u
unfolding reconcile_stuck_jobs complete_job
Later-Holds key id same h = h
Later-Holds key id (enqueued {u} new_id kind other payload l) h =
    enqueue-Holds key id new_id kind other payload u (Later-Holds key id l h)
Later-Holds key id (claimed {u} job_id now later l) h =
    claim-Holds key id job_id now later u (Later-Holds key id l h)
Later-Holds key id (completed {u} job l) h =
    update-Holds key id job.job_id _ u (λ j. refl) (λ j. refl) (Later-Holds key id l h)
Later-Holds key id (failed {u} job error now l) h =
    fail-Holds key id job error now u (Later-Holds key id l h)
Later-Holds key id (reconciled {u} limit locked now l) h =
    reconcile-Holds key id now (select_rows (is_stuck now) locked limit u) u
      (Later-Holds key id l h)

-- A delivery returns a job with the key, new exactly if no row had it.
abbrev pub Enqueues : ℕ → String → String → Dict → Table → ProcessingJob → Bool → Type 0
Enqueues id kind key payload t job created =
    ((enqueue_job id kind key payload t).1 ≡ ok (job, created))
    × (by_key key (enqueue_job id kind key payload t).0 ≡ some job)
    × (created ≡ not (is_some (by_key key t)))

-- A delivery at a table changes nothing and returns the job with this id as not new.
abbrev pub Redelivers : ℕ → String → String → Dict → Table → ℕ → Type 0
Redelivers id kind key payload t job_id =
    (row : ProcessingJob) × (enqueue_job id kind key payload t ≡ (t, ok (row, false)))
    × (row.job_id ≡ job_id)

first_delivery :
    (id : ℕ) (kind key : String) (payload : Dict) (t : Table)
    → (job : ProcessingJob) × (created : Bool) × Enqueues id kind key payload t job created
unfolding enqueue_job
first_delivery id kind key payload t = elim (Option-cases (by_key key t)) [
  | inl e ↦
      let job = new_job id kind key payload in
      let found : by_key key (t ++ job ∷ []) ≡ some job = by_key-insert job t e in
      (job, true, (ground (arith, found), ground (arith, found), ground arith))
  | inr (job, e) ↦ (job, false, (ground arith, ground arith, ground arith))
]

redelivered :
    (id : ℕ) (kind key : String) (payload : Dict) (t : Table) (job_id : ℕ)
    → Holds key job_id t
    → Redelivers id kind key payload t job_id
unfolding enqueue_job insert_once or_disappeared
redelivered id kind key payload t job_id (row, e, i) = (row, ground arith, i)

-- Enqueueing never fails on a lost row: it returns a job with the key, which is new exactly if no row had the key.
-- Any later delivery with that key, after any enqueues, claims, completions, failures and reconcile sweeps in
-- between, returns the row of the same job as not new, and leaves the table as it is, whatever id, kind and
-- payload it brings.
pub enqueue_once :
    (id_1 id_2 : ℕ) (kind_1 kind_2 key : String) (payload_1 payload_2 : Dict) (t u : Table)
    → Later (enqueue_job id_1 kind_1 key payload_1 t).0 u
    → (job : ProcessingJob) × (created : Bool) × Enqueues id_1 kind_1 key payload_1 t job created
      × Redelivers id_2 kind_2 key payload_2 u job.job_id
enqueue_once id_1 id_2 kind_1 kind_2 key payload_1 payload_2 t u l =
    let (job, created, made) = first_delivery id_1 kind_1 key payload_1 t in
    (
      job,
      created,
      made,
      redelivered id_2 kind_2 key payload_2 u job.job_id
          (Later-Holds key job.job_id l (job, made.1, refl)),
    )
