-- ===== src/Jobs/Table/Sweep.antt =====
-- `reconcile_stuck_jobs` against its description: one pass that fails each stuck row.
use edufurthersf_be.Prelude.{
  ℕ, suc, String, Option, ltb, le→leb, ◌+◌, ◌<◌, ◌⊎◌, none, some, keep-In, ap₂, keep-eq_of_tests,
  length-take-le, ==_refl, ◌≤◌, ◌≡◌, refl, sym, ap, ◌∙◌, inl, inr, Bool, true, false, not, ◌&&◌, [],
  ◌∷◌, map, arith, ◌==◌, ==_iff, if◌then◌else◌, Bool-cases, any, any-In, In-any, keep, length,
  take_all, All, All-map_of, All-of_In, In, map-eq_of_In, eq_of_implies, subst,
}
use edufurthersf_be.Time.{Instant, seconds}
use edufurthersf_be.Prelude.Text.{codes}
use edufurthersf_be.Jobs.{
  JobState, queued, completed, fail_job, running, retry_wait, failed_review, is_retryable,
  is_lease_expired,
}
use edufurthersf_be.Jobs.Backoff.{fail_job_lem}
use edufurthersf_be.Jobs.Table.{
  ProcessingJob, Table, apply_fail, fail_job_for_execution, key_of, select_rows, is_running,
  is_stuck, reconcile_error, reconcile_rows, reconcile_stuck_jobs, due_predicate, due_jobs,
  count_due_jobs,
}
use edufurthersf_be.Rows.Laws.{select_where-In, In-select_where, length-order_by}
use edufurthersf_be.Jobs.Table.Invariant.{IsSafe, SameRun, IsCurrent}
use edufurthersf_be.Jobs.Table.Invariant.Keeps.{DistinctIds-unique, IsCurrent-fail, In-IsCurrent}
use edufurthersf_be.Rows.{update_row, select_where, order_by}

-- The row as a failed attempt whose lease ran out leaves it.
abbrev pub abandoned : Instant → ProcessingJob → ProcessingJob
abandoned now j = apply_fail (fail_job j.kind j.attempts reconcile_error now) j

abbrev swept : Instant → Table → ProcessingJob → ProcessingJob
swept now stuck j = if any (λ a. j.job_id == a.job_id) stuck then abandoned now j else j

-- A second failure with the same number of attempts writes the same values.
swept-abandoned :
    (now : Instant) (stuck : Table) (j : ProcessingJob)
    → swept now stuck (abandoned now j) ≡ abandoned now j
swept-abandoned now stuck j = elim (Bool-cases (any (λ a. j.job_id == a.job_id) stuck)) [
  | inl e ↦ rw e
  | inr e ↦ rw e
]

fail-eq-abandoned :
    (now : Instant) (a j : ProcessingJob)
    → SameRun a j
    → j.job_id ≡ a.job_id
    → apply_fail (fail_job a.kind a.attempts reconcile_error now) j ≡ abandoned now j
fail-eq-abandoned now a j same e = let (k, n, _) = same e in rw (← k, ← n)

swept-fail :
    (now : Instant) (a : ProcessingJob) (stuck t : Table)
    → IsCurrent a t
    → map (swept now stuck) (fail_job_for_execution a reconcile_error now t)
      ≡ map (swept now (a ∷ stuck)) t
unfolding fail_job_for_execution update_row
swept-fail now a stuck [] c = refl
swept-fail now a stuck (j ∷ t) c =
    let rest = swept-fail now a stuck t c.1 in
    elim (Bool-cases (j.job_id == a.job_id)) [
      | inl e ↦
          rw (e, fail-eq-abandoned now a j c.0 ((==_iff j.job_id a.job_id).0 e))
            (ap₂ (λ r rs. r ∷ rs) (swept-abandoned now stuck j) rest)
      | inr e ↦ rw e (ap (λ rs. swept now stuck j ∷ rs) rest)
    ]

map-swept_nil : (now : Instant) (t : Table) → map (swept now []) t ≡ t
map-swept_nil now [] = refl
map-swept_nil now (j ∷ t) = ap (λ r. j ∷ r) (map-swept_nil now t)

reconcile_rows-eq-map :
    (now : Instant) (stuck t : Table)
    → All (λ a. IsCurrent a t) stuck
    → reconcile_rows now stuck t ≡ map (swept now stuck) t
unfolding reconcile_rows
reconcile_rows-eq-map now [] t c = sym (map-swept_nil now t)
reconcile_rows-eq-map now (a ∷ stuck) t c =
    reconcile_rows-eq-map now stuck (fail_job_for_execution a reconcile_error now t)
      (All-map_of (λ b. IsCurrent-fail b a reconcile_error now t) stuck c.1)
    ∙ swept-fail now a stuck t c.0

-- Among the selected rows there is one with the id of `j` exactly if `j` is one of them.
selected :
    (limit : ℕ) (locked : ℕ → Bool) (now : Instant) (t : Table) (j : ProcessingJob)
    → IsSafe t
    → length (keep (λ k. is_stuck now k && not (locked k.job_id)) t) ≤ limit
    → In j t
    → any (λ a. j.job_id == a.job_id) (select_rows (is_stuck now) locked limit t)
      ≡ (is_stuck now j && not (locked j.job_id))
selected limit locked now t j h room m =
    eq_of_implies _ _
      (λ found.
        let (a, n, same) = any-In (λ a. j.job_id == a.job_id) _ found in
        let (k, stuck, free) = select_where-In key_of (is_stuck now) locked limit a t n in
        let one : a ≡ j =
          DistinctIds-unique a j t h.ids k m (sym ((==_iff j.job_id a.job_id).0 same)) in
        subst (λ r. (is_stuck now r && not (locked r.job_id)) ≡ true) one (ground arith))
      (λ wanted.
        In-any (λ a. j.job_id == a.job_id) j _
          (In-select_where key_of (is_stuck now) locked limit j t room m (ground arith)
            (ground arith))
          (==_refl j.job_id))

length-select_rows :
    (test : ProcessingJob → Bool) (locked : ℕ → Bool) (limit : ℕ) (t : Table)
    → length (keep (λ j. test j && not (locked j.job_id)) t) ≤ limit
    → length (select_rows test locked limit t)
      ≡ length (keep (λ j. test j && not (locked j.job_id)) t)
unfolding select_where
length-select_rows test locked limit t room =
    let wanted : ProcessingJob → Bool = λ j. test j && not (locked j.job_id) in
    let fits : length (order_by key_of (keep wanted t)) ≤ limit =
      omega (arith, length-order_by key_of (keep wanted t)) in
    rw (take_all limit (order_by key_of (keep wanted t)) fits)
      (length-order_by key_of (keep wanted t))

length_page :
    (test : ProcessingJob → Bool) (locked : ℕ → Bool) (limit : ℕ) (t : Table)
    → length (select_rows test locked limit t) ≤ limit
unfolding select_where
length_page test locked limit t = length-take-le limit _

reconcile-eq-map :
    (limit : ℕ) (locked : ℕ → Bool) (now : Instant) (t : Table)
    → IsSafe t
    → length (keep (λ j. is_stuck now j && not (locked j.job_id)) t) ≤ limit
    → reconcile_stuck_jobs limit locked now t ≡ (
      map (λ j. if is_stuck now j && not (locked j.job_id) then abandoned now j else j) t,
      length (keep (λ j. is_stuck now j && not (locked j.job_id)) t),
    )
unfolding reconcile_stuck_jobs
reconcile-eq-map limit locked now t h room =
    let stuck = select_rows (is_stuck now) locked limit t in
    let current : All (λ a. IsCurrent a t) stuck =
      All-of_In (λ a. IsCurrent a t) stuck
        λ a m.
          let (n, test, free) = select_where-In key_of (is_stuck now) locked limit a t m in
          In-IsCurrent a t h n (ground arith) in
    ap₂ (λ rows n. (rows, n))
      (reconcile_rows-eq-map now stuck t current
        ∙ map-eq_of_In (swept now stuck) _ t λ j m. rw (selected limit locked now t j h room m))
      (length-select_rows (is_stuck now) locked limit t room)

-- A running row whose lease has ended, and that no other session has locked.
abbrev pub IsLost : Instant → (ℕ → Bool) → ProcessingJob → Type 0
IsLost now locked j =
    (j.state ≡ running)
    × ((lease : Instant) × (j.lease_expires_at ≡ some lease) × (lease ≤ now))
    × (locked j.job_id ≡ false)

-- The row `k` that the sweep makes of the lost row `j`: a retry that is due between one and eight minutes later, if
-- the kind is retryable and fewer than five attempts are used up, and a review otherwise.
pub record IsGivenBack (now : Instant) (j k : ProcessingJob) : Type 0 where
  pub others_kept : k ≡ record j {
    state = k.state;
    last_error = some (codes "lease expired before completion");
    next_attempt_at = k.next_attempt_at;
    lease_expires_at = none;
  }
  pub outcome :
      ((is_retryable j.kind ≡ true)
        × (j.attempts < 5)
        × (k.state ≡ retry_wait)
        × ((retry : Instant) × (k.next_attempt_at ≡ some retry)
            × (now + seconds 60 ≤ retry)
            × (retry ≤ now + seconds 480)))
      ⊎ (((is_retryable j.kind ≡ false) ⊎ (5 ≤ j.attempts))
          × (k.state ≡ failed_review)
          × (k.next_attempt_at ≡ none))

-- The tables before and after a sweep, and the number of rows that it gave back.
pub data Sweeps (now : Instant) (locked : ℕ → Bool) : Table → Table → ℕ → Type 0 where
  no_row : Sweeps now locked [] [] 0
  given_back :
      {j k : ProcessingJob} {t u : Table} {n : ℕ}
      → IsLost now locked j
      → IsGivenBack now j k
      → Sweeps now locked t u n
      → Sweeps now locked (j ∷ t) (k ∷ u) (suc n)
  left_alone :
      {j : ProcessingJob} {t u : Table} {n : ℕ}
      → ¬ IsLost now locked j
      → Sweeps now locked t u n
      → Sweeps now locked (j ∷ t) (j ∷ u) n

ended_lease :
    (now : Instant) (state : JobState) (lease : Option Instant)
    → (is_running state && is_lease_expired lease now) ≡ true
    → (state ≡ running) × (l : Instant) × (lease ≡ some l) × (l ≤ now)
ended_lease now running (some l) h = (refl, l, refl, ground arith)
ended_lease now running none h = cc
ended_lease now queued lease h = cc
ended_lease now retry_wait lease h = cc
ended_lease now completed lease h = cc
ended_lease now failed_review lease h = cc

stuck_row :
    (now : Instant) (locked : ℕ → Bool) (j : ProcessingJob)
    → (is_stuck now j && not (locked j.job_id)) ≡ true
    → IsLost now locked j
stuck_row now locked j h =
    let (runs, lease, held, ended) = ended_lease now j.state j.lease_expires_at (ground arith) in
    (runs, (lease, held, ended), ground arith)

live_row :
    (now : Instant) (locked : ℕ → Bool) (j : ProcessingJob)
    → (is_stuck now j && not (locked j.job_id)) ≡ false
    → ¬ IsLost now locked j
live_row now locked j h (runs, (lease, held, ended), free) =
    let stuck : (is_stuck now j && not (locked j.job_id)) ≡ true =
      rw (runs, held, free) (rw (le→leb lease now ended) refl) in
    cc

error_kept :
    (kind : String) (attempts : ℕ) (now : Instant)
    → (fail_job kind attempts reconcile_error now).error
      ≡ some (codes "lease expired before completion")
unfolding reconcile_error fail_job
error_kept kind attempts now = elim (Bool-cases (is_retryable kind && ltb attempts 5)) [
  | inl e ↦ rw e refl
  | inr e ↦ rw e refl
]

abandoned-IsGivenBack : (now : Instant) (j : ProcessingJob) → IsGivenBack now j (abandoned now j)
abandoned-IsGivenBack now j = record {
  others_kept =
      ap
        (λ e. record j {
          state = (abandoned now j).state;
          last_error = e;
          next_attempt_at = (abandoned now j).next_attempt_at;
          lease_expires_at = none;
        })
        (error_kept j.kind j.attempts now);
  outcome = elim (fail_job_lem j.kind j.attempts reconcile_error now).0 [
    | inl (kind, budget, (state, retry)) ↦ inl (kind, budget, state, retry)
    | inr (spent, (state, none_left)) ↦ inr (spent, state, none_left)
  ];
}

map-Sweeps :
    (now : Instant) (locked : ℕ → Bool) (t : Table)
    → Sweeps now locked t
        (map (λ j. if is_stuck now j && not (locked j.job_id) then abandoned now j else j) t)
        (length (keep (λ j. is_stuck now j && not (locked j.job_id)) t))
map-Sweeps now locked [] = no_row
map-Sweeps now locked (j ∷ t) = elim (Bool-cases (is_stuck now j && not (locked j.job_id))) [
  | inl e ↦ rw e (
      given_back (stuck_row now locked j e) (abandoned-IsGivenBack now j) (map-Sweeps now locked t))
  | inr e ↦ rw e (left_alone (live_row now locked j e) (map-Sweeps now locked t))
]

-- Where at most `limit` rows of a safe table are running with a lease that has ended and locked by no other session,
-- one sweep gives back exactly these, as retries or for a review by their own kinds and attempts; it leaves every
-- other row as it is, and returns how many rows it gave back.
pub reconcile_exact :
    (limit : ℕ) (locked : ℕ → Bool) (now : Instant) (t : Table)
    → IsSafe t
    → length (keep (λ j. is_stuck now j && not (locked j.job_id)) t) ≤ limit
    → Sweeps now locked t
        (reconcile_stuck_jobs limit locked now t).0
        (reconcile_stuck_jobs limit locked now t).1
reconcile_exact limit locked now t h room =
    rw (reconcile-eq-map limit locked now t h room) (map-Sweeps now locked t)

-- A page of due jobs holds at most `limit` rows, and each of them is a row of the table that is due
-- and that no other session has locked.
pub due_jobs_page :
    (limit : ℕ) (locked : ℕ → Bool) (now : Instant) (t : Table)
    → (length (due_jobs limit locked now t) ≤ limit)
      × All
          (λ a. In a t × (due_predicate now a ≡ true) × (locked a.job_id ≡ false))
          (due_jobs limit locked now t)
unfolding due_jobs
due_jobs_page limit locked now t = (
  length_page (due_predicate now) locked limit t,
  All-of_In _ (due_jobs limit locked now t)
      λ a. select_where-In key_of (due_predicate now) locked limit a t,
)

-- With nothing locked and room for every row, a page of due jobs holds as many jobs as
-- `count_due_jobs` counts, and every due row of the table is on it.
pub due_jobs_complete :
    (limit : ℕ) (locked : ℕ → Bool) (now : Instant) (t : Table)
    → length (keep (λ j. due_predicate now j && not (locked j.job_id)) t) ≤ limit
    → ((n : ℕ) → locked n ≡ false)
    → (length (due_jobs limit locked now t) ≡ count_due_jobs now t)
      × All (λ a. In a (due_jobs limit locked now t)) (keep (due_predicate now) t)
unfolding due_jobs count_due_jobs
due_jobs_complete limit locked now t room free = (
  length-select_rows (due_predicate now) locked limit t room
      ∙ ap length
          (keep-eq_of_tests _ (due_predicate now) t (λ j. rw (free j.job_id) (ground arith))),
  All-of_In _ (keep (due_predicate now) t) λ a m.
      let (n, due) = keep-In (due_predicate now) a t m in
      In-select_where key_of (due_predicate now) locked limit a t room n due (free a.job_id),
)
