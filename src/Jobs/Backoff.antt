-- ===== src/Jobs/Backoff.antt =====
-- The retry schedule of src/app/domain/jobs.py: what `fail_job` decides on every branch.
use edufurthersf_be.Prelude.{
  ℕ, zero, suc, ◌+◌, ◌≤◌, ◌<◌, ◌≡◌, refl, ◌⊎◌, inl, inr, String, true, false, none, some, ltb, take,
  length, length-take-le, arith, Bool-cases, ◌&&◌,
}
use edufurthersf_be.Prelude.Text.{Text}
use edufurthersf_be.Time.{Instant, seconds}
use edufurthersf_be.Jobs.{retry_wait, failed_review, is_retryable, JobTransition, backoff, fail_job}

backoff_within : (attempts : ℕ) → attempts < 5 → (60 ≤ backoff attempts) × (backoff attempts ≤ 480)
unfolding backoff
backoff_within zero h = omega arith
backoff_within (suc zero) h = omega arith
backoff_within (suc (suc zero)) h = omega arith
backoff_within (suc (suc (suc zero))) h = omega arith
backoff_within (suc (suc (suc (suc zero)))) h = omega arith
backoff_within (suc (suc (suc (suc (suc n))))) h = absurd (omega arith)

abbrev pub IsRetry : JobTransition → Instant → Type 0
IsRetry tr now =
    (tr.state ≡ retry_wait)
    × ((t : Instant) × (tr.next_attempt_at ≡ some t)
        × (now + seconds 60 ≤ t)
        × (t ≤ now + seconds 480))

abbrev pub IsFinal : JobTransition → Type 0
IsFinal tr = (tr.state ≡ failed_review) × (tr.next_attempt_at ≡ none)

abbrev pub FailsByBudget : String → ℕ → Text → Instant → Type 0
FailsByBudget kind attempts error now =
    let tr = fail_job kind attempts error now in
    ((is_retryable kind ≡ true) × (attempts < 5) × IsRetry tr now
      ⊎ ((is_retryable kind ≡ false) ⊎ (5 ≤ attempts)) × IsFinal tr)
    × (tr.attempts ≡ attempts)
    × ((kept : Text) × (tr.error ≡ some kept) × (length kept ≤ 1000))

-- A failed job waits for a retry exactly if its kind is retryable and fewer than five attempts are
-- used up, and the retry is then due between one and eight minutes later (so the cap of 21600
-- seconds is never reached); any other job goes to review with no retry. Neither branch changes
-- the number of attempts, and the error that is kept has at most 1000 characters.
pub fail_job_lem :
    (kind : String) (attempts : ℕ) (error : Text) (now : Instant)
    → FailsByBudget kind attempts error now
unfolding fail_job
fail_job_lem kind attempts error now = elim (Bool-cases (is_retryable kind && ltb attempts 5)) [
  | inl e ↦
      rw (e, fail_job)
        (
          inl (
            ground arith,
            ground arith,
            (refl, (now + seconds (backoff attempts), refl, lower e, upper e)),
          ),
          refl,
          (take 1000 error, refl, length-take-le 1000 error),
        )
  | inr e ↦
      rw (e, fail_job)
        (inr (spent e, (refl, refl)), refl, (take 1000 error, refl, length-take-le 1000 error))
]
  where
    lower :
        (is_retryable kind && ltb attempts 5) ≡ true
        → now + seconds 60 ≤ now + seconds (backoff attempts)
    lower e = ground (arith, backoff_within attempts)

    upper :
        (is_retryable kind && ltb attempts 5) ≡ true
        → now + seconds (backoff attempts) ≤ now + seconds 480
    upper e = ground (arith, backoff_within attempts)

    spent :
        (is_retryable kind && ltb attempts 5) ≡ false → (is_retryable kind ≡ false) ⊎ (5 ≤ attempts)
    spent e = ground arith
