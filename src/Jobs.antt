-- ===== src/Jobs.antt =====
-- src/app/domain/jobs.py: the states of a durable job and the transitions of claim, finish and fail.
pub mod Backoff
pub mod Table
use edufurthersf_be.Prelude.{
  ℕ, ◌+◌, ◌-◌, ◌*◌, ◌^◌, min, String, str_eq, Bool, true, false, not, ◌&&◌, ◌||◌, Option, none,
  some, List, [], ◌∷◌, ltb, leb, if◌then◌else◌, any, take, Result, ok, raise, value_error, ◌>>=◌,
  ◌>>◌, raise_if,
}
use edufurthersf_be.Prelude.Text.{Text}
use edufurthersf_be.Time.{Instant, seconds}

pub data JobState : Type 0 where
  queued running retry_wait completed failed_review : JobState

abbrev pub retryable_kinds : List String
retryable_kinds =
    "fetch_source_page" ∷ "extract_candidate" ∷ "dispatch_outbox" ∷ "refresh_status"
    ∷ "reverify_due" ∷ "sweep_due_jobs" ∷ "auto_approve_sweep" ∷ "reconcile_stuck_jobs" ∷ []

unfoldable pub is_retryable : String → Bool
is_retryable kind = any (λ k. str_eq k kind) retryable_kinds

pub record JobTransition : Type 0 where
  pub state : JobState
  pub attempts : ℕ
  pub next_attempt_at : Option Instant
  pub error : Option Text

abbrev pub lease_seconds : ℕ
lease_seconds = 900

abbrev pub is_claimable : JobState → Bool
is_claimable queued = true
is_claimable retry_wait = true
is_claimable _ = false

-- `next_attempt_at is not None and next_attempt_at > current`.
abbrev pub is_waiting : Option Instant → Instant → Bool
is_waiting none now = false
is_waiting (some t) now = ltb now t

unfoldable pub claim_job : JobState → ℕ → Instant → Option Instant → Result JobTransition
claim_job state attempts now next_attempt_at = do
  raise_if (not (is_claimable state)) (value_error "Job is not claimable")
  raise_if (is_waiting next_attempt_at now) (value_error "Job is not due yet")
  ok (record { state = running; attempts = attempts + 1; next_attempt_at = none; error = none })

abbrev pub lease_expiry : Instant → Instant
lease_expiry now = now + seconds lease_seconds

abbrev pub is_lease_expired : Option Instant → Instant → Bool
is_lease_expired none now = false
is_lease_expired (some t) now = leb t now

abbrev pub finish_job : JobTransition
finish_job = record { state = completed; attempts = 0; next_attempt_at = none; error = none }

-- The seconds to wait after a failed attempt. `-` stops at 0 as `max(attempts - 1, 0)` does.
unfoldable pub backoff : ℕ → ℕ
backoff attempts = min (60 * 2 ^ (attempts - 1)) 21600

unfoldable pub fail_job : String → ℕ → Text → Instant → JobTransition
fail_job kind attempts error now =
    let safe_error = take 1000 error in
    if is_retryable kind && ltb attempts 5
    then (record {
      state = retry_wait;
      attempts = attempts;
      next_attempt_at = some (now + seconds (backoff attempts));
      error = some safe_error;
    })
    else (record {
      state = failed_review;
      attempts = attempts;
      next_attempt_at = none;
      error = some safe_error;
    })
