-- ===== src/Worker/Tests.antt =====
-- Executions at concrete inputs.
use edufurthersf_be.Prelude.{
  ℕ, ◌+◌, ◌≡◌, refl, Bool, false, Option, none, some, if◌then◌else◌, ◌==◌, [], ◌∷◌, Error,
  value_error, Result, ok, raise,
}
use edufurthersf_be.Prelude.Text.{Text, codes}
use edufurthersf_be.Time.{Instant, seconds}
use edufurthersf_be.Jobs.{claim_job, running, lease_expiry}
use edufurthersf_be.Jobs.Table.{ProcessingJob, Table, new_job, claim_job_for_execution, claim_row}
use edufurthersf_be.Worker.{run_handler, execute_job}
use edufurthersf_be.Worker.Settled.{Ends, execute_settles}

abbrev waiting : Table
waiting = new_job 1 "refresh_status" "refresh:1" [] ∷ new_job 2 "publish" "publish:2" [] ∷ []

-- Every handler raises.
abbrev handle : ProcessingJob → Table → Table × Result (Unit {0})
handle job t = (t, raise (value_error "no network"))

abbrev message : Error → Text
message e = codes "no network"

abbrev clock : ℕ → ℕ → Instant
clock job_id n = seconds (10 + n)

abbrev unlocked : ℕ → Bool
unlocked n = false

abbrev claimed : ProcessingJob
claimed = record (new_job 1 "refresh_status" "refresh:1" []) {
  state = running;
  attempts = 1;
  lease_expires_at = some (lease_expiry (seconds 11));
}

claim_run : (claim_job_for_execution 1 (seconds 10) (seconds 11) waiting).1 ≡ ok claimed
unfolding claim_job_for_execution claim_row claim_job
claim_run = refl

-- The commit of a failure fails for no job but the second.
abbrev commit : ℕ → ℕ → Option Error
commit job_id n = if job_id == 2 then some (value_error "connection lost") else none

execute_settles_example :
    Ends handle message clock commit
      (λ job id t h. h)
      1
      (run_handler handle message clock commit claimed
        (claim_job_for_execution 1 (seconds 10) (seconds 11) waiting).0).0
      (execute_job handle message clock commit 1 waiting)
execute_settles_example =
    execute_settles handle message clock commit (λ job id t h. h) 1 waiting claimed claim_run
