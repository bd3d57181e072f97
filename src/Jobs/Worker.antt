-- ===== src/Jobs/Worker.antt =====
-- `process_job` of app/v2/reports.py: the claim of a job, and what becomes of it when the pipeline
-- returns or raises. The pipeline is an argument here; its time limit shows as `timeout_error`. The
-- heartbeat, a concurrent task that calls `update`, is left out.
use capstone_backend.Prelude.{
  ℕ, ◌+◌, ◌-◌, Bool, true, false, ◌&&◌, Option, none, some, [], ltb, leb, if◌then◌else◌,
}
use capstone_backend.Errors.{
  Error, Result, ok, err, v2, job_cancelled, job_lease_lost, timeout_error, Code, job_timeout,
  worker_lost, report_generation_failed, job_budget_exceeded, daily_budget_exceeded,
  budget_unavailable,
}
use capstone_backend.Clock.{ticks}
use capstone_backend.Settings.{Settings}
use capstone_backend.Jobs.Data.{
  JobStatus, cancel_requested, running, cancelled, failed, Outcome, is_terminal,
}
use capstone_backend.Jobs.Doc.{JobDoc, JobError}
use capstone_backend.Jobs.Steps.{save_job, finish, checkpoint}
use capstone_backend.World.{Exec, pure, ◌>>=◌, ◌>>◌, clock, uuid4, catch}
use capstone_backend.State.{get_job}

abbrev pub has_token : Option ℕ → Bool
has_token none = false
has_token (some t) = true

-- the starts that a job has used; older documents count recoveries only
abbrev pub attempts_of : JobDoc → ℕ
attempts_of job = elim job.worker_attempts [
  | some n ↦ n
  | none ↦ if has_token job.worker_token then 1 + job.worker_retries else 0
]

abbrev pub is_cancel_requested : JobStatus → Bool
is_cancel_requested cancel_requested = true
is_cancel_requested _ = false

-- the job under the lease of a new token
abbrev pub leased : ℕ → ℕ → ℕ → JobDoc → JobDoc
leased now token attempts job = record job {
  worker_attempts = some attempts;
  worker_retries = attempts - 1;
  status = if is_cancel_requested job.status then job.status else running;
  worker_token = some token;
  lease_until = now + ticks 60;
  updated_at = now;
}

pub data Claim : Type 0 where
  nothing_to_do busy : Claim
  claimed : JobDoc → Bool → Claim  -- whether the starts are exhausted

-- the first block of `process_job`, under the job's lock
unfoldable pub claim : Settings → ℕ → ℕ → ℕ → Exec Claim
unfolding get_job save_job clock
claim cfg sid job_id token = do
  found ← get_job sid job_id
  now ← clock
  elim found [
    | none ↦ pure nothing_to_do
    | some job ↦
        if is_terminal job.status
        then pure nothing_to_do
        else if has_token job.worker_token && ltb now job.lease_until
        then pure busy
        else (do
          let exhausted = leb cfg.v2_worker_max_attempts (attempts_of job)
          let attempts = if exhausted then attempts_of job else attempts_of job + 1
          save_job sid (leased now token attempts job)
          pure (claimed (leased now token attempts job) exhausted))
  ]

pub data Status : Type 0 where
  done_status busy_status : Status

-- `isinstance(exc, ProviderBudgetError)`, which are the errors with these codes
abbrev pub is_budget_error : Code → Bool
is_budget_error job_budget_exceeded = true
is_budget_error daily_budget_exceeded = true
is_budget_error budget_unavailable = true
is_budget_error _ = false

-- the error that a failed job shows
abbrev pub shown_error : Error → JobError
shown_error (v2 e) = record {
  code = e.code;
  retryable = e.retryable;
  retry_after = if is_budget_error e.code then e.details else none;
}
shown_error timeout_error = record { code = job_timeout; retryable = true; retry_after = none }
shown_error _ = record { code = report_generation_failed; retryable = true; retry_after = none }

-- the result that a failed job keeps: only a budget failure keeps the saved report
abbrev pub kept_result : Error → Option JobDoc → Option Outcome
kept_result (v2 e) (some job) = if is_budget_error e.code then job.result else none
kept_result _ _ = none

abbrev is_done_job : Option JobDoc → Bool
is_done_job none = false
is_done_job (some job) = is_terminal job.status

-- the `except` clauses
unfoldable pub settle : Settings → ℕ → ℕ → ℕ → Result (Unit {0}) → Exec Status
unfolding get_job
settle cfg sid job_id token (ok _) = pure done_status
settle cfg sid job_id token (err job_cancelled) = do
  finish cfg sid job_id (some token) cancelled none [] none
  pure done_status
settle cfg sid job_id token (err job_lease_lost) = pure busy_status
settle cfg sid job_id token (err e) = do
  current ← get_job sid job_id
  if is_done_job current then pure done_status else (do
    finish cfg sid job_id (some token) failed (kept_result e current) [] (some (shown_error e))
    pure done_status)

-- `process_job`
unfoldable pub process_job : Settings → (ℕ → ℕ → ℕ → Exec (Unit {0})) → ℕ → ℕ → Exec Status
unfolding claim settle uuid4 catch
process_job cfg pipeline sid job_id = do
  token ← uuid4
  c ← claim cfg sid job_id token
  elim c [
    | nothing_to_do ↦ pure done_status
    | busy ↦ pure busy_status
    | claimed job exhausted ↦
        if exhausted
        then (do
          finish cfg sid job_id (some token) failed none []
              (some (record { code = worker_lost; retryable = true; retry_after = none }))
          pure done_status)
        else (do
          ran ← catch (do _ ← checkpoint cfg sid job_id token; pipeline sid job_id token)
          settle cfg sid job_id token ran)
  ]
