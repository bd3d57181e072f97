-- ===== src/Jobs/Doc.antt =====
-- The report job document. A field that an older document may lack is an `Option`.
use capstone_backend.Prelude.{ℕ, Bool, Option, List}
use capstone_backend.Errors.{Code}
use capstone_backend.Jobs.Data.{
  CancelReason, JobStatus, Stage, DispatchState, Warning, Progress, Outcome, ReportJobCreate,
}

pub record JobError : Type 0 where
  pub code : Code
  pub retryable : Bool
  pub retry_after : Option ℕ

pub record JobDoc : Type 0 where
  pub job_id : ℕ
  pub client_request_id : ℕ
  pub map_id : ℕ
  pub accepted_map_revision : ℕ
  pub status : JobStatus
  pub stage : Stage
  pub request_news_ids : List ℕ
  pub progress : Progress
  pub result : Option Outcome
  pub warnings : List Warning
  pub error : Option JobError
  pub created_at : ℕ
  pub updated_at : ℕ
  pub expires_at : ℕ
  pub session_epoch : ℕ
  pub source_map_revision : ℕ
  pub dispatch_state : DispatchState
  pub last_dispatch_attempt : ℕ
  pub deadline_at : ℕ
  pub worker_token : Option ℕ
  pub lease_until : ℕ
  pub worker_attempts : Option ℕ
  pub worker_retries : ℕ
  pub client_host : Option ℕ
  pub request : ReportJobCreate
  pub cancel_reason : Option CancelReason
