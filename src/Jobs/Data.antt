-- ===== src/Jobs/Data.antt =====
-- The report job document of app/v2/reports.py and app/api/v2/report_jobs.py.
use capstone_backend.Prelude.{ℕ, Bool, true, false, Option, List}

pub data JobStatus : Type 0 where
  queued running cancel_requested completed failed cancelled : JobStatus

pub data Stage : Type 0 where
  waiting extracting analyzing verifying saving strategy done : Stage

pub data DispatchState : Type 0 where
  pending publish_failed published : DispatchState

pub data CancelReason : Type 0 where
  user superseded : CancelReason

pub data Warning : Type 0 where
  partial_evidence strategy_generation_failed : Warning

pub data RiskLevel : Type 0 where
  low medium high : RiskLevel

pub data Period : Type 0 where
  short mid long : Period

-- `StrategyOptions`, and the body of a request for a report; its language and its type have one
-- value each
pub record StrategyOptions : Type 0 where
  pub risk_level : RiskLevel
  pub period : Period

pub record ReportJobCreate : Type 0 where
  pub map_id : ℕ
  pub expected_revision : ℕ
  pub client_request_id : ℕ
  pub news_ids : List ℕ
  pub strategy_options : StrategyOptions

pub record Progress : Type 0 where
  pub requested : ℕ
  pub processed : ℕ
  pub succeeded : ℕ
  pub failed : ℕ

pub record Outcome : Type 0 where
  pub report_id : ℕ
  pub strategy_id : Option ℕ
  pub report_reused : Bool
  pub strategy_reused : Bool

-- `TERMINAL`
abbrev pub is_terminal : JobStatus → Bool
is_terminal completed = true
is_terminal failed = true
is_terminal cancelled = true
is_terminal _ = false

-- `job["status"] in {"cancelled", "cancel_requested"}`
abbrev pub is_cancelling : JobStatus → Bool
is_cancelling cancelled = true
is_cancelling cancel_requested = true
is_cancelling _ = false
