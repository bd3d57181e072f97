-- ===== src/Settings.antt =====
-- The settings (app/config.py) that the modelled code reads, with the bounds that they are
-- declared with. Most stand together; `paid_demo_enabled`, `use_mongodb`, the hourly limits of
-- clients, `use_rag` and `use_critic` stand in other sections of that file. The batch timeout may be a
-- fraction of a second there, and is a whole number of seconds here.
use capstone_backend.Prelude.{ℕ, ◌≤◌, Bool}

pub record Settings : Type 0 where
  pub session_ttl_seconds : ℕ
  pub paid_tier : Bool  -- prototype_tier == "PAID" and paid_demo_enabled
  pub v2_max_maps : ℕ
  pub v2_max_map_nodes : ℕ
  pub v2_max_map_depth : ℕ
  pub v2_branch_history_limit : ℕ
  pub v2_job_timeout_seconds : ℕ
  pub v2_job_ttl_seconds : ℕ
  pub v2_worker_max_attempts : ℕ
  pub v2_provider_daily_budget_units : ℕ
  pub v2_provider_job_budget_units : ℕ
  pub reports_client_hourly_limit : ℕ
  pub strategies_client_hourly_limit : ℕ
  pub v2_body_batch_timeout_seconds : ℕ
  pub v2_body_request_interval : ℕ  -- v2_body_request_interval_seconds, in microseconds
  pub v2_body_cache_seconds : ℕ
  pub v2_worker_max_concurrency : ℕ
  pub use_mongodb : Bool
  pub use_rag : Bool
  pub use_critic : Bool

-- The `ge` bounds of the fields that the theorems need.
pub record InBounds (s : Settings) : Type 0 where
  pub nodes : 5 ≤ s.v2_max_map_nodes
  pub depth : 1 ≤ s.v2_max_map_depth
  pub history : 4 ≤ s.v2_branch_history_limit
  pub attempts : 1 ≤ s.v2_worker_max_attempts
  pub daily_budget : 1 ≤ s.v2_provider_daily_budget_units
  pub job_budget : 1 ≤ s.v2_provider_job_budget_units

-- The defaults.
abbrev pub defaults : Settings
defaults = record {
  session_ttl_seconds = 86400;
  paid_tier = Bool.false;
  v2_max_maps = 10;
  v2_max_map_nodes = 100;
  v2_max_map_depth = 5;
  v2_branch_history_limit = 100;
  v2_job_timeout_seconds = 1800;
  v2_job_ttl_seconds = 86400;
  v2_worker_max_attempts = 2;
  v2_provider_daily_budget_units = 1000;
  v2_provider_job_budget_units = 32;
  reports_client_hourly_limit = 10;
  strategies_client_hourly_limit = 20;
  v2_body_batch_timeout_seconds = 60;
  v2_body_request_interval = 1000000;
  v2_body_cache_seconds = 3600;
  v2_worker_max_concurrency = 1;
  use_mongodb = Bool.true;
  use_rag = Bool.true;
  use_critic = Bool.true;
}
