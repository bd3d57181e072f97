-- ===== src/Reports/Pipeline/Running.antt =====
-- The strategy of a report, and the run of a report job (`_pipeline` of app/v2/reports.py).
use capstone_backend.Prelude.{
  ℕ, zero, suc, Bool, true, false, Option, none, some, List, [], ◌∷◌, ◌++◌, if◌then◌else◌,
}
use capstone_backend.Errors.{Result, ok, err, invalid_output}
use capstone_backend.Settings.{Settings}
use capstone_backend.Budget
use capstone_backend.Quota
use capstone_backend.Quota.{QuotaRequest}
use capstone_backend.Jobs.Data.{
  Outcome, Warning, strategy_generation_failed, completed, StrategyOptions,
}
use capstone_backend.Jobs.Doc.{JobDoc}
use capstone_backend.Jobs.Steps.{update, checkpoint, finish}
use capstone_backend.Reports.Data.{ReportDoc, StrategyOutput, StrategyDoc}
use capstone_backend.Reports.Saved
use capstone_backend.Reports.Saved.{save_report, save_strategy}
use capstone_backend.Reports.Writing.{generate_strategy}
use capstone_backend.Reports.Extraction.{on_saved}
use capstone_backend.Admission.{check_quota}
use capstone_backend.World.{Exec, pure, raise, lift, ◌>>=◌, ◌>>◌, clock, uuid4, catch}
use capstone_backend.Reports.Pipeline.{
  Services, charge, with_result, ends_job, make_report, sorted_warnings,
}

module _ (cfg : Settings) (s : Services) (sid job_id token : ℕ) where
  -- up to two answers of the model
  unfoldable pub try_strategy : ℕ → ReportDoc → StrategyOptions → Exec StrategyOutput
  unfolding checkpoint charge generate_strategy
  try_strategy zero r options = do
    _ ← checkpoint cfg sid job_id token
    charge cfg s sid job_id token Budget.strategy
    answer ← s.strategist r options
    lift (generate_strategy r.stock_impacts answer)
  try_strategy (suc n) r options = do
    _ ← checkpoint cfg sid job_id token
    charge cfg s sid job_id token Budget.strategy
    answer ← s.strategist r options
    elim (generate_strategy r.stock_impacts answer) [
      | ok output ↦ pure output
      | err (invalid_output c) ↦ try_strategy n r options
      | err e ↦ raise e
    ]

  abbrev pub strategies_quota : Option ℕ → QuotaRequest
  strategies_quota host = record {
    owner_sid = sid;
    action = Quota.strategies;
    per_session = 10;
    global_limit = 200;
    client_host = host;
    per_client = some cfg.strategies_client_hourly_limit;
  }

  -- the strategy of a report, and whether it is reused
  unfoldable pub make_strategy : JobDoc → ReportDoc → Exec (StrategyDoc × Bool)
  unfolding checkpoint check_quota try_strategy on_saved save_strategy clock uuid4
      Saved.reusable_strategy
  make_strategy job r = do
    let options = job.request.strategy_options
    let key = s.strategy_digest r.report_id r.generation_key options s.strategy_config
    _ ← checkpoint cfg sid job_id token
    found ← on_saved (λ saved. (ok (Saved.reusable_strategy key saved), saved))
    elim found [
      | some old ↦ pure (old, true)
      | none ↦ do
        check_quota s.client_key (strategies_quota job.client_host)
        output ← try_strategy 1 r options
        _ ← checkpoint cfg sid job_id token
        now ← clock
        id ← uuid4
        on_saved (
            save_strategy (record {
              output = output;
              schema_version = 2;
              strategy_id = id;
              report_id = r.report_id;
              report_generation_key = r.generation_key;
              generation_key = key;
              options = options;
              generation = s.strategy_config;
              created_at = now;
              updated_at = now;
            }))
    ]

  -- the report that an earlier run of the job recorded
  abbrev pub recorded : Option Outcome → Exec (Option ReportDoc)
  recorded none = pure none
  recorded (some r) = on_saved (λ saved. (ok (Saved.report r.report_id saved), saved))

  abbrev pub outcome_of : ReportDoc → Bool → Option (StrategyDoc × Bool) → Outcome
  outcome_of r reused none = record {
    report_id = r.report_id;
    strategy_id = none;
    report_reused = reused;
    strategy_reused = false;
  }
  outcome_of r reused (some (d, old)) = record {
    report_id = r.report_id;
    strategy_id = some d.strategy_id;
    report_reused = reused;
    strategy_reused = old;
  }

  -- what becomes of the strategy: a failure of it alone is a warning
  abbrev pub or_warning :
      List Warning → Result (StrategyDoc × Bool) → Exec (Option (StrategyDoc × Bool) × List Warning)
  or_warning warnings (ok made) = pure (some made, warnings)
  or_warning warnings (err e) =
      if ends_job e then raise e else pure (none, warnings ++ (strategy_generation_failed ∷ []))

  -- `_pipeline`
  unfoldable pub pipeline : Exec (Unit {0})
  unfolding checkpoint on_saved make_report update make_strategy catch finish
  pipeline = do
    job ← checkpoint cfg sid job_id token
    earlier ← recorded job.result
    made ← elim earlier [
      | some r ↦ pure (r, false, job.warnings)
      | none ↦ make_report cfg s sid job_id token job
    ]
    _ ← update sid job_id token (with_result (outcome_of made.0 made.1 none) made.2)
    tried ← catch (make_strategy job made.0)
    ended ← or_warning made.2 tried
    _ ← checkpoint cfg sid job_id token
    finish cfg sid job_id (some token) completed (some (outcome_of made.0 made.1 ended.0))
        (sorted_warnings ended.1) none
