-- ===== src/Examples/Saving.antt =====
-- Saves of one body, its report and its strategy (app/v2/persistence.py).
use capstone_backend.Prelude.{
  ℕ, ◌≡◌, refl, true, false, none, some, List, [], ◌∷◌, ◌+◌, length, arith,
}
use capstone_backend.Errors.{ok}
use capstone_backend.Jobs.Data.{medium, short}
use capstone_backend.Reports.Data.{
  Text, Body, Evidence, ReportOutput, ReportDoc, StrategyDoc, passed, up,
}
use capstone_backend.Reports.Saved.{Saved, report, save_body, save_report, save_strategy}
use capstone_backend.Reports.Saved.Keeping.{
  IsConsistent, Save, of_body, of_report, of_strategy, saved_all, saved_all-IsConsistent,
}
use capstone_backend.Reports.Saved.Reading.{report-save_report}

-- a digest for the examples
abbrev pub digest : Text → ℕ
digest text = 100 + length text

abbrev pub body_of : ℕ → Body
body_of n = record {
  schema_version = 2;
  body_id = 400 + n;
  news_id = n;
  source_url = 500 + n;
  content = 65 ∷ 66 ∷ 46 ∷ [];
  content_hash = 103;
  extractor_version = 1;
  extracted_at = 7;
}

abbrev pub quote_of : ℕ → Evidence
quote_of n = record {
  news_id = n;
  title = 1;
  source_name = 2;
  source_url = 500 + n;
  published_at = 3;
  body_id = 400 + n;
  content_hash = 103;
  extractor_version = 1;
  input_excerpt = 65 ∷ 66 ∷ [];
  input_char_count = 2;
  truncated = true;
}

abbrev pub output : ReportOutput
output = record {
  title = 1;
  event_summary = 2;
  event_analysis = 3;
  market_impact = 4;
  stock_impacts =
      record { ticker = none; name = 21; impact = 5; direction = up; evidence_news_ids = 11 ∷ [] }
      ∷ record {
        ticker = some 9;
        name = 22;
        impact = 6;
        direction = up;
        evidence_news_ids = 11 ∷ [];
      }
      ∷ [];
  risk_factors = 8 ∷ [];
}

abbrev pub report_doc : ReportDoc
report_doc = record {
  output = output;
  schema_version = 2;
  report_id = 77;
  requested_news_ids = 11 ∷ [];
  used_evidence = quote_of 11 ∷ [];
  failed_evidence = [];
  coverage = record { requested_count = 1; used_count = 1; failed_count = 0 };
  rag_evidence = [];
  verification = record { status = passed; notes = [] };
  generation_key = 88;
  reuse_eligible = true;
  generation = 5;
  created_at = 9;
  updated_at = 9;
}

abbrev strategy_doc : StrategyDoc
strategy_doc = record {
  output = record { strategy_summary = 1; risk_warning = 2; strategy_items = [] };
  schema_version = 2;
  strategy_id = 78;
  report_id = 77;
  report_generation_key = 88;
  generation_key = 89;
  options = record { risk_level = medium; period = short };
  generation = 6;
  created_at = 9;
  updated_at = 9;
}

abbrev pub nothing_saved : Saved
nothing_saved = record { news_bodies = []; reports = []; strategies = [] }

abbrev pub one_body : Saved
one_body = record { news_bodies = body_of 11 ∷ []; reports = []; strategies = [] }

pub nothing_saved-IsConsistent : IsConsistent digest nothing_saved
nothing_saved-IsConsistent = record {
  body_ids = λ id. omega arith;
  report_ids = λ id. omega arith;
  strategy_ids = λ id. omega arith;
  report_keys = λ key. omega arith;
  strategy_keys = λ key. omega arith;
  hashes = tt;
  grounded = tt;
  parents = tt;
}

abbrev saves : List Save
saves = of_body (body_of 11) ∷ of_report report_doc ∷ of_strategy strategy_doc ∷ []

-- all three are stored
saves_stored : length (saved_all digest saves nothing_saved).strategies ≡ 1
unfolding save_body save_report save_strategy
saves_stored = refl

saved_all-IsConsistent_example : IsConsistent digest (saved_all digest saves nothing_saved)
saved_all-IsConsistent_example =
    saved_all-IsConsistent digest saves nothing_saved nothing_saved-IsConsistent

saved_report : (save_report report_doc one_body).0 ≡ ok (report_doc, false)
unfolding save_report
saved_report = refl

report-save_report_example :
    (report_doc ≡ report_doc) × (report 77 (save_report report_doc one_body).1 ≡ some report_doc)
report-save_report_example = report-save_report report_doc one_body report_doc refl saved_report
