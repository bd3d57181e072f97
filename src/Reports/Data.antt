-- ===== src/Reports/Data.antt =====
-- The records of a report: what app/v2/reports.py builds and app/v2/persistence.py stores. A body
-- text is the list of its code points, the unit in which the code counts; every other text, id and
-- hash is an opaque number.
use capstone_backend.Prelude.{ℕ, Bool, Option, List}
use capstone_backend.Jobs.Data.{StrategyOptions}

abbrev pub Text : Type 0
Text = List ℕ

pub record Body : Type 0 where
  pub schema_version : ℕ
  pub body_id : ℕ
  pub news_id : ℕ
  pub source_url : ℕ
  pub content : Text
  pub content_hash : ℕ
  pub extractor_version : ℕ
  pub extracted_at : ℕ

pub data FailureCode : Type 0 where
  extraction_failed article_unavailable article_not_allowed body_empty : FailureCode
  body_rate_limited extraction_timeout extraction_network : FailureCode
  extraction_provider_error extraction_auth : FailureCode

pub record Failure : Type 0 where
  pub news_id : ℕ
  pub code : FailureCode
  pub retryable : Bool

pub record Evidence : Type 0 where
  pub news_id : ℕ
  pub title : ℕ
  pub source_name : ℕ
  pub source_url : ℕ
  pub published_at : ℕ
  pub body_id : ℕ
  pub content_hash : ℕ
  pub extractor_version : ℕ
  pub input_excerpt : Text
  pub input_char_count : ℕ
  pub truncated : Bool

pub record RagEvidence : Type 0 where
  pub news_id : ℕ
  pub title : ℕ
  pub source_url : Option ℕ
  pub description : Text
  pub description_hash : ℕ

pub data Direction : Type 0 where
  up down mixed unknown : Direction

pub record StockImpact : Type 0 where
  pub ticker : Option ℕ
  pub name : ℕ
  pub impact : ℕ
  pub direction : Direction
  pub evidence_news_ids : List ℕ

pub record ReportOutput : Type 0 where
  pub title : ℕ
  pub event_summary : ℕ
  pub event_analysis : ℕ
  pub market_impact : ℕ
  pub stock_impacts : List StockImpact
  pub risk_factors : List ℕ

pub data Verdict : Type 0 where
  unavailable warning passed : Verdict

pub record Verification : Type 0 where
  pub status : Verdict
  pub notes : List ℕ

pub record Coverage : Type 0 where
  pub requested_count : ℕ
  pub used_count : ℕ
  pub failed_count : ℕ

-- `{**output, ...}`; `generation` is the configuration, which only the generation key reads
pub record ReportDoc : Type 0 where
  pub output : ReportOutput
  pub open output use *
  pub schema_version : ℕ
  pub report_id : ℕ
  pub requested_news_ids : List ℕ
  pub used_evidence : List Evidence
  pub failed_evidence : List Failure
  pub coverage : Coverage
  pub rag_evidence : List RagEvidence
  pub verification : Verification
  pub generation_key : ℕ
  pub reuse_eligible : Bool
  pub generation : ℕ
  pub created_at : ℕ
  pub updated_at : ℕ

pub data Action : Type 0 where
  buy hold sell watch : Action

pub record StrategyItem : Type 0 where
  pub ticker : Option ℕ
  pub stock_name : ℕ
  pub action : Action
  pub reason : ℕ

pub record StrategyOutput : Type 0 where
  pub strategy_summary : ℕ
  pub risk_warning : ℕ
  pub strategy_items : List StrategyItem

pub record StrategyDraftItem : Type 0 where
  pub target_index : ℕ
  pub action : Action
  pub reason : ℕ

pub record StrategyDraftOutput : Type 0 where
  pub strategy_summary : ℕ
  pub risk_warning : ℕ
  pub strategy_items : List StrategyDraftItem

pub record StrategyDoc : Type 0 where
  pub output : StrategyOutput
  pub schema_version : ℕ
  pub strategy_id : ℕ
  pub report_id : ℕ
  pub report_generation_key : ℕ
  pub generation_key : ℕ
  pub options : StrategyOptions
  pub generation : ℕ
  pub created_at : ℕ
  pub updated_at : ℕ
