-- ===== src/Reports/Pipeline.antt =====
-- The stages of a report job (`_pipeline` of app/v2/reports.py). `Services` is what lies outside:
-- the stored articles, the answers of the extraction and language services, which may advance the
-- clock, and the digests. The lock of a generation key is free, since other requests do not run
-- inside a job here.
pub mod Running
pub mod Keeping
pub mod Reporting
use capstone_backend.Prelude.{
  ℕ, zero, suc, ◌+◌, Bool, true, false, not, ◌||◌, Option, none, some, List, [], ◌∷◌, ◌++◌, map,
  ltb, leb, ◌==◌, if◌then◌else◌, length, any,
}
use capstone_backend.Errors.{
  Error, Result, ok, err, v2, job_cancelled, job_lease_lost, invalid_output, fail_retryable,
  no_usable_evidence, too_many_requests,
}
use capstone_backend.Settings.{Settings}
use capstone_backend.Budget
use capstone_backend.Quota
use capstone_backend.Quota.{QuotaRequest}
use capstone_backend.Newsmap.Data.{Article}
use capstone_backend.Jobs.Data.{
  Outcome, Stage, Warning, partial_evidence, strategy_generation_failed, extracting, analyzing,
  verifying, saving, strategy, completed, StrategyOptions,
}
use capstone_backend.Jobs.Doc.{JobDoc}
use capstone_backend.Jobs.Steps.{update, checkpoint, finish}
use capstone_backend.Jobs.Worker.{is_budget_error}
use capstone_backend.Reports.Data.{
  Text, Body, Evidence, Failure, FailureCode, RagEvidence, ReportOutput, ReportDoc, Verification,
  StrategyOutput, StrategyDoc,
}
use capstone_backend.Reports.Saved
use capstone_backend.Reports.Saved.{save_report, save_strategy}
use capstone_backend.Reports.Excerpt.{prepare_evidence, RagRow, rag_evidence}
use capstone_backend.Reports.Writing.{
  Answer, CriticOutput, Notes, analyze, verify, generate_strategy,
}
use capstone_backend.Reports.Extraction.{Extracted, on_saved, reserve_budget, report_failure}
use capstone_backend.Reports.Batch.{Bodies, values_of, extract_bodies, sort_ids, with_progress}
use capstone_backend.Admission.{check_quota}
use capstone_backend.World.{World, Exec, pure, raise, lift, ◌>>=◌, ◌>>◌, clock, uuid4, catch}

-- what the generation key of a report is a digest of
pub record KeyParts : Type 0 where
  pub requested_news_ids : List ℕ
  pub used_evidence : List (Evidence × ℕ)  -- with the hash of the excerpt
  pub failed_evidence : List (ℕ × FailureCode)
  pub rag_evidence : List RagEvidence
  pub generation : ℕ

pub record Services : Type 0 where
  pub get_news : ℕ → Option Article
  pub keys : ℕ
  pub attempt : ℕ → ℕ → Bool → Article → Exec (Bool × Extracted)
  pub sleep : ℕ → Exec (Unit {0})
  pub rag_rows : ℕ → ℕ → Exec (List RagRow)
  pub analysis : List Evidence → List RagEvidence → Exec (Option ReportOutput)
  pub critic : ReportOutput → List Evidence → List RagEvidence → Exec (Option CriticOutput)
  pub strategist : ReportDoc → StrategyOptions → Exec Answer
  pub notes : Notes
  pub text_hash : Text → ℕ
  pub job_hash : ℕ → ℕ
  pub report_digest : KeyParts → ℕ
  pub strategy_digest : ℕ → ℕ → StrategyOptions → ℕ → ℕ
  pub generation : ℕ
  pub strategy_config : ℕ
  pub client_key : Option ℕ → ℕ
  pub fuel : ℕ

-- `failed.sort(key=...)`
abbrev pub insert_failure : Failure → List Failure → List Failure
insert_failure f [] = f ∷ []
insert_failure f (g ∷ gs) =
    let rest = insert_failure f gs in if leb f.news_id g.news_id then f ∷ g ∷ gs else g ∷ rest

abbrev pub sort_failures : List Failure → List Failure
sort_failures [] = []
sort_failures (f ∷ fs) = insert_failure f (sort_failures fs)

-- `report_key`
abbrev pub report_key :
    (Text → ℕ) → (KeyParts → ℕ) → List ℕ → List Evidence → List Failure → List RagEvidence → ℕ → ℕ
report_key text_hash digest requested evidence failed rag config = digest (record {
  requested_news_ids = sort_ids requested;
  used_evidence =
      map
        (λ (e : Evidence). (
          record e { body_id = 0; input_excerpt = []; input_char_count = 0; truncated = false },
          text_hash e.input_excerpt,
        ))
        evidence;
  failed_evidence = map (λ (f : Failure). (f.news_id, f.code)) (sort_failures failed);
  rag_evidence = rag;
  generation = config;
})

-- the article with the least id
abbrev pub least : ℕ → List Article → ℕ
least n [] = n
least n (a ∷ rest) = least (if ltb a.news_id n then a.news_id else n) rest

abbrev pub first_id : List Article → ℕ
first_id [] = 0
first_id (a ∷ rest) = least a.news_id rest

-- `sorted(set(warnings))`
abbrev pub is_partial : Warning → Bool
is_partial partial_evidence = true
is_partial strategy_generation_failed = false

abbrev pub sorted_warnings : List Warning → List Warning
sorted_warnings ws =
    (if any is_partial ws then partial_evidence ∷ [] else [])
    ++ (if any (λ x. not (is_partial x)) ws then strategy_generation_failed ∷ [] else [])

abbrev pub with_stage : Stage → JobDoc → JobDoc
with_stage stage job = record job { stage = stage }

abbrev pub with_result : Outcome → List Warning → JobDoc → JobDoc
with_result result warnings job = record job {
  result = some result;
  warnings = warnings;
  stage = strategy;
}

-- the exceptions that end a job instead of its strategy
abbrev pub ends_job : Error → Bool
ends_job job_cancelled = true
ends_job job_lease_lost = true
ends_job (v2 e) = is_budget_error e.code
ends_job _ = false

module _ (cfg : Settings) (s : Services) (sid job_id token : ℕ) where
  unfoldable pub charge : Budget.Operation → Exec (Unit {0})
  charge operation = reserve_budget cfg s.job_hash job_id operation

  -- `rag_evidence`, with its charge and its retrieval
  unfoldable pub retrieve : List Article → List ℕ → Exec (List RagEvidence)
  unfolding charge rag_evidence
  retrieve articles requested = if not cfg.use_rag then pure [] else (do
    _ ← if cfg.use_mongodb then charge Budget.rag else pure tt
    rows ← s.rag_rows (first_id articles) (3 + length requested)
    pure (rag_evidence s.text_hash true requested rows))

  -- the document of a new report
  abbrev pub new_report :
      ℕ
      → ℕ
      → ℕ
      → List ℕ
      → List Evidence
      → List Failure
      → List RagEvidence
      → ReportOutput
      → Verification
      → ReportDoc
  new_report id now key requested evidence failed rag output verification = record {
    output = output;
    schema_version = 2;
    report_id = id;
    requested_news_ids = sort_ids requested;
    used_evidence = evidence;
    failed_evidence = failed;
    coverage = record {
      requested_count = length requested;
      used_count = length evidence;
      failed_count = length failed;
    };
    rag_evidence = rag;
    verification = verification;
    generation_key = key;
    reuse_eligible = not (ltb 0 (length failed));
    generation = s.generation;
    created_at = now;
    updated_at = now;
  }

  -- the analysis of the evidence, and its verification
  unfoldable pub analyzed : List Evidence → List RagEvidence → Exec ReportOutput
  unfolding update checkpoint charge analyze
  analyzed evidence rag = do
    _ ← update sid job_id token (with_stage analyzing)
    charge Budget.analysis
    answer ← s.analysis evidence rag
    output ← lift (analyze evidence answer)
    _ ← checkpoint cfg sid job_id token
    pure output

  unfoldable pub verified : ReportOutput → List Evidence → List RagEvidence → Exec Verification
  unfolding update checkpoint charge verify
  verified output evidence rag = do
    _ ← update sid job_id token (with_stage verifying)
    _ ← if cfg.use_critic then charge Budget.critic else pure tt
    checked ← if cfg.use_critic then s.critic output evidence rag else pure none
    _ ← checkpoint cfg sid job_id token
    pure (verify s.notes cfg.use_critic checked)

  -- analysis, verification and saving, under the lock of the generation key
  unfoldable pub write_report :
      ℕ → List ℕ → List Evidence → List Failure → List RagEvidence → Exec (ReportDoc × Bool)
  unfolding update analyzed verified on_saved save_report clock uuid4
  write_report key requested evidence failed rag = do
    output ← analyzed evidence rag
    verification ← verified output evidence rag
    _ ← update sid job_id token (with_stage saving)
    now ← clock
    id ← uuid4
    on_saved (save_report (new_report id now key requested evidence failed rag output verification))

  unfoldable pub find_reusable : ℕ → Exec (Option ReportDoc)
  unfolding Saved.reusable_report
  find_reusable key w = (ok (Saved.reusable_report key w.saved), w)

  -- the reusable report of a key, or a new one
  unfoldable pub find_or_write :
      ℕ
      → List ℕ
      → List Evidence
      → List Failure
      → List RagEvidence
      → List Warning
      → Exec (ReportDoc × Bool × List Warning)
  unfolding find_reusable write_report
  find_or_write key requested evidence failed rag warnings = do
    found ← find_reusable key
    elim found [
      | none ↦ do
        made ← write_report key requested evidence failed rag
        pure (made.0, made.1, warnings)
      | some r ↦ pure (r, true, warnings)
    ]

  -- what a job makes of the bodies that it read
  abbrev pub used_of : Bodies → List Evidence
  used_of bodies = prepare_evidence (values_of bodies.successes)

  abbrev pub failed_of : Bodies → List Failure
  failed_of bodies = sort_failures (map report_failure (values_of bodies.failures))

  abbrev pub noted : Bodies → List Warning → List Warning
  noted bodies warnings =
      if ltb 0 (length bodies.failures) then warnings ++ (partial_evidence ∷ []) else warnings

  abbrev pub key_of : List ℕ → Bodies → List RagEvidence → ℕ
  key_of requested bodies rag =
      report_key s.text_hash s.report_digest requested (used_of bodies) (failed_of bodies) rag
        s.generation

  -- the report of a job that has none yet: the report, whether it is reused, and the warnings
  unfoldable pub make_report : JobDoc → Exec (ReportDoc × Bool × List Warning)
  unfolding update checkpoint retrieve find_or_write extract_bodies prepare_evidence
  make_report job = do
    let requested = job.request.news_ids
    _ ← update sid job_id token (λ j. with_stage extracting (
        with_progress
          (record { requested = length requested; processed = 0; succeeded = 0; failed = 0 }) j))
    bodies ←
        extract_bodies cfg sid job_id token s.keys s.get_news s.attempt s.sleep s.fuel requested
    if not (ltb 0 (length bodies.successes))
        then raise (fail_retryable 422 no_usable_evidence)
        else (do
          rag ← retrieve bodies.articles requested
          _ ← checkpoint cfg sid job_id token
          find_or_write (key_of requested bodies rag) requested (used_of bodies) (failed_of bodies)
              rag (noted bodies job.warnings))
