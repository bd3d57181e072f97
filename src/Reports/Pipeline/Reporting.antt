-- ===== src/Reports/Pipeline/Reporting.antt =====
-- The report that a job without one makes or reuses is grounded in stored bodies (the first part of
-- `_pipeline` of app/v2/reports.py, `make_report` here).
use capstone_backend.Prelude.{
  ℕ, zero, suc, ◌+◌, ◌-◌, ◌≡◌, refl, Bool, true, false, not, Option, none, some, List, ◌∷◌, ltb,
  leb, length, ◌&&◌, elem, find, if_intro, option_split, list_split,
}
use capstone_backend.Errors.{fail_retryable, no_usable_evidence, OnOk}
use capstone_backend.Clock.{ticks}
use capstone_backend.Settings.{Settings}
use capstone_backend.Budget
use capstone_backend.Newsmap.Data.{Article}
use capstone_backend.Jobs.Data.{Warning, extracting, analyzing, verifying, saving}
use capstone_backend.Jobs.Doc.{JobDoc}
use capstone_backend.Reports.Data.{Text, Evidence, Failure, RagEvidence, ReportOutput, ReportDoc}
use capstone_backend.Reports.Saved
use capstone_backend.Reports.Saved.{Saved, is_reusable, save_report}
use capstone_backend.Reports.Saved.Grounded.{IsGrounded}
use capstone_backend.Reports.Saved.Keeping.{IsConsistent, save_report-IsConsistent}
use capstone_backend.Reports.Saved.Reading.{find_all, save_report-GivesGrounded}
use capstone_backend.Reports.Extraction.{Extracted, on_saved}
use capstone_backend.Reports.Writing.{analyze}
use capstone_backend.Reports.Batch.{
  Batch, with_progress, progress_of, round, rounds, rest_of_round, extract_bodies, article_in,
  settled, missing, taken, ended_progress, timed_out, present,
}
use capstone_backend.Reports.Pipeline.{
  Services, retrieve, write_report, make_report, new_report, find_reusable, find_or_write, key_of,
  used_of, failed_of, noted, analyzed, verified, with_stage,
}
use capstone_backend.Reports.Pipeline.Keeping.{
  Keeps, Any, KeepsSaved, bind, bind_then, ended, raised, clock-Keeps, uuid4-Keeps, lift-Keeps,
  checkpoint-Keeps, update-Keeps, charge-Keeps,
}
use capstone_backend.World.{World, Exec, pure, ◌>>=◌}

module _ (sha256 : Text → ℕ) (cfg : Settings) (s : Services) (k : KeepsSaved sha256 s)
    (sid job_id token : ℕ) where
  rest_of_round-Keeps :
      (total deadline : ℕ) (called : Bool) (b : Batch)
      → Keeps sha256 (Any sha256) (
          rest_of_round cfg sid job_id token s.keys s.get_news s.attempt s.sleep total deadline
            called b)
  unfolding rest_of_round
  rest_of_round-Keeps total deadline called b =
      bind sha256 (Any sha256) _ _
        (update-Keeps sha256 sid job_id token (with_progress (progress_of total b)))
        (λ _. bind sha256 (Any sha256) _ _ (clock-Keeps sha256) (λ now.
          if_intro (Keeps sha256 (Any sha256)) (ltb 0 (length b.pending) && called)
            (if_intro (Keeps sha256 (Any sha256))
              (leb (deadline - now) cfg.v2_body_request_interval) (ended sha256 false)
              (bind sha256 (Any sha256) _ _ (k.sleep cfg.v2_body_request_interval)
                (λ _. ended sha256 true)))
            (ended sha256 true)))

  -- the report that a step returns is grounded in the bodies that are stored then
  abbrev GroundedThere : ReportDoc × Bool → World → Type 0
  GroundedThere p w = IsGrounded w.saved.news_bodies p.0

  save_report-Keeps : (doc : ReportDoc) → Keeps sha256 GroundedThere (on_saved (save_report doc))
  unfolding on_saved
  save_report-Keeps doc w v = (
    save_report-IsConsistent sha256 w.saved v doc,
    save_report-GivesGrounded doc w.saved sha256 v,
  )

  -- the variables after an attempt
  abbrev done : ℕ → Article → List ℕ → Batch → Extracted → Batch
  done n a rest b e =
      settled s.keys n a e (record (taken s.get_news n rest b) { charged = n ∷ b.charged })

  round-Keeps :
      (total deadline n : ℕ) (rest : List ℕ) (b : Batch)
      → Keeps sha256
          (Any sha256)
          (round cfg sid job_id token s.keys s.get_news s.attempt s.sleep total deadline n rest b)
  unfolding round
  round-Keeps total deadline n rest b =
      bind sha256 (Any sha256) _ _ (checkpoint-Keeps sha256 cfg sid job_id token) (λ _.
        option_split (Keeps sha256 (Any sha256)) (article_in s.get_news n b.articles)
          (λ _. bind sha256 (Any sha256) _ _ (checkpoint-Keeps sha256 cfg sid job_id token) (λ _.
            bind sha256 (Any sha256) _ _
              (rest_of_round-Keeps total deadline false (missing n (taken s.get_news n rest b)))
              (λ more. ended sha256 (more, missing n (taken s.get_news n rest b)))))
          (λ a _. bind sha256 (Any sha256) _ _ (clock-Keeps sha256) (λ now.
            if_intro (Keeps sha256 (Any sha256)) (leb deadline now)
              (ended sha256 (false, record (taken s.get_news n rest b) { pending = n ∷ rest }))
              (bind sha256 (Any sha256) _ _
                (k.attempt b.key_index deadline (not (elem n b.charged)) a)
                (λ tried.
                  bind sha256 (Any sha256) _ _ (checkpoint-Keeps sha256 cfg sid job_id token) (λ _.
                    bind sha256 (Any sha256) _ _
                      (rest_of_round-Keeps total deadline tried.0 (done n a rest b tried.1))
                      (λ more. ended sha256 (more, done n a rest b tried.1))))))))

  rounds-Keeps :
      (fuel total deadline : ℕ) (b : Batch)
      → Keeps sha256
          (Any sha256)
          (rounds cfg sid job_id token s.keys s.get_news s.attempt s.sleep fuel total deadline b)
  unfolding rounds
  rounds-Keeps zero total deadline b = ended sha256 b
  rounds-Keeps (suc fuel) total deadline b =
      list_split (Keeps sha256 (Any sha256)) b.pending (λ _. ended sha256 b)
        (λ n rest _. bind sha256 (Any sha256) _ _ (clock-Keeps sha256) (λ now.
          if_intro (Keeps sha256 (Any sha256)) (leb deadline now) (ended sha256 b) (
            bind sha256 (Any sha256) _ _ (round-Keeps total deadline n rest b) (λ stepped.
              if_intro (Keeps sha256 (Any sha256)) stepped.0
                (rounds-Keeps fuel total deadline stepped.1) (ended sha256 stepped.1)))))

  extract_bodies-Keeps :
      (requested : List ℕ)
      → Keeps sha256
          (Any sha256)
          (extract_bodies cfg sid job_id token s.keys s.get_news s.attempt s.sleep s.fuel requested)
  unfolding extract_bodies
  extract_bodies-Keeps requested = bind sha256 (Any sha256) _ _ (clock-Keeps sha256) (λ started.
      bind sha256 (Any sha256) _ _
        (rounds-Keeps s.fuel (length requested) (started + ticks cfg.v2_body_batch_timeout_seconds)
          _)
        (λ b. bind sha256 (Any sha256) _ _ (checkpoint-Keeps sha256 cfg sid job_id token) (λ _.
          bind sha256 (Any sha256) _ _
            (update-Keeps sha256 sid job_id token
              (with_progress (ended_progress (length requested) b)))
            (λ _. ended sha256 (record {
              successes = b.successes;
              failures = timed_out b.pending b.failures;
              articles = present b.articles;
            })))))

  retrieve-Keeps :
      (articles : List Article) (requested : List ℕ)
      → Keeps sha256 (Any sha256) (retrieve cfg s sid job_id token articles requested)
  unfolding retrieve
  retrieve-Keeps articles requested =
      if_intro (Keeps sha256 (Any sha256)) (not cfg.use_rag) (ended sha256 _) (
        bind sha256 (Any sha256) _ _
          (if_intro (Keeps sha256 (Any sha256)) cfg.use_mongodb
            (charge-Keeps sha256 cfg s sid job_id token Budget.rag) (ended sha256 tt))
          (λ _. bind sha256 (Any sha256) _ _ (k.rag_rows _ _) (λ rows. ended sha256 _)))

  analyzed-Keeps :
      (evidence : List Evidence) (rag : List RagEvidence)
      → Keeps sha256 (Any sha256) (analyzed cfg s sid job_id token evidence rag)
  unfolding analyzed
  analyzed-Keeps evidence rag =
      bind sha256 (Any sha256) _ _ (update-Keeps sha256 sid job_id token (with_stage analyzing))
        (λ _.
          bind sha256 (Any sha256) _ _ (charge-Keeps sha256 cfg s sid job_id token Budget.analysis)
            (λ _. bind sha256 (Any sha256) _ _ (k.analysis evidence rag) (λ answer.
              bind sha256 (Any sha256) _ _ (lift-Keeps sha256 (analyze evidence answer)) (λ output.
                bind sha256 (Any sha256) _ _ (checkpoint-Keeps sha256 cfg sid job_id token)
                  (λ _. ended sha256 output)))))

  verified-Keeps :
      (output : ReportOutput) (evidence : List Evidence) (rag : List RagEvidence)
      → Keeps sha256 (Any sha256) (verified cfg s sid job_id token output evidence rag)
  unfolding verified
  verified-Keeps output evidence rag =
      bind sha256 (Any sha256) _ _ (update-Keeps sha256 sid job_id token (with_stage verifying))
        (λ _.
          bind sha256 (Any sha256) _ _
            (if_intro (Keeps sha256 (Any sha256)) cfg.use_critic
              (charge-Keeps sha256 cfg s sid job_id token Budget.critic) (ended sha256 tt))
            (λ _.
              bind sha256 (Any sha256) _ _
                (if_intro (Keeps sha256 (Any sha256)) cfg.use_critic (k.critic output evidence rag)
                  (ended sha256 none))
                (λ checked.
                  bind sha256 (Any sha256) _ _ (checkpoint-Keeps sha256 cfg sid job_id token)
                    (λ _. ended sha256 _))))

  write_report-Keeps :
      (key : ℕ) (requested : List ℕ) (evidence : List Evidence) (failed : List Failure)
      (rag : List RagEvidence)
      → Keeps sha256 GroundedThere
          (write_report cfg s sid job_id token key requested evidence failed rag)
  unfolding write_report
  write_report-Keeps key requested evidence failed rag =
      bind sha256 GroundedThere _ _ (analyzed-Keeps evidence rag) (λ output.
        bind sha256 GroundedThere _ _ (verified-Keeps output evidence rag) (λ verification.
          bind sha256 GroundedThere _ _ (update-Keeps sha256 sid job_id token (with_stage saving))
            (λ _. bind sha256 GroundedThere _ _ (clock-Keeps sha256) (λ now.
              bind sha256 GroundedThere _ _ (uuid4-Keeps sha256) (λ id. save_report-Keeps (
                new_report cfg s sid job_id token id now key requested evidence failed rag output
                  verification))))))

  abbrev GroundedMade : ReportDoc × Bool × List Warning → World → Type 0
  GroundedMade made w = IsGrounded w.saved.news_bodies made.0

  grounded-pure :
      (made : ReportDoc × Bool × List Warning) (w : World)
      → IsConsistent sha256 w.saved
      → IsGrounded w.saved.news_bodies made.0
      → IsConsistent sha256 (pure made w).1.saved
        × OnOk (λ m. GroundedMade m (pure made w).1) (pure made w).0
  unfolding pure
  grounded-pure made w v g = (v, g)

  abbrev FoundThere : Option ReportDoc → World → Type 0
  FoundThere none w = Unit
  FoundThere (some r) w = IsGrounded w.saved.news_bodies r

  find-FoundThere :
      (key : ℕ) (w : World) (o : Option ReportDoc)
      → IsConsistent sha256 w.saved
      → find (is_reusable key) w.saved.reports ≡ o
      → FoundThere o w
  find-FoundThere key w none v e = tt
  find-FoundThere key w (some r) v e =
      find_all (IsGrounded w.saved.news_bodies) (is_reusable key) w.saved.reports r v.grounded e

  find_reusable-Keeps :
      (key : ℕ) → Keeps sha256 FoundThere (find_reusable cfg s sid job_id token key)
  unfolding find_reusable Saved.reusable_report
  find_reusable-Keeps key w v =
      (v, find-FoundThere key w (find (is_reusable key) w.saved.reports) v refl)

  found_or_written :
      (key : ℕ) (requested : List ℕ) (evidence : List Evidence) (failed : List Failure)
      (rag : List RagEvidence) (warnings : List Warning) (o : Option ReportDoc) (u : World)
      → FoundThere o u
      → IsConsistent sha256 u.saved
      → let r =
          (elim o as (λ _. Exec (ReportDoc × Bool × List Warning)) [
            | none ↦
                write_report cfg s sid job_id token key requested evidence failed rag >>= λ made.
                pure (made.0, made.1, warnings)
            | some r ↦ pure (r, true, warnings)
          ])
            u in
        IsConsistent sha256 r.1.saved × OnOk (λ m. GroundedMade m r.1) r.0
  found_or_written key requested evidence failed rag warnings none u g v =
      bind_then sha256 GroundedMade GroundedThere _ _
        (write_report-Keeps key requested evidence failed rag)
        (λ made x h q. grounded-pure (made.0, made.1, warnings) x q h) u v
  found_or_written key requested evidence failed rag warnings (some r) u g v =
      grounded-pure (r, true, warnings) u v g

  find_or_write-Keeps :
      (key : ℕ) (requested : List ℕ) (evidence : List Evidence) (failed : List Failure)
      (rag : List RagEvidence) (warnings : List Warning)
      → Keeps sha256 GroundedMade
          (find_or_write cfg s sid job_id token key requested evidence failed rag warnings)
  unfolding find_or_write
  find_or_write-Keeps key requested evidence failed rag warnings =
      bind_then sha256 GroundedMade FoundThere _ _ (find_reusable-Keeps key)
        (found_or_written key requested evidence failed rag warnings)

  make_report-Keeps :
      (job : JobDoc) → Keeps sha256 GroundedMade (make_report cfg s sid job_id token job)
  unfolding make_report
  make_report-Keeps job =
      let requested = job.request.news_ids in
      bind sha256 GroundedMade _ _
        (update-Keeps sha256 sid job_id token (λ j. with_stage extracting (
          with_progress
            (record { requested = length requested; processed = 0; succeeded = 0; failed = 0 }) j)))
        (λ _. bind sha256 GroundedMade _ _ (extract_bodies-Keeps requested) (λ bodies.
          if_intro (Keeps sha256 GroundedMade) (not (ltb 0 (length bodies.successes)))
            (raised sha256 GroundedMade (fail_retryable 422 no_usable_evidence))
            (bind sha256 GroundedMade _ _ (retrieve-Keeps bodies.articles requested) (λ rag.
              bind sha256 GroundedMade _ _ (checkpoint-Keeps sha256 cfg sid job_id token) (λ _.
                find_or_write-Keeps (key_of cfg s sid job_id token requested bodies rag) requested
                  (used_of cfg s sid job_id token bodies) (failed_of cfg s sid job_id token bodies)
                  rag (noted cfg s sid job_id token bodies job.warnings))))))

  -- Whatever the services answer, when they keep the stored results consistent: making the report
  -- of a job keeps them consistent, and a report that it returns, new or reused, is grounded in the
  -- bodies that are stored then.
  pub make_report-IsGrounded :
      (job : JobDoc) (w : World)
      → IsConsistent sha256 w.saved
      → let r = make_report cfg s sid job_id token job w in
        IsConsistent sha256 r.1.saved
        × OnOk
            (λ (made : ReportDoc × Bool × List Warning). IsGrounded r.1.saved.news_bodies made.0)
            r.0
  make_report-IsGrounded job w v = make_report-Keeps job w v
