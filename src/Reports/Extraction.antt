-- ===== src/Reports/Extraction.antt =====
-- How a job reads the bodies of its articles (`extract_one`, `extract_bodies` and `report_failure`
-- of app/v2/reports.py). What the category service and the extraction service answer is an
-- argument, as are the stored articles and what happens while a request or a sleep lasts.
-- `extract_bodies` calls `extract_one` with `bypass_failure_cache`, so its cache of failures is
-- left out.
use capstone_backend.Prelude.{ℕ, Bool, true, false, not, Option, none, some, ◌==◌, if◌then◌else◌}
use capstone_backend.Errors.{Result, ok}
use capstone_backend.Settings.{Settings}
use capstone_backend.Budget
use capstone_backend.Budget.{reserve}
use capstone_backend.Newsmap.Data.{Article, or_else}
use capstone_backend.Reports.Data.{
  Text, Body, Failure, FailureCode, extraction_failed, article_unavailable, article_not_allowed,
  body_empty, body_rate_limited, extraction_timeout, extraction_network, extraction_provider_error,
  extraction_auth,
}
use capstone_backend.Reports.Saved
use capstone_backend.Reports.Saved.{Saved, is_empty, save_body}
use capstone_backend.World.{Exec, pure, ◌>>=◌, clock, uuid4}

-- `DiffbotError.category`
pub data Cause : Type 0 where
  rate_limit timeout deadline network server_error auth other : Cause

-- what `naver_categories` says of a page: no labels, whether they are allowed, or an exception
pub data Labels : Type 0 where
  no_labels labels_late labels_broke : Labels
  labelled : Bool → Labels

-- what the extraction of a page gives: its normalized text, or an exception
pub data Page : Type 0 where
  text_of : Text → Page
  refused : Cause → Page
  late broke : Page

-- `(body, None)` or `(None, failure)`
pub data Extracted : Type 0 where
  got : Body → Extracted
  lost : Failure → Extracted

abbrev pub code_of : Cause → FailureCode
code_of rate_limit = body_rate_limited
code_of timeout = extraction_timeout
code_of deadline = extraction_timeout
code_of network = extraction_network
code_of server_error = extraction_provider_error
code_of auth = extraction_auth
code_of other = extraction_failed

abbrev pub is_passing : Cause → Bool
is_passing auth = false
is_passing other = false
is_passing _ = true

abbrev pub failure_of : ℕ → FailureCode → Bool → Failure
failure_of news_id code retryable = record { news_id = news_id; code = code; retryable = retryable }

-- `EXTRACTOR_VERSION`
abbrev pub extractor_version : ℕ
extractor_version = 1

-- a step on the stored results
unfoldable pub on_saved {ℓ} : {A : Type ℓ} → (Saved → Result A × Saved) → Exec A
on_saved f w = let (r, saved) = f w.saved in (r, record w { saved = saved })

-- `provider_budget.reserve(operation)` under `job_budget(job_id)`
unfoldable pub reserve_budget : Settings → (ℕ → ℕ) → ℕ → Budget.Operation → Exec (Unit {0})
unfolding reserve
reserve_budget cfg hash job_id operation w =
    let (r, ledgers) = reserve cfg hash w.now (some job_id) operation 1 w.ledgers in
    (r, record w { ledgers = ledgers })

-- the cached body of an article
unfoldable pub cached_body : Settings → ℕ → ℕ → Exec (Option Body)
unfolding Saved.body
cached_body cfg news_id url w =
    (ok (Saved.body cfg.v2_body_cache_seconds w.now news_id url extractor_version w.saved), w)

-- the body that a text becomes
unfoldable pub observed_body : (Text → ℕ) → ℕ → ℕ → Text → Exec Extracted
unfolding uuid4 clock
observed_body text_hash news_id url content =
    if is_empty content then pure (lost (failure_of news_id body_empty true)) else (do
      id ← uuid4
      now ← clock
      pure (
          got (record {
            schema_version = 2;
            body_id = id;
            news_id = news_id;
            source_url = url;
            content = content;
            content_hash = text_hash content;
            extractor_version = extractor_version;
            extracted_at = now;
          })))

-- the extraction of an allowed page, and what its exceptions become
unfoldable pub read_page : (Text → ℕ) → ℕ → ℕ → Page → Exec Extracted
unfolding observed_body
read_page text_hash news_id url (text_of content) = observed_body text_hash news_id url content
read_page text_hash news_id url (refused c) =
    pure (lost (failure_of news_id (code_of c) (is_passing c)))
read_page text_hash news_id url late = pure (lost (failure_of news_id extraction_timeout true))
read_page text_hash news_id url broke = pure (lost (failure_of news_id extraction_failed true))

-- `fetch`, with whether the extraction service was called
unfoldable pub fetch_body :
    (Text → ℕ) → (ℕ → Exec Labels) → Exec Page → Article → ℕ → Exec (Bool × Extracted)
unfolding read_page
fetch_body text_hash labels page a url = do
  seen ← if a.naver_url == 0 then pure (labelled true) else labels url
  elim seen [
    | no_labels ↦ pure (false, lost (failure_of a.news_id extraction_failed true))
    | labels_late ↦ pure (false, lost (failure_of a.news_id extraction_timeout true))
    | labels_broke ↦ pure (false, lost (failure_of a.news_id extraction_failed true))
    | labelled allowed ↦
        if not allowed
        then pure (false, lost (failure_of a.news_id article_not_allowed false))
        else (do p ← page; read ← read_page text_hash a.news_id url p; pure (true, read))
  ]

-- the end of `extract_one`: a failure is returned, a body is stored
unfoldable pub store_body : (Text → ℕ) → Bool × Extracted → Exec (Bool × Extracted)
unfolding on_saved save_body
store_body text_hash (called, lost f) = pure (called, lost f)
store_body text_hash (called, got b) = do
  saved ← on_saved (save_body text_hash b)
  pure (called, got saved)

-- `extract_one`, with whether the extraction service was called
unfoldable pub extract_one :
    Settings
    → (Text → ℕ)
    → (ℕ → ℕ)
    → (ℕ → Exec Labels)
    → Exec Page
    → ℕ
    → Bool
    → Article
    → Exec (Bool × Extracted)
unfolding cached_body reserve_budget fetch_body store_body
extract_one cfg text_hash hash labels page job_id charge_budget a =
    let url = or_else a.naver_url a.url in
    if url == 0 then pure (false, lost (failure_of a.news_id article_unavailable false)) else (do
      cached ← cached_body cfg a.news_id url
      elim cached [
        | some b ↦ pure (false, got b)
        | none ↦ do
          _ ← if charge_budget then reserve_budget cfg hash job_id Budget.body else pure tt
          fetched ← fetch_body text_hash labels page a url
          store_body text_hash fetched
      ])

-- `report_failure`: the codes that only the queue of articles needs become one
abbrev pub public_code : FailureCode → FailureCode
public_code body_rate_limited = extraction_failed
public_code extraction_network = extraction_failed
public_code extraction_provider_error = extraction_failed
public_code extraction_auth = extraction_failed
public_code code = code

abbrev pub report_failure : Failure → Failure
report_failure f = record f { code = public_code f.code }
