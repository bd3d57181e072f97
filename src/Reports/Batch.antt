-- ===== src/Reports/Batch.antt =====
-- The queue of articles of a job (`extract_bodies` of app/v2/reports.py): one request at a time,
-- with the next key after a refusal for its rate, and a later retry of what may succeed. The
-- extraction of one article and the sleep between two are arguments; both may advance the clock.
pub mod Trying
pub mod Keys
pub mod Accounting
pub mod Ending
use capstone_backend.Prelude.{
  ℕ, zero, suc, ◌+◌, ◌-◌, ◌%◌, Bool, true, false, not, ◌&&◌, ◌||◌, Option, none, some, List, [],
  ◌∷◌, ◌++◌, map, ltb, leb, ◌==◌, if◌then◌else◌, length, keep, elem, insert, lookup,
}
use capstone_backend.Clock.{ticks}
use capstone_backend.Settings.{Settings}
use capstone_backend.Newsmap.Data.{Article}
use capstone_backend.Jobs.Data.{Progress}
use capstone_backend.Jobs.Doc.{JobDoc}
use capstone_backend.Jobs.Steps.{update, checkpoint}
use capstone_backend.Reports.Data.{
  Body, Failure, FailureCode, article_unavailable, body_rate_limited, extraction_timeout,
  extraction_network, extraction_provider_error,
}
use capstone_backend.Reports.Extraction.{Extracted, got, lost, failure_of}
use capstone_backend.World.{Exec, pure, ◌>>=◌, ◌>>◌, clock}

-- the variables of the loop; a dictionary is a list of its entries in order
pub record Batch : Type 0 where
  pub pending : List ℕ
  pub key_index : ℕ
  pub articles : List (ℕ × Option Article)
  pub successes : List (ℕ × (Article × Body))
  pub failures : List (ℕ × Failure)
  pub charged : List ℕ

abbrev pub keys_of {ℓ} : {V : Type ℓ} → List (ℕ × V) → List ℕ
keys_of [] = []
keys_of ((k, v) ∷ m) = k ∷ keys_of m

abbrev pub values_of {ℓ} : {V : Type ℓ} → List (ℕ × V) → List V
values_of [] = []
values_of ((k, v) ∷ m) = v ∷ values_of m

-- `d.pop(k, None)`
abbrev pub without {ℓ} : {V : Type ℓ} → ℕ → List (ℕ × V) → List (ℕ × V)
without k [] = []
without k ((j, v) ∷ m) = let rest = without k m in if k == j then rest else (j, v) ∷ rest

-- `retry_codes`
abbrev pub is_retry_code : FailureCode → Bool
is_retry_code body_rate_limited = true
is_retry_code extraction_timeout = true
is_retry_code extraction_network = true
is_retry_code extraction_provider_error = true
is_retry_code _ = false

abbrev pub is_rate_limited : FailureCode → Bool
is_rate_limited body_rate_limited = true
is_rate_limited _ = false

abbrev pub first_batch : List ℕ → Batch
first_batch ids = record {
  pending = ids;
  key_index = 0;
  articles = [];
  successes = [];
  failures = [];
  charged = [];
}

-- `sorted` of ids
abbrev pub insert_id : ℕ → List ℕ → List ℕ
insert_id n [] = n ∷ []
insert_id n (m ∷ ms) = let rest = insert_id n ms in if leb n m then n ∷ m ∷ ms else m ∷ rest

abbrev pub sort_ids : List ℕ → List ℕ
sort_ids [] = []
sort_ids (n ∷ ns) = insert_id n (sort_ids ns)

-- `articles[news_id]`, read from the store once
abbrev pub article_in : (ℕ → Option Article) → ℕ → List (ℕ × Option Article) → Option Article
article_in get_news n seen = elim (lookup n seen) [ some a ↦ a | none ↦ get_news n ]

abbrev pub taken : (ℕ → Option Article) → ℕ → List ℕ → Batch → Batch
taken get_news n rest b = record b {
  pending = rest;
  articles = insert n (article_in get_news n b.articles) b.articles;
}

-- what an outcome changes
unfoldable pub settled : ℕ → ℕ → Article → Extracted → Batch → Batch
settled keys n a (got body) b = record b {
  successes = insert n (a, body) b.successes;
  failures = without n b.failures;
}
settled keys n a (lost f) b = record b {
  failures = insert n f b.failures;
  key_index =
      if is_rate_limited f.code && ltb 0 keys then (b.key_index + 1) % keys else b.key_index;
  pending = if is_retry_code f.code && f.retryable then b.pending ++ (n ∷ []) else b.pending;
}

-- an article that cannot be read
abbrev pub missing : ℕ → Batch → Batch
missing n b = record b { failures = insert n (failure_of n article_unavailable false) b.failures }

abbrev pub finished_failures : Batch → ℕ
finished_failures b = length (keep (λ n. not (elem n b.pending)) (keys_of b.failures))

abbrev pub progress_of : ℕ → Batch → Progress
progress_of total b = record {
  requested = total;
  processed = length b.successes + finished_failures b;
  succeeded = length b.successes;
  failed = finished_failures b;
}

-- `d.setdefault(k, v)`
abbrev pub set_default {ℓ} : {V : Type ℓ} → ℕ → V → List (ℕ × V) → List (ℕ × V)
set_default k v m = elim (lookup k m) [ none ↦ insert k v m | some _ ↦ m ]

abbrev pub with_progress : Progress → JobDoc → JobDoc
with_progress p job = record job { progress = p }

-- the articles that are left when the time is up
abbrev pub timed_out : List ℕ → List (ℕ × Failure) → List (ℕ × Failure)
timed_out [] failures = failures
timed_out (n ∷ ns) failures =
    timed_out ns (set_default n (failure_of n extraction_timeout true) failures)

-- the last progress of a queue
abbrev pub ended_progress : ℕ → Batch → Progress
ended_progress total b = record {
  requested = total;
  processed = total;
  succeeded = length b.successes;
  failed = length (timed_out b.pending b.failures);
}

abbrev pub present : List (ℕ × Option Article) → List Article
present [] = []
present ((n, none) ∷ rest) = present rest
present ((n, some a) ∷ rest) = a ∷ present rest

-- what `extract_bodies` returns
pub record Bodies : Type 0 where
  pub successes : List (ℕ × (Article × Body))
  pub failures : List (ℕ × Failure)
  pub articles : List Article

module _ (cfg : Settings) (sid job_id token keys : ℕ) (get_news : ℕ → Option Article)
    (attempt : ℕ → ℕ → Bool → Article → Exec (Bool × Extracted)) (sleep : ℕ → Exec (Unit {0})) where
  -- the second half of a round: progress, and the gap after a request; the loop goes on if it says
  -- so
  unfoldable pub rest_of_round : ℕ → ℕ → Bool → Batch → Exec Bool
  unfolding update clock
  rest_of_round total deadline called b = do
    _ ← update sid job_id token (with_progress (progress_of total b))
    now ← clock
    if ltb 0 (length b.pending) && called
        then (if leb (deadline - now) cfg.v2_body_request_interval
            then pure false
            else (do sleep cfg.v2_body_request_interval; pure true))
        else pure true

  -- one round for an article: whether the loop goes on, and its variables
  unfoldable pub round : ℕ → ℕ → ℕ → List ℕ → Batch → Exec (Bool × Batch)
  unfolding checkpoint clock settled rest_of_round
  round total deadline n rest b = do
    _ ← checkpoint cfg sid job_id token
    elim (article_in get_news n b.articles) [
      | none ↦ do
        _ ← checkpoint cfg sid job_id token
        more ← rest_of_round total deadline false (missing n (taken get_news n rest b))
        pure (more, missing n (taken get_news n rest b))
      | some a ↦ do
        now ← clock
        if leb deadline now
            then pure (false, record (taken get_news n rest b) { pending = n ∷ rest })
            else (do
              tried ← attempt b.key_index deadline (not (elem n b.charged)) a
              _ ← checkpoint cfg sid job_id token
              let done =
                  settled keys n a tried.1
                    (record (taken get_news n rest b) { charged = n ∷ b.charged })
              more ← rest_of_round total deadline tried.0 done
              pure (more, done))
    ]

  -- the loop, with fuel for its rounds
  unfoldable pub rounds : ℕ → ℕ → ℕ → Batch → Exec Batch
  unfolding round clock
  rounds zero total deadline b = pure b
  rounds (suc fuel) total deadline b = elim b.pending [
    | [] ↦ pure b
    | n ∷ rest ↦ do
      now ← clock
      if leb deadline now then pure b else (do
        stepped ← round total deadline n rest b
        if stepped.0 then rounds fuel total deadline stepped.1 else pure stepped.1)
  ]

  -- `extract_bodies`
  unfoldable pub extract_bodies : ℕ → List ℕ → Exec Bodies
  unfolding checkpoint update rounds clock
  extract_bodies fuel news_ids = do
    started ← clock
    b ←
        rounds fuel (length news_ids) (started + ticks cfg.v2_body_batch_timeout_seconds)
          (first_batch (sort_ids news_ids))
    _ ← checkpoint cfg sid job_id token
    _ ← update sid job_id token (with_progress (ended_progress (length news_ids) b))
    pure (record {
      successes = b.successes;
      failures = timed_out b.pending b.failures;
      articles = present b.articles;
    })
