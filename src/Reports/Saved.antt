-- ===== src/Reports/Saved.antt =====
-- app/v2/persistence.py in memory mode: the bodies, reports and strategies, kept in the order in
-- which they were stored. `sha256` is the digest of a text; the dates that `to_bson` parses are
-- instants here, so it changes nothing.
pub mod Unique
pub mod Keeping
pub mod Grounded
pub mod Reading
use capstone_backend.Prelude.{
  ℕ, ◌-◌, Bool, true, false, not, ◌&&◌, ◌||◌, Option, none, some, List, [], ◌∷◌, ◌++◌, map, ltb,
  leb, ◌==◌, if◌then◌else◌, length, all, any, find, elem, distinct,
}
use capstone_backend.Errors.{Result, ok, err, value_error}
use capstone_backend.Clock.{ticks}
use capstone_backend.Reports.Data.{
  Text, Body, Evidence, Failure, StockImpact, Coverage, ReportDoc, StrategyDoc,
}

-- `_memory`
pub record Saved : Type 0 where
  pub news_bodies : List Body
  pub reports : List ReportDoc
  pub strategies : List StrategyDoc

-- the bodies of one article, page and extractor
abbrev is_body_of : ℕ → ℕ → ℕ → Body → Bool
is_body_of news_id source_url version b =
    b.news_id == news_id && b.source_url == source_url && b.extractor_version == version

-- the first of the latest: a stable sort by `extracted_at`, descending
abbrev pub latest : (Body → Bool) → List Body → Option Body
latest p [] = none
latest p (b ∷ bs) =
    let rest = latest p bs in
    if p b
    then elim rest [
      | none ↦ some b
      | some c ↦ if ltb b.extracted_at c.extracted_at then some c else some b
    ]
    else rest

-- `body(news_id, source_url, extractor_version)`
unfoldable pub body : ℕ → ℕ → ℕ → ℕ → ℕ → Saved → Option Body
body cache_seconds now news_id source_url version s =
    elim (latest (is_body_of news_id source_url version) s.news_bodies) [
      | none ↦ none
      | some b ↦ if leb (now - ticks cache_seconds) b.extracted_at then some b else none
    ]

abbrev pub is_report : ℕ → ReportDoc → Bool
is_report id r = r.report_id == id && r.schema_version == 2

abbrev pub is_reusable : ℕ → ReportDoc → Bool
is_reusable key r = r.generation_key == key && r.schema_version == 2 && r.reuse_eligible

abbrev pub is_strategy : ℕ → StrategyDoc → Bool
is_strategy id r = r.strategy_id == id && r.schema_version == 2

abbrev pub is_reusable_strategy : ℕ → StrategyDoc → Bool
is_reusable_strategy key r = r.generation_key == key && r.schema_version == 2

unfoldable pub report : ℕ → Saved → Option ReportDoc
report id s = find (is_report id) s.reports

unfoldable pub strategy : ℕ → Saved → Option StrategyDoc
strategy id s = find (is_strategy id) s.strategies

unfoldable pub reusable_report : ℕ → Saved → Option ReportDoc
reusable_report key s = find (is_reusable key) s.reports

unfoldable pub reusable_strategy : ℕ → Saved → Option StrategyDoc
reusable_strategy key s = find (is_reusable_strategy key) s.strategies

-- `_insert` of each collection: the payload and whether it is an older document, and the store
unfoldable pub insert_body : Body → Saved → Result Body × Saved
insert_body doc s =
    if any (λ b. b.body_id == doc.body_id) s.news_bodies
    then (err value_error, s)
    else (ok doc, record s { news_bodies = s.news_bodies ++ (doc ∷ []) })

abbrev added_report : ReportDoc → Saved → Saved
added_report doc s = record s { reports = s.reports ++ (doc ∷ []) }

unfoldable pub insert_report : ReportDoc → Saved → Result (ReportDoc × Bool) × Saved
unfolding reusable_report
insert_report doc s =
    if any (λ r. r.report_id == doc.report_id) s.reports
    then (err value_error, s)
    else if doc.reuse_eligible
    then elim (reusable_report doc.generation_key s) [
      | some existing ↦ (ok (existing, true), s)
      | none ↦ (ok (doc, false), added_report doc s)
    ]
    else (ok (doc, false), added_report doc s)

unfoldable pub insert_strategy : StrategyDoc → Saved → Result (StrategyDoc × Bool) × Saved
unfolding reusable_strategy
insert_strategy doc s =
    if any (λ r. r.strategy_id == doc.strategy_id) s.strategies
    then (err value_error, s)
    else elim (reusable_strategy doc.generation_key s) [
      | some existing ↦ (ok (existing, true), s)
      | none ↦ (ok (doc, false), record s { strategies = s.strategies ++ (doc ∷ []) })
    ]

abbrev pub is_empty : Text → Bool
is_empty [] = true
is_empty (c ∷ cs) = false

-- `save_body(doc)`
unfoldable pub save_body : (Text → ℕ) → Body → Saved → Result Body × Saved
unfolding insert_body
save_body sha256 doc s =
    if is_empty doc.content || not (sha256 doc.content == doc.content_hash)
    then (err value_error, s)
    else insert_body doc s

abbrev pub used_ids : ReportDoc → List ℕ
used_ids doc = map (λ (e : Evidence). e.news_id) doc.used_evidence

abbrev pub failed_ids : ReportDoc → List ℕ
failed_ids doc = map (λ (e : Failure). e.news_id) doc.failed_evidence

abbrev pub subset : List ℕ → List ℕ → Bool
subset xs ys = all (λ x. elem x ys) xs

-- the first test of `save_report`, negated
abbrev pub is_partition : ReportDoc → Bool
is_partition doc =
    not (length doc.used_evidence == 0)
    && distinct doc.requested_news_ids
    && distinct (used_ids doc ++ failed_ids doc)
    && (subset doc.requested_news_ids (used_ids doc ++ failed_ids doc)
        && subset (used_ids doc ++ failed_ids doc) doc.requested_news_ids)

abbrev pub is_covered : ReportDoc → Bool
is_covered doc =
    doc.coverage.requested_count == length doc.requested_news_ids
    && doc.coverage.used_count == length doc.used_evidence
    && doc.coverage.failed_count == length doc.failed_evidence

abbrev pub is_counted : Evidence → Bool
is_counted e = e.input_char_count == length e.input_excerpt

abbrev pub is_supported : List ℕ → StockImpact → Bool
is_supported used i = subset i.evidence_news_ids used

-- `text.startswith(prefix)`
abbrev pub starts_with : Text → Text → Bool
starts_with [] text = true
starts_with (c ∷ cs) [] = false
starts_with (c ∷ cs) (d ∷ ds) = c == d && starts_with cs ds

abbrev pub same_bool : Bool → Bool → Bool
same_bool true b = b
same_bool false b = not b

-- the body that evidence names, and what is asked of it
abbrev pub is_body : ℕ → Body → Bool
is_body id b = b.body_id == id && b.schema_version == 2

abbrev pub matches : Evidence → Body → Bool
matches e b =
    b.news_id == e.news_id
    && b.content_hash == e.content_hash
    && b.source_url == e.source_url
    && starts_with e.input_excerpt b.content
    && same_bool e.truncated (ltb (length e.input_excerpt) (length b.content))

abbrev pub has_body : List Body → Evidence → Bool
has_body bodies e = elim (find (is_body e.body_id) bodies) [ none ↦ false | some b ↦ matches e b ]

abbrev pub is_sound : Saved → ReportDoc → Bool
is_sound s doc =
    is_partition doc
    && is_covered doc
    && all is_counted doc.used_evidence
    && all (is_supported (used_ids doc)) doc.stock_impacts
    && not (doc.reuse_eligible && ltb 0 (length doc.failed_evidence))
    && all (has_body s.news_bodies) doc.used_evidence

-- `save_report(doc)`: its checks all raise `ValueError` before anything is written
unfoldable pub save_report : ReportDoc → Saved → Result (ReportDoc × Bool) × Saved
unfolding insert_report
save_report doc s = if is_sound s doc then insert_report doc s else (err value_error, s)

-- `save_strategy(doc)`
unfoldable pub save_strategy : StrategyDoc → Saved → Result (StrategyDoc × Bool) × Saved
unfolding report insert_strategy
save_strategy doc s = elim (report doc.report_id s) [
  | none ↦ (err value_error, s)
  | some parent ↦
      if parent.generation_key == doc.report_generation_key
      then insert_strategy doc s
      else (err value_error, s)
]
