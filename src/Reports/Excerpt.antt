-- ===== src/Reports/Excerpt.antt =====
-- What a job quotes of its articles: `excerpt` and `prepare_evidence` of app/v2/reports.py, and the
-- reference articles of `rag_evidence`. The pattern of a boundary, `[.!?。]\s|\n`, is a scan here; a
-- character is its code point. The instant that `iso` gives back for a date is an opaque number.
pub mod Bounds
use capstone_backend.Prelude.{
  ℕ, zero, suc, ◌+◌, ◌/◌, min, Bool, true, false, not, ◌&&◌, ◌||◌, Option, none, some, List, [],
  ◌∷◌, ◌++◌, map, ltb, leb, ◌==◌, if◌then◌else◌, length, elem,
}
use capstone_backend.Newsmap.Data.{Article, source_name, or_else, or_none}
use capstone_backend.Reports.Data.{Text, Body, Evidence, RagEvidence}

abbrev pub between : ℕ → ℕ → ℕ → Bool
between a c b = leb a c && leb c b

-- `str.isspace` of one character, which `\s` and `rstrip` test
abbrev pub is_space : ℕ → Bool
is_space c =
    between 9 c 13
    || between 28 c 32
    || c == 133
    || c == 160
    || c == 5760
    || between 8192 c 8202
    || c == 8232
    || c == 8233
    || c == 8239
    || c == 8287
    || c == 12288

-- `[.!?。]`
abbrev pub is_stop : ℕ → Bool
is_stop c = c == 46 || c == 33 || c == 63 || c == 12290

abbrev pub newline : ℕ
newline = 10

-- The end of the last match in a text that starts at a position; `last` is that of the last match
-- before it.
pub last_boundary : ℕ → Option ℕ → Text → Option ℕ
last_boundary at last [] = last
last_boundary at last (c ∷ []) = if c == newline then some (at + 1) else last
last_boundary at last (c ∷ d ∷ rest) = elim (is_stop c && is_space d) [
  | true ↦ last_boundary (at + 2) (some (at + 2)) rest
  | false ↦ last_boundary (at + 1) (if c == newline then some (at + 1) else last) (d ∷ rest)
]

module _ {ℓ} {A : Type ℓ} where
  -- `xs[:n]`
  abbrev pub take : ℕ → List A → List A
  take zero xs = []
  take (suc n) [] = []
  take (suc n) (x ∷ xs) = x ∷ take n xs

-- `rstrip` of a character before a text that was stripped
abbrev pub strip_cons : ℕ → Text → Text
strip_cons c [] = if is_space c then [] else c ∷ []
strip_cons c (d ∷ ds) = c ∷ d ∷ ds

abbrev pub rstrip : Text → Text
rstrip [] = []
rstrip (c ∷ cs) = strip_cons c (rstrip cs)

-- where a prefix of `budget` characters is cut
abbrev cut_of : ℕ → Option ℕ → ℕ
cut_of budget none = budget
cut_of budget (some end) = if leb (budget / 2) end then end else budget

-- `excerpt(content, budget)`
unfoldable pub excerpt : Text → ℕ → Text
unfolding last_boundary
excerpt content budget =
    if leb (length content) budget
    then content
    else rstrip
        (take (cut_of budget (last_boundary 0 none (take budget content))) (take budget content))

-- `sorted(successes, key=...)`, stable
abbrev pub insert_pair : Article × Body → List (Article × Body) → List (Article × Body)
insert_pair p [] = p ∷ []
insert_pair p (q ∷ qs) =
    let rest = insert_pair p qs in if leb p.0.news_id q.0.news_id then p ∷ q ∷ qs else q ∷ rest

abbrev pub sort_pairs : List (Article × Body) → List (Article × Body)
sort_pairs [] = []
sort_pairs (p ∷ ps) = insert_pair p (sort_pairs ps)

-- the share of each article, for a number of articles
abbrev pub share : ℕ → ℕ
share n = min 12000 (60000 / n)

unfoldable pub evidence_of : ℕ → Article × Body → Evidence
unfolding excerpt
evidence_of budget (a, b) = record {
  news_id = a.news_id;
  title = a.title;
  source_name = source_name a.source;
  source_url = b.source_url;
  published_at = a.published_at;
  body_id = b.body_id;
  content_hash = b.content_hash;
  extractor_version = b.extractor_version;
  input_excerpt = excerpt b.content budget;
  input_char_count = length (excerpt b.content budget);
  truncated = ltb (length (excerpt b.content budget)) (length b.content);
}

-- `prepare_evidence(successes)`, for at least one
unfoldable pub prepare_evidence : List (Article × Body) → List Evidence
unfolding evidence_of
prepare_evidence successes = map (evidence_of (share (length successes))) (sort_pairs successes)

-- A row that `retrieve_rag_articles` gives; `description` is the text of `description or summary`.
pub record RagRow : Type 0 where
  pub news_id : ℕ
  pub title : ℕ
  pub description : Text
  pub naver_url : ℕ
  pub url : ℕ

-- the loop of `rag_evidence`, with the places that are left
unfoldable pub rag_rows : (Text → ℕ) → ℕ → List ℕ → List RagRow → List RagEvidence
rag_rows text_hash zero seen rows = []
rag_rows text_hash (suc n) seen [] = []
rag_rows text_hash (suc n) seen (row ∷ rows) = elim (row.news_id == 0 || elem row.news_id seen) [
  | true ↦ rag_rows text_hash (suc n) seen rows
  | false ↦
      record {
        news_id = row.news_id;
        title = row.title;
        source_url = or_none (or_else row.naver_url row.url);
        description = take 4000 row.description;
        description_hash = text_hash (take 4000 row.description);
      }
      ∷ rag_rows text_hash n (row.news_id ∷ seen) rows
]

-- `rag_evidence(articles, requested)`, from the rows that were retrieved
unfoldable pub rag_evidence : (Text → ℕ) → Bool → List ℕ → List RagRow → List RagEvidence
unfolding rag_rows
rag_evidence text_hash use_rag requested rows =
    if use_rag then rag_rows text_hash 3 requested rows else []
