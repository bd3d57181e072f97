-- ===== src/Newsmap/Data.antt =====
-- The map document of app/v2/maps.py and its pure helpers. Texts, URLs and ids are opaque numbers
-- with 0 for the empty string or `None`; a node id `f"n{k}"` is the number k.
use capstone_backend.Prelude.{
  ℕ, ◌+◌, Bool, true, false, Option, none, some, List, [], ◌∷◌, ltb, ◌==◌, if◌then◌else◌, length,
  insert,
}
use capstone_backend.Errors.{
  Result, ok, err, fail_detail, fail_retryable, map_revision_conflict, dependency_unavailable,
  search_failed,
}

-- the `source` of an article: a text, or an object with a name
pub data Source : Type 0 where
  plain : ℕ → Source
  named : ℕ → Source

-- ARTICLE_FIELDS; `content` stands for all other fields, and `derived_id` is the id that
-- `make_news_id` derives for the article (app/utils.py)
pub record Article : Type 0 where
  pub news_id : ℕ
  pub derived_id : ℕ
  pub title : ℕ
  pub description : ℕ
  pub source : Source
  pub published_at : ℕ
  pub url : ℕ
  pub naver_url : ℕ
  pub thumbnail_url : ℕ
  pub keywords : List ℕ
  pub categories : List ℕ
  pub search_rank : ℕ
  pub search_end : ℕ
  pub search_keyword : ℕ
  pub searched_at : ℕ
  pub content : ℕ

pub record Card : Type 0 where
  pub news_id : ℕ
  pub title : ℕ
  pub description : ℕ
  pub source_name : ℕ
  pub published_at : Option ℕ
  pub source_url : Option ℕ
  pub thumbnail_url : Option ℕ
  pub keywords : List ℕ
  pub categories : List ℕ

-- `a or b`, and `a or None`
abbrev pub or_else : ℕ → ℕ → ℕ
or_else a b = if a == 0 then b else a

abbrev pub or_none : ℕ → Option ℕ
or_none a = if a == 0 then none else some a

-- `article_id` of app/agents/related_selector.py
unfoldable pub article_id : Article → ℕ
article_id a = or_else a.news_id a.derived_id

abbrev pub source_name : Source → ℕ
source_name (plain text) = text
source_name (named name) = name

unfoldable pub card : Article → Card
unfolding article_id
card a = record {
  news_id = article_id a;
  title = a.title;
  description = a.description;
  source_name = source_name a.source;
  published_at = or_none a.published_at;
  source_url = or_none (or_else a.naver_url a.url);
  thumbnail_url = or_none a.thumbnail_url;
  keywords = a.keywords;
  categories = a.categories;
}

unfoldable pub snapshot : Article → Article
unfolding article_id
snapshot a = record a { news_id = article_id a; content = 0 }

pub data Status : Type 0 where
  complete insufficient partial expandable : Status

pub data Reason : Type 0 where
  exhausted candidate_limit search_limit no_source timeout search_error : Reason
  embedding_failed decision_failed storage_failed history_limit no_search_results : Reason

-- `NewsMapResult` of app/agents/news_map.py, its items reduced to their articles
pub record NewsMapResult : Type 0 where
  pub items : List Article
  pub status : Status
  pub reason : Option Reason
  pub target : ℕ

pub record Selection : Type 0 where
  pub status : Status
  pub reason : Option Reason
  pub requested : ℕ
  pub returned : ℕ
  pub shortage : Bool
  pub budget_exhausted : Bool

abbrev shown_status : Status → Status
shown_status expandable = insufficient
shown_status s = s

abbrev is_budget : Option Reason → Bool
is_budget (some candidate_limit) = true
is_budget (some search_limit) = true
is_budget (some timeout) = true
is_budget (some history_limit) = true
is_budget _ = false

unfoldable pub selection : NewsMapResult → Selection
selection r = record {
  status = shown_status r.status;
  reason = r.reason;
  requested = r.target;
  returned = length r.items;
  shortage = ltb (length r.items) r.target;
  budget_exhausted = is_budget r.reason;
}

abbrev is_history_limit : Reason → Bool
is_history_limit history_limit = true
is_history_limit _ = false

-- `_shortage`
unfoldable pub no_results : ℕ → Reason → Selection
no_results target reason = record {
  status = insufficient;
  reason = some reason;
  requested = target;
  returned = 0;
  shortage = true;
  budget_exhausted = is_history_limit reason;
}

pub record SearchContext : Type 0 where
  pub query : ℕ
  pub observed_at : ℕ
  pub raw_start : ℕ
  pub raw_end : ℕ
  pub candidate_news_ids : List ℕ
  pub selector : ℕ
  pub next_positions : List (ℕ × ℕ)

pub record Node : Type 0 where
  pub node_id : ℕ
  pub news_id : ℕ
  pub parent_node_id : Option ℕ
  pub level : ℕ
  pub expanded : Bool
  pub batch : ℕ
  pub news : Card

pub record Branch : Type 0 where
  pub parent_node_id : ℕ
  pub child_node_ids : List ℕ
  pub display_selection : Selection
  pub last_attempt : Selection

pub record History : Type 0 where
  pub previously_displayed_news_ids : List ℕ
  pub previous_articles : List Article
  pub search_context : SearchContext

pub record JobResult : Type 0 where
  pub report_id : ℕ
  pub strategy_id : Option ℕ

-- the part of a map that `reset_map` restores
pub record Snapshot : Type 0 where
  pub root_node_id : Option ℕ
  pub nodes : List Node
  pub branches : List Branch
  pub initial_selection : Selection
  pub branch_history : List (ℕ × History)

pub record MapDoc : Type 0 where
  pub map_id : ℕ
  pub revision : ℕ
  pub query : ℕ
  pub is_active : Bool  -- state: "active" or "empty"
  pub root_node_id : Option ℕ
  pub nodes : List Node
  pub branches : List Branch
  pub initial_selection : Selection
  pub selected_news_ids : List ℕ
  pub detail_news_id : Option ℕ
  pub report_panel_open : Bool
  pub active_report_job_id : Option ℕ
  pub last_result : Option JobResult
  pub expires_at : ℕ
  pub next_node_seq : ℕ
  pub articles : List (ℕ × Article)
  pub candidate_articles : List Article
  pub branch_history : List (ℕ × History)
  pub search_context : SearchContext
  pub initial_snapshot : Snapshot

-- `max_report_articles` of `capabilities`: whether the session's tier is PAID
unfoldable pub max_report_articles : Bool → ℕ
max_report_articles paid = if paid then 10 else 1

unfoldable pub check_revision : MapDoc → ℕ → Result (Unit {0})
check_revision d expected =
    if d.revision == expected
    then ok tt
    else err (fail_detail 409 map_revision_conflict false d.revision)

-- `_node`: the map with its counter advanced and the article kept, and the new node
unfoldable pub new_node : MapDoc → Article → Option ℕ → ℕ → ℕ → MapDoc × Node
unfolding article_id card snapshot
new_node d a parent level batch = (
  record d {
    next_node_seq = d.next_node_seq + 1;
    articles = insert (article_id a) (snapshot a) d.articles;
  },
  record {
    node_id = d.next_node_seq;
    news_id = article_id a;
    parent_node_id = parent;
    level = level;
    expanded = false;
    batch = batch;
    news = card a;
  },
)

-- `[_node(value, item.article, parent, level, batch) for item in items]`
unfoldable pub new_nodes : MapDoc → List Article → Option ℕ → ℕ → ℕ → MapDoc × List Node
unfolding new_node
new_nodes d [] parent level batch = (d, [])
new_nodes d (a ∷ items) parent level batch =
    let (d', n) = new_node d a parent level batch in
    let (d'', ns) = new_nodes d' items parent level batch in (d'', n ∷ ns)

-- the outcomes of `build_news_map` that `_select` tells apart
pub data Outcome : Type 0 where
  found : NewsMapResult → SearchContext → Outcome
  judging_unavailable : Outcome  -- EmbeddingUnavailable, DecisionUnavailable
  search_unavailable : Outcome  -- NaverNewsError

-- `build_news_map`: center, target, pool, excluded articles and search context
abbrev pub Builder : Type 0
Builder = Article → ℕ → List Article → List Article → SearchContext → Outcome

-- `_select`
unfoldable pub select :
    Builder
    → Article
    → List Article
    → ℕ
    → List Article
    → SearchContext
    → Result (NewsMapResult × SearchContext)
select build center pool target excluded context =
    elim (build center target pool excluded context) [
      | found r c ↦ ok (r, c)
      | judging_unavailable ↦ err (fail_retryable 503 dependency_unavailable)
      | search_unavailable ↦ err (fail_retryable 502 search_failed)
    ]
