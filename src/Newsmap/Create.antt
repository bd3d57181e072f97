-- ===== src/Newsmap/Create.antt =====
-- The document that `create_map` of app/v2/maps.py builds from the first page of a search.
use capstone_backend.Prelude.{ℕ, ◌+◌, Bool, true, false, none, some, List, [], ◌∷◌, map}
use capstone_backend.Errors.{Result, ok, err}
use capstone_backend.Newsmap.Data.{
  Article, Node, Snapshot, MapDoc, Builder, SearchContext, Selection, no_search_results, article_id,
  snapshot, selection, no_results, new_node, new_nodes, select,
}

-- the page of `fetch_search_page`, after the category inspection and `cache_articles`
pub record Page : Type 0 where
  pub start : ℕ
  pub end_position : ℕ
  pub articles : List Article

abbrev nothing_yet : Snapshot
nothing_yet = record {
  root_node_id = none;
  nodes = [];
  branches = [];
  initial_selection = no_results 4 no_search_results;
  branch_history = [];
}

abbrev context_of : ℕ → ℕ → ℕ → Page → SearchContext
context_of query observed selector page = record {
  query = query;
  observed_at = observed;
  raw_start = page.start;
  raw_end = page.end_position;
  candidate_news_ids = map article_id page.articles;
  selector = selector;
  next_positions = (query, page.end_position + 1) ∷ [];
}

abbrev pub is_nonempty : List Article → Bool
is_nonempty [] = false
is_nonempty (a ∷ as') = true

-- `value` before the first node; the fields that are set later hold what an empty page gives
unfoldable pub blank : ℕ → ℕ → ℕ → ℕ → ℕ → Page → MapDoc
unfolding snapshot article_id
blank map_id query expires_at observed selector page = record {
  map_id = map_id;
  revision = 1;
  query = query;
  is_active = is_nonempty page.articles;
  root_node_id = none;
  nodes = [];
  branches = [];
  initial_selection = no_results 4 no_search_results;
  selected_news_ids = [];
  detail_news_id = none;
  report_panel_open = false;
  active_report_job_id = none;
  last_result = none;
  expires_at = expires_at;
  next_node_seq = 1;
  articles = [];
  candidate_articles = map snapshot page.articles;
  branch_history = [];
  search_context = context_of query observed selector page;
  initial_snapshot = nothing_yet;
}

-- `value['initial_snapshot'] = ...`
unfoldable pub with_snapshot : MapDoc → MapDoc
with_snapshot d = record d {
  initial_snapshot = record {
    root_node_id = d.root_node_id;
    nodes = d.nodes;
    branches = d.branches;
    initial_selection = d.initial_selection;
    branch_history = d.branch_history;
  };
}

-- root, children, branch and history of the first selection; `build` moves the position of
-- `value['search_context']` itself
unfoldable pub plant : MapDoc → Article → List Article → Selection → SearchContext → MapDoc
unfolding new_nodes snapshot
plant d center items chosen context =
    let (rooted, root) = new_node d center none 0 0 in
    let (grown, children) = new_nodes rooted items (some root.node_id) 1 0 in
    record grown {
      root_node_id = some root.node_id;
      nodes = record root { expanded = true } ∷ children;
      initial_selection = chosen;
      branches =
          record {
            parent_node_id = root.node_id;
            child_node_ids = map (λ (n : Node). n.node_id) children;
            display_selection = chosen;
            last_attempt = chosen;
          }
          ∷ [];
      search_context = context;
      branch_history =
          (
            root.node_id,
            record {
              previously_displayed_news_ids = map (λ (n : Node). n.news_id) children;
              previous_articles = map snapshot items;
              search_context = context;
            },
          )
          ∷ [];
    }

-- the document with its snapshot, from `value = {...}` to `value['initial_snapshot']`
unfoldable pub first_document : Builder → MapDoc → List Article → Result MapDoc
unfolding plant with_snapshot selection select
first_document build d [] = ok (with_snapshot d)
first_document build d (center ∷ rest) =
    elim (select build (snapshot center) (center ∷ rest) 4 [] d.search_context) [
      | err e ↦ err e
      | ok (r, context) ↦ ok (with_snapshot (plant d center r.items (selection r) context))
    ]
