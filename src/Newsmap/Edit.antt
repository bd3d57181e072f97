-- ===== src/Newsmap/Edit.antt =====
-- What the map requests of app/v2/maps.py change in a loaded document, between their awaits.
use capstone_backend.Prelude.{
  ℕ, ◌+◌, ◌-◌, min, max, Bool, true, false, not, ◌&&◌, Option, none, some, List, [], ◌∷◌, ◌++◌, map,
  ltb, leb, ◌==◌, if◌then◌else◌, length, keep, find, all, elem, lookup, insert, discard,
}
use capstone_backend.Settings.{Settings}
use capstone_backend.Errors.{
  Result, ok, err, key_error, fail, invalid_request, plan_article_limit_exceeded, map_limit_reached,
}
use capstone_backend.Newsmap.Data.{
  Article, Selection, Node, Branch, History, MapDoc, Builder, history_limit, snapshot, selection,
  no_results, max_report_articles, new_nodes, select,
}
use capstone_backend.Newsmap.Descendants.{descendants}

abbrev pub is_empty {ℓ} : {A : Type ℓ} → List A → Bool
is_empty [] = true
is_empty (x ∷ xs) = false

abbrev pub visible : List Node → List ℕ
visible ns = map (λ (n : Node). n.news_id) ns

-- `set(a) == set(b)`
abbrev pub same_set : List ℕ → List ℕ → Bool
same_set a b = all (λ x. elem x b) a && all (λ x. elem x a) b

-- a field of a PATCH body: not sent, sent as null, or sent with a value
pub data Field {ℓ} (A : Type ℓ) : Type ℓ where
  absent null : Field A
  given : A → Field A

-- `MapUpdate`
pub record MapUpdate : Type 0 where
  pub expected_revision : ℕ
  pub selected_news_ids : Field (List ℕ)
  pub detail_news_id : Field ℕ
  pub report_panel_open : Field Bool

-- the checks on `selected_news_ids` before the session is read
unfoldable pub check_selected : MapDoc → List ℕ → Result (Unit {0})
check_selected d selected =
    if all (λ nid. elem nid (visible d.nodes)) selected
    then ok tt
    else err (fail 422 invalid_request)

-- the new selection, and the job that it detaches
unfoldable pub apply_selected : Bool → MapDoc → List ℕ → Result (MapDoc × Option ℕ)
unfolding max_report_articles
apply_selected paid d selected =
    if ltb (max_report_articles paid) (length selected)
    then err (fail 403 plan_article_limit_exceeded)
    else let changed = not (same_set selected d.selected_news_ids) in
      let detached =
        if changed then record d { active_report_job_id = none; last_result = none } else d in
      ok (
        record detached {
          selected_news_ids = selected;
          report_panel_open = if is_empty selected then false else d.report_panel_open;
        },
        if changed then d.active_report_job_id else none,
      )

unfoldable pub apply_detail : Field ℕ → MapDoc → Result MapDoc
apply_detail absent d = ok d
apply_detail null d = ok (record d { detail_news_id = none })
apply_detail (given nid) d =
    if elem nid (visible d.nodes)
    then ok (record d { detail_news_id = some nid })
    else err (fail 422 invalid_request)

unfoldable pub apply_panel : Field Bool → MapDoc → Result MapDoc
apply_panel absent d = ok d
apply_panel null d = err (fail 422 invalid_request)
apply_panel (given b) d = ok (record d { report_panel_open = b })

pub data Mode : Type 0 where
  expand research : Mode

abbrev is_expand : Mode → Bool
is_expand expand = true
is_expand research = false

abbrev same_bool : Bool → Bool → Bool
same_bool true b = b
same_bool false b = not b

-- the parent of `branch_map`, after the checks before any search
unfoldable pub branch_parent : Settings → MapDoc → ℕ → Mode → Result Node
branch_parent cfg d parent_id mode = elim (find (λ (n : Node). n.node_id == parent_id) d.nodes) [
  | none ↦ err (fail 422 invalid_request)
  | some parent ↦
      if same_bool (is_expand mode) parent.expanded
      then err (fail 422 invalid_request)
      else if leb cfg.v2_max_map_depth parent.level
      then err (fail 422 map_limit_reached)
      else ok parent
]

abbrev pub branch_target : Node → ℕ
branch_target parent = if parent.level == 0 then 4 else 3

-- `value['branch_history'].setdefault(parent['node_id'], {...})`
unfoldable pub history_of : MapDoc → ℕ → History
history_of d parent_id = elim (lookup parent_id d.branch_history) [
  | some h ↦ h
  | none ↦ record {
    previously_displayed_news_ids = [];
    previous_articles = [];
    search_context = d.search_context;
  }
]

abbrev pub removed_nodes : MapDoc → ℕ → Mode → List ℕ
removed_nodes d parent_id expand = []
removed_nodes d parent_id research = descendants d.nodes parent_id

-- `[value['articles'][n['news_id']] for n in value['nodes']]`
unfoldable pub shown_articles : List (ℕ × Article) → List Node → Result (List Article)
shown_articles articles [] = ok []
shown_articles articles (n ∷ ns) = elim (lookup n.news_id articles) [
  | none ↦ err key_error
  | some a ↦ elim (shown_articles articles ns) [ ok rest ↦ ok (a ∷ rest) | err e ↦ err e ]
]

-- the articles that the branch gets, the attempt that is recorded, and the history with the
-- search position that the attempt reached
unfoldable pub branch_attempt :
    Settings → Builder → MapDoc → Node → History → Result (List Article × Selection × History)
unfolding selection no_results select
branch_attempt cfg build d parent h =
    let target = branch_target parent in
    let displayed = length h.previously_displayed_news_ids in
    if leb cfg.v2_branch_history_limit displayed
    then ok ([], no_results target history_limit, h)
    else elim (shown_articles d.articles d.nodes) [
      | err e ↦ err e
      | ok shown ↦ elim (lookup parent.news_id d.articles) [
        | none ↦ err key_error
        | some center ↦
            elim (select build center d.candidate_articles
              (min target (cfg.v2_branch_history_limit - displayed)) (shown ++ h.previous_articles)
              h.search_context) [
                | err e ↦ err e
                | ok (r, context) ↦ ok (
                  r.items,
                  record (selection r) {
                    requested = target;
                    shortage = ltb (length r.items) target;
                  },
                  record h { search_context = context },
                )
              ]
      ]
    ]

abbrev pub max_batch : List Node → ℕ
max_batch [] = 0
max_batch (n ∷ ns) = max n.batch (max_batch ns)

-- `for rid in removed: value['branch_history'].pop(rid, None)`
abbrev pub discard_all : List ℕ → List (ℕ × History) → List (ℕ × History)
discard_all [] histories = histories
discard_all (rid ∷ rids) histories = discard_all rids (discard rid histories)

-- the map after new children: the old descendants go, the children come last
unfoldable pub attach :
    MapDoc → Node → List ℕ → History → List Article → Selection → MapDoc × Option ℕ
unfolding new_nodes snapshot
attach d parent removed h items attempt =
    let kept = keep (λ (n : Node). not (elem n.node_id removed)) d.nodes in
    let cleared = record d {
      nodes = kept;
      branches =
          keep
            (λ (b : Branch).
              not (elem b.parent_node_id removed) && not (b.parent_node_id == parent.node_id))
            d.branches;
      branch_history = discard_all removed d.branch_history;
    } in
    let (grown, children) =
      new_nodes cleared items (some parent.node_id) (parent.level + 1) (max_batch kept + 1) in
    let nodes = kept ++ children in
    let selected = keep (λ nid. elem nid (visible nodes)) d.selected_news_ids in
    let changed = not (length selected == length d.selected_news_ids) in
    (
      record grown {
        nodes = nodes;
        branches =
            cleared.branches
            ++ record {
              parent_node_id = parent.node_id;
              child_node_ids = map (λ (n : Node). n.node_id) children;
              display_selection = attempt;
              last_attempt = attempt;
            }
              ∷ [];
        selected_news_ids = selected;
        active_report_job_id = if changed then none else d.active_report_job_id;
        last_result = if changed then none else d.last_result;
        report_panel_open = if changed && is_empty selected then false else d.report_panel_open;
        detail_news_id = elim d.detail_news_id [
          | none ↦ none
          | some nid ↦ if elem nid (visible nodes) then some nid else none
        ];
        branch_history =
            insert parent.node_id
              (record h {
                previously_displayed_news_ids =
                    h.previously_displayed_news_ids ++ map (λ (n : Node). n.news_id) children;
                previous_articles = h.previous_articles ++ map snapshot items;
              })
              cleared.branch_history;
      },
      if changed then d.active_report_job_id else none,
    )

-- without new children only the last attempt is recorded
abbrev pub set_attempt : ℕ → Selection → List Branch → List Branch
set_attempt parent_id attempt [] =
    record {
      parent_node_id = parent_id;
      child_node_ids = [];
      display_selection = attempt;
      last_attempt = attempt;
    }
    ∷ []
set_attempt parent_id attempt (b ∷ bs) =
    if b.parent_node_id == parent_id
    then record b { last_attempt = attempt } ∷ bs
    else b ∷ set_attempt parent_id attempt bs

-- `parent['expanded'] = True`
unfoldable pub set_expanded : ℕ → List Node → List Node
set_expanded parent_id [] = []
set_expanded parent_id (n ∷ ns) =
    if n.node_id == parent_id
    then record n { expanded = true } ∷ ns
    else n ∷ set_expanded parent_id ns

-- the rest of `branch_map` up to the commit
unfoldable pub branch_finish :
    Settings
    → MapDoc
    → Node
    → List ℕ
    → List Article
    → Selection
    → History
    → Result (MapDoc × Option ℕ)
unfolding attach set_expanded
branch_finish cfg d parent removed items attempt h =
    if ltb cfg.v2_max_map_nodes (length d.nodes - length removed + length items)
    then err (fail 422 map_limit_reached)
    else if is_empty items
    then ok (
      record d {
        nodes = set_expanded parent.node_id d.nodes;
        branches = set_attempt parent.node_id attempt d.branches;
        branch_history = insert parent.node_id h d.branch_history;
      },
      none,
    )
    else (let (grown, old_job) = attach d parent removed h items attempt in
        ok (record grown { nodes = set_expanded parent.node_id grown.nodes }, old_job))
