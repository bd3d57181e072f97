-- ===== src/Newsmap/WellFormed/Creating.antt =====
-- The first document of a map, as `create_map` of app/v2/maps.py fills it before it is stored, is
-- well-formed.
use capstone_backend.Prelude.{
  ℕ, ◌+◌, ◌≤◌, ◌≡◌, refl, ◌∙◌, true, none, some, List, [], ◌∷◌, length, elem, All, All_map, ==_refl,
  lookup-insert, arith,
}
use capstone_backend.Settings.{Settings, InBounds}
use capstone_backend.Errors.{OnOk}
use capstone_backend.Newsmap.Data.{
  Article, MapDoc, Builder, Outcome, found, judging_unavailable, search_unavailable, SearchContext,
  NewsMapResult, Selection, new_node, new_nodes, select, snapshot, selection, article_id,
}
use capstone_backend.Newsmap.Create.{blank, with_snapshot, plant, first_document, Page}
use capstone_backend.Newsmap.Tree.{IsTree}
use capstone_backend.Newsmap.Tree.Growth.{
  new_nodes-next_node_seq, new_nodes-Ordered, new_nodes-All, new_nodes-known,
  new_nodes-children_known, length-new_nodes, new_nodes-selection,
}
use capstone_backend.Newsmap.Tree.Steps.{IsTree-append}
use capstone_backend.Newsmap.WellFormed.{IsWellFormed, IsStart, IsKnown, IsNamed, node_ids}

-- `build_news_map` returns at most `target` items
abbrev pub IsBounded : Builder → Type 0
IsBounded build =
    (center : Article) (target : ℕ) (pool excluded : List Article)
    (context context' : SearchContext) (r : NewsMapResult)
    → build center target pool excluded context ≡ found r context'
    → length r.items ≤ target

-- a document with no nodes yet
abbrev pub IsBlank : MapDoc → Type 0
IsBlank d =
    (d.nodes ≡ [])
    × (d.next_node_seq ≡ 1)
    × (d.selected_news_ids ≡ [])
    × (d.detail_news_id ≡ none)
    × (d.branches ≡ [])
    × (d.branch_history ≡ [])

pub blank-IsBlank :
    (map_id query expires_at observed selector : ℕ) (page : Page)
    → IsBlank (blank map_id query expires_at observed selector page)
unfolding blank
blank-IsBlank map_id query expires_at observed selector page = (refl, refl, refl, refl, refl, refl)

elem_self : (xs : List ℕ) → All (λ x. elem x xs ≡ true) xs
elem_self [] = tt
elem_self (x ∷ xs) = (
  ground (arith, ==_refl x),
  All_map (λ y. elem y xs ≡ true) _ xs (λ y h. ground arith) (elem_self xs),
)

module _ (cfg : Settings) (b : InBounds cfg) where
  -- what has no nodes is well-formed, and so is its snapshot
  with_snapshot_blank : (d : MapDoc) → IsBlank d → IsWellFormed cfg (with_snapshot d)
  unfolding with_snapshot
  with_snapshot_blank d (nodes, seq, selected, detail, branches, histories) =
      let tree : IsTree cfg.v2_max_map_depth d.next_node_seq d.nodes = record {
        ordered = rw nodes (omega (arith, seq));
        placed = rw nodes tt;
      } in
      let small : length d.nodes ≤ cfg.v2_max_map_nodes = rw nodes (omega arith) in
      let known : All (IsKnown d.articles) d.nodes = rw nodes tt in
      record {
        tree = tree;
        size = small;
        selected = rw selected tt;
        detail = rw detail tt;
        known = known;
        start = record {
          tree = tree;
          size = small;
          known = known;
          branches = rw branches tt;
          histories = rw histories tt;
        };
      }

  module _ (d : MapDoc) (e : IsBlank d) (center : Article) (items : List Article)
      (few : length items ≤ 4) (chosen : Selection) (context : SearchContext) where
    planted : MapDoc
    planted = plant d center items chosen context

    rooted : MapDoc
    rooted = (new_node d center none 0 0).0

    planted-IsTree : IsTree cfg.v2_max_map_depth planted.next_node_seq planted.nodes
    unfolding planted plant rooted
    planted-IsTree =
        let up = some d.next_node_seq in
        let hi = (new_nodes rooted items up 1 0).0.next_node_seq in
        let root = record (new_node d center none 0 0).1 { expanded = true } in
        IsTree-append cfg.v2_max_map_depth (d.next_node_seq + 1) hi d.next_node_seq 0 (root ∷ [])
          (new_nodes rooted items up 1 0).1
          (record {
            ordered = (omega (arith, e.1), omega arith);
            placed = ((refl, tt, omega arith), tt);
          })
          (ground (arith, ==_refl d.next_node_seq)) (omega arith) b.depth
          (new_nodes-Ordered up 1 0 rooted items (d.next_node_seq + 1) hi (omega arith)
            (omega (arith, new_nodes-next_node_seq up 1 0 rooted items)))
          (new_nodes-All up 1 0 rooted items (d.next_node_seq + 1) (omega arith))

    planted-IsKnown : All (IsKnown planted.articles) planted.nodes
    unfolding planted plant rooted
    planted-IsKnown =
        let up = some d.next_node_seq in
        (
          new_nodes-known up 1 0 rooted items (article_id center) (snapshot center) (
              lookup-insert (article_id center) (article_id center) (snapshot center) d.articles
              ∙ ground (arith, ==_refl (article_id center))),
          new_nodes-children_known up 1 0 rooted items,
        )

    planted-size : length planted.nodes ≤ cfg.v2_max_map_nodes
    unfolding planted plant rooted
    planted-size =
        omega (arith, b.nodes, few, length-new_nodes (some d.next_node_seq) 1 0 rooted items)

    planted-names : All (IsNamed planted.nodes) (node_ids planted.nodes)
    planted-names = elem_self (node_ids planted.nodes)

    planted-start :
        IsStart cfg planted.next_node_seq planted.articles (with_snapshot planted).initial_snapshot
    unfolding with_snapshot planted plant rooted
    planted-start = record {
      tree = planted-IsTree;
      size = planted-size;
      known = planted-IsKnown;
      branches = ((planted-names.0, planted-names.1), tt);
      histories = (planted-names.0, tt);
    }

    planted-IsWellFormed : IsWellFormed cfg (with_snapshot planted)
    unfolding with_snapshot planted plant rooted
    planted-IsWellFormed =
        let kept = new_nodes-selection (some d.next_node_seq) 1 0 rooted items in
        record {
          tree = planted-IsTree;
          size = planted-size;
          selected = rw (kept.0, e.2) tt;
          detail = rw (kept.1, e.3) tt;
          known = planted-IsKnown;
          start = planted-start;
        }

  -- With a builder that returns at most the four neighbours asked for, the first document of a map
  -- is well-formed, whatever the search page holds.
  pub first_document-IsWellFormed :
      (build : Builder) (d : MapDoc) (articles : List Article)
      → IsBounded build
      → IsBlank d
      → OnOk (IsWellFormed cfg) (first_document build d articles)
  unfolding first_document planted
  first_document-IsWellFormed build d [] few e = with_snapshot_blank d e
  first_document-IsWellFormed build d (center ∷ rest) few e =
      go (build (snapshot center) 4 (center ∷ rest) [] d.search_context) refl
    where
      go :
          (o : Outcome)
          → build (snapshot center) 4 (center ∷ rest) [] d.search_context ≡ o
          → OnOk (IsWellFormed cfg) (first_document build d (center ∷ rest))
      go (found r context) out =
          rw (out, first_document, select)
            (planted-IsWellFormed d e center r.items
              (few (snapshot center) 4 (center ∷ rest) [] d.search_context context r out)
              (selection r) context)
      go judging_unavailable out = rw (out, first_document, select) tt
      go search_unavailable out = rw (out, first_document, select) tt
