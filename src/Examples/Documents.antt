-- ===== src/Examples/Documents.antt =====
-- Runs of the pure part of app/v2/maps.py.
use capstone_backend.Prelude.{
  ℕ, some, ◌*◌, ◌↔◌, ◌≡◌, ◌≤◌, true, none, [], ◌∷◌, All, length, elem, arith,
}
use capstone_backend.Errors.{OnOk, ok}
use capstone_backend.Settings.{InBounds}
use capstone_backend.Newsmap.Data.{Branch, History, MapDoc, NewsMapResult, insufficient, selection}
use capstone_backend.Newsmap.Descendants.{descendants, IsBelow}
use capstone_backend.Newsmap.Descendants.Closure.{descendants_iff}
use capstone_backend.Newsmap.Create.{first_document, plant, with_snapshot}
use capstone_backend.Newsmap.Restore.{restore}
use capstone_backend.Newsmap.WellFormed.{IsWellFormed, IsNamed}
use capstone_backend.Newsmap.WellFormed.Creating.{
  IsBounded, blank-IsBlank, first_document-IsWellFormed,
}
use capstone_backend.Newsmap.WellFormed.Restoring.{restore_lem}
use capstone_backend.Examples.{article, three, page, one_more, cfg, start, second_ticks}

cfg-InBounds : InBounds cfg
cfg-InBounds = record {
  nodes = omega arith;
  depth = omega arith;
  history = omega arith;
  attempts = omega arith;
  daily_budget = omega arith;
  job_budget = omega arith;
}

one_more-IsBounded : IsBounded one_more
one_more-IsBounded center target pool excluded context context' r h = ground arith

first_document-IsWellFormed_example : OnOk (IsWellFormed cfg) (first_document one_more start three)
first_document-IsWellFormed_example =
    first_document-IsWellFormed cfg cfg-InBounds one_more start three one_more-IsBounded
      (blank-IsBlank 3 5 (100 * second_ticks) 1 0 page)

-- the map of `start` with a root and one child
abbrev pub two_nodes : MapDoc
two_nodes =
    let r : NewsMapResult = record {
      items = article 21 ∷ [];
      status = insufficient;
      reason = none;
      target = 4;
    } in
    with_snapshot (plant start (article 11) r.items (selection r) start.search_context)

pub two_nodes-IsWellFormed : IsWellFormed cfg two_nodes
unfolding first_document
two_nodes-IsWellFormed =
    first_document-IsWellFormed cfg cfg-InBounds one_more start three one_more-IsBounded
      (blank-IsBlank 3 5 (100 * second_ticks) 1 0 page)

descendants_iff_example :
    (elem 2 (descendants two_nodes.nodes 1) ≡ true) ↔ IsBelow two_nodes.nodes 1 2
descendants_iff_example = descendants_iff 1 two_nodes.nodes 2

restore_lem_example :
    (d' : MapDoc) × (restore two_nodes ≡ ok (d', two_nodes.active_report_job_id))
    × IsWellFormed cfg d'
    × All (λ n. two_nodes.next_node_seq ≤ n.node_id) d'.nodes
    × (length d'.nodes ≡ length two_nodes.initial_snapshot.nodes)
    × All
        (λ (b : Branch).
          IsNamed d'.nodes b.parent_node_id × All (IsNamed d'.nodes) b.child_node_ids)
        d'.branches
    × All (λ (e : ℕ × History). IsNamed d'.nodes e.0) d'.branch_history
    × ((r : ℕ)
        → two_nodes.initial_snapshot.root_node_id ≡ some r
        → IsNamed two_nodes.initial_snapshot.nodes r
        → (k : ℕ) × (d'.root_node_id ≡ some k) × IsNamed d'.nodes k)
    × (d'.selected_news_ids ≡ [])
    × (d'.active_report_job_id ≡ none)
restore_lem_example = restore_lem cfg two_nodes two_nodes-IsWellFormed
