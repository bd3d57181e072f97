-- ===== src/Newsmap/Restore.antt =====
-- What `reset_map` of app/v2/maps.py makes of a loaded document: the first state of the map under
-- node ids that were never used.
use capstone_backend.Prelude.{ℕ, ◌+◌, false, Option, none, some, List, [], ◌∷◌, map, length, lookup}
use capstone_backend.Errors.{Result, ok, err, key_error}
use capstone_backend.Newsmap.Data.{Node, Branch, History, MapDoc}

-- the dictionary `remap`; its latest entry for a key counts
unfoldable pub remap : List Node → ℕ → List (ℕ × ℕ) → List (ℕ × ℕ)
remap [] seq ids = ids
remap (n ∷ ns) seq ids = remap ns (seq + 1) ((n.node_id, seq) ∷ ids)

-- `remap[id]` where the id is a node's own, and `remap.get(parent)`
abbrev pub new_id : List (ℕ × ℕ) → ℕ → ℕ
new_id ids id = elim (lookup id ids) [ none ↦ 0 | some k ↦ k ]

abbrev pub new_parent : List (ℕ × ℕ) → Option ℕ → Option ℕ
new_parent ids none = none
new_parent ids (some p) = lookup p ids

unfoldable pub rename_node : List (ℕ × ℕ) → Node → Node
rename_node ids n = record n {
  node_id = new_id ids n.node_id;
  parent_node_id = new_parent ids n.parent_node_id;
}

unfoldable pub rename_all : List (ℕ × ℕ) → List ℕ → Result (List ℕ)
rename_all ids [] = ok []
rename_all ids (x ∷ xs) = elim (lookup x ids) [
  | none ↦ err key_error
  | some k ↦ elim (rename_all ids xs) [ ok ks ↦ ok (k ∷ ks) | err e ↦ err e ]
]

unfoldable pub rename_branches : List (ℕ × ℕ) → List Branch → Result (List Branch)
unfolding rename_all
rename_branches ids [] = ok []
rename_branches ids (b ∷ bs) = elim (rename_all ids (b.parent_node_id ∷ b.child_node_ids)) [
  | err e ↦ err e
  | ok [] ↦ err key_error
  | ok (p ∷ cs) ↦ elim (rename_branches ids bs) [
    | err e ↦ err e
    | ok rest ↦ ok (record b { parent_node_id = p; child_node_ids = cs } ∷ rest)
  ]
]

unfoldable pub rename_histories : List (ℕ × ℕ) → List (ℕ × History) → Result (List (ℕ × History))
rename_histories ids [] = ok []
rename_histories ids ((k, h) ∷ rest) = elim (lookup k ids) [
  | none ↦ err key_error
  | some j ↦ elim (rename_histories ids rest) [ ok hs ↦ ok ((j, h) ∷ hs) | err e ↦ err e ]
]

-- the document with the renamed parts of the snapshot
unfoldable pub restored : MapDoc → List Branch → List (ℕ × History) → MapDoc
unfolding remap rename_node
restored d branches histories =
    let initial = d.initial_snapshot in
    let ids = remap initial.nodes d.next_node_seq [] in
    record d {
      next_node_seq = d.next_node_seq + length initial.nodes;
      root_node_id = new_parent ids initial.root_node_id;
      nodes = map (rename_node ids) initial.nodes;
      branches = branches;
      initial_selection = initial.initial_selection;
      branch_history = histories;
      selected_news_ids = [];
      detail_news_id = none;
      report_panel_open = false;
      active_report_job_id = none;
      last_result = none;
    }

-- the restored document and the job that is detached
unfoldable pub restore : MapDoc → Result (MapDoc × Option ℕ)
unfolding restored rename_branches rename_histories
restore d =
    let ids = remap d.initial_snapshot.nodes d.next_node_seq [] in
    elim (rename_branches ids d.initial_snapshot.branches) [
      | err e ↦ err e
      | ok branches ↦ elim (rename_histories ids d.initial_snapshot.branch_history) [
        | err e ↦ err e
        | ok histories ↦ ok (restored d branches histories, d.active_report_job_id)
      ]
    ]
