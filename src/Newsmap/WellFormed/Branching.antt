-- ===== src/Newsmap/WellFormed/Branching.antt =====
-- `branch_map` of app/v2/maps.py keeps the map well-formed, whatever articles the search gives.
use capstone_backend.Prelude.{
  ℕ, ◌+◌, ◌-◌, ◌≤◌, ◌<◌, ◌≡◌, refl, sym, ap, ◌∙◌, true, false, not, ◌&&◌, Option, none, some, List,
  length, length-append, keep, find, elem, All, All-append, All_map, ltb, ltb→ge, ◌==◌,
  if◌then◌else◌, if_split, Option-cases, inl, inr, arith,
}
use mathlib.Core.Path.{subst}
use capstone_backend.Settings.{Settings}
use capstone_backend.Errors.{ok, OnOk}
use capstone_backend.Newsmap.Data.{Article, Selection, Node, Branch, History, MapDoc, new_nodes}
use capstone_backend.Newsmap.Edit.{
  Mode, expand, research, visible, branch_parent, removed_nodes, attach, branch_finish, max_batch,
  discard_all, set_expanded, is_empty,
}
use capstone_backend.Newsmap.Descendants.Closure.{outside, outside-descendants, outside_nil}
use capstone_backend.Newsmap.Tree.{level_of, level_of-keep, IsTree}
use capstone_backend.Newsmap.Tree.Growth.{
  find-level_of, new_nodes-next_node_seq, new_nodes-initial_snapshot, length-new_nodes,
  new_nodes-Ordered, new_nodes-All, new_nodes-known, new_nodes-children_known, set_expanded-All,
  length-set_expanded, visible-set_expanded,
}
use capstone_backend.Newsmap.Tree.Steps.{
  stays, ParentsStay, ParentsStay-descendants, ParentsStay-nil, parent_stays, IsTree-keep,
  IsTree-append, IsTree-set_expanded, level_of-lt, length-keep-stays,
}
use capstone_backend.Newsmap.WellFormed.{
  IsWellFormed, IsKnown, IsShown, IsStart, IsStart_grow, All-keep_self, All-keep,
}

-- what the checks before the search establish of the parent
pub record IsParent (cfg : Settings) (d : MapDoc) (parent : Node) : Type 0 where
  pub at : level_of parent.node_id d.nodes ≡ some parent.level
  pub shallow : parent.level < cfg.v2_max_map_depth

pub branch_parent-IsParent :
    (cfg : Settings) (d : MapDoc) (id : ℕ) (mode : Mode) (parent : Node)
    → branch_parent cfg d id mode ≡ ok parent
    → (parent.node_id ≡ id) × IsParent cfg d parent
unfolding branch_parent
branch_parent-IsParent cfg d id mode parent h =
    elim (Option-cases (find (λ (n : Node). n.node_id == id) d.nodes)) [
      | inl absent ↦ absurd (let e = (rw (absent, branch_parent) at h) in cc)
      | inr (n, found) ↦
          let same : n ≡ parent = ground arith in
          let facts = find-level_of id d.nodes n found in
          (
            ap (λ (m : Node). m.node_id) (sym same) ∙ facts.0,
            record {
              at =
                  subst (λ (m : Node). level_of m.node_id d.nodes ≡ some m.level) same
                    (rw facts.0 facts.1);
              shallow = ground arith;
            },
          )
    ]

-- what the removed ids satisfy in both modes
module _ (cfg : Settings) (d : MapDoc) (w : IsWellFormed cfg d) (id : ℕ) where
  removed-ParentsStay : (mode : Mode) → ParentsStay (removed_nodes d id mode) d.nodes
  removed-ParentsStay expand = ParentsStay-nil d.nodes
  removed-ParentsStay research = ParentsStay-descendants id d.nodes

  removed-parent : (mode : Mode) → elem id (removed_nodes d id mode) ≡ false
  removed-parent expand = refl
  removed-parent research = parent_stays cfg.v2_max_map_depth d.next_node_seq id d.nodes w.tree

  removed-outside :
      (mode : Mode)
      → outside id d.nodes (removed_nodes d id mode) + length (removed_nodes d id mode)
        ≤ length d.nodes
  removed-outside expand = omega (arith, outside_nil id d.nodes)
  removed-outside research = outside-descendants id d.nodes

-- the known articles stay known, and the children are known
IsKnown-new_nodes :
    (parent : Option ℕ) (level batch : ℕ) (d : MapDoc) (items : List Article) (n : Node)
    → IsKnown d.articles n
    → IsKnown (new_nodes d items parent level batch).0.articles n
IsKnown-new_nodes parent level batch d items n (a, k) =
    new_nodes-known parent level batch d items n.news_id a k

IsShown-detail :
    (o : Option ℕ) (shown : List ℕ)
    → IsShown (elim o [ none ↦ none | some nid ↦ if elem nid shown then some nid else none ]) shown
IsShown-detail none shown = tt
IsShown-detail (some nid) shown =
    if_split (λ o. IsShown o shown) (elem nid shown) (λ h. h) (λ _. tt)

module _ (cfg : Settings) (d : MapDoc) (w : IsWellFormed cfg d) (parent : Node)
    (p : IsParent cfg d parent) (removed : List ℕ) (stay : ParentsStay removed d.nodes)
    (out : elem parent.node_id removed ≡ false) (h : History) (items : List Article)
    (attempt : Selection) where
  kept : List Node
  kept = keep (stays removed) d.nodes

  -- the document when `_node` is first called
  cleared : MapDoc
  cleared = record d {
    nodes = kept;
    branches =
        keep
          (λ (b : Branch).
            not (elem b.parent_node_id removed) && not (b.parent_node_id == parent.node_id))
          d.branches;
    branch_history = discard_all removed d.branch_history;
  }

  batch : ℕ
  batch = max_batch kept + 1

  attached : MapDoc
  attached = (attach d parent removed h items attempt).0

  attach-IsTree : IsTree cfg.v2_max_map_depth attached.next_node_seq attached.nodes
  unfolding attached attach cleared batch kept
  attach-IsTree =
      let up = some parent.node_id in
      let hi = (new_nodes cleared items up (parent.level + 1) batch).0.next_node_seq in
      IsTree-append cfg.v2_max_map_depth d.next_node_seq hi parent.node_id parent.level kept
        (new_nodes cleared items up (parent.level + 1) batch).1
        (IsTree-keep cfg.v2_max_map_depth d.next_node_seq removed d.nodes stay w.tree)
        (level_of-keep parent.node_id removed d.nodes out ∙ p.at)
        (level_of-lt parent.node_id 1 d.next_node_seq d.nodes parent.level w.tree.ordered p.at)
        p.shallow
        (new_nodes-Ordered up (parent.level + 1) batch cleared items d.next_node_seq hi
          (omega arith)
          (omega (arith, new_nodes-next_node_seq up (parent.level + 1) batch cleared items)))
        (All_map _ _ _ (λ n c. (c.0, omega (arith, c.1), c.2))
          (new_nodes-All up (parent.level + 1) batch cleared items d.next_node_seq (omega arith)))

  attach-IsKnown : All (IsKnown attached.articles) attached.nodes
  unfolding attached attach cleared batch kept
  attach-IsKnown =
      let up = some parent.node_id in
      All-append (IsKnown attached.articles) kept
        (new_nodes cleared items up (parent.level + 1) batch).1
        (All_map (IsKnown d.articles) (IsKnown attached.articles) kept
          (IsKnown-new_nodes up (parent.level + 1) batch cleared items)
          (All-keep (IsKnown d.articles) (stays removed) d.nodes w.known))
        (new_nodes-children_known up (parent.level + 1) batch cleared items)

  attach-selected : All (λ nid. elem nid (visible attached.nodes) ≡ true) attached.selected_news_ids
  unfolding attached attach
  attach-selected = All-keep_self _ d.selected_news_ids

  attach-detail : IsShown attached.detail_news_id (visible attached.nodes)
  unfolding attached attach
  attach-detail = IsShown-detail d.detail_news_id _

  attach-start : IsStart cfg attached.next_node_seq attached.articles attached.initial_snapshot
  unfolding attached attach cleared batch kept
  attach-start =
      let up = some parent.node_id in
      rw (new_nodes-initial_snapshot up (parent.level + 1) batch cleared items) (
        IsStart_grow cfg d.next_node_seq attached.next_node_seq d.articles attached.articles
          d.initial_snapshot
          (omega (arith, new_nodes-next_node_seq up (parent.level + 1) batch cleared items))
          (IsKnown-new_nodes up (parent.level + 1) batch cleared items) w.start)

  length-attach : length attached.nodes ≡ length kept + length items
  unfolding attached attach cleared batch kept
  length-attach =
      let up = some parent.node_id in
      omega (
        arith,
        length-append kept (new_nodes cleared items up (parent.level + 1) batch).1,
        length-new_nodes up (parent.level + 1) batch cleared items,
      )

  attach-IsWellFormed :
      length kept + length items ≤ cfg.v2_max_map_nodes → IsWellFormed cfg attached
  attach-IsWellFormed fits = record {
    tree = attach-IsTree;
    size = omega (arith, length-attach);
    selected = attach-selected;
    detail = attach-detail;
    known = attach-IsKnown;
    start = attach-start;
  }

IsWellFormed-set_expanded :
    (cfg : Settings) (d : MapDoc) (id : ℕ)
    → IsWellFormed cfg d
    → IsWellFormed cfg (record d { nodes = set_expanded id d.nodes })
IsWellFormed-set_expanded cfg d id w = record {
  tree = IsTree-set_expanded cfg.v2_max_map_depth d.next_node_seq id d.nodes w.tree;
  size = rw (length-set_expanded id d.nodes) w.size;
  selected = rw (visible-set_expanded id d.nodes) w.selected;
  detail = rw (visible-set_expanded id d.nodes) w.detail;
  known = set_expanded-All id (IsKnown d.articles) d.nodes (λ n k. k) w.known;
  start = w.start;
}

-- Whatever the search returns, and whatever is recorded as the attempt and the history, the
-- document that `branch_map` goes on to commit is well-formed if the loaded one was: the checks on
-- the parent and on the number of nodes keep the depth and the size within their limits, and a
-- re-search removes exactly whole subtrees.
pub branch_finish-IsWellFormed :
    (cfg : Settings) (d : MapDoc) (id : ℕ) (mode : Mode) (parent : Node) (h : History)
    (items : List Article) (attempt : Selection)
    → IsWellFormed cfg d
    → branch_parent cfg d id mode ≡ ok parent
    → OnOk
        (λ r. IsWellFormed cfg r.0)
        (branch_finish cfg d parent (removed_nodes d id mode) items attempt h)
unfolding branch_finish attached kept
branch_finish-IsWellFormed cfg d id mode parent h items attempt w found =
    let (same, p) = branch_parent-IsParent cfg d id mode parent found in
    let removed = removed_nodes d id mode in
    let stay = removed-ParentsStay cfg d w id mode in
    let out : elem parent.node_id removed ≡ false = rw same (removed-parent cfg d w id mode) in
    if_split (OnOk (λ (r : MapDoc × Option ℕ). IsWellFormed cfg r.0))
      (ltb cfg.v2_max_map_nodes (length d.nodes - length removed + length items)) (λ _. tt)
      (λ fits.
        if_split (OnOk (λ (r : MapDoc × Option ℕ). IsWellFormed cfg r.0)) (is_empty items)
          (λ _.
            let e = IsWellFormed-set_expanded cfg d parent.node_id w in
            record {
              tree = e.tree;
              size = e.size;
              selected = e.selected;
              detail = e.detail;
              known = e.known;
              start = e.start;
            })
          (λ _.
            IsWellFormed-set_expanded cfg (attach d parent removed h items attempt).0 parent.node_id
              (attach-IsWellFormed cfg d w parent p removed stay out h items attempt
                (fits_kept id fits))))
  where
    fits_kept :
        (id : ℕ)
        → ltb cfg.v2_max_map_nodes
            (length d.nodes - length (removed_nodes d id mode) + length items)
          ≡ false
        → length (keep (stays (removed_nodes d id mode)) d.nodes) + length items
          ≤ cfg.v2_max_map_nodes
    fits_kept id fits =
        let le =
          ltb→ge cfg.v2_max_map_nodes
            (length d.nodes - length (removed_nodes d id mode) + length items) fits in
        omega (
          arith,
          le,
          length-keep-stays id (removed_nodes d id mode) d.nodes,
          removed-outside cfg d w id mode,
        )
