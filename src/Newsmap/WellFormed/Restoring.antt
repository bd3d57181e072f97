-- ===== src/Newsmap/WellFormed/Restoring.antt =====
-- `reset_map` of app/v2/maps.py: it never fails on a well-formed map, keeps it well-formed and
-- gives every node, and what names a node, an id that was never used.
use capstone_backend.Prelude.{
  ℕ, suc, ◌+◌, ◌≤◌, ◌<◌, ◌≡◌, refl, sym, ap, ◌∙◌, true, Option, none, some, List, [], ◌∷◌, map,
  length, length-map, elem, lookup, All, All_of, All_map, ◌==◌, ==_iff, ==_refl, Bool-cases,
  Option-cases, inl, inr, arith,
}
use capstone_backend.Settings.{Settings}
use capstone_backend.Errors.{ok}
use capstone_backend.Newsmap.Data.{Node, Branch, History, MapDoc}
use capstone_backend.Newsmap.Restore.{
  remap, new_id, new_parent, rename_node, rename_all, rename_branches, rename_histories, restored,
  restore,
}
use capstone_backend.Newsmap.Tree.{
  Ordered, Ordered-le, Ordered-weaken, level_of, level_under, IsOlder, IsPlaced,
}
use capstone_backend.Newsmap.Descendants.{Occurs, here, there}
use capstone_backend.Newsmap.WellFormed.{IsWellFormed, IsNamed, IsKnown, IsStart_grow, node_ids}

-- the nodes of the list have the new ids `seq`, `seq + 1`, …
abbrev Numbered : List (ℕ × ℕ) → ℕ → List Node → Type 0
Numbered ids seq [] = Unit
Numbered ids seq (n ∷ ns) = (lookup n.node_id ids ≡ some seq) × Numbered ids (suc seq) ns

-- ids below all that are renamed keep their entry
lookup-remap_old :
    (ns : List Node) (lo hi seq : ℕ) (ids : List (ℕ × ℕ)) (x : ℕ)
    → Ordered lo ns hi
    → x < lo
    → lookup x (remap ns seq ids) ≡ lookup x ids
unfolding remap
lookup-remap_old [] lo hi seq ids x o h = refl
lookup-remap_old (n ∷ ns) lo hi seq ids x o h =
    lookup-remap_old ns (suc n.node_id) hi (seq + 1) ((n.node_id, seq) ∷ ids) x o.1
      (omega (arith, o.0))
    ∙ ground arith

remap-Numbered :
    (ns : List Node) (lo hi seq seq' : ℕ) (ids : List (ℕ × ℕ))
    → Ordered lo ns hi
    → seq ≡ seq'
    → Numbered (remap ns seq ids) seq' ns
unfolding remap
remap-Numbered [] lo hi seq seq' ids o e = tt
remap-Numbered (n ∷ ns) lo hi seq seq' ids o e = (
  lookup-remap_old ns (suc n.node_id) hi (seq + 1) ((n.node_id, seq) ∷ ids) n.node_id o.1
        (omega arith)
      ∙ ground (arith, ==_refl n.node_id),
  remap-Numbered ns (suc n.node_id) hi (seq + 1) (suc seq') ((n.node_id, seq) ∷ ids) o.1
      (omega arith),
)

module _ (ids : List (ℕ × ℕ)) where
  renamed-Ordered :
      (ns : List Node) (seq hi : ℕ)
      → Numbered ids seq ns
      → seq + length ns ≤ hi
      → Ordered seq (map (rename_node ids) ns) hi
  unfolding rename_node
  renamed-Ordered [] seq hi m h = omega arith
  renamed-Ordered (n ∷ ns) seq hi m h =
      let id : new_id ids n.node_id ≡ seq = ap (λ o. elim o [ none ↦ 0 | some k ↦ k ]) m.0 in
      (omega (arith, id), rw id (renamed-Ordered ns (suc seq) hi m.1 (omega arith)))

  Numbered-from :
      (ns : List Node) (seq : ℕ) (lo : ℕ)
      → lo ≤ seq
      → Numbered ids seq ns
      → All (λ n. lo ≤ new_id ids n.node_id) ns
  Numbered-from [] seq lo h m = tt
  Numbered-from (n ∷ ns) seq lo h m =
      let id : new_id ids n.node_id ≡ seq = ap (λ o. elim o [ none ↦ 0 | some k ↦ k ]) m.0 in
      (omega (arith, id), Numbered-from ns (suc seq) lo (omega arith) m.1)

  level_of-ge :
      (p lo hi l : ℕ) (ns : List Node) → Ordered lo ns hi → level_of p ns ≡ some l → lo ≤ p
  level_of-ge p lo hi l [] o h = absurd (cc)
  level_of-ge p lo hi l (n ∷ ns) o h = elim (Bool-cases (n.node_id == p)) [
    | inl this ↦ omega (arith, (==_iff n.node_id p).0 this)
    | inr other ↦ omega (arith, level_of-ge p (suc n.node_id) hi l ns o.1 (rw other at h))
  ]

  -- a node is found under its new id where it was under its old one, and newer nodes stay newer
  level_of-renamed :
      (ns : List Node) (lo hi seq p l : ℕ)
      → Ordered lo ns hi
      → Numbered ids seq ns
      → level_of p ns ≡ some l
      → (q : ℕ) × (lookup p ids ≡ some q)
        × (seq ≤ q)
        × (level_of q (map (rename_node ids) ns) ≡ some l)
        × All (λ m. p < m.node_id → q < new_id ids m.node_id) ns
  unfolding rename_node
  level_of-renamed [] lo hi seq p l o m h = absurd (cc)
  level_of-renamed (n ∷ ns) lo hi seq p l o m h =
      let id : new_id ids n.node_id ≡ seq = ap (λ o. elim o [ none ↦ 0 | some k ↦ k ]) m.0 in
      elim (Bool-cases (n.node_id == p)) [
        | inl this ↦ (
          seq,
          ap (λ x. lookup x ids) (sym ((==_iff n.node_id p).0 this)) ∙ m.0,
          omega arith,
          rw (id, ==_refl seq) (rw this at h),
          (
            λ lt. absurd (omega (arith, (==_iff n.node_id p).0 this)),
            All_map (λ (m : Node). suc seq ≤ new_id ids m.node_id) _ ns (λ m le lt. le)
                (Numbered-from ns (suc seq) (suc seq) (omega arith) m.1),
          ),
        )
        | inr other ↦
            let (q, to, le, at, newer) =
              level_of-renamed ns (suc n.node_id) hi (suc seq) p l o.1 m.1 (rw other at h) in
            let past = level_of-ge p (suc n.node_id) hi l ns o.1 (rw other at h) in
            (
              q,
              to,
              omega arith,
              rw id (ground (arith, at, le)),
              (λ lt. absurd (omega (arith, past)), newer),
            )
      ]

  module _ (depth lo hi seq : ℕ) (whole : List Node) (o : Ordered lo whole hi)
      (m : Numbered ids seq whole) where
    renamed-parent :
        (p : Option ℕ) (level : ℕ)
        → level_under p whole ≡ some level
        → (level_under (new_parent ids p) (map (rename_node ids) whole) ≡ some level)
          × All (λ n. IsOlder p n.node_id → IsOlder (new_parent ids p) (new_id ids n.node_id)) whole
    renamed-parent none level h = (h, All_of _ whole (λ n older. tt))
    renamed-parent (some p) level h = elim (Option-cases (level_of p whole)) [
      | inl absent ↦ absurd (ground arith)
      | inr (k, found) ↦
          let (q, to, le, at, newer) = level_of-renamed whole lo hi seq p k o m found in
          (rw (to, at) (rw found at h), rw to newer)
    ]

All_at : (P : Node → Type 0) (n : Node) (ns : List Node) → Occurs n ns → All P ns → P n
All_at P n [] o h = elim o [ ]
All_at P n (m ∷ ns) here h = h.0
All_at P n (m ∷ ns) (there o) h = All_at P n ns o h.1

All_occurring :
    (P R : Node → Type 0) (ns : List Node)
    → ((n : Node) → Occurs n ns → P n → R n)
    → All P ns
    → All R ns
All_occurring P R [] f h = tt
All_occurring P R (n ∷ ns) f h = (f n here h.0, All_occurring P R ns (λ m o. f m (there o)) h.1)

All-map :
    (P : Node → Type 0) (f : Node → Node) (ns : List Node)
    → All (λ n. P (f n)) ns
    → All P (map f ns)
All-map P f [] h = tt
All-map P f (n ∷ ns) h = (h.0, All-map P f ns h.1)

module _ (ids : List (ℕ × ℕ)) (depth lo hi seq : ℕ) (whole : List Node) (o : Ordered lo whole hi)
    (m : Numbered ids seq whole) where
  renamed-IsPlaced :
      All (IsPlaced depth whole) whole
      → All (IsPlaced depth (map (rename_node ids) whole)) (map (rename_node ids) whole)
  unfolding rename_node
  renamed-IsPlaced h =
      All-map (IsPlaced depth (map (rename_node ids) whole)) (rename_node ids) whole (
        All_occurring (IsPlaced depth whole) _ whole
          (λ n at p.
            let (up, newer) =
              renamed-parent ids depth lo hi seq whole o m n.parent_node_id n.level p.0 in
            (up, All_at _ n whole at newer p.1, p.2))
          h)

  named-lookup :
      (ns : List Node) (k x : ℕ)
      → Numbered ids k ns
      → elem x (node_ids ns) ≡ true
      → (j : ℕ) × (lookup x ids ≡ some j)
  named-lookup [] k x n h = absurd (cc)
  named-lookup (n ∷ ns) k x num h = elim (Bool-cases (x == n.node_id)) [
    | inl this ↦ (k, ap (λ y. lookup y ids) ((==_iff x n.node_id).0 this) ∙ num.0)
    | inr other ↦ named-lookup ns (suc k) x num.1 (ground arith)
  ]

  -- the new nodes
  abbrev renamed : List Node
  renamed = map (rename_node ids) whole

  named-renamed :
      (ns : List Node) (x j : ℕ)
      → elem x (node_ids ns) ≡ true
      → lookup x ids ≡ some j
      → elem j (node_ids (map (rename_node ids) ns)) ≡ true
  unfolding rename_node
  named-renamed [] x j h e = absurd (cc)
  named-renamed (n ∷ ns) x j h e = elim (Bool-cases (x == n.node_id)) [
    | inl this ↦
        let same = (==_iff x n.node_id).0 this in
        let at : lookup n.node_id ids ≡ some j = ap (λ y. lookup y ids) (sym same) ∙ e in
        ground (arith, at, ==_refl j)
    | inr other ↦ ground (arith, named-renamed ns x j, h, e)
  ]

  -- where an id of an old node leads: to a new node
  new_named : (x : ℕ) → IsNamed whole x → (j : ℕ) × (lookup x ids ≡ some j) × IsNamed renamed j
  new_named x h =
      let (j, to) = named-lookup whole seq x m h in (j, to, named-renamed whole x j h to)

  rename_all_total :
      (xs : List ℕ)
      → All (IsNamed whole) xs
      → (ks : List ℕ) × (rename_all ids xs ≡ ok ks) × All (IsNamed renamed) ks
  unfolding rename_all
  rename_all_total [] h = ([], refl, tt)
  rename_all_total (x ∷ xs) h =
      let (k, to, named) = new_named x h.0 in
      let (ks, rest, all_named) = rename_all_total xs h.1 in
      (k ∷ ks, rw (to, rename_all, rest), (named, all_named))

  rename_branches_total :
      (bs : List Branch)
      → All
          (λ (b : Branch). IsNamed whole b.parent_node_id × All (IsNamed whole) b.child_node_ids)
          bs
      → (cs : List Branch) × (rename_branches ids bs ≡ ok cs)
        × All
            (λ (b : Branch).
              IsNamed renamed b.parent_node_id × All (IsNamed renamed) b.child_node_ids)
            cs
  unfolding rename_branches
  rename_branches_total [] h = ([], refl, tt)
  rename_branches_total (b ∷ bs) h =
      let (p, to, named) = new_named b.parent_node_id h.0.0 in
      let (ks, children, all_named) = rename_all_total b.child_node_ids h.0.1 in
      let (cs, rest, others) = rename_branches_total bs h.1 in
      (
        record b { parent_node_id = p; child_node_ids = ks } ∷ cs,
        ground (arith, to, children, rest),
        ((named, all_named), others),
      )

  rename_histories_total :
      (hs : List (ℕ × History))
      → All (λ (e : ℕ × History). IsNamed whole e.0) hs
      → (js : List (ℕ × History)) × (rename_histories ids hs ≡ ok js)
        × All (λ (e : ℕ × History). IsNamed renamed e.0) js
  unfolding rename_histories
  rename_histories_total [] h = ([], refl, tt)
  rename_histories_total ((k, hist) ∷ hs) h =
      let (j, to, named) = new_named k h.0 in
      let (js, rest, others) = rename_histories_total hs h.1 in
      ((j, hist) ∷ js, ground (arith, to, rest), (named, others))

  new_root :
      (root : Option ℕ) (r : ℕ)
      → root ≡ some r
      → IsNamed whole r
      → (k : ℕ) × (new_parent ids root ≡ some k) × IsNamed renamed k
  new_root none r e h = absurd (cc)
  new_root (some q) r e h = let (k, to, named) = new_named r h in (k, ground (arith, to, e), named)

-- A reset of a well-formed map always succeeds, and gives a well-formed map with an empty
-- selection and no job. It has as many nodes as the first snapshot, their ids are all at or past
-- the old counter, so no id is used again; its branches and its histories name new nodes only, and
-- its root is a new node if the root of the snapshot is one of its nodes. The detached job is the
-- one that was active.
pub restore_lem :
    (cfg : Settings) (d : MapDoc)
    → IsWellFormed cfg d
    → (d' : MapDoc) × (restore d ≡ ok (d', d.active_report_job_id))
      × IsWellFormed cfg d'
      × All (λ n. d.next_node_seq ≤ n.node_id) d'.nodes
      × (length d'.nodes ≡ length d.initial_snapshot.nodes)
      × All
          (λ (b : Branch).
            IsNamed d'.nodes b.parent_node_id × All (IsNamed d'.nodes) b.child_node_ids)
          d'.branches
      × All (λ (e : ℕ × History). IsNamed d'.nodes e.0) d'.branch_history
      × ((r : ℕ)
          → d.initial_snapshot.root_node_id ≡ some r
          → IsNamed d.initial_snapshot.nodes r
          → (k : ℕ) × (d'.root_node_id ≡ some k) × IsNamed d'.nodes k)
      × (d'.selected_news_ids ≡ [])
      × (d'.active_report_job_id ≡ none)
unfolding restore restored rename_node
restore_lem cfg d w =
    let s = d.initial_snapshot in
    let depth = cfg.v2_max_map_depth in
    let seq = d.next_node_seq in
    let ids = remap s.nodes seq [] in
    let o = w.start.tree.ordered in
    let m = remap-Numbered s.nodes 1 seq seq seq [] o refl in
    let (cs, branches, new_branches) =
      rename_branches_total ids depth 1 seq seq s.nodes o m s.branches w.start.branches in
    let (js, histories, new_histories) =
      rename_histories_total ids depth 1 seq seq s.nodes o m s.branch_history w.start.histories in
    let hi = seq + length s.nodes in
    (
      restored d cs js,
      rw (branches, histories, restore) refl,
      record {
        tree = record {
          ordered =
              Ordered-weaken seq 1 (map (rename_node ids) s.nodes) hi
                (Ordered-le 1 d.nodes seq w.tree.ordered)
                (renamed-Ordered ids s.nodes seq hi m (omega arith));
          placed = renamed-IsPlaced ids depth 1 seq seq s.nodes o m w.start.tree.placed;
        };
        size = rw length-map w.start.size;
        selected = tt;
        detail = tt;
        known =
            All-map (IsKnown d.articles) (rename_node ids) s.nodes
              (All_map _ _ s.nodes (λ n k. k) w.start.known);
        start = IsStart_grow cfg seq hi d.articles d.articles s (omega arith) (λ n k. k) w.start;
      },
      All-map (λ n. seq ≤ n.node_id) (rename_node ids) s.nodes
          (Numbered-from ids s.nodes seq seq (omega arith) m),
      length-map (rename_node ids) s.nodes,
      new_branches,
      new_histories,
      new_root ids depth 1 seq seq s.nodes o m s.root_node_id,
      refl,
      refl,
    )
