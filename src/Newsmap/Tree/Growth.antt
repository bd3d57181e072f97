-- ===== src/Newsmap/Tree/Growth.antt =====
-- The nodes that `_node` of app/v2/maps.py makes, and the flag that `branch_map` sets.
use capstone_backend.Prelude.{
  ℕ, suc, ◌+◌, ◌≤◌, ◌≡◌, refl, ap, ◌∙◌, true, Option, none, some, List, [], ◌∷◌, ◌==◌, length, find,
  All, lookup, lookup-insert, Bool-cases, ==_refl, inl, inr, arith, if_split,
}
use capstone_backend.Newsmap.Data.{Node, new_node, new_nodes, MapDoc, Article, article_id, snapshot}
use capstone_backend.Newsmap.Edit.{set_expanded, visible}
use capstone_backend.Newsmap.Tree.{Ordered, level_of, level_under, one_more}

module _ (parent : Option ℕ) (level batch : ℕ) where
  pub new_nodes-next_node_seq :
      (d : MapDoc) (items : List Article)
      → (new_nodes d items parent level batch).0.next_node_seq ≡ d.next_node_seq + length items
  unfolding new_nodes
  new_nodes-next_node_seq d [] = omega arith
  new_nodes-next_node_seq d (a ∷ items) =
      omega (arith, new_nodes-next_node_seq (new_node d a parent level batch).0 items)

  pub new_nodes-initial_snapshot :
      (d : MapDoc) (items : List Article)
      → (new_nodes d items parent level batch).0.initial_snapshot ≡ d.initial_snapshot
  unfolding new_nodes
  new_nodes-initial_snapshot d [] = refl
  new_nodes-initial_snapshot d (a ∷ items) =
      new_nodes-initial_snapshot (new_node d a parent level batch).0 items

  pub new_nodes-selection :
      (d : MapDoc) (items : List Article)
      → let d' = (new_nodes d items parent level batch).0 in
        (d'.selected_news_ids ≡ d.selected_news_ids) × (d'.detail_news_id ≡ d.detail_news_id)
  unfolding new_nodes
  new_nodes-selection d [] = (refl, refl)
  new_nodes-selection d (a ∷ items) = new_nodes-selection (new_node d a parent level batch).0 items

  pub length-new_nodes :
      (d : MapDoc) (items : List Article)
      → length (new_nodes d items parent level batch).1 ≡ length items
  unfolding new_nodes
  length-new_nodes d [] = refl
  length-new_nodes d (a ∷ items) =
      ap suc (length-new_nodes (new_node d a parent level batch).0 items)

  pub new_nodes-Ordered :
      (d : MapDoc) (items : List Article) (lo hi : ℕ)
      → lo ≤ d.next_node_seq
      → d.next_node_seq + length items ≤ hi
      → Ordered lo (new_nodes d items parent level batch).1 hi
  unfolding new_nodes
  new_nodes-Ordered d [] lo hi h k = omega arith
  new_nodes-Ordered d (a ∷ items) lo hi h k = (
    h,
    new_nodes-Ordered (new_node d a parent level batch).0 items (suc d.next_node_seq) hi
        (omega arith) (omega arith),
  )

  -- each child hangs under the parent and is newer than the counter was
  pub new_nodes-All :
      (d : MapDoc) (items : List Article) (lo : ℕ)
      → lo ≤ d.next_node_seq
      → All
          (λ (n : Node). (n.parent_node_id ≡ parent) × (n.level ≡ level) × (lo ≤ n.node_id))
          (new_nodes d items parent level batch).1
  unfolding new_nodes
  new_nodes-All d [] lo h = tt
  new_nodes-All d (a ∷ items) lo h =
      ((refl, refl, h), new_nodes-All (new_node d a parent level batch).0 items lo (omega arith))

  -- the articles that were known stay known, and those of the children are known
  pub new_nodes-known :
      (d : MapDoc) (items : List Article) (k : ℕ) (a : Article)
      → lookup k d.articles ≡ some a
      → (b : Article) × (lookup k (new_nodes d items parent level batch).0.articles ≡ some b)
  unfolding new_nodes
  new_nodes-known d [] k a h = (a, h)
  new_nodes-known d (i ∷ items) k a h =
      let d' = (new_node d i parent level batch).0 in
      elim (Bool-cases (article_id i == k)) [
        | inl this ↦
            new_nodes-known d' items k (snapshot i)
              (lookup-insert (article_id i) k (snapshot i) d.articles ∙ rw this)
        | inr other ↦
            new_nodes-known d' items k a
              (lookup-insert (article_id i) k (snapshot i) d.articles ∙ rw other h)
      ]

  pub new_nodes-children_known :
      (d : MapDoc) (items : List Article)
      → All
          (λ (n : Node).
            (b : Article) × (lookup n.news_id (new_nodes d items parent level batch).0.articles
              ≡ some b))
          (new_nodes d items parent level batch).1
  unfolding new_nodes
  new_nodes-children_known d [] = tt
  new_nodes-children_known d (i ∷ items) =
      let d' = (new_node d i parent level batch).0 in
      (
        new_nodes-known d' items (article_id i) (snapshot i)
            (lookup-insert (article_id i) (article_id i) (snapshot i) d.articles ∙ rw ==_refl),
        new_nodes-children_known d' items,
      )

module _ (parent_id : ℕ) where
  pub level_of-set_expanded :
      (p : ℕ) (ns : List Node) → level_of p (set_expanded parent_id ns) ≡ level_of p ns
  unfolding set_expanded
  level_of-set_expanded p [] = refl
  level_of-set_expanded p (n ∷ ns) = ground (arith, level_of-set_expanded p ns)

  pub level_under-set_expanded :
      (o : Option ℕ) (ns : List Node) → level_under o (set_expanded parent_id ns) ≡ level_under o ns
  level_under-set_expanded none ns = refl
  level_under-set_expanded (some p) ns = ap one_more (level_of-set_expanded p ns)

  pub set_expanded-Ordered :
      (lo : ℕ) (ns : List Node) (hi : ℕ)
      → Ordered lo ns hi
      → Ordered lo (set_expanded parent_id ns) hi
  unfolding set_expanded
  set_expanded-Ordered lo [] hi o = o
  set_expanded-Ordered lo (n ∷ ns) hi o =
      if_split (λ l. Ordered lo l hi) (n.node_id == parent_id) (λ _. o)
        (λ _. (o.0, set_expanded-Ordered (suc n.node_id) ns hi o.1))

  pub set_expanded-All :
      (P : Node → Type 0) (ns : List Node)
      → ((n : Node) → P n → P (record n { expanded = true }))
      → All P ns
      → All P (set_expanded parent_id ns)
  unfolding set_expanded
  set_expanded-All P [] f h = tt
  set_expanded-All P (n ∷ ns) f h =
      if_split (All P) (n.node_id == parent_id) (λ _. (f n h.0, h.1))
        (λ _. (h.0, set_expanded-All P ns f h.1))

  pub length-set_expanded : (ns : List Node) → length (set_expanded parent_id ns) ≡ length ns
  unfolding set_expanded
  length-set_expanded [] = refl
  length-set_expanded (n ∷ ns) = ground (arith, length-set_expanded ns)

  pub visible-set_expanded : (ns : List Node) → visible (set_expanded parent_id ns) ≡ visible ns
  unfolding set_expanded
  visible-set_expanded [] = refl
  visible-set_expanded (n ∷ ns) = ground (arith, visible-set_expanded ns)

-- what `next((n for n in nodes if n['node_id'] == id), None)` finds
pub find-level_of :
    (id : ℕ) (ns : List Node) (n : Node)
    → find (λ (m : Node). m.node_id == id) ns ≡ some n
    → (n.node_id ≡ id) × (level_of id ns ≡ some n.level)
find-level_of id [] n h = cc
find-level_of id (m ∷ ns) n h = elim (Bool-cases (m.node_id == id)) [
  | inl this ↦ (ground arith, ground arith)
  | inr other ↦ rw other (find-level_of id ns n (rw other at h))
]
