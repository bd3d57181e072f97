-- ===== src/Newsmap/WellFormed.antt =====
-- What holds of every map document that app/v2/maps.py stores.
pub mod Selecting
pub mod Branching
pub mod Restoring
pub mod Creating
use capstone_backend.Prelude.{
  ℕ, suc, ◌+◌, ◌≤◌, ◌≡◌, refl, Bool, true, Option, none, some, List, [], ◌∷◌, ◌++◌, map, length,
  keep, elem, lookup, All, All_map, if_split, arith,
}
use capstone_backend.Settings.{Settings}
use capstone_backend.Newsmap.Data.{Article, Node, Branch, History, Snapshot, MapDoc}
use capstone_backend.Newsmap.Edit.{visible}
use capstone_backend.Newsmap.Tree.{Ordered, IsTree}

-- the map keeps the article of a node
abbrev pub IsKnown : List (ℕ × Article) → Node → Type 0
IsKnown articles n = (a : Article) × (lookup n.news_id articles ≡ some a)

abbrev pub IsShown : Option ℕ → List ℕ → Type 0
IsShown none shown = Unit
IsShown (some nid) shown = elem nid shown ≡ true

abbrev pub node_ids : List Node → List ℕ
node_ids ns = map (λ (n : Node). n.node_id) ns

abbrev pub IsNamed : List Node → ℕ → Type 0
IsNamed ns id = elem id (node_ids ns) ≡ true

-- the part that `reset_map` restores names only its own nodes
pub record IsStart (cfg : Settings) (seq : ℕ) (articles : List (ℕ × Article)) (s : Snapshot)
    : Type 0 where
  pub tree : IsTree cfg.v2_max_map_depth seq s.nodes
  pub size : length s.nodes ≤ cfg.v2_max_map_nodes
  pub known : All (IsKnown articles) s.nodes
  pub branches :
      All
        (λ b. IsNamed s.nodes b.parent_node_id × All (IsNamed s.nodes) b.child_node_ids)
        s.branches
  pub histories : All (λ (e : ℕ × History). IsNamed s.nodes e.0) s.branch_history

pub record IsWellFormed (cfg : Settings) (d : MapDoc) : Type 0 where
  pub tree : IsTree cfg.v2_max_map_depth d.next_node_seq d.nodes
  pub size : length d.nodes ≤ cfg.v2_max_map_nodes
  pub selected : All (λ nid. elem nid (visible d.nodes) ≡ true) d.selected_news_ids
  pub detail : IsShown d.detail_news_id (visible d.nodes)
  pub known : All (IsKnown d.articles) d.nodes
  pub start : IsStart cfg d.next_node_seq d.articles d.initial_snapshot

Ordered-weaken_hi :
    (lo : ℕ) (ns : List Node) (hi hi' : ℕ) → hi ≤ hi' → Ordered lo ns hi → Ordered lo ns hi'
Ordered-weaken_hi lo [] hi hi' h o = omega arith
Ordered-weaken_hi lo (n ∷ ns) hi hi' h o = (o.0, Ordered-weaken_hi (suc n.node_id) ns hi hi' h o.1)

-- the start stays a start while the counter and the articles grow
pub IsStart_grow :
    (cfg : Settings) (seq seq' : ℕ) (articles articles' : List (ℕ × Article)) (s : Snapshot)
    → seq ≤ seq'
    → ((n : Node) → IsKnown articles n → IsKnown articles' n)
    → IsStart cfg seq articles s
    → IsStart cfg seq' articles' s
IsStart_grow cfg seq seq' articles articles' s h k t = record {
  tree = record {
    ordered = Ordered-weaken_hi 1 s.nodes seq seq' h t.tree.ordered;
    placed = t.tree.placed;
  };
  size = t.size;
  known = All_map (IsKnown articles) (IsKnown articles') s.nodes k t.known;
  branches = t.branches;
  histories = t.histories;
}

pub All-keep_self {ℓ} :
    {A : Type ℓ} (p : A → Bool) (xs : List A) → All (λ x. p x ≡ true) (keep p xs)
All-keep_self p [] = tt
All-keep_self p (x ∷ xs) =
    if_split (All (λ y. p y ≡ true)) (p x) (λ h. (h, All-keep_self p xs)) (λ _. All-keep_self p xs)

pub All-keep {ℓ κ} :
    {A : Type ℓ} (P : A → Type κ) (p : A → Bool) (xs : List A) → All P xs → All P (keep p xs)
All-keep P p [] h = tt
All-keep P p (x ∷ xs) h =
    if_split (All P) (p x) (λ _. (h.0, All-keep P p xs h.1)) (λ _. All-keep P p xs h.1)
