-- ===== src/Newsmap/Descendants.antt =====
-- `_descendants` of app/v2/maps.py: rounds over the node list until one adds nothing.
pub mod Closure
use capstone_backend.Prelude.{
  ℕ, zero, suc, ◌+◌, ◌-◌, ◌≤◌, ◌<◌, ◌≡◌, ◌≢◌, refl, Bool, true, false, not, ◌&&◌, ◌||◌, Option,
  none, some, List, [], ◌∷◌, ◌++◌, ltb, ◌==◌, if◌then◌else◌, elem, length, keep, All, arith,
  Bool-cases, inl, inr, ◌⊎◌,
}
use capstone_backend.Newsmap.Data.{Node}

-- `node['parent_node_id'] in ({parent} | removed)`
abbrev pub has_parent_in : Option ℕ → ℕ → List ℕ → Bool
has_parent_in none parent removed = false
has_parent_in (some p) parent removed = p == parent || elem p removed

-- the body of the `for` loop
abbrev visit : ℕ → Node → List ℕ → List ℕ
visit parent n removed =
    if has_parent_in n.parent_node_id parent removed && not (elem n.node_id removed)
    then n.node_id ∷ removed
    else removed

-- one round over the nodes
unfoldable pub round : ℕ → List Node → List ℕ → List ℕ
round parent [] removed = removed
round parent (n ∷ ns) removed = round parent ns (visit parent n removed)

-- the `while` loop: `changed` is whether the round added a node
unfoldable pub rounds : ℕ → ℕ → List Node → List ℕ → List ℕ
unfolding round
rounds zero parent nodes removed = removed
rounds (suc fuel) parent nodes removed =
    let next = round parent nodes removed in
    let rest = rounds fuel parent nodes next in if length removed == length next then next else rest

-- every round but the last adds a node, so one more round than there are nodes is enough
unfoldable pub descendants : List Node → ℕ → List ℕ
unfolding rounds
descendants nodes parent = rounds (suc (length nodes)) parent nodes []

-- a node of the list
pub data Occurs (n : Node) : List Node → Type 0 where
  here : {ns : List Node} → Occurs n (n ∷ ns)
  there : {m : Node} {ns : List Node} → Occurs n ns → Occurs n (m ∷ ns)

-- A node hangs below `parent`: through a chain of parent links between nodes of the list.
pub data IsBelow (nodes : List Node) (parent : ℕ) : ℕ → Type 0 where
  child :
      (n : Node) → Occurs n nodes → n.parent_node_id ≡ some parent → IsBelow nodes parent n.node_id
  deeper :
      (n : Node) (p : ℕ)
      → Occurs n nodes
      → n.parent_node_id ≡ some p
      → IsBelow nodes parent p
      → IsBelow nodes parent n.node_id
