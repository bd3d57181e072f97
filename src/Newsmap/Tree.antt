-- ===== src/Newsmap/Tree.antt =====
-- The shape of a map's node list (app/v2/maps.py): ids that grow along the list and stay below the
-- counter, and parents that are there, one level up and older than their children.
pub mod Growth
pub mod Steps
use capstone_backend.Prelude.{
  ℕ, zero, suc, ◌+◌, ◌≤◌, ◌<◌, ◌≡◌, refl, sym, ap, ◌∙◌, Bool, true, false, not, ◌&&◌, ◌||◌, Option,
  none, some, List, [], ◌∷◌, ◌++◌, map, ◌==◌, ==_iff, if◌then◌else◌, length, keep, find, elem,
  lookup, All, All-append, All_map, All_both, Bool-cases, Option-cases, inl, inr, arith, if_split,
}
use capstone_backend.Newsmap.Data.{Node, new_nodes, MapDoc, Article}
use capstone_backend.Newsmap.Edit.{set_expanded}
use capstone_backend.Newsmap.Descendants.{has_parent_in, descendants}
use capstone_backend.Newsmap.Descendants.Closure.{IsClosed}

-- ids from `lo` on, growing, below `hi`
abbrev pub Ordered : ℕ → List Node → ℕ → Type 0
Ordered lo [] hi = lo ≤ hi
Ordered lo (n ∷ ns) hi = (lo ≤ n.node_id) × Ordered (suc n.node_id) ns hi

-- the level of the node with an id
abbrev pub level_of : ℕ → List Node → Option ℕ
level_of p [] = none
level_of p (n ∷ ns) = if n.node_id == p then some n.level else level_of p ns

abbrev pub one_more : Option ℕ → Option ℕ
one_more none = none
one_more (some l) = some (suc l)

abbrev pub level_under : Option ℕ → List Node → Option ℕ
level_under none ns = some 0
level_under (some p) ns = one_more (level_of p ns)

abbrev pub IsOlder : Option ℕ → ℕ → Type 0
IsOlder none id = Unit
IsOlder (some p) id = p < id

-- what holds of one node in a list
abbrev pub IsPlaced : ℕ → List Node → Node → Type 0
IsPlaced depth whole n =
    (level_under n.parent_node_id whole ≡ some n.level)
    × IsOlder n.parent_node_id n.node_id
    × (n.level ≤ depth)

pub record IsTree (depth seq : ℕ) (ns : List Node) : Type 0 where
  pub ordered : Ordered 1 ns seq
  pub placed : All (IsPlaced depth ns) ns

pub Ordered-weaken :
    (lo lo' : ℕ) (ns : List Node) (hi : ℕ) → lo' ≤ lo → Ordered lo ns hi → Ordered lo' ns hi
Ordered-weaken lo lo' [] hi h o = omega arith
Ordered-weaken lo lo' (n ∷ ns) hi h o = (omega arith, o.1)

pub Ordered-le : (lo : ℕ) (ns : List Node) (hi : ℕ) → Ordered lo ns hi → lo ≤ hi
Ordered-le lo [] hi o = o
Ordered-le lo (n ∷ ns) hi o = omega (arith, Ordered-le (suc n.node_id) ns hi o.1)

pub Ordered-keep :
    (p : Node → Bool) (lo : ℕ) (ns : List Node) (hi : ℕ)
    → Ordered lo ns hi
    → Ordered lo (keep p ns) hi
Ordered-keep p lo [] hi o = o
Ordered-keep p lo (n ∷ ns) hi o =
    if_split (λ l. Ordered lo l hi) (p n) (λ _. (o.0, Ordered-keep p (suc n.node_id) ns hi o.1))
      (λ _.
        Ordered-weaken (suc n.node_id) lo (keep p ns) hi (omega arith)
          (Ordered-keep p (suc n.node_id) ns hi o.1))

pub Ordered-append :
    (lo : ℕ) (ns ms : List Node) (mid hi : ℕ)
    → Ordered lo ns mid
    → Ordered mid ms hi
    → Ordered lo (ns ++ ms) hi
Ordered-append lo [] ms mid hi o o' = Ordered-weaken mid lo ms hi o o'
Ordered-append lo (n ∷ ns) ms mid hi o o' =
    (o.0, Ordered-append (suc n.node_id) ns ms mid hi o.1 o')

pub level_of-append :
    (p : ℕ) (ns ms : List Node) (l : ℕ) → level_of p ns ≡ some l → level_of p (ns ++ ms) ≡ some l
level_of-append p [] ms l h = cc
level_of-append p (n ∷ ns) ms l h = ground (arith, level_of-append p ns ms l)

pub level_under-append :
    (o : Option ℕ) (ns ms : List Node) (l : ℕ)
    → level_under o ns ≡ some l
    → level_under o (ns ++ ms) ≡ some l
level_under-append none ns ms l h = h
level_under-append (some p) ns ms l h = elim (Option-cases (level_of p ns)) [
  | inl absent ↦ absurd (ground arith)
  | inr (k, at) ↦ rw (level_of-append p ns ms k at) (rw at at h)
]

-- a node that stays is found as before
pub level_of-keep :
    (p : ℕ) (removed : List ℕ) (ns : List Node)
    → elem p removed ≡ false
    → level_of p (keep (λ (n : Node). not (elem n.node_id removed)) ns) ≡ level_of p ns
level_of-keep p removed [] h = refl
level_of-keep p removed (n ∷ ns) h = elim (Bool-cases (n.node_id == p)) [
  | inl this ↦
      let e : elem n.node_id removed ≡ false =
        ap (λ x. elem x removed) ((==_iff n.node_id p).0 this) ∙ h in
      ground arith
  | inr other ↦ ground (arith, level_of-keep p removed ns)
]

-- a parent that is not removed
abbrev pub IsOut : Option ℕ → List ℕ → Type 0
IsOut none removed = Unit
IsOut (some p) removed = elem p removed ≡ false

pub level_under-keep :
    (o : Option ℕ) (removed : List ℕ) (ns : List Node)
    → IsOut o removed
    → level_under o (keep (λ (n : Node). not (elem n.node_id removed)) ns) ≡ level_under o ns
level_under-keep none removed ns h = refl
level_under-keep (some p) removed ns h = ap one_more (level_of-keep p removed ns h)
