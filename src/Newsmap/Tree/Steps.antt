-- ===== src/Newsmap/Tree/Steps.antt =====
-- The tree survives what `branch_map` of app/v2/maps.py does to it: the removal of what hangs
-- below a node, new children under it, and the `expanded` flag.
use capstone_backend.Prelude.{
  ℕ, suc, ◌≤◌, ◌<◌, ◌≡◌, refl, ◌∙◌, Bool, true, false, not, Option, none, some, List, [], ◌∷◌, ◌++◌,
  ◌==◌, ==_iff, length, keep, elem, All, All-append, All_map, Bool-cases, inl, inr, arith, if_split,
}
use capstone_backend.Newsmap.Data.{Node}
use capstone_backend.Newsmap.Edit.{set_expanded}
use capstone_backend.Newsmap.Descendants.{
  has_parent_in, descendants, Occurs, here, there, IsBelow, child, deeper,
}
use capstone_backend.Newsmap.Descendants.Closure.{
  IsClosed, descendants-IsClosed, descendants-AreBelow, outside,
}
use capstone_backend.Newsmap.Tree.{
  Ordered, level_of, IsOlder, IsPlaced, IsTree, IsOut, Ordered-keep, Ordered-append, Ordered-le,
  level_of-append, level_under-append, level_under-keep,
}
use capstone_backend.Newsmap.Tree.Growth.{
  set_expanded-Ordered, set_expanded-All, level_under-set_expanded,
}

abbrev pub stays : List ℕ → Node → Bool
stays removed n = not (elem n.node_id removed)

-- the nodes that stay have parents that stay
abbrev pub ParentsStay : List ℕ → List Node → Type 0
ParentsStay removed ns = All (λ n. stays removed n ≡ true → IsOut n.parent_node_id removed) ns

IsOut-of_closed :
    (o : Option ℕ) (parent : ℕ) (removed : List ℕ)
    → has_parent_in o parent removed ≡ false
    → IsOut o removed
IsOut-of_closed none parent removed h = tt
IsOut-of_closed (some p) parent removed h = ground arith

ParentsStay-of_closed :
    (parent : ℕ) (removed : List ℕ) (ns : List Node)
    → IsClosed parent removed ns
    → ParentsStay removed ns
ParentsStay-of_closed parent removed [] c = tt
ParentsStay-of_closed parent removed (n ∷ ns) c = (
  λ kept.
      IsOut-of_closed n.parent_node_id parent removed
        (elim (Bool-cases (has_parent_in n.parent_node_id parent removed)) [
          | inl hangs ↦ absurd (let gone = c.0 hangs in ground arith)
          | inr free ↦ free
        ]),
  ParentsStay-of_closed parent removed ns c.1,
)

pub ParentsStay-descendants : (parent : ℕ) (ns : List Node) → ParentsStay (descendants ns parent) ns
ParentsStay-descendants parent ns =
    ParentsStay-of_closed parent (descendants ns parent) ns (descendants-IsClosed parent ns)

IsOut-nil : (o : Option ℕ) → IsOut o []
IsOut-nil none = tt
IsOut-nil (some p) = refl

pub ParentsStay-nil : (ns : List Node) → ParentsStay [] ns
ParentsStay-nil [] = tt
ParentsStay-nil (n ∷ ns) = (λ _. IsOut-nil n.parent_node_id, ParentsStay-nil ns)

-- what hangs below a node is newer than it
module _ (depth : ℕ) (whole : List Node) where
  IsOlder-at :
      (n : Node) (ns : List Node)
      → Occurs n ns
      → All (IsPlaced depth whole) ns
      → IsOlder n.parent_node_id n.node_id
  IsOlder-at n [] o h = elim o [ ]
  IsOlder-at n (m ∷ ns) here h = h.0.1
  IsOlder-at n (m ∷ ns) (there o) h = IsOlder-at n ns o h.1

  IsOlder-lt : (o : Option ℕ) (p id : ℕ) → o ≡ some p → IsOlder o id → p < id
  IsOlder-lt none p id e h = cc
  IsOlder-lt (some q) p id e h = ground arith

  below-lt :
      (parent : ℕ) (ns : List Node) {x : ℕ}
      → All (IsPlaced depth whole) ns
      → IsBelow ns parent x
      → parent < x
  below-lt parent ns h (child n o e) =
      IsOlder-lt n.parent_node_id parent n.node_id e (IsOlder-at n ns o h)
  below-lt parent ns h (deeper n p o e b) = omega (
    arith,
    below-lt parent ns h b,
    IsOlder-lt n.parent_node_id p n.node_id e (IsOlder-at n ns o h),
  )

-- a node is not among what hangs below it
pub parent_stays :
    (depth seq parent : ℕ) (ns : List Node)
    → IsTree depth seq ns
    → elem parent (descendants ns parent) ≡ false
parent_stays depth seq parent ns t = elim (Bool-cases (elem parent (descendants ns parent))) [
  | inl gone ↦ absurd (
      omega
        (arith, below-lt depth ns parent ns t.placed (descendants-AreBelow parent ns parent gone)))
  | inr out ↦ out
]

module _ (depth : ℕ) (removed : List ℕ) (whole : List Node) where
  IsPlaced-keep :
      (ns : List Node)
      → ParentsStay removed ns
      → All (IsPlaced depth whole) ns
      → All (IsPlaced depth (keep (stays removed) whole)) (keep (stays removed) ns)
  IsPlaced-keep [] c h = tt
  IsPlaced-keep (n ∷ ns) c h =
      if_split (All (IsPlaced depth (keep (stays removed) whole))) (stays removed n)
        (λ kept. (
          (level_under-keep n.parent_node_id removed whole (c.0 kept) ∙ h.0.0, h.0.1, h.0.2),
          IsPlaced-keep ns c.1 h.1,
        ))
        (λ _. IsPlaced-keep ns c.1 h.1)

pub IsTree-keep :
    (depth seq : ℕ) (removed : List ℕ) (ns : List Node)
    → ParentsStay removed ns
    → IsTree depth seq ns
    → IsTree depth seq (keep (stays removed) ns)
IsTree-keep depth seq removed ns c t = record {
  ordered = Ordered-keep (stays removed) 1 ns seq t.ordered;
  placed = IsPlaced-keep depth removed ns ns c t.placed;
}

-- what `new_nodes` says of the children that it makes
abbrev pub AreChildren : ℕ → ℕ → ℕ → List Node → Type 0
AreChildren parent level seq ns =
    All (λ n. (n.parent_node_id ≡ some parent) × (n.level ≡ suc level) × (seq ≤ n.node_id)) ns

IsOlder-child : (o : Option ℕ) (p id : ℕ) → o ≡ some p → p < id → IsOlder o id
IsOlder-child o p id e h = rw e h

pub IsTree-append :
    (depth seq hi parent level : ℕ) (ns children : List Node)
    → IsTree depth seq ns
    → level_of parent ns ≡ some level
    → parent < seq
    → suc level ≤ depth
    → Ordered seq children hi
    → AreChildren parent level seq children
    → IsTree depth hi (ns ++ children)
IsTree-append depth seq hi parent level ns children t at old deep o c = record {
  ordered = Ordered-append 1 ns children seq hi t.ordered o;
  placed =
      All-append (IsPlaced depth (ns ++ children)) ns children
        (All_map (IsPlaced depth ns) (IsPlaced depth (ns ++ children)) ns
          (λ n p. (level_under-append n.parent_node_id ns children n.level p.0, p.1, p.2)) t.placed)
        (All_map _ (IsPlaced depth (ns ++ children)) children
          (λ n p. (
            rw (p.0, p.1, level_of-append parent ns children level at) refl,
            IsOlder-child n.parent_node_id parent n.node_id p.0 (omega (arith, p.2)),
            omega (arith, p.1),
          ))
          c);
}

pub IsTree-set_expanded :
    (depth seq parent : ℕ) (ns : List Node)
    → IsTree depth seq ns
    → IsTree depth seq (set_expanded parent ns)
IsTree-set_expanded depth seq parent ns t = record {
  ordered = set_expanded-Ordered parent 1 ns seq t.ordered;
  placed =
      All_map (IsPlaced depth ns) (IsPlaced depth (set_expanded parent ns)) (set_expanded parent ns)
        (λ n p. (level_under-set_expanded parent n.parent_node_id ns ∙ p.0, p.1, p.2))
        (set_expanded-All parent (IsPlaced depth ns) ns (λ n p. p) t.placed);
}

-- an id that stands in a tree is below its counter
pub level_of-lt :
    (p lo hi : ℕ) (ns : List Node) (l : ℕ) → Ordered lo ns hi → level_of p ns ≡ some l → p < hi
level_of-lt p lo hi [] l o h = cc
level_of-lt p lo hi (n ∷ ns) l o h = elim (Bool-cases (n.node_id == p)) [
  | inl this ↦ omega (arith, Ordered-le (suc n.node_id) ns hi o.1, (==_iff n.node_id p).0 this)
  | inr other ↦ level_of-lt p (suc n.node_id) hi ns l o.1 (rw other at h)
]

-- the nodes that stay, counted
pub length-keep-stays :
    (parent : ℕ) (removed : List ℕ) (ns : List Node)
    → length (keep (stays removed) ns) ≡ outside parent ns removed
length-keep-stays parent removed [] = refl
length-keep-stays parent removed (n ∷ ns) = ground (arith, length-keep-stays parent removed ns)
