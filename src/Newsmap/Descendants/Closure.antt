-- ===== src/Newsmap/Descendants/Closure.antt =====
-- `descendants` returns exactly the ids of the nodes below the parent.
use capstone_backend.Prelude.{
  ℕ, zero, suc, ◌+◌, ◌≤◌, ◌<◌, ◌≡◌, refl, sym, ap, ◌∙◌, true, false, not, ◌&&◌, Option, none, some,
  List, [], ◌∷◌, ◌==◌, ==_iff, if◌then◌else◌, elem, length, arith, Bool-cases, inl, inr, ◌↔◌,
  if_split,
}
use mathlib.Core.Path.{subst}
use capstone_backend.Newsmap.Data.{Node}
use capstone_backend.Newsmap.Descendants.{
  has_parent_in, visit, round, rounds, descendants, Occurs, here, there, IsBelow, child, deeper,
}

module _ (parent : ℕ) where
  -- no node of the list is left to add
  abbrev pub IsClosed : List ℕ → List Node → Type 0
  IsClosed removed [] = Unit
  IsClosed removed (n ∷ ns) =
      (has_parent_in n.parent_node_id parent removed ≡ true → elem n.node_id removed ≡ true)
      × IsClosed removed ns

  abbrev pub AreBelow : List Node → List ℕ → Type 0
  AreBelow nodes removed = (x : ℕ) → elem x removed ≡ true → IsBelow nodes parent x

  -- the nodes that are not removed
  abbrev pub outside : List Node → List ℕ → ℕ
  outside [] removed = 0
  outside (n ∷ ns) removed =
      let rest = outside ns removed in if elem n.node_id removed then rest else suc rest

  length-round :
      (ns : List Node) (removed : List ℕ) → length removed ≤ length (round parent ns removed)
  unfolding round
  length-round [] removed = omega arith
  length-round (n ∷ ns) removed = ground (arith, length-round ns (visit parent n removed))

  -- a round that adds nothing shows that the list is closed
  round_idle :
      (ns : List Node) (removed : List ℕ)
      → length (round parent ns removed) ≡ length removed
      → (round parent ns removed ≡ removed) × IsClosed removed ns
  unfolding round
  round_idle [] removed h = (refl, tt)
  round_idle (n ∷ ns) removed h =
      let added = has_parent_in n.parent_node_id parent removed && not (elem n.node_id removed) in
      elim (Bool-cases added) [
        | inl yes_added ↦ absurd (ground (arith, length-round ns (n.node_id ∷ removed)))
        | inr not_added ↦
            let rest = round_idle ns removed (rw not_added at h) in
            (rw not_added rest.0, (λ p. ground arith, rest.1))
      ]

  -- adding the id of a node that was outside leaves fewer outside
  outside_cons-le :
      (ms : List Node) (id : ℕ) (removed : List ℕ) → outside ms (id ∷ removed) ≤ outside ms removed
  outside_cons-le [] id removed = omega arith
  outside_cons-le (m ∷ ms) id removed = ground (arith, outside_cons-le ms id removed)

  outside_cons-lt :
      (n : Node) (ms : List Node) (removed : List ℕ)
      → Occurs n ms
      → elem n.node_id removed ≡ false
      → outside ms (n.node_id ∷ removed) < outside ms removed
  outside_cons-lt n [] removed o new = elim o [ ]
  outside_cons-lt n (m ∷ ms) removed here new = ground (arith, outside_cons-le ms n.node_id removed)
  outside_cons-lt n (m ∷ ms) removed (there o) new =
      ground (arith, outside_cons-lt n ms removed o new)

  outside-visit :
      (n : Node) (ms : List Node) (removed : List ℕ)
      → Occurs n ms
      → outside ms (visit parent n removed) + length (visit parent n removed)
        ≤ outside ms removed + length removed
  outside-visit n ms removed o = ground (arith, outside_cons-lt n ms removed o)

  -- the nodes of a suffix occur in the list
  abbrev AllOccur : List Node → List Node → Type 0
  AllOccur ms [] = Unit
  AllOccur ms (n ∷ ns) = Occurs n ms × AllOccur ms ns

  outside-round :
      (ms ns : List Node) (removed : List ℕ)
      → AllOccur ms ns
      → outside ms (round parent ns removed) + length (round parent ns removed)
        ≤ outside ms removed + length removed
  unfolding round
  outside-round ms [] removed o = omega arith
  outside-round ms (n ∷ ns) removed o =
      omega
        (arith, outside-round ms ns (visit parent n removed) o.1, outside-visit n ms removed o.0)

  AllOccur-there : (m : Node) (ms ns : List Node) → AllOccur ms ns → AllOccur (m ∷ ms) ns
  AllOccur-there m ms [] o = tt
  AllOccur-there m ms (n ∷ ns) o = (there o.0, AllOccur-there m ms ns o.1)

  AllOccur-self : (ms : List Node) → AllOccur ms ms
  AllOccur-self [] = tt
  AllOccur-self (m ∷ ms) = (here, AllOccur-there m ms ms (AllOccur-self ms))

  rounds-IsClosed :
      (fuel : ℕ) (ns : List Node) (removed : List ℕ)
      → outside ns removed < fuel
      → IsClosed (rounds fuel parent ns removed) ns
  unfolding rounds
  rounds-IsClosed zero ns removed h = elim h [ ]
  rounds-IsClosed (suc fuel) ns removed h =
      let next = round parent ns removed in
      elim (Bool-cases (length removed == length next)) [
        | inl idle ↦
            let (same, closed) = round_idle ns removed (sym ((==_iff _ _).0 idle)) in
            rw idle (rw same closed)
        | inr grown ↦ rw grown (
            rounds-IsClosed fuel ns next (
              ground (
                arith,
                outside-round ns ns removed (AllOccur-self ns),
                length-round ns removed,
                h,
              )))
      ]

  outside-rounds :
      (fuel : ℕ) (ns : List Node) (removed : List ℕ)
      → outside ns (rounds fuel parent ns removed) + length (rounds fuel parent ns removed)
        ≤ outside ns removed + length removed
  unfolding rounds
  outside-rounds zero ns removed = omega arith
  outside-rounds (suc fuel) ns removed = ground (
    arith,
    outside-round ns ns removed (AllOccur-self ns),
    outside-rounds fuel ns (round parent ns removed),
  )

  -- what is added hangs below the parent
  has_parent_in-IsBelow :
      (nodes : List Node) (n : Node) (o : Option ℕ) (removed : List ℕ)
      → n.parent_node_id ≡ o
      → Occurs n nodes
      → AreBelow nodes removed
      → has_parent_in o parent removed ≡ true
      → IsBelow nodes parent n.node_id
  has_parent_in-IsBelow nodes n none removed e o below h = cc
  has_parent_in-IsBelow nodes n (some p) removed e o below h = elim (Bool-cases (p == parent)) [
    | inl direct ↦ child n o (e ∙ ap some ((==_iff p parent).0 direct))
    | inr other ↦ deeper n p o e (below p (ground arith))
  ]

  visit-AreBelow :
      (nodes : List Node) (n : Node) (removed : List ℕ)
      → Occurs n nodes
      → AreBelow nodes removed
      → AreBelow nodes (visit parent n removed)
  visit-AreBelow nodes n removed o below =
      if_split (AreBelow nodes)
        (has_parent_in n.parent_node_id parent removed && not (elem n.node_id removed))
        (λ added x member. elim (Bool-cases (x == n.node_id)) [
          | inl this ↦
              subst (IsBelow nodes parent) (sym ((==_iff x n.node_id).0 this))
                (has_parent_in-IsBelow nodes n n.parent_node_id removed refl o below (ground arith))
          | inr other ↦ below x (ground arith)
        ])
        (λ _. below)

  round-AreBelow :
      (nodes ns : List Node) (removed : List ℕ)
      → AllOccur nodes ns
      → AreBelow nodes removed
      → AreBelow nodes (round parent ns removed)
  unfolding round
  round-AreBelow nodes [] removed o below = below
  round-AreBelow nodes (n ∷ ns) removed o below =
      round-AreBelow nodes ns (visit parent n removed) o.1
        (visit-AreBelow nodes n removed o.0 below)

  rounds-AreBelow :
      (fuel : ℕ) (nodes : List Node) (removed : List ℕ)
      → AreBelow nodes removed
      → AreBelow nodes (rounds fuel parent nodes removed)
  unfolding rounds
  rounds-AreBelow zero nodes removed below = below
  rounds-AreBelow (suc fuel) nodes removed below =
      let next = round-AreBelow nodes nodes removed (AllOccur-self nodes) below in
      if_split (AreBelow nodes) (length removed == length (round parent nodes removed)) (λ _. next)
        (λ _. rounds-AreBelow fuel nodes (round parent nodes removed) next)

  pub outside_nil : (ns : List Node) → outside ns [] ≡ length ns
  outside_nil [] = refl
  outside_nil (n ∷ ns) = ap suc (outside_nil ns)

  pub descendants-IsClosed : (ns : List Node) → IsClosed (descendants ns parent) ns
  unfolding descendants
  descendants-IsClosed ns = rounds-IsClosed (suc (length ns)) ns [] (omega (arith, outside_nil ns))

  pub descendants-AreBelow : (ns : List Node) → AreBelow ns (descendants ns parent)
  unfolding descendants
  descendants-AreBelow ns = rounds-AreBelow (suc (length ns)) ns [] (λ x h. cc)

  -- removing the descendants leaves at most the nodes that the code counts
  pub outside-descendants :
      (ns : List Node)
      → outside ns (descendants ns parent) + length (descendants ns parent) ≤ length ns
  unfolding descendants
  outside-descendants ns = omega (arith, outside-rounds (suc (length ns)) ns [], outside_nil ns)

  closed_at :
      (n : Node) (ns : List Node) (removed : List ℕ)
      → IsClosed removed ns
      → Occurs n ns
      → has_parent_in n.parent_node_id parent removed ≡ true
      → elem n.node_id removed ≡ true
  closed_at n [] removed c o h = elim o [ ]
  closed_at n (m ∷ ns) removed c here h = c.0 h
  closed_at n (m ∷ ns) removed c (there o) h = closed_at n ns removed c.1 o h

  elem_of_below :
      (ns : List Node) (removed : List ℕ) {x : ℕ}
      → IsClosed removed ns
      → IsBelow ns parent x
      → elem x removed ≡ true
  elem_of_below ns removed c (child n o e) = closed_at n ns removed c o (rw e (ground arith))
  elem_of_below ns removed c (deeper n p o e b) =
      let member = elem_of_below ns removed c b in closed_at n ns removed c o (rw e (ground arith))

  -- `_descendants` returns the id `x` exactly when a node `x` of the list hangs below the parent.
  pub descendants_iff :
      (ns : List Node) (x : ℕ) → (elem x (descendants ns parent) ≡ true) ↔ IsBelow ns parent x
  descendants_iff ns x = (
    descendants-AreBelow ns x,
    elem_of_below ns (descendants ns parent) (descendants-IsClosed ns),
  )
