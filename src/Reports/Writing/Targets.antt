-- ===== src/Reports/Writing/Targets.antt =====
-- The strategies of `generate_strategy` (app/v2/reports.py) are about the assets of their report.
use mathlib.Core.Path.{subst}
use capstone_backend.Prelude.{
  ℕ, zero, suc, ◌<◌, ◌≡◌, refl, ap, Bool, true, false, not, Option, none, some, List, [], ◌∷◌,
  length, all, any, All, leb, if_intro, and_both, distinct, arith,
}
use capstone_backend.Errors.{ok, err, value_error, OnOk, OnOk_at}
use capstone_backend.Reports.Data.{
  StockImpact, StrategyItem, StrategyOutput, StrategyDraftItem, StrategyDraftOutput,
}
use capstone_backend.Reports.Writing.{
  is_valid_item, is_valid_impact, is_valid_draft, is_valid_draft_item, is_valid_strategy, nth,
  named_item, join_item, resolve_items, indexes_of, resolved, Answer, draft, empty, unparsed,
  mistyped, generate_strategy,
}

nth-lt {ℓ} : {A : Type ℓ} (n : ℕ) (xs : List A) → n < length xs → (x : A) × (nth n xs ≡ some x)
nth-lt n [] h = absurd (omega arith)
nth-lt zero (x ∷ xs) h = (x, refl)
nth-lt (suc n) (x ∷ xs) h = nth-lt n xs (omega arith)

abbrev OnSome {ℓ κ} : {A : Type ℓ} → (A → Type κ) → Option A → Type κ
OnSome P none = Unit
OnSome P (some a) = P a

nth-all {ℓ} :
    {A : Type ℓ} (p : A → Bool) (n : ℕ) (xs : List A) (x : A)
    → all p xs ≡ true
    → nth n xs ≡ some x
    → p x ≡ true
nth-all p n [] x h e = absurd (cc)
nth-all p zero (y ∷ xs) x h e = subst (λ o. OnSome (λ z. p z ≡ true) o) e (and_both (p y) _ h).0
nth-all p (suc n) (y ∷ xs) x h e = nth-all p n xs x (and_both _ _ h).1 e

-- an item of a strategy that carries the name and the ticker of one of the targets
pub record IsNamed (targets : List StockImpact) (item : StrategyItem) : Type 0 where
  pub index : ℕ
  pub target : StockImpact
  pub found : nth index targets ≡ some target
  pub ticker : item.ticker ≡ target.ticker
  pub name : item.stock_name ≡ target.name

module _ (targets : List StockImpact) where
  named_cons :
      (item : StrategyDraftItem) (o : Option StockImpact) (r : Option (List StrategyItem))
      → nth item.target_index targets ≡ o
      → OnSome (All (IsNamed targets)) r
      → OnSome (All (IsNamed targets)) (join_item item o r)
  named_cons item none r e h = tt
  named_cons item (some t) none e h = tt
  named_cons item (some t) (some rest) e h =
      (record { index = item.target_index; target = t; found = e; ticker = refl; name = refl }, h)

  resolve_items_named :
      (items : List StrategyDraftItem)
      → OnSome (All (IsNamed targets)) (resolve_items targets items)
  resolve_items_named [] = tt
  resolve_items_named (item ∷ items) =
      named_cons item (nth item.target_index targets) (resolve_items targets items) refl
        (resolve_items_named items)

  abbrev AllNamed : StrategyOutput → Type 0
  AllNamed o = All (IsNamed targets) o.strategy_items

  resolved_named :
      (d : StrategyDraftOutput) (o : Option (List StrategyItem))
      → OnSome (All (IsNamed targets)) o
      → OnOk AllNamed (resolved d o)
  resolved_named d none h = tt
  resolved_named d (some items) h =
      let output : StrategyOutput = record {
        strategy_summary = d.strategy_summary;
        risk_warning = d.risk_warning;
        strategy_items = items;
      } in
      if_intro (OnOk AllNamed) (is_valid_strategy output) {x = ok output} {y = err value_error} h tt

  generate_strategy_OnOk : (answer : Answer) → OnOk AllNamed (generate_strategy targets answer)
  unfolding generate_strategy
  generate_strategy_OnOk empty = tt
  generate_strategy_OnOk unparsed = tt
  generate_strategy_OnOk mistyped = tt
  generate_strategy_OnOk (draft d) = if_intro (OnOk AllNamed) (not (is_valid_draft d)) tt (
      if_intro (OnOk AllNamed) (any (λ i. leb (length targets) i) (indexes_of d.strategy_items)) tt
        (if_intro (OnOk AllNamed) (not (distinct (indexes_of d.strategy_items))) tt (
          resolved_named d (resolve_items targets d.strategy_items)
            (resolve_items_named d.strategy_items))))

  -- Whatever the model answers, each item of a strategy has the name and the ticker of an asset
  -- that the report lists.
  pub generate_strategy_named :
      (answer : Answer) (output : StrategyOutput)
      → generate_strategy targets answer ≡ ok output
      → All (IsNamed targets) output.strategy_items
  generate_strategy_named answer output h =
      OnOk_at AllNamed (generate_strategy targets answer) output (generate_strategy_OnOk answer) h

  -- what a draft resolves to, when its indexes are in range
  resolve_valid :
      all is_valid_impact targets ≡ true
      → (items : List StrategyDraftItem) → all is_valid_draft_item items ≡ true
      → any (λ i. leb (length targets) i) (indexes_of items) ≡ false
      → (out : List StrategyItem) × (resolve_items targets items ≡ some out)
        × (all is_valid_item out ≡ true)
        × (length out ≡ length items)
  resolve_valid good [] v h = ([], refl, refl, refl)
  resolve_valid good (item ∷ items) v h =
      let (target, found) = nth-lt item.target_index targets (ground arith) in
      let (out, e, valid, same) = resolve_valid good items (ground arith) (ground arith) in
      (
        named_item item target ∷ out,
        cc (found, e),
        ground (arith, nth-all is_valid_impact item.target_index targets target good found),
        ap suc same,
      )

  -- A valid draft whose indexes are distinct and point at assets of the report becomes a strategy
  -- with one item for each of its items, when the assets are as the report's own validation leaves
  -- them.
  pub generate_strategy_accepts :
      (d : StrategyDraftOutput)
      → all is_valid_impact targets ≡ true
      → is_valid_draft d ≡ true
      → any (λ i. leb (length targets) i) (indexes_of d.strategy_items) ≡ false
      → distinct (indexes_of d.strategy_items) ≡ true
      → (output : StrategyOutput) × (generate_strategy targets (draft d) ≡ ok output)
        × (length output.strategy_items ≡ length d.strategy_items)
  unfolding generate_strategy
  generate_strategy_accepts d good valid in_range apart =
      let (out, e, items_valid, same) =
        resolve_valid good d.strategy_items
          (and_both _ (all is_valid_draft_item d.strategy_items) valid).1 in_range in
      let output : StrategyOutput = record {
        strategy_summary = d.strategy_summary;
        risk_warning = d.risk_warning;
        strategy_items = out;
      } in
      let whole : is_valid_strategy output ≡ true = ground arith in
      let last : resolved d (some out) ≡ ok output = rw whole in
      (output, rw (valid, in_range, apart, e) last, same)
