-- ===== src/Reports/Writing.antt =====
-- What app/v2/reports.py does with the answers of the language model: `analyze`, `verify` and
-- `generate_strategy`. An answer, parsed and of the declared types, is an argument; the bounds that
-- the output models declare on it are written out here.
pub mod Targets
use capstone_backend.Prelude.{
  ℕ, zero, suc, Bool, true, false, not, ◌&&◌, ◌||◌, Option, none, some, List, [], ◌∷◌, ◌++◌, map,
  ltb, leb, ◌==◌, if◌then◌else◌, length, all, any, elem, distinct,
}
use capstone_backend.Errors.{
  Result, ok, err, value_error, invalid_output, empty_response, invalid_json, invalid_schema,
  unknown_target, duplicate_target,
}
use capstone_backend.Reports.Data.{
  Evidence, StockImpact, ReportOutput, Verdict, unavailable, warning, passed, Verification,
  StrategyItem, StrategyOutput, StrategyDraftItem, StrategyDraftOutput,
}
use capstone_backend.Reports.Saved.{subset}

-- `min_length=1` of a text
abbrev pub nonempty : ℕ → Bool
nonempty text = not (text == 0)

-- `StockImpact` and `ReportOutput`
abbrev pub is_valid_impact : StockImpact → Bool
is_valid_impact i =
    nonempty i.name
    && nonempty i.impact
    && leb 1 (length i.evidence_news_ids)
    && leb (length i.evidence_news_ids) 10

abbrev pub is_valid_report : ReportOutput → Bool
is_valid_report o =
    nonempty o.title
    && nonempty o.event_summary
    && nonempty o.event_analysis
    && nonempty o.market_impact
    && leb (length o.stock_impacts) 20
    && all is_valid_impact o.stock_impacts
    && leb (length o.risk_factors) 30

-- `StrategyItem` and `StrategyOutput`
abbrev pub is_valid_item : StrategyItem → Bool
is_valid_item i = nonempty i.stock_name && nonempty i.reason

abbrev pub is_valid_strategy : StrategyOutput → Bool
is_valid_strategy o =
    nonempty o.strategy_summary
    && nonempty o.risk_warning
    && leb (length o.strategy_items) 20
    && all is_valid_item o.strategy_items

-- `StrategyDraftItem` and `StrategyDraftOutput`
abbrev pub is_valid_draft_item : StrategyDraftItem → Bool
is_valid_draft_item i = nonempty i.reason

abbrev pub is_valid_draft : StrategyDraftOutput → Bool
is_valid_draft o =
    nonempty o.strategy_summary
    && nonempty o.risk_warning
    && leb (length o.strategy_items) 20
    && all is_valid_draft_item o.strategy_items

-- an answer: what it parses to, `none` when it is no object of the declared types
abbrev pub evidence_ids : List Evidence → List ℕ
evidence_ids evidence = map (λ (e : Evidence). e.news_id) evidence

abbrev pub is_within : List ℕ → StockImpact → Bool
is_within allowed i = subset i.evidence_news_ids allowed

-- `analyze`, of an answer of the model; every exception of it is a `ValueError` here
unfoldable pub analyze : List Evidence → Option ReportOutput → Result ReportOutput
analyze evidence none = err value_error
analyze evidence (some output) =
    if not (is_valid_report output)
    then err value_error
    else if not (all (is_within (evidence_ids evidence)) output.stock_impacts)
    then err value_error
    else ok output

-- `CriticOutput`, without its confidence
pub record CriticOutput : Type 0 where
  pub grounded : Bool
  pub issues : List ℕ
  pub unsupported_claims : List ℕ
  pub invalid_tickers : List ℕ

-- the fixed notes of `verify`
pub record Notes : Type 0 where
  pub disabled : ℕ
  pub unreadable : ℕ
  pub ungrounded : ℕ

abbrev pub is_nil : List ℕ → Bool
is_nil [] = true
is_nil (n ∷ ns) = false

-- `verify`, of a checked answer; `none` stands for any exception
unfoldable pub verify : Notes → Bool → Option CriticOutput → Verification
verify fixed false answer = record { status = unavailable; notes = fixed.disabled ∷ [] }
verify fixed true none = record { status = unavailable; notes = fixed.unreadable ∷ [] }
verify fixed true (some checked) =
    let notes = checked.issues ++ checked.unsupported_claims ++ checked.invalid_tickers in
    let warns = not checked.grounded || not (is_nil notes) in
    record {
      status = if warns then warning else passed;
      notes = if warns && is_nil notes then fixed.ungrounded ∷ [] else notes;
    }

-- What the model answered: nothing, what is no JSON object, what is not of the declared types, or a
-- draft.
pub data Answer : Type 0 where
  empty unparsed mistyped : Answer
  draft : StrategyDraftOutput → Answer

-- `targets[index]`
abbrev pub nth {ℓ} : {A : Type ℓ} → ℕ → List A → Option A
nth n [] = none
nth zero (x ∷ xs) = some x
nth (suc n) (x ∷ xs) = nth n xs

abbrev pub named_item : StrategyDraftItem → StockImpact → StrategyItem
named_item item target = record {
  ticker = target.ticker;
  stock_name = target.name;
  action = item.action;
  reason = item.reason;
}

-- the items, named after their targets; `none` for an index that is out of range
abbrev pub join_item :
    StrategyDraftItem → Option StockImpact → Option (List StrategyItem) → Option (List StrategyItem)
join_item item none r = none
join_item item (some target) none = none
join_item item (some target) (some rest) = some (named_item item target ∷ rest)

abbrev pub resolve_items : List StockImpact → List StrategyDraftItem → Option (List StrategyItem)
resolve_items targets [] = some []
resolve_items targets (item ∷ items) =
    join_item item (nth item.target_index targets) (resolve_items targets items)

abbrev pub indexes_of : List StrategyDraftItem → List ℕ
indexes_of items = map (λ (i : StrategyDraftItem). i.target_index) items

-- the last validation, of what the draft resolves to
abbrev pub resolved : StrategyDraftOutput → Option (List StrategyItem) → Result StrategyOutput
resolved d none = err value_error
resolved d (some items) =
    let output : StrategyOutput = record {
      strategy_summary = d.strategy_summary;
      risk_warning = d.risk_warning;
      strategy_items = items;
    } in
    if is_valid_strategy output then ok output else err value_error

-- `generate_strategy`, of an answer of the model, for the `stock_impacts` of a report
unfoldable pub generate_strategy : List StockImpact → Answer → Result StrategyOutput
generate_strategy targets empty = err (invalid_output empty_response)
generate_strategy targets unparsed = err (invalid_output invalid_json)
generate_strategy targets mistyped = err (invalid_output invalid_schema)
generate_strategy targets (draft d) =
    if not (is_valid_draft d)
    then err (invalid_output invalid_schema)
    else if any (λ i. leb (length targets) i) (indexes_of d.strategy_items)
    then err (invalid_output unknown_target)
    else if not (distinct (indexes_of d.strategy_items))
    then err (invalid_output duplicate_target)
    else resolved d (resolve_items targets d.strategy_items)
