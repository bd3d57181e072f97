-- ===== src/Examples/Writing.antt =====
-- What jobs quote of an article, and a strategy for two assets (app/v2/reports.py).
use capstone_backend.Prelude.{◌≡◌, ◌≤◌, refl, List, [], ◌∷◌, All, length}
use capstone_backend.Errors.{Result, ok, err}
use capstone_backend.Newsmap.Data.{Article}
use capstone_backend.Reports.Data.{Body, StrategyOutput, StrategyDraftOutput, buy, watch}
use capstone_backend.Reports.Excerpt.{excerpt, prepare_evidence}
use capstone_backend.Reports.Excerpt.Bounds.{quoted, quoted-prepare_evidence}
use capstone_backend.Reports.Writing.{draft, generate_strategy}
use capstone_backend.Reports.Writing.Targets.{
  IsNamed, generate_strategy_named, generate_strategy_accepts,
}
use capstone_backend.Examples.{article}
use capstone_backend.Examples.Saving.{body_of, output}

-- the last sentence that ends in the second half of the budget is the cut
cut_at_sentence : excerpt (65 ∷ 66 ∷ 46 ∷ 32 ∷ 67 ∷ 68 ∷ []) 5 ≡ (65 ∷ 66 ∷ 46 ∷ [])
unfolding excerpt
cut_at_sentence = refl

abbrev two_successes : List (Article × Body)
two_successes = (article 12, body_of 12) ∷ (article 11, body_of 11) ∷ []

quoted-prepare_evidence_example : quoted (prepare_evidence two_successes) ≤ 60000
quoted-prepare_evidence_example = quoted-prepare_evidence two_successes

-- a draft about both assets of the report
abbrev both : StrategyDraftOutput
both = record {
  strategy_summary = 1;
  risk_warning = 2;
  strategy_items =
      record { target_index = 1; action = buy; reason = 3 }
      ∷ record { target_index = 0; action = watch; reason = 4 }
      ∷ [];
}

abbrev output_of : Result StrategyOutput → StrategyOutput
output_of (ok o) = o
output_of (err e) = record { strategy_summary = 0; risk_warning = 0; strategy_items = [] }

abbrev made : StrategyOutput
made = output_of (generate_strategy output.stock_impacts (draft both))

makes : generate_strategy output.stock_impacts (draft both) ≡ ok made
unfolding generate_strategy
makes = refl

generate_strategy_named_example : All (IsNamed output.stock_impacts) made.strategy_items
generate_strategy_named_example =
    generate_strategy_named output.stock_impacts (draft both) made makes

generate_strategy_accepts_example :
    (o : StrategyOutput) × (generate_strategy output.stock_impacts (draft both) ≡ ok o)
    × (length o.strategy_items ≡ 2)
generate_strategy_accepts_example =
    generate_strategy_accepts output.stock_impacts both refl refl refl refl
