-- ===== src/Scoring/Adjust/Tests.antt =====
-- A run of src/screener/scoring/adjust.py, and its properties there.
use stock_aggregator.Prelude.{Returns, ok, ◌*◌, ◌≡◌, refl, none, some, List, [], ◌∷◌}
use stock_aggregator.Prelude.Int.{ℤ, pos}
use stock_aggregator.Prelude.Decimal.Whole.{whole, whole-DivLaws, whole-OrderLaws}
use stock_aggregator.Scoring.Adjust.{
  Bar, Action, adjusted_closes, adjust_ordered, factors, factor_of, split_factor, dividend_factor,
  bar_before, sort_by, place_by, adjust_from, fold_in, fold_splits,
}
use stock_aggregator.Scoring.Adjust.Reference.{each_adjusted, adjusted_closes_per_bar}
use stock_aggregator.Scoring.Adjust.Returning.{adjusted_closes-Returns}

abbrev bars : List (Bar ℤ)
bars =
    record { day = 12; close = pos 60; observed_at = 12 * 86400000000 }
    ∷ record { day = 10; close = pos 100; observed_at = 10 * 86400000000 }
    ∷ record { day = 11; close = pos 110; observed_at = 11 * 86400000000 }
    ∷ []

abbrev actions : List (Action ℤ)
actions =
    record { effective_date = 12; action_type = "split"; ratio = some (pos 1); amount = none }
    ∷ record { effective_date = 11; action_type = "dividend"; ratio = none; amount = some (pos 5) }
    ∷ record { effective_date = 11; action_type = "spinoff"; ratio = none; amount = some (pos 7) }
    ∷ []

adjusted_run :
    adjusted_closes whole bars actions ≡ ok ((10, pos 0) ∷ (11, pos 110) ∷ (12, pos 60) ∷ [])
unfolding adjusted_closes adjust_ordered factors factor_of split_factor dividend_factor bar_before
    sort_by place_by adjust_from fold_in fold_splits
adjusted_run = refl

adjusted_closes_per_bar_example :
    adjusted_closes whole bars actions
    ≡ each_adjusted whole
        (sort_by (λ (b : Bar ℤ). b.day) bars)
        (sort_by (λ (a : Action ℤ). a.effective_date) actions)
adjusted_closes_per_bar_example = adjusted_closes_per_bar whole bars actions

adjusted_closes-Returns_example : Returns (adjusted_closes whole bars actions)
adjusted_closes-Returns_example =
    adjusted_closes-Returns whole whole-DivLaws whole-OrderLaws bars actions
