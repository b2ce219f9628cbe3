-- ===== src/Scoring/Momentum/Tests.antt =====
-- A run of src/screener/scoring/metrics.py, and its properties there.
use stock_aggregator.Prelude.{
  ℕ, ◌≡◌, refl, ◌⊎◌, List, [], ◌∷◌, ◌+◌, ◌<◌, arith, ok, raised, value_error, lookup, keep,
}
use stock_aggregator.Prelude.Calendar.{Date, IsDate, to_ordinal, days_before_month}
use stock_aggregator.Prelude.Int.{ℤ, pos}
use stock_aggregator.Prelude.Decimal.Whole.{whole, whole-DivLaws}
use stock_aggregator.Scoring.Momentum.{
  months_before, explain_momentum, sort_bars, place_bar, at_or_before, returns_over, return_over,
  return_since, off_52w_high, off_high, highest, in_order, measured, absent, short_of_52_weeks,
  short_of_months,
}
use stock_aggregator.Scoring.Momentum.Windows.{
  IsBefore, HasCodes, months_of, months_before-IsBefore, explain_momentum-HasCodes,
}

abbrev day : Date
day = record { year = 2024; month = 5; day = 31 }

day-IsDate : IsDate day
day-IsDate = record {
  year_from = omega arith;
  month_from = omega arith;
  month_to = omega arith;
  day_from = omega arith;
  day_to = omega arith;
}

months_before_run : months_before day 3 ≡ ok (record { year = 2024; month = 2; day = 29 })
unfolding months_before
months_before_run = refl

months_before-IsBefore_example :
    ((start : Date) × (months_before day 3 ≡ ok start) × IsBefore day 3 start)
    ⊎ ((months_before day 3 ≡ raised value_error) × (months_of day < 3 + 13))
months_before-IsBefore_example = months_before-IsBefore day 3 day-IsDate

ordinal_run : to_ordinal day ≡ 739037
unfolding days_before_month
ordinal_run = refl

abbrev series : List (ℕ × ℤ)
series = (739030, pos 30) ∷ (738900, pos 10) ∷ (739040, pos 99) ∷ []

momentum_run :
    explain_momentum whole series day
    ≡ ok (
        ("ret_3m", measured (pos 2))
        ∷ ("ret_6m", absent (short_of_months 6))
        ∷ ("ret_12m", absent (short_of_months 12))
        ∷ ("off_52w_high", absent short_of_52_weeks)
        ∷ [])
unfolding explain_momentum sort_bars place_bar at_or_before returns_over return_over return_since
    months_before off_52w_high off_high highest in_order lookup keep days_before_month
momentum_run = refl

explain_momentum-HasCodes_example : HasCodes whole whole-DivLaws (explain_momentum whole series day)
explain_momentum-HasCodes_example =
    explain_momentum-HasCodes whole whole-DivLaws series day day-IsDate (omega arith)
