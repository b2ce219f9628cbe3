-- ===== src/Scoring/Basis/Flow.antt =====
-- src/screener/scoring/basis.py: `ttm_basis`, `annual_basis`, `flow_basis`.
pub mod Totals
pub mod Quarters
pub mod Annual
pub mod Total
use stock_aggregator.Prelude.{
  ℕ, ◌-◌, String, Bool, true, ◌&&◌, Option, none, some, List, [], ◌∷◌, map, ltb, leb, if◌then◌else◌,
  String_key, ℕ_key, Dict, lookup, insert, length, take, Outcome, ok, ◌>>=◌, or_raise, key_error,
}
use stock_aggregator.Prelude.Decimal.{Decimal, of_ℕ}
use stock_aggregator.Scoring.Basis.Facts.{Basis, Held, by_date, common_dates}

abbrev pub ttm_max_age_days : ℕ
ttm_max_age_days = 135

abbrev pub quarter_gap_min_days : ℕ
quarter_gap_min_days = 80

abbrev pub quarter_gap_max_days : ℕ
quarter_gap_max_days = 100

abbrev pub annual_max_age_days : ℕ
annual_max_age_days = 456

-- The gaps between neighbours; the dates descend, so no difference is cut off at 0.
unfoldable pub gaps_ok : List ℕ → Bool
gaps_ok [] = true
gaps_ok (later ∷ []) = true
gaps_ok (later ∷ earlier ∷ rest) =
    leb quarter_gap_min_days (later - earlier)
    && leb (later - earlier) quarter_gap_max_days
    && gaps_ok (earlier ∷ rest)

module _ (D : Decimal) where
  open D use {Num, add}

  -- `sum((dated[day] for day in days), total)`
  unfoldable pub sum_days : Dict ℕ Num → List ℕ → Num → Outcome Num
  unfolding lookup
  sum_days dated [] total = ok total
  sum_days dated (day ∷ days) total = do
    value ← or_raise key_error (lookup day dated)
    sum_days dated days (add total value)

  -- `{code: sum(...) for code, dated in zip(codes, series)}`
  unfoldable pub sums :
      List ℕ → List String → List (Dict ℕ Num) → Dict String Num → Outcome (Dict String Num)
  unfolding sum_days insert
  sums days [] series acc = ok acc
  sums days (code ∷ codes) [] acc = ok acc
  sums days (code ∷ codes) (dated ∷ series) acc = do
    total ← sum_days dated days (of_ℕ D 0)
    sums days codes series (insert code total acc)

  -- the loop over `common`, whose slice `common[i : i + 4]` is a prefix of what is left
  unfoldable pub ttm_search :
      List String → List (Dict ℕ Num) → ℕ → List ℕ → Outcome (Option (Basis Num))
  unfolding sums gaps_ok
  ttm_search codes series as_of [] = ok none
  ttm_search codes series as_of (end ∷ rest) =
      let next = ttm_search codes series as_of rest in
      let four = take 4 (end ∷ rest) in
      if ltb as_of end
      then next
      else if ltb ttm_max_age_days (as_of - end)
      then ok none
      else if ltb (length four) 4
      then ok none
      else if gaps_ok four
      then (do
        values ← sums four codes series []
        ok (some (record { kind = "TTM"; period_end = end; values = values })))
      else next

  abbrev pub series_of : Held Num → String → List String → List (Dict ℕ Num)
  series_of held pt codes = map (λ code. by_date held code pt) codes

  unfoldable pub ttm_basis : Held Num → List String → ℕ → Outcome (Option (Basis Num))
  unfolding ttm_search common_dates by_date
  ttm_basis held codes as_of =
      let series = series_of held "Q" codes in ttm_search codes series as_of (common_dates series)

  -- `{code: dated[end] for code, dated in zip(codes, series)}`
  unfoldable pub picks :
      ℕ → List String → List (Dict ℕ Num) → Dict String Num → Outcome (Dict String Num)
  unfolding lookup insert
  picks end [] series acc = ok acc
  picks end (code ∷ codes) [] acc = ok acc
  picks end (code ∷ codes) (dated ∷ series) acc = do
    value ← or_raise key_error (lookup end dated)
    picks end codes series (insert code value acc)

  unfoldable pub annual_search :
      List String → List (Dict ℕ Num) → ℕ → List ℕ → Outcome (Option (Basis Num))
  unfolding picks
  annual_search codes series as_of [] = ok none
  annual_search codes series as_of (end ∷ rest) =
      let next = annual_search codes series as_of rest in
      if ltb as_of end then next else if ltb annual_max_age_days (as_of - end) then ok none else do
        values ← picks end codes series []
        ok (some (record { kind = "A"; period_end = end; values = values }))

  unfoldable pub annual_basis : Held Num → List String → ℕ → Outcome (Option (Basis Num))
  unfolding annual_search common_dates by_date
  annual_basis held codes as_of =
      let series = series_of held "A" codes in
      annual_search codes series as_of (common_dates series)

  -- `ttm_basis(...) or annual_basis(...)`: a `Basis` is truthy
  unfoldable pub flow_basis : Held Num → List String → ℕ → Outcome (Option (Basis Num))
  unfolding ttm_basis annual_basis
  flow_basis held codes as_of = do
    quarters ← ttm_basis held codes as_of
    elim quarters [ some basis ↦ ok (some basis) | none ↦ annual_basis held codes as_of ]
