-- ===== src/Scoring/Ratios/Formulas.antt =====
-- src/screener/scoring/ratios.py: the ten formulas and `_tax_rate`.
use stock_aggregator.Prelude.{ℕ, String, none, some, [], ◌∷◌, if◌then◌else◌, String_key, Dict, ok}
use stock_aggregator.Prelude.Decimal.{Decimal, of_ℕ, le, min_num, max_num}
use stock_aggregator.Scoring.Basis.Facts.{Basis}
use stock_aggregator.Scoring.Basis.Cap.{
  Explained, da_negative, ev_not_positive, capex_positive, equity_not_positive,
  invested_not_positive, revenue_not_positive, interest_not_positive,
}
use stock_aggregator.Scoring.Ratios.Inputs.{
  Step, ◌>>=◌, ◌>>◌, pure, absent_if, read, divided, Ratio, Inputs, basis_for, newest, at_day,
}

module _ (D : Decimal) where
  open D use {Num, literal, add, sub, mul, div, lt}

  -- `Ratio(value, basis.kind, basis.period_end)`
  abbrev pub on_basis : Basis Num → Num → Ratio Num
  on_basis basis q = record { value = q; basis = some basis.kind; period_end = basis.period_end }

  abbrev pub on_day : ℕ → Num → Ratio Num
  on_day day q = record { value = q; basis = none; period_end = day }

  unfoldable pub earnings_yield : Inputs Num → Explained Num → Step (Ratio Num)
  earnings_yield inputs known = do
    cap ← ok known
    basis ← basis_for D inputs ("net_income" ∷ [])
    income ← read basis.values "net_income"
    q ← divided (div income cap)
    pure (on_basis basis q)

  unfoldable pub ffo_yield : Inputs Num → Explained Num → Step (Ratio Num)
  ffo_yield inputs known = do
    cap ← ok known
    basis ← basis_for D inputs ("net_income" ∷ "depreciation_amortisation" ∷ [])
    da ← read basis.values "depreciation_amortisation"
    absent_if (lt da (of_ℕ D 0)) da_negative
    income ← read basis.values "net_income"
    q ← divided (div (add income da) cap)
    pure (on_basis basis q)

  unfoldable pub ebitda_ev : Inputs Num → Explained Num → Step (Ratio Num)
  ebitda_ev inputs known = do
    cap ← ok known
    basis ← basis_for D inputs ("ebit" ∷ "depreciation_amortisation" ∷ [])
    da ← read basis.values "depreciation_amortisation"
    absent_if (lt da (of_ℕ D 0)) da_negative
    found ← newest inputs ("total_debt" ∷ "cash_and_equivalents" ∷ [])
    debt ← read found.1 "total_debt"
    cash ← read found.1 "cash_and_equivalents"
    absent_if (le D (sub (add cap debt) cash) (of_ℕ D 0)) ev_not_positive
    ebit ← read basis.values "ebit"
    q ← divided (div (add ebit da) (sub (add cap debt) cash))
    pure (on_basis basis q)

  unfoldable pub fcf_yield : Inputs Num → Explained Num → Step (Ratio Num)
  fcf_yield inputs known = do
    cap ← ok known
    basis ← basis_for D inputs ("operating_cash_flow" ∷ "capital_expenditure" ∷ [])
    capex ← read basis.values "capital_expenditure"
    absent_if (lt (of_ℕ D 0) capex) capex_positive
    flow ← read basis.values "operating_cash_flow"
    q ← divided (div (add flow capex) cap)
    pure (on_basis basis q)

  unfoldable pub book_yield : Inputs Num → Explained Num → Step (Ratio Num)
  book_yield inputs known = do
    cap ← ok known
    found ← newest inputs ("stockholders_equity" ∷ [])
    equity ← read found.1 "stockholders_equity"
    absent_if (le D equity (of_ℕ D 0)) equity_not_positive
    q ← divided (div equity cap)
    pure (on_day found.0 q)

  -- `TAX_RATE_CEILING`
  abbrev pub tax_rate_ceiling : Num
  tax_rate_ceiling = literal 5 1

  unfoldable pub tax_rate : Num → Num → Step Num
  tax_rate tax pretax = if le D pretax (of_ℕ D 0) then pure (of_ℕ D 0) else (do
    q ← divided (div tax pretax)
    pure (min_num D (max_num D q (of_ℕ D 0)) tax_rate_ceiling))

  unfoldable pub roic : Inputs Num → Explained Num → Step (Ratio Num)
  unfolding tax_rate
  roic inputs known = do
    basis ← basis_for D inputs ("ebit" ∷ "tax_provision" ∷ "pretax_income" ∷ [])
    balances ←
        at_day inputs ("stockholders_equity" ∷ "total_debt" ∷ "cash_and_equivalents" ∷ [])
          basis.period_end
    equity ← read balances "stockholders_equity"
    debt ← read balances "total_debt"
    cash ← read balances "cash_and_equivalents"
    absent_if (le D (sub (add equity debt) cash) (of_ℕ D 0)) invested_not_positive
    tax ← read basis.values "tax_provision"
    pretax ← read basis.values "pretax_income"
    rate ← tax_rate tax pretax
    ebit ← read basis.values "ebit"
    q ← divided (div (mul ebit (sub (of_ℕ D 1) rate)) (sub (add equity debt) cash))
    pure (on_basis basis q)

  unfoldable pub roe : Inputs Num → Explained Num → Step (Ratio Num)
  roe inputs known = do
    basis ← basis_for D inputs ("net_income" ∷ [])
    balances ← at_day inputs ("stockholders_equity" ∷ []) basis.period_end
    equity ← read balances "stockholders_equity"
    absent_if (le D equity (of_ℕ D 0)) equity_not_positive
    income ← read basis.values "net_income"
    q ← divided (div income equity)
    pure (on_basis basis q)

  unfoldable pub gross_margin : Inputs Num → Explained Num → Step (Ratio Num)
  gross_margin inputs known = do
    basis ← basis_for D inputs ("gross_profit" ∷ "revenue" ∷ [])
    revenue ← read basis.values "revenue"
    absent_if (le D revenue (of_ℕ D 0)) revenue_not_positive
    profit ← read basis.values "gross_profit"
    q ← divided (div profit revenue)
    pure (on_basis basis q)

  unfoldable pub debt_to_equity : Inputs Num → Explained Num → Step (Ratio Num)
  debt_to_equity inputs known = do
    found ← newest inputs ("total_debt" ∷ "stockholders_equity" ∷ [])
    equity ← read found.1 "stockholders_equity"
    absent_if (le D equity (of_ℕ D 0)) equity_not_positive
    debt ← read found.1 "total_debt"
    q ← divided (div debt equity)
    pure (on_day found.0 q)

  unfoldable pub interest_cover : Inputs Num → Explained Num → Step (Ratio Num)
  interest_cover inputs known = do
    basis ← basis_for D inputs ("ebit" ∷ "interest_expense" ∷ [])
    interest ← read basis.values "interest_expense"
    absent_if (le D interest (of_ℕ D 0)) interest_not_positive
    ebit ← read basis.values "ebit"
    q ← divided (div ebit interest)
    pure (on_basis basis q)

  abbrev pub Formula : Type 0
  Formula = Inputs Num → Explained Num → Step (Ratio Num)

  -- `_FORMULAS`
  abbrev pub formulas : Dict String Formula
  formulas =
      ("earnings_yield", earnings_yield)
      ∷ ("ebitda_ev", ebitda_ev)
      ∷ ("fcf_yield", fcf_yield)
      ∷ ("book_yield", book_yield)
      ∷ ("ffo_yield", ffo_yield)
      ∷ ("roic", roic)
      ∷ ("roe", roe)
      ∷ ("gross_margin", gross_margin)
      ∷ ("debt_to_equity", debt_to_equity)
      ∷ ("interest_cover", interest_cover)
      ∷ []
