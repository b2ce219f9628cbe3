-- ===== src/Scoring/Ratios/Returning.antt =====
-- The lookups and divisions of the formulas of src/screener/scoring/ratios.py.
use stock_aggregator.Prelude.{
  ℕ, String, ◌≡◌, refl, inl, inr, true, Option, some, List, [], ◌∷◌, Dict, lookup, keys, keep, All,
  ap, ◌∙◌, ok, Returns, Bool-cases, String_key,
}
use stock_aggregator.Prelude.Decimal.{Decimal, DivLaws, of_ℕ}
use stock_aggregator.Scoring.Basis.Facts.{Held}
use stock_aggregator.Scoring.Basis.Cap.{Explained, value}
use stock_aggregator.Scoring.Basis.Cap.Laws.{
  explain_market_cap-Returns, explain_market_cap-IsMarketCap,
}
use stock_aggregator.Scoring.Ratios.Classes.{ratio_codes, applicable, contains}
use stock_aggregator.Scoring.Ratios.Inputs.{Ratio, Inputs, Step}
use stock_aggregator.Scoring.Ratios.Formulas.{
  earnings_yield, ffo_yield, ebitda_ev, fcf_yield, book_yield, tax_rate, roic, roe, gross_margin,
  debt_to_equity, interest_cover, formulas,
}
use stock_aggregator.Scoring.Ratios.Explain.{explain_codes, explain_ratios}
use stock_aggregator.Scoring.Ratios.Steps.{
  Returns-known, Returns-step, Returns-absent_if, Returns-looked, Returns-read, Returns-div,
  positive, basis_for-Complete, newest-Complete, at_day-Complete,
}

module _ (D : Decimal) (L : DivLaws D) where
  open D use {Num, lt}

  -- a market cap, if there is one, is positive
  abbrev IsPositiveCap : Explained Num → Type 0
  IsPositiveCap cap = (c : Num) → cap ≡ value c → lt (of_ℕ D 0) c ≡ true

  module _ (inputs : Inputs Num) where
    earnings_yield-Returns :
        (cap : Explained Num) → IsPositiveCap cap → Returns (earnings_yield D inputs cap)
    unfolding earnings_yield
    earnings_yield-Returns cap h =
        Returns-known (λ c. lt (of_ℕ D 0) c ≡ true) cap _ h
          λ c h. Returns-looked _ _ _ (basis_for-Complete D inputs "net_income" []) λ b all.
            Returns-read _ _ _ (all "net_income" (inl refl))
              λ income. Returns-div D L income c _ h λ q. (_, refl)

    ffo_yield-Returns : (cap : Explained Num) → IsPositiveCap cap → Returns (ffo_yield D inputs cap)
    unfolding ffo_yield
    ffo_yield-Returns cap h =
        Returns-known (λ c. lt (of_ℕ D 0) c ≡ true) cap _ h
          λ c h.
            Returns-looked _ _ _
              (basis_for-Complete D inputs "net_income" ("depreciation_amortisation" ∷ []))
              λ b all. Returns-read _ _ _ (all "depreciation_amortisation" (inr (inl refl))) λ da.
                Returns-absent_if _ _ _ λ ok_da.
                  Returns-read _ _ _ (all "net_income" (inl refl))
                    λ income. Returns-div D L _ c _ h λ q. (_, refl)

    ebitda_ev-Returns : (cap : Explained Num) → IsPositiveCap cap → Returns (ebitda_ev D inputs cap)
    unfolding ebitda_ev
    ebitda_ev-Returns cap h =
        Returns-known (λ c. lt (of_ℕ D 0) c ≡ true) cap _ h
          λ c h.
            Returns-looked _ _ _
              (basis_for-Complete D inputs "ebit" ("depreciation_amortisation" ∷ []))
              λ b all. Returns-read _ _ _ (all "depreciation_amortisation" (inr (inl refl))) λ da.
                Returns-absent_if _ _ _ λ ok_da.
                  Returns-looked _ _ _
                    (newest-Complete inputs ("total_debt" ∷ "cash_and_equivalents" ∷ []))
                    λ found each. Returns-read _ _ _ (each "total_debt" (inl refl)) λ debt.
                      Returns-read _ _ _ (each "cash_and_equivalents" (inr (inl refl))) λ cash.
                        Returns-absent_if _ _ _ λ ev.
                          Returns-read _ _ _ (all "ebit" (inl refl))
                            λ ebit. Returns-div D L _ _ _ (positive D L _ ev) λ q. (_, refl)

    fcf_yield-Returns : (cap : Explained Num) → IsPositiveCap cap → Returns (fcf_yield D inputs cap)
    unfolding fcf_yield
    fcf_yield-Returns cap h =
        Returns-known (λ c. lt (of_ℕ D 0) c ≡ true) cap _ h
          λ c h.
            Returns-looked _ _ _
              (basis_for-Complete D inputs "operating_cash_flow" ("capital_expenditure" ∷ []))
              λ b all. Returns-read _ _ _ (all "capital_expenditure" (inr (inl refl))) λ capex.
                Returns-absent_if _ _ _ λ ok_capex.
                  Returns-read _ _ _ (all "operating_cash_flow" (inl refl))
                    λ flow. Returns-div D L _ c _ h λ q. (_, refl)

    book_yield-Returns :
        (cap : Explained Num) → IsPositiveCap cap → Returns (book_yield D inputs cap)
    unfolding book_yield
    book_yield-Returns cap h =
        Returns-known (λ c. lt (of_ℕ D 0) c ≡ true) cap _ h
          λ c h.
            Returns-looked _ _ _ (newest-Complete inputs ("stockholders_equity" ∷ [])) λ found each.
              Returns-read _ _ _ (each "stockholders_equity" (inl refl)) λ equity.
                Returns-absent_if _ _ _ λ ok_equity. Returns-div D L equity c _ h λ q. (_, refl)

    tax_rate-Returns : (tax pretax : Num) → Returns (tax_rate D tax pretax)
    unfolding tax_rate
    tax_rate-Returns tax pretax = elim (Bool-cases (lt (of_ℕ D 0) pretax)) [
      | inl profit ↦ rw profit (Returns-div D L tax pretax _ profit λ q. (_, refl))
      | inr loss ↦ rw loss (_, refl)
    ]

    roic-Returns : (cap : Explained Num) → Returns (roic D inputs cap)
    unfolding roic
    roic-Returns cap =
        Returns-looked _ _ _
          (basis_for-Complete D inputs "ebit" ("tax_provision" ∷ "pretax_income" ∷ []))
          λ b all.
            Returns-looked _ _ _
              (at_day-Complete inputs
                ("stockholders_equity" ∷ "total_debt" ∷ "cash_and_equivalents" ∷ []) b.period_end)
              λ balances each. Returns-read _ _ _ (each "stockholders_equity" (inl refl)) λ equity.
                Returns-read _ _ _ (each "total_debt" (inr (inl refl))) λ debt.
                  Returns-read _ _ _ (each "cash_and_equivalents" (inr (inr (inl refl)))) λ cash.
                    Returns-absent_if _ _ _ λ invested.
                      Returns-read _ _ _ (all "tax_provision" (inr (inl refl))) λ tax.
                        Returns-read _ _ _ (all "pretax_income" (inr (inr (inl refl)))) λ pretax.
                          Returns-step _ _ (tax_rate-Returns tax pretax) λ rate _.
                            Returns-read _ _ _ (all "ebit" (inl refl))
                              λ ebit. Returns-div D L _ _ _ (positive D L _ invested) λ q. (_, refl)

    roe-Returns : (cap : Explained Num) → Returns (roe D inputs cap)
    unfolding roe
    roe-Returns cap = Returns-looked _ _ _ (basis_for-Complete D inputs "net_income" []) λ b all.
        Returns-looked _ _ _ (at_day-Complete inputs ("stockholders_equity" ∷ []) b.period_end)
          λ balances each. Returns-read _ _ _ (each "stockholders_equity" (inl refl)) λ equity.
            Returns-absent_if _ _ _ λ ok_equity.
              Returns-read _ _ _ (all "net_income" (inl refl))
                λ income. Returns-div D L _ _ _ (positive D L _ ok_equity) λ q. (_, refl)

    gross_margin-Returns : (cap : Explained Num) → Returns (gross_margin D inputs cap)
    unfolding gross_margin
    gross_margin-Returns cap =
        Returns-looked _ _ _ (basis_for-Complete D inputs "gross_profit" ("revenue" ∷ [])) λ b all.
          Returns-read _ _ _ (all "revenue" (inr (inl refl))) λ revenue.
            Returns-absent_if _ _ _ λ ok_revenue.
              Returns-read _ _ _ (all "gross_profit" (inl refl))
                λ profit. Returns-div D L _ _ _ (positive D L _ ok_revenue) λ q. (_, refl)

    debt_to_equity-Returns : (cap : Explained Num) → Returns (debt_to_equity D inputs cap)
    unfolding debt_to_equity
    debt_to_equity-Returns cap =
        Returns-looked _ _ _ (newest-Complete inputs ("total_debt" ∷ "stockholders_equity" ∷ []))
          λ found each. Returns-read _ _ _ (each "stockholders_equity" (inr (inl refl))) λ equity.
            Returns-absent_if _ _ _ λ ok_equity.
              Returns-read _ _ _ (each "total_debt" (inl refl))
                λ debt. Returns-div D L _ _ _ (positive D L _ ok_equity) λ q. (_, refl)

    interest_cover-Returns : (cap : Explained Num) → Returns (interest_cover D inputs cap)
    unfolding interest_cover
    interest_cover-Returns cap =
        Returns-looked _ _ _ (basis_for-Complete D inputs "ebit" ("interest_expense" ∷ [])) λ b all.
          Returns-read _ _ _ (all "interest_expense" (inr (inl refl))) λ interest.
            Returns-absent_if _ _ _ λ ok_interest.
              Returns-read _ _ _ (all "ebit" (inl refl))
                λ ebit. Returns-div D L _ _ _ (positive D L _ ok_interest) λ q. (_, refl)

  -- every code of the list has a formula that returns
  abbrev HasFormula : String → Type 0
  HasFormula code =
      (f : Inputs Num → Explained Num → Step (Ratio Num)) × (lookup code (formulas D) ≡ some f)
      × ((inputs : Inputs Num) (cap : Explained Num) → IsPositiveCap cap → Returns (f inputs cap))

  explain_codes-Returns :
      (inputs : Inputs Num) (cap : Explained Num) (wanted codes : List String)
      → IsPositiveCap cap
      → All HasFormula codes
      → (r : Dict String (Explained (Ratio Num))) × (explain_codes D inputs cap wanted codes ≡ ok r)
        × (keys r ≡ keep (λ code. contains code wanted) codes)
  unfolding explain_codes keys keep
  explain_codes-Returns inputs cap wanted [] h all = ([], refl, refl)
  explain_codes-Returns inputs cap wanted (code ∷ codes) h all =
      let (rest, er, kr) = explain_codes-Returns inputs cap wanted codes h all.1 in
      elim (Bool-cases (contains code wanted)) [
        | inr other ↦ (rest, rw other er, rw other kr)
        | inl asked ↦
            let (f, ef, returns) = all.0 in
            let (found, e) = returns inputs cap h in
            ((code, found) ∷ rest, rw (asked, ef, e, er), rw (asked, kr))
      ]

  ratio_codes-HasFormula : All HasFormula ratio_codes
  unfolding lookup
  ratio_codes-HasFormula = (
    (_, refl, earnings_yield-Returns),
    (
      (_, refl, ebitda_ev-Returns),
      (
        (_, refl, fcf_yield-Returns),
        (
          (_, refl, book_yield-Returns),
          (
            (_, refl, ffo_yield-Returns),
            (
              (_, refl, λ i c h. roic-Returns i c),
              (
                (_, refl, λ i c h. roe-Returns i c),
                (
                  (_, refl, λ i c h. gross_margin-Returns i c),
                  (
                    (_, refl, λ i c h. debt_to_equity-Returns i c),
                    ((_, refl, λ i c h. interest_cover-Returns i c), tt),
                  ),
                ),
              ),
            ),
          ),
        ),
      ),
    ),
  )

  -- `explain_ratios` always returns: no facts, prices, splits, dates or currencies make it raise a
  -- `KeyError` or divide by zero, provided only that division by a positive number succeeds. Its
  -- keys are exactly the ratio codes that apply to the industry, in the order of `RATIO_CODES`.
  pub explain_ratios-Returns :
      (held : Held Num) (industry : Option String) (close : Option Num) (close_date : Option ℕ)
      (splits : List ℕ) (as_of : ℕ) (currency : Option String) (dropped : Held Num)
      → (r : Dict String (Explained (Ratio Num))) × (explain_ratios D held industry close close_date
            splits as_of currency dropped
          ≡ ok r)
        × (keys r ≡ keep (λ code. contains code (applicable industry)) ratio_codes)
  unfolding explain_ratios
  explain_ratios-Returns held industry close close_date splits as_of currency dropped =
      let (cap, e) =
        explain_market_cap-Returns D held close close_date splits as_of currency dropped in
      let positive_cap : IsPositiveCap cap = λ c ec.
        (explain_market_cap-IsMarketCap D held close close_date splits as_of currency dropped c
          (e ∙ ap ok ec)).positive in
      let (r, er, kr) =
        explain_codes-Returns
          (record { held = held; as_of = as_of; currency = currency; dropped = dropped }) cap
          (applicable industry) ratio_codes positive_cap ratio_codes-HasFormula in
      (r, rw (e, explain_ratios) er, kr)
