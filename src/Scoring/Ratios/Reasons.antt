-- ===== src/Scoring/Ratios/Reasons.antt =====
-- `explain_ratios` and `compute_ratios` of src/screener/scoring/ratios.py side by side.
use stock_aggregator.Prelude.{
  ℕ, String, ◌≡◌, refl, sym, ap, ◌∙◌, inl, inr, Bool, Option, none, some, List, [], ◌∷◌, Dict,
  lookup, Outcome, ok, raised, Returns, Bool-cases, Option-cases, String_key, ok-injective, All,
  ◌>>=◌ as outcome_bind, is_some,
}
use stock_aggregator.Prelude.Decimal.{Decimal}
use stock_aggregator.Scoring.Basis.Facts.{Basis, Held}
use stock_aggregator.Scoring.Basis.Flow.{flow_basis}
use stock_aggregator.Scoring.Basis.Flow.Total.{flow_basis-Returns}
use stock_aggregator.Scoring.Basis.Balance.{balance_at, newest_balance, first_missing_balance}
use stock_aggregator.Scoring.Basis.Cap.{
  Reason, Explained, value, absent, present, no_clean_figure, no_date_holding_all, missing_at,
}
use stock_aggregator.Scoring.Basis.Cap.Laws.{
  value_of, explain_market_cap-market_cap, explain_market_cap-Returns,
}
use stock_aggregator.Scoring.Ratios.Classes.{ratio_codes, applicable, contains}
use stock_aggregator.Scoring.Ratios.Inputs.{
  Ratio, Inputs, Step, unavailable, found_some, missing_codes, basis_for, newest, at_day,
}
use stock_aggregator.Scoring.Ratios.Formulas.{
  earnings_yield, ffo_yield, ebitda_ev, fcf_yield, book_yield, roic, roe, gross_margin,
  debt_to_equity, interest_cover, formulas,
}
use stock_aggregator.Scoring.Ratios.Explain.{
  explain_codes, explain_ratios, compute_ratios, values_of,
}
use stock_aggregator.Scoring.Ratios.Steps.{
  Agree, Agree-step, Agree-then, unavailable-Returns, found_some-Returns,
}

abbrev bind : {A B : Type 0} → Outcome A → (A → Outcome B) → Outcome B
bind m f = outcome_bind m f

-- The values of a mapping of ratios and reasons, under the outcome.
abbrev pub values_under :
    {A : Type 0} → Outcome (Dict String (Explained A)) → Outcome (Dict String A)
values_under m = bind m λ d. ok (values_of d)

-- what one more code does to the values
abbrev combine :
    {A : Type 0} → String → Outcome (Option A) → Outcome (Dict String A) → Outcome (Dict String A)
combine code (ok (some a)) rest = bind rest λ d. ok ((code, a) ∷ d)
combine code (ok none) rest = rest
combine code (raised e) rest = raised e

cons_values :
    {A : Type 0} (code : String) (m : Step A) (r : Outcome (Dict String (Explained A)))
    → values_under (bind m λ found. bind r λ others. ok ((code, found) ∷ others))
      ≡ combine code (value_of m) (values_under r)
unfolding values_of
cons_values code (ok (value a)) (ok d) = refl
cons_values code (ok (value a)) (raised e) = refl
cons_values code (ok (absent x)) (ok d) = refl
cons_values code (ok (absent x)) (raised e) = refl
cons_values code (raised e) r = refl

-- The same facts and date; the currency and the dropped facts may differ.
module _ (D : Decimal) (held : Held D.Num) (as_of : ℕ) (c₁ c₂ : Option String)
    (d₁ d₂ : Held D.Num) where
  open D use {Num}

  abbrev one : Inputs Num
  one = record { held = held; as_of = as_of; currency = c₁; dropped = d₁ }

  abbrev two : Inputs Num
  two = record { held = held; as_of = as_of; currency = c₂; dropped = d₂ }

  unavailable-Agree :
      {A : Type 0} (codes : List String) (r : Reason) (retry : Held Num → Outcome Bool)
      → ((h : Held Num) → Returns (retry h))
      → Agree {A = A} (unavailable one codes r retry c₁) (unavailable two codes r retry c₂)
  unavailable-Agree {A} codes r retry h =
      let (s, es) = unavailable-Returns {A = A} one codes r retry c₁ h in
      let (t, et) = unavailable-Returns {A = A} two codes r retry c₂ h in rw (es, et)

  basis_for-Agree : (codes : List String) → Agree (basis_for D one codes) (basis_for D two codes)
  unfolding basis_for
  basis_for-Agree codes = let (q, e) = flow_basis-Returns D held codes as_of in go q e
    where
      go :
          (q : Option (Basis Num))
          → flow_basis D held codes as_of ≡ ok q
          → Agree (basis_for D one codes) (basis_for D two codes)
      go none e =
          rw (e, basis_for)
            (unavailable-Agree codes (no_clean_figure codes)
              (λ facts. found_some (flow_basis D facts codes as_of))
              (λ h. found_some-Returns _ (flow_basis-Returns D h codes as_of)))
      go (some b) e = rw (e, basis_for)

  newest-Agree : (codes : List String) → Agree (newest one codes) (newest two codes)
  unfolding newest
  newest-Agree codes = elim (Option-cases (newest_balance held codes as_of 456)) [
    | inr (p, e) ↦ rw (e, newest)
    | inl missing ↦
        rw (missing, newest)
          (unavailable-Agree codes (no_date_holding_all codes)
            (λ facts. ok (is_some (newest_balance facts codes as_of 456))) (λ h. (_, refl)))
  ]

  at_day-Agree :
      (codes : List String) (day : ℕ) → Agree (at_day one codes day) (at_day two codes day)
  unfolding at_day
  at_day-Agree codes day = elim (Option-cases (balance_at held codes day)) [
    | inr (p, e) ↦ rw (e, at_day)
    | inl missing ↦
        rw (missing, at_day)
          (unavailable-Agree codes
            (missing_at (missing_codes (first_missing_balance held codes day) codes) day)
            (λ facts. ok (is_some (balance_at facts codes day))) (λ h. (_, refl)))
  ]

  module _ (cap₁ cap₂ : Explained Num) (same : present cap₁ ≡ present cap₂) where
    earnings_yield-Agree : Agree (earnings_yield D one cap₁) (earnings_yield D two cap₂)
    unfolding earnings_yield
    earnings_yield-Agree =
        Agree-step _ _ _ _ (ap ok same) λ c. Agree-step _ _ _ _ (basis_for-Agree _) λ b. refl

    ffo_yield-Agree : Agree (ffo_yield D one cap₁) (ffo_yield D two cap₂)
    unfolding ffo_yield
    ffo_yield-Agree =
        Agree-step _ _ _ _ (ap ok same) λ c. Agree-step _ _ _ _ (basis_for-Agree _) λ b. refl

    ebitda_ev-Agree : Agree (ebitda_ev D one cap₁) (ebitda_ev D two cap₂)
    unfolding ebitda_ev
    ebitda_ev-Agree = Agree-step _ _ _ _ (ap ok same) λ c.
        Agree-step _ _ _ _ (basis_for-Agree _) λ b.
          Agree-step _ _ _ _ refl
            λ da. Agree-then _ _ _ (Agree-step _ _ _ _ (newest-Agree _) λ found. refl)

    fcf_yield-Agree : Agree (fcf_yield D one cap₁) (fcf_yield D two cap₂)
    unfolding fcf_yield
    fcf_yield-Agree =
        Agree-step _ _ _ _ (ap ok same) λ c. Agree-step _ _ _ _ (basis_for-Agree _) λ b. refl

    book_yield-Agree : Agree (book_yield D one cap₁) (book_yield D two cap₂)
    unfolding book_yield
    book_yield-Agree =
        Agree-step _ _ _ _ (ap ok same) λ c. Agree-step _ _ _ _ (newest-Agree _) λ found. refl

    roic-Agree : Agree (roic D one cap₁) (roic D two cap₂)
    unfolding roic
    roic-Agree =
        Agree-step _ _ _ _ (basis_for-Agree _)
          λ b. Agree-step _ _ _ _ (at_day-Agree _ b.period_end) λ balances. refl

    roe-Agree : Agree (roe D one cap₁) (roe D two cap₂)
    unfolding roe
    roe-Agree =
        Agree-step _ _ _ _ (basis_for-Agree _)
          λ b. Agree-step _ _ _ _ (at_day-Agree _ b.period_end) λ balances. refl

    gross_margin-Agree : Agree (gross_margin D one cap₁) (gross_margin D two cap₂)
    unfolding gross_margin
    gross_margin-Agree = Agree-step _ _ _ _ (basis_for-Agree _) λ b. refl

    debt_to_equity-Agree : Agree (debt_to_equity D one cap₁) (debt_to_equity D two cap₂)
    unfolding debt_to_equity
    debt_to_equity-Agree = Agree-step _ _ _ _ (newest-Agree _) λ found. refl

    interest_cover-Agree : Agree (interest_cover D one cap₁) (interest_cover D two cap₂)
    unfolding interest_cover
    interest_cover-Agree = Agree-step _ _ _ _ (basis_for-Agree _) λ b. refl

    -- a code whose formula gives the same value
    abbrev HasFormula : String → Type 0
    HasFormula code =
        (f : Inputs Num → Explained Num → Step (Ratio Num)) × (lookup code (formulas D) ≡ some f)
        × Agree (f one cap₁) (f two cap₂)

    ratio_codes-HasFormula : All HasFormula ratio_codes
    unfolding lookup
    ratio_codes-HasFormula = (
      (_, refl, earnings_yield-Agree),
      (
        (_, refl, ebitda_ev-Agree),
        (
          (_, refl, fcf_yield-Agree),
          (
            (_, refl, book_yield-Agree),
            (
              (_, refl, ffo_yield-Agree),
              (
                (_, refl, roic-Agree),
                (
                  (_, refl, roe-Agree),
                  (
                    (_, refl, gross_margin-Agree),
                    ((_, refl, debt_to_equity-Agree), ((_, refl, interest_cover-Agree), tt)),
                  ),
                ),
              ),
            ),
          ),
        ),
      ),
    )

    explain_codes-Agree :
        (wanted codes : List String)
        → All HasFormula codes
        → values_under (explain_codes D one cap₁ wanted codes)
          ≡ values_under (explain_codes D two cap₂ wanted codes)
    unfolding explain_codes values_of
    explain_codes-Agree wanted [] all = refl
    explain_codes-Agree wanted (code ∷ codes) all = elim (Bool-cases (contains code wanted)) [
      | inr other ↦ rw other (explain_codes-Agree wanted codes all.1)
      | inl asked ↦
          let (f, ef, agree) = all.0 in
          rw (asked, ef)
            (cons_values code (f one cap₁) (explain_codes D one cap₁ wanted codes)
              ∙ ap (λ v. combine code v (values_under (explain_codes D one cap₁ wanted codes)))
                  agree
              ∙ ap (combine code (value_of (f two cap₂))) (explain_codes-Agree wanted codes all.1)
              ∙ sym (cons_values code (f two cap₂) (explain_codes D two cap₂ wanted codes)))
    ]

-- What `compute_ratios` scores is exactly the values that `explain_ratios` shows, whatever currency
-- and dropped facts the explanation is given: the reasons for absences never change a value.
pub compute_ratios-explain_ratios :
    (D : Decimal) (held : Held D.Num) (industry : Option String) (close : Option D.Num)
    (close_date : Option ℕ) (splits : List ℕ) (as_of : ℕ) (currency : Option String)
    (dropped : Held D.Num)
    → compute_ratios D held industry close close_date splits as_of
      ≡ values_under (explain_ratios D held industry close close_date splits as_of currency dropped)
unfolding compute_ratios explain_ratios
compute_ratios-explain_ratios D held industry close close_date splits as_of currency dropped =
    let (a, ea) = explain_market_cap-Returns D held close close_date splits as_of none [] in
    let (b, eb) =
      explain_market_cap-Returns D held close close_date splits as_of currency dropped in
    let same : present a ≡ present b = ok-injective (
      ap value_of (sym ea)
      ∙ explain_market_cap-market_cap D held close close_date splits as_of none []
      ∙ sym (explain_market_cap-market_cap D held close close_date splits as_of currency dropped)
      ∙ ap value_of eb) in
    rw (ea, eb, explain_ratios)
      (explain_codes-Agree D held as_of none currency [] dropped a b same (applicable industry)
        ratio_codes (ratio_codes-HasFormula D held as_of none currency [] dropped a b same))
