-- ===== src/Scoring/Ratios/Explain.antt =====
-- src/screener/scoring/ratios.py: `explain_ratios`, `compute_ratios`.
use stock_aggregator.Prelude.{
  ℕ, String, Option, none, List, [], ◌∷◌, if◌then◌else◌, String_key, Dict, lookup, Outcome, ok,
  ◌>>=◌, or_raise, key_error,
}
use stock_aggregator.Prelude.Decimal.{Decimal}
use stock_aggregator.Scoring.Basis.Facts.{Held}
use stock_aggregator.Scoring.Basis.Cap.{Explained, value, absent, explain_market_cap}
use stock_aggregator.Scoring.Ratios.Classes.{ratio_codes, applicable, contains}
use stock_aggregator.Scoring.Ratios.Inputs.{Ratio, Inputs}
use stock_aggregator.Scoring.Ratios.Formulas.{formulas}

-- `{code: value for ... if isinstance(value, Ratio)}`
unfoldable pub values_of : {A : Type 0} → Dict String (Explained A) → Dict String A
values_of [] = []
values_of ((code, value a) ∷ d) = (code, a) ∷ values_of d
values_of ((code, absent _) ∷ d) = values_of d

module _ (D : Decimal) where
  open D use {Num}

  -- `{code: _FORMULAS[code](inputs, cap) for code in codes if code in wanted}`
  unfoldable pub explain_codes :
      Inputs Num
      → Explained Num
      → List String
      → List String
      → Outcome (Dict String (Explained (Ratio Num)))
  unfolding lookup contains
  explain_codes inputs cap wanted [] = ok []
  explain_codes inputs cap wanted (code ∷ codes) =
      let rest = explain_codes inputs cap wanted codes in
      if contains code wanted
      then (do
        formula ← or_raise key_error (lookup code (formulas D))
        found ← formula inputs cap
        others ← rest
        ok ((code, found) ∷ others))
      else rest

  unfoldable pub explain_ratios :
      Held Num
      → Option String
      → Option Num
      → Option ℕ
      → List ℕ
      → ℕ
      → Option String
      → Held Num
      → Outcome (Dict String (Explained (Ratio Num)))
  unfolding explain_codes applicable explain_market_cap
  explain_ratios held industry close close_date splits as_of currency dropped = do
    cap ← explain_market_cap D held close close_date splits as_of currency dropped
    explain_codes (record { held = held; as_of = as_of; currency = currency; dropped = dropped })
        cap (applicable industry) ratio_codes

  unfoldable pub compute_ratios :
      Held Num
      → Option String
      → Option Num
      → Option ℕ
      → List ℕ
      → ℕ
      → Outcome (Dict String (Ratio Num))
  unfolding explain_ratios values_of
  compute_ratios held industry close close_date splits as_of = do
    explained ← explain_ratios held industry close close_date splits as_of none []
    ok (values_of explained)
