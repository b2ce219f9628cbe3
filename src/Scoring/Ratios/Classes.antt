-- ===== src/Scoring/Ratios/Classes.antt =====
-- src/screener/scoring/ratios.py: `industry_class`, `APPLICABLE`, `applicable`, `RATIO_CODES`.
use text.Mathlib.Text.{starts_with}
use stock_aggregator.Prelude.{
  String, Bool, ◌&&◌, ◌||◌, not, Option, none, some, List, [], ◌∷◌, ◌++◌, if◌then◌else◌, ◌==◌,
  String_key, false,
}

pub data Class : Type 0 where
  standard balance_sheet reit : Class

abbrev pub ratio_codes : List String
ratio_codes =
    "earnings_yield" ∷ "ebitda_ev" ∷ "fcf_yield" ∷ "book_yield" ∷ "ffo_yield" ∷ "roic" ∷ "roe"
    ∷ "gross_margin" ∷ "debt_to_equity" ∷ "interest_cover" ∷ []

-- `APPLICABLE[class][VALUATION]` and `APPLICABLE[class][QUALITY]`
abbrev pub valuation_codes : Class → List String
valuation_codes standard = "earnings_yield" ∷ "ebitda_ev" ∷ "fcf_yield" ∷ []
valuation_codes balance_sheet = "earnings_yield" ∷ "book_yield" ∷ []
valuation_codes reit = "ffo_yield" ∷ "ebitda_ev" ∷ "fcf_yield" ∷ []

abbrev pub quality_codes : Class → List String
quality_codes standard = "roic" ∷ "gross_margin" ∷ "debt_to_equity" ∷ "interest_cover" ∷ []
quality_codes balance_sheet = "roe" ∷ []
quality_codes reit = "roic" ∷ "debt_to_equity" ∷ "interest_cover" ∷ []

unfoldable pub industry_class : Option String → Class
industry_class none = standard
industry_class (some industry) =
    if starts_with industry "banks-" || industry == "mortgage-finance"
    then balance_sheet
    else if starts_with industry "insurance-" && not (industry == "insurance-brokers")
    then balance_sheet
    else if starts_with industry "reit-"
    then reit
    else standard

-- the codes of both pillars, as the set `wanted` has them
unfoldable pub applicable : Option String → List String
unfolding industry_class
applicable industry =
    valuation_codes (industry_class industry) ++ quality_codes (industry_class industry)

unfoldable pub contains : String → List String → Bool
contains code [] = false
contains code (c ∷ codes) = c == code || contains code codes
