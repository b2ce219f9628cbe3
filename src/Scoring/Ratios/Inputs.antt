-- ===== src/Scoring/Ratios/Inputs.antt =====
-- src/screener/scoring/ratios.py: `Ratio`, `_Inputs`, `_combined`, `_unavailable`, `_basis`, `_newest`,
-- `_at`.
use stock_aggregator.Prelude.{
  ℕ, String, Bool, true, false, Option, none, some, List, [], ◌∷◌, ◌++◌, map, if◌then◌else◌,
  String_key, Dict, lookup, get_list, Outcome, ok, raised, key_error, division_by_zero, is_some,
}
use stock_aggregator.Prelude.Decimal.{Decimal}
use stock_aggregator.Scoring.Basis.Facts.{Item, Basis, Held}
use stock_aggregator.Scoring.Basis.Flow.{annual_max_age_days, flow_basis}
use stock_aggregator.Scoring.Basis.Balance.{balance_at, first_missing_balance, newest_balance}
use stock_aggregator.Scoring.Basis.Cap.{
  Reason, Explained, value, absent, currencies, reported_in, no_clean_figure, no_date_holding_all,
  missing_at,
}

-- A formula raises, returns an absence early, or goes on.
abbrev pub Step : Type 0 → Type 0
Step A = Outcome (Explained A)

infixl 5 ◌>>=◌ ◌>>◌
unfoldable pub ◌>>=◌ : {A B : Type 0} → Step A → (A → Step B) → Step B
ok (value a) >>= f = f a
ok (absent r) >>= f = ok (absent r)
raised e >>= f = raised e

unfoldable pub ◌>>◌ : {A B : Type 0} → Step A → Step B → Step B
unfolding ◌>>=◌
m >> k = m >>= λ _. k

abbrev pub pure : {A : Type 0} → A → Step A
pure a = ok (value a)

-- `if test: return Absent(reason)`
unfoldable pub absent_if : Bool → Reason → Step (Unit {0})
absent_if true reason = ok (absent reason)
absent_if false reason = ok (value tt)

-- `values[code]`
unfoldable pub read : {Num : Type 0} → Dict String Num → String → Step Num
unfolding lookup
read values code = elim (lookup code values) [ none ↦ raised key_error | some v ↦ ok (value v) ]

unfoldable pub divided : {Num : Type 0} → Option Num → Step Num
divided none = raised division_by_zero
divided (some q) = ok (value q)

module _ (Num : Type 0) where
  pub record Ratio : Type 0 where
    pub value : Num
    pub basis : Option String
    pub period_end : ℕ

  pub record Inputs : Type 0 where
    pub held : Held Num
    pub as_of : ℕ
    pub currency : Option String
    pub dropped : Held Num

module _ {Num : Type 0} where
  -- held plus dropped facts for these codes
  unfoldable pub combined : Inputs Num → List String → Held Num
  unfolding get_list
  combined inputs codes =
      map (λ code. (code, get_list code inputs.held ++ get_list code inputs.dropped)) codes

  unfoldable pub dropped_items : Inputs Num → List String → List (Item Num)
  unfolding get_list
  dropped_items inputs [] = []
  dropped_items inputs (code ∷ codes) = get_list code inputs.dropped ++ dropped_items inputs codes

  -- `retry` is asked only where there is a currency
  unfoldable pub unavailable :
      {A : Type 0}
      → Inputs Num
      → List String
      → Reason
      → (Held Num → Outcome Bool)
      → Option String
      → Step A
  unfolding combined dropped_items currencies
  unavailable inputs codes reason retry none = ok (absent reason)
  unavailable inputs codes reason retry (some currency) = elim (retry (combined inputs codes)) [
    | raised e ↦ raised e
    | ok found ↦ ok (
        absent (
          if found then reported_in (currencies (dropped_items inputs codes)) currency else reason))
  ]

abbrev pub found_some : {A : Type 0} → Outcome (Option A) → Outcome Bool
found_some (ok a) = ok (is_some a)
found_some (raised e) = raised e

module _ (D : Decimal) where
  open D use {Num}

  unfoldable pub basis_for : Inputs Num → List String → Step (Basis Num)
  unfolding flow_basis
  basis_for inputs codes = elim (flow_basis D inputs.held codes inputs.as_of) [
    | raised e ↦ raised e
    | ok (some basis) ↦ ok (value basis)
    | ok none ↦
        unavailable inputs codes (no_clean_figure codes)
          (λ facts. found_some (flow_basis D facts codes inputs.as_of)) inputs.currency
  ]

-- `first_missing_balance(...) or ", ".join(codes)`
abbrev pub missing_codes : Option String → List String → List String
missing_codes none codes = codes
missing_codes (some code) codes = code ∷ []

module _ {Num : Type 0} where
  unfoldable pub newest : Inputs Num → List String → Step (ℕ × Dict String Num)
  unfolding newest_balance unavailable
  newest inputs codes = elim (newest_balance inputs.held codes inputs.as_of annual_max_age_days) [
    | some found ↦ ok (value found)
    | none ↦
        unavailable inputs codes (no_date_holding_all codes)
          (λ facts. ok (is_some (newest_balance facts codes inputs.as_of annual_max_age_days)))
          inputs.currency
  ]

  unfoldable pub at_day : Inputs Num → List String → ℕ → Step (Dict String Num)
  unfolding balance_at first_missing_balance unavailable
  at_day inputs codes day = elim (balance_at inputs.held codes day) [
    | some balances ↦ ok (value balances)
    | none ↦
        unavailable inputs codes
          (missing_at (missing_codes (first_missing_balance inputs.held codes day) codes) day)
          (λ facts. ok (is_some (balance_at facts codes day))) inputs.currency
  ]
