-- ===== src/Scoring/Basis/Cap.antt =====
-- src/screener/scoring/basis.py: `Absent`, `explain_market_cap`, `market_cap`.
pub mod Laws
use Prim.Native.Nat.{Ordering}
use Prim.Native.String.{compare}
use stock_aggregator.Prelude.{
  ◌==◌, ℕ, ◌+◌, ◌-◌, String, Bool, true, false, ◌&&◌, Option, none, some, List, [], ◌∷◌, ◌++◌, ltb,
  leb, if◌then◌else◌, String_key, Dict, lookup, get_list, Outcome, ok, ◌>>=◌, or_raise, key_error,
  is_some,
}
use stock_aggregator.Prelude.Decimal.{Decimal, of_ℕ, le}
use stock_aggregator.Scoring.Basis.Facts.{Item, Held}
use stock_aggregator.Scoring.Basis.Flow.{annual_max_age_days}
use stock_aggregator.Scoring.Basis.Balance.{newest_balance}

abbrev pub split_window_days : ℕ
split_window_days = 7

abbrev pub close_max_age_days : ℕ
close_max_age_days = 7

-- The reasons that `Absent` carries, one constructor for each message, with what it names.
pub data Reason : Type 0 where
  no_close_visible : Reason
  close_too_old : ℕ → Reason
  recent_split : ℕ → Reason
  no_share_count : Reason
  cap_not_positive : Reason
  -- facts reported in these currencies, not in this one
  reported_in : List String → String → Reason
  no_clean_figure : List String → Reason
  no_date_holding_all : List String → Reason
  missing_at : List String → ℕ → Reason
  da_negative ev_not_positive capex_positive equity_not_positive : Reason
  invested_not_positive revenue_not_positive interest_not_positive : Reason
  no_visible_bars : Reason
  history_shorter_than_months : ℕ → Reason
  past_close_not_positive history_shorter_than_year no_bars_in_year : Reason
  high_not_positive : Reason

-- `A | Absent`
pub data Explained (A : Type 0) : Type 0 where
  value : A → Explained A
  absent : Reason → Explained A

-- A list is truthy if it has an item.
abbrev pub truthy : {A : Type 0} → List A → Bool
truthy [] = false
truthy (_ ∷ _) = true

-- `currency or "an unknown currency"`
abbrev pub currency_name : Option String → String
currency_name none = "an unknown currency"
currency_name (some name) = if name == "" then "an unknown currency" else name

-- a name into an ascending list that has none twice
unfoldable pub add_name : String → List String → List String
add_name name [] = name ∷ []
add_name name (other ∷ names) = elim (compare name other) [
  | Ordering.lt ↦ name ∷ other ∷ names
  | Ordering.eq ↦ other ∷ names
  | Ordering.gt ↦ other ∷ add_name name names
]

-- `sorted({item.currency or "an unknown currency" for item in …})`
unfoldable pub currencies : {Num : Type 0} → List (Item Num) → List String
unfolding add_name
currencies [] = []
currencies (item ∷ items) = add_name (currency_name item.currency) (currencies items)

-- `sorted(split_dates)`, and the first of them that is too recent
unfoldable pub insert_asc : ℕ → List ℕ → List ℕ
insert_asc d [] = d ∷ []
insert_asc d (e ∷ es) = if leb d e then d ∷ e ∷ es else e ∷ insert_asc d es

unfoldable pub sort_asc : List ℕ → List ℕ
unfolding insert_asc
sort_asc [] = []
sort_asc (d ∷ ds) = insert_asc d (sort_asc ds)

unfoldable pub recent_split_in : ℕ → List ℕ → Option ℕ
recent_split_in as_of [] = none
recent_split_in as_of (split ∷ splits) =
    let next = recent_split_in as_of splits in
    if leb split as_of && ltb as_of (split + split_window_days) then some split else next

-- `currency is not None and foreign`, and whether the dropped facts would have given a count
unfoldable pub share_count_reason :
    {Num : Type 0} → Held Num → Held Num → Option String → ℕ → Reason
unfolding newest_balance get_list currencies
share_count_reason held dropped none as_of = no_share_count
share_count_reason held dropped (some currency) as_of =
    let foreign = get_list "shares_outstanding" dropped in
    let combined = ("shares_outstanding", get_list "shares_outstanding" held ++ foreign) ∷ [] in
    let found = newest_balance combined ("shares_outstanding" ∷ []) as_of annual_max_age_days in
    if truthy foreign && is_some found
    then reported_in (currencies foreign) currency
    else no_share_count

-- `None if isinstance(value, Absent) else value`
abbrev pub present : {A : Type 0} → Explained A → Option A
present (value a) = some a
present (absent _) = none

module _ (D : Decimal) where
  open D use {Num, mul}

  -- from the share count on
  unfoldable pub cap_of : Num → Dict String Num → Outcome (Explained Num)
  unfolding lookup
  cap_of close found = do
    shares ← or_raise key_error (lookup "shares_outstanding" found)
    let cap = mul close shares
    ok (if le D cap (of_ℕ D 0) then absent cap_not_positive else value cap)

  -- `dropped` is empty where the source has None: `(dropped or {})`.
  unfoldable pub explain_market_cap :
      Held Num
      → Option Num
      → Option ℕ
      → List ℕ
      → ℕ
      → Option String
      → Held Num
      → Outcome (Explained Num)
  unfolding cap_of recent_split_in sort_asc share_count_reason
  explain_market_cap held none close_date splits as_of currency dropped =
      ok (absent no_close_visible)
  explain_market_cap held (some close) none splits as_of currency dropped =
      ok (absent no_close_visible)
  explain_market_cap held (some close) (some close_date) splits as_of currency dropped =
      if ltb close_max_age_days (as_of - close_date)
      then ok (absent (close_too_old (as_of - close_date)))
      else elim (recent_split_in as_of (sort_asc splits)) [
        | some split ↦ ok (absent (recent_split split))
        | none ↦ elim (newest_balance held ("shares_outstanding" ∷ []) as_of annual_max_age_days) [
          | none ↦ ok (absent (share_count_reason held dropped currency as_of))
          | some (day, found) ↦ cap_of close found
        ]
      ]

  unfoldable pub market_cap : Held Num → Option Num → Option ℕ → List ℕ → ℕ → Outcome (Option Num)
  unfolding explain_market_cap
  market_cap held close close_date splits as_of = do
    found ← explain_market_cap held close close_date splits as_of none []
    ok (present found)
