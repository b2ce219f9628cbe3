-- ===== src/Scoring/Basis/Balance.antt =====
-- src/screener/scoring/basis.py: `_balance_on`, `balance_at`, `first_missing_balance`,
-- `newest_balance`.
pub mod Laws
use stock_aggregator.Prelude.{
  ℕ, ◌-◌, String, Option, none, some, List, [], ◌∷◌, ltb, if◌then◌else◌, ◌==◌, String_key, ℕ_key,
  Dict, lookup, insert, get_list,
}
use stock_aggregator.Scoring.Basis.Facts.{Item, Held}

module _ {Num : Type 0} where
  -- `labelled`: the figures of one date by their period type
  unfoldable pub labelled_from : ℕ → Dict String Num → List (Item Num) → Dict String Num
  unfolding insert
  labelled_from day acc [] = acc
  labelled_from day acc (item ∷ items) =
      labelled_from day
        (if item.period_end == day then insert item.period_type item.value acc else acc) items

  -- `labelled.get("A", labelled.get("Q"))`
  abbrev pub annual_first : Dict String Num → Option Num
  annual_first labelled = elim (lookup "A" labelled) [
    | some v ↦ some v
    | none ↦ lookup "Q" labelled
  ]

  unfoldable pub balance_on : Held Num → String → ℕ → Option Num
  unfolding labelled_from lookup get_list
  balance_on held code day = annual_first (labelled_from day [] (get_list code held))

  -- the loop of `balance_at`, over what `out` holds so far
  unfoldable pub balance_from :
      Held Num → ℕ → List String → Dict String Num → Option (Dict String Num)
  balance_from held day [] out = some out
  balance_from held day (code ∷ codes) out = elim (balance_on held code day) [
    | none ↦ none
    | some value ↦ balance_from held day codes (insert code value out)
  ]

  unfoldable pub balance_at : Held Num → List String → ℕ → Option (Dict String Num)
  unfolding balance_from balance_on insert
  balance_at held codes day = balance_from held day codes []

  unfoldable pub first_missing_balance : Held Num → List String → ℕ → Option String
  first_missing_balance held [] day = none
  first_missing_balance held (code ∷ codes) day =
      let later = first_missing_balance held codes day in
      elim (balance_on held code day) [ none ↦ some code | some _ ↦ later ]

-- `sorted({...}, reverse=True)`: a date that is there already is not put in again
unfoldable pub insert_date : ℕ → List ℕ → List ℕ
insert_date d [] = d ∷ []
insert_date d (e ∷ es) =
    if e == d then e ∷ es else if ltb e d then d ∷ e ∷ es else e ∷ insert_date d es

module _ {Num : Type 0} where
  unfoldable pub dates_desc : List (Item Num) → List ℕ
  unfolding insert_date
  dates_desc [] = []
  dates_desc (item ∷ items) = insert_date item.period_end (dates_desc items)

  -- the loop of `newest_balance`
  unfoldable pub newest_from :
      Held Num → List String → ℕ → ℕ → List ℕ → Option (ℕ × Dict String Num)
  newest_from held codes as_of max_age [] = none
  newest_from held codes as_of max_age (day ∷ days) =
      let older = newest_from held codes as_of max_age days in
      if ltb as_of day
      then older
      else if ltb max_age (as_of - day)
      then none
      else elim (balance_at held codes day) [ some found ↦ some (day, found) | none ↦ older ]

  unfoldable pub newest_balance : Held Num → List String → ℕ → ℕ → Option (ℕ × Dict String Num)
  unfolding newest_from dates_desc balance_at get_list
  newest_balance held [] as_of max_age = none
  newest_balance held (code ∷ codes) as_of max_age =
      newest_from held (code ∷ codes) as_of max_age (dates_desc (get_list code held))
