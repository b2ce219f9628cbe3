-- ===== src/Scoring/Basis/Facts.antt =====
-- src/screener/scoring/basis.py: `Item`, `Basis`, `index_facts_explained`, `_by_date`,
-- `_common_dates`.
pub mod Index
pub mod Dates
use stock_aggregator.Prelude.{
  ℕ, String, Bool, ◌&&◌, Option, none, some, List, [], ◌∷◌, ltb, if◌then◌else◌, ◌==◌, String_key,
  ℕ_key, Dict, lookup, insert, push, get_list, keys, keep, is_some,
}

module _ (Num : Type 0) where
  pub record Item : Type 0 where
    pub code : String
    pub period_end : ℕ
    pub period_type : String
    pub value : Num
    pub currency : Option String

  pub record Basis : Type 0 where
    pub kind : String
    pub period_end : ℕ
    pub values : Dict String Num

  abbrev pub Held : Type 0
  Held = Dict String (List Item)

-- `item.currency == currency`, where the item's may be None
abbrev pub same_currency : Option String → String → Bool
same_currency none c = Bool.false
same_currency (some d) c = d == c

module _ {Num : Type 0} where
  -- one pass of the loop, over the two mappings
  pub index_item : String → Item Num → Held Num × Held Num → Held Num × Held Num
  index_item currency item (held, dropped) =
      if same_currency item.currency currency
      then (push item.code item held, dropped)
      else (held, push item.code item dropped)

  pub index_from : String → Held Num × Held Num → List (Item Num) → Held Num × Held Num
  index_from currency acc [] = acc
  index_from currency acc (item ∷ items) = index_from currency (index_item currency item acc) items

  unfoldable pub index_facts_explained : List (Item Num) → String → Held Num × Held Num
  unfolding index_from index_item push
  index_facts_explained items currency = index_from currency ([], []) items

  unfoldable pub index_facts : List (Item Num) → String → Held Num
  unfolding index_facts_explained
  index_facts items currency = (index_facts_explained items currency).0

  -- the dict comprehension of `_by_date`: a later item of one date replaces an earlier one
  pub by_date_from : String → Dict ℕ Num → List (Item Num) → Dict ℕ Num
  by_date_from pt acc [] = acc
  by_date_from pt acc (item ∷ items) =
      by_date_from pt
        (if item.period_type == pt then insert item.period_end item.value acc else acc) items

  unfoldable pub by_date : Held Num → String → String → Dict ℕ Num
  unfolding by_date_from get_list insert
  by_date held code pt = by_date_from pt [] (get_list code held)

-- `sorted(..., reverse=True)` on distinct dates, by insertion
unfoldable pub insert_desc : ℕ → List ℕ → List ℕ
insert_desc d [] = d ∷ []
insert_desc d (e ∷ es) = if ltb e d then d ∷ e ∷ es else e ∷ insert_desc d es

unfoldable pub sort_desc : List ℕ → List ℕ
unfolding insert_desc
sort_desc [] = []
sort_desc (d ∷ ds) = insert_desc d (sort_desc ds)

module _ {Num : Type 0} where
  -- every mapping holds the date
  unfoldable pub holds : List (Dict ℕ Num) → ℕ → Bool
  unfolding lookup
  holds [] day = Bool.true
  holds (s ∷ rest) day = is_some (lookup day s) && holds rest day

  unfoldable pub common_dates : List (Dict ℕ Num) → List ℕ
  unfolding sort_desc keep keys holds
  common_dates [] = []
  common_dates (s ∷ rest) = sort_desc (keep (holds rest) (keys s))
