-- ===== src/Scoring/Basis/Facts/Index.antt =====
-- The two mappings of `index_facts_explained` of src/screener/scoring/basis.py.
use stock_aggregator.Prelude.{
  String, ◌≡◌, refl, ap, ◌∙◌, not, ◌&&◌, List, [], ◌∷◌, ◌++◌, arith, if◌then◌else◌, ◌==◌,
  String_key, get_list, get_list-push, keep, Bool, true, false,
}
use stock_aggregator.Scoring.Basis.Facts.{
  Item, Held, same_currency, index_item, index_from, index_facts_explained,
}
use mathlib.Core.List.{append-nil, append_assoc}

module _ {Num : Type 0} (currency code : String) where
  abbrev kept : List (Item Num) → List (Item Num)
  kept items = keep (λ i. i.code == code && same_currency i.currency currency) items

  abbrev refused : List (Item Num) → List (Item Num)
  refused items = keep (λ i. i.code == code && not (same_currency i.currency currency)) items

  index_item-held :
      (i : Item Num) (acc : Held Num × Held Num)
      → get_list code (index_item currency i acc).0 ≡ (
          if i.code == code && same_currency i.currency currency
          then get_list code acc.0 ++ i ∷ []
          else get_list code acc.0)
  unfolding index_item
  index_item-held i acc = ground (arith, get_list-push i.code code i acc.0)

  index_item-dropped :
      (i : Item Num) (acc : Held Num × Held Num)
      → get_list code (index_item currency i acc).1 ≡ (
          if i.code == code && not (same_currency i.currency currency)
          then get_list code acc.1 ++ i ∷ []
          else get_list code acc.1)
  unfolding index_item
  index_item-dropped i acc = ground (arith, get_list-push i.code code i acc.1)

  -- an item that passes joins what is there, and another leaves it
  append-if :
      (b : Bool) (xs rest : List (Item Num)) (i : Item Num)
      → (if b then xs ++ i ∷ [] else xs) ++ rest ≡ xs ++ (if b then i ∷ rest else rest)
  append-if true xs rest i = append_assoc xs (i ∷ []) rest
  append-if false xs rest i = refl

  index_from-held :
      (acc : Held Num × Held Num) (items : List (Item Num))
      → get_list code (index_from currency acc items).0 ≡ get_list code acc.0 ++ kept items
  unfolding index_from keep
  index_from-held acc [] = rw append-nil
  index_from-held acc (i ∷ items) =
      index_from-held (index_item currency i acc) items
      ∙ ap (λ l. l ++ kept items) (index_item-held i acc)
      ∙ append-if _ (get_list code acc.0) (kept items) i

  index_from-dropped :
      (acc : Held Num × Held Num) (items : List (Item Num))
      → get_list code (index_from currency acc items).1 ≡ get_list code acc.1 ++ refused items
  unfolding index_from keep
  index_from-dropped acc [] = rw append-nil
  index_from-dropped acc (i ∷ items) =
      index_from-dropped (index_item currency i acc) items
      ∙ ap (λ l. l ++ refused items) (index_item-dropped i acc)
      ∙ append-if _ (get_list code acc.1) (refused items) i

  -- For every code the first mapping has exactly the facts in the security's currency and the
  -- second exactly the others, each in the order in which they came.
  pub index_facts_explained_splits :
      (items : List (Item Num))
      → (get_list code (index_facts_explained items currency).0
          ≡ keep (λ i. i.code == code && same_currency i.currency currency) items)
        × (get_list code (index_facts_explained items currency).1
            ≡ keep (λ i. i.code == code && not (same_currency i.currency currency)) items)
  unfolding index_facts_explained get_list
  index_facts_explained_splits items =
      (index_from-held ([], []) items, index_from-dropped ([], []) items)
