-- ===== src/Scoring/Percentile/Returning.antt =====
-- The divisions of `percentiles` of src/screener/scoring/percentile.py.
use stock_aggregator.Prelude.{
  ℕ, suc, ◌-◌, ◌≡◌, refl, Bool, List, [], ◌∷◌, length, arith, Returns, Returns-bind,
}
use stock_aggregator.Prelude.Decimal.{Decimal, DivLaws, of_ℕ}
use stock_aggregator.Scoring.Percentile.{place, place_each, percentiles, sorted, divide}

module _ (D : Decimal) (L : DivLaws D) where
  open D use {Num, lt}

  divide-Returns : (a : Num) (m : ℕ) → Returns (divide D a (of_ℕ D (suc m)))
  divide-Returns a m = let (q, e) = L.div_pos a (of_ℕ D (suc m)) (L.literal_pos m) in rw e (q, refl)

  place-Returns :
      (k : ℕ) (higher : Bool) (below equal : ℕ) → Returns (place D (suc (suc k)) higher below equal)
  unfolding place
  place-Returns k higher below equal = Returns-bind _ _ (divide-Returns _ 1) λ half _.
      let less : suc (suc k) - 1 ≡ suc k = omega arith in
      rw less (Returns-bind _ _ (divide-Returns _ k) λ share _. (_, refl))

  place_each-Returns :
      (k : ℕ) (higher : Bool) (ordered values : List Num)
      → Returns (place_each D (suc (suc k)) higher ordered values)
  unfolding place_each
  place_each-Returns k higher ordered [] = ([], refl)
  place_each-Returns k higher ordered (v ∷ values) =
      Returns-bind _ _ (place-Returns k higher _ _)
        λ p _. Returns-bind _ _ (place_each-Returns k higher ordered values) λ rest _. (_, refl)

  pub percentiles-Returns :
      (values : List Num) (higher : Bool) → Returns (percentiles D values higher)
  unfolding percentiles
  percentiles-Returns [] higher = ([], refl)
  percentiles-Returns (v ∷ []) higher = (_, refl)
  percentiles-Returns (v ∷ w ∷ rest) higher =
      place_each-Returns (length rest) higher (sorted D (v ∷ w ∷ rest)) (v ∷ w ∷ rest)
