-- ===== src/Scoring/Percentile/Deciles.antt =====
-- The indices of `deciles` of src/screener/scoring/percentile.py.
use stock_aggregator.Prelude.{
  ℕ, zero, suc, ◌+◌, ◌-◌, ◌*◌, ◌/◌, ◌≤◌, ◌<◌, ◌≡◌, refl, ap, inl, inr, List, [], ◌∷◌, length, arith,
  min, get_elem?, ok, raised, value_error, Returns, Returns-bind, or_raise, index_error, Bool-cases,
}
use stock_aggregator.Prelude.Decimal.{Decimal}
use stock_aggregator.Scoring.Percentile.{insert_sorted, sorted, decile_at, decile_steps, deciles}

get_elem?-Returns :
    {A : Type 0} (xs : List A) (i : ℕ)
    → i < length xs
    → Returns (or_raise index_error (get_elem? xs i))
get_elem?-Returns [] i h = absurd (omega arith)
get_elem?-Returns (x ∷ xs) zero h = (x, refl)
get_elem?-Returns (x ∷ xs) (suc i) h = get_elem?-Returns xs i (omega arith)

module _ (D : Decimal) where
  open D use {Num, lt}

  length-insert_sorted : (v : Num) (xs : List Num) → length (insert_sorted D v xs) ≡ suc (length xs)
  unfolding insert_sorted
  length-insert_sorted v [] = refl
  length-insert_sorted v (x ∷ xs) = elim (Bool-cases (lt x v)) [
    | inl before ↦ rw before (ap suc (length-insert_sorted v xs))
    | inr here ↦ rw here
  ]

  length-sorted : (xs : List Num) → length (sorted D xs) ≡ length xs
  unfolding sorted
  length-sorted [] = refl
  length-sorted (x ∷ xs) = rw length-insert_sorted (ap suc (length-sorted xs))

  decile_at-Returns :
      (ordered : List Num) (n step : ℕ)
      → length ordered ≡ n
      → 0 < n
      → step ≤ 10
      → Returns (decile_at D ordered n step)
  unfolding decile_at
  decile_at-Returns ordered n step e h s =
      let bound : step * (n - 1) ≤ 10 * (n - 1) = grind arith in
      Returns-bind _ _ (get_elem?-Returns ordered (step * (n - 1) / 10) (omega arith)) λ a _.
        Returns-bind _ _
          (get_elem?-Returns ordered (min (step * (n - 1) / 10 + 1) (n - 1)) (omega arith))
          λ b _. (_, refl)

  decile_steps-Returns :
      (ordered : List Num) (n step left : ℕ)
      → length ordered ≡ n
      → 0 < n
      → step + left ≤ 11
      → (r : List Num) × (decile_steps D ordered n step left ≡ ok r) × (length r ≡ left)
  unfolding decile_steps
  decile_steps-Returns ordered n step zero e h s = ([], refl, refl)
  decile_steps-Returns ordered n step (suc left) e h s =
      let (q, eq) = decile_at-Returns ordered n step e h (omega arith) in
      let (r, er, l) = decile_steps-Returns ordered n (step + 1) left e h (omega arith) in
      (q ∷ r, rw (eq, er), ap suc l)

  pub deciles-Returns :
      (v : Num) (rest : List Num) → (r : List Num) × (deciles D (v ∷ rest) ≡ ok r) × (length r ≡ 11)
  unfolding deciles
  deciles-Returns v [] = (_, refl, refl)
  deciles-Returns v (w ∷ rest) =
      decile_steps-Returns (sorted D (v ∷ w ∷ rest)) _ 0 11 (length-sorted (v ∷ w ∷ rest))
        (omega arith) (omega arith)

  -- For every group that is not empty `deciles` returns exactly eleven values, so no index is ever
  -- out of range; an empty group raises `ValueError`.
  pub deciles_eleven :
      (deciles D [] ≡ raised value_error)
      × ((v : Num) (rest : List Num)
          → (r : List Num) × (deciles D (v ∷ rest) ≡ ok r) × (length r ≡ 11))
  unfolding deciles
  deciles_eleven = (refl, deciles-Returns)
