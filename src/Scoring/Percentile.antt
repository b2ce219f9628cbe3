-- ===== src/Scoring/Percentile.antt =====
-- src/screener/scoring/percentile.py: where a value sits among its peers, and the decile cache.
pub mod Counts
pub mod Deciles
pub mod Returning
use stock_aggregator.Prelude.{
  ℕ, zero, suc, ◌+◌, ◌-◌, ◌*◌, ◌/◌, ◌%◌, Bool, true, false, Option, none, some, List, [], ◌∷◌,
  length, min, if◌then◌else◌, get_elem?, Outcome, ok, raised, ◌>>=◌, or_raise, value_error,
  index_error, division_by_zero,
}
use stock_aggregator.Prelude.Decimal.{Decimal, of_ℕ}

module _ (D : Decimal) where
  open D use {Num, literal, add, sub, mul, div, lt}

  -- `sorted`: a value goes before those that are equal to it and stood behind it
  unfoldable pub insert_sorted : Num → List Num → List Num
  insert_sorted v [] = v ∷ []
  insert_sorted v (x ∷ xs) =
      let rest = insert_sorted v xs in if lt x v then x ∷ rest else v ∷ x ∷ xs

  unfoldable pub sorted : List Num → List Num
  unfolding insert_sorted
  sorted [] = []
  sorted (v ∷ vs) = insert_sorted v (sorted vs)

  -- `bisect`, on an ascending list: the first place whose item is not below the value, and the
  -- first whose item is above it
  unfoldable pub bisect_left : List Num → Num → ℕ
  bisect_left [] v = 0
  bisect_left (x ∷ xs) v = let rest = suc (bisect_left xs v) in if lt x v then rest else 0

  unfoldable pub bisect_right : List Num → Num → ℕ
  bisect_right [] v = 0
  bisect_right (x ∷ xs) v = let rest = suc (bisect_right xs v) in if lt v x then 0 else rest

  abbrev pub divide : Num → Num → Outcome Num
  divide a b = or_raise division_by_zero (div a b)

  -- the body of the loop, from the two counts on; `Decimal(equal) - 1` is taken in `Decimal`
  unfoldable pub place : ℕ → Bool → ℕ → ℕ → Outcome Num
  place n higher_is_better below equal = do
    half ← divide (sub (of_ℕ D equal) (of_ℕ D 1)) (of_ℕ D 2)
    share ← divide (add (of_ℕ D below) half) (of_ℕ D (n - 1))
    let percentile = mul share (of_ℕ D 100)
    ok (if higher_is_better then percentile else sub (of_ℕ D 100) percentile)

  unfoldable pub place_each : ℕ → Bool → List Num → List Num → Outcome (List Num)
  unfolding place bisect_left bisect_right
  place_each n higher_is_better ordered [] = ok []
  place_each n higher_is_better ordered (value ∷ values) = do
    let below = bisect_left ordered value
    percentile ← place n higher_is_better below (bisect_right ordered value - below)
    rest ← place_each n higher_is_better ordered values
    ok (percentile ∷ rest)

  unfoldable pub percentiles : List Num → Bool → Outcome (List Num)
  unfolding sorted place_each
  percentiles [] higher_is_better = ok []
  percentiles (v ∷ []) higher_is_better = ok (of_ℕ D 50 ∷ [])
  percentiles (v ∷ w ∷ rest) higher_is_better =
      place_each (length (v ∷ w ∷ rest)) higher_is_better (sorted (v ∷ w ∷ rest)) (v ∷ w ∷ rest)

  -- One quantile. `Decimal(step) * (n - 1) / 10` has one decimal place at most, so `int(position)`
  -- and the remainder are a quotient and a remainder by ten.
  unfoldable pub decile_at : List Num → ℕ → ℕ → Outcome Num
  decile_at ordered n step = do
    let low = step * (n - 1) / 10
    let high = min (low + 1) (n - 1)
    at_low ← or_raise index_error (get_elem? ordered low)
    at_high ← or_raise index_error (get_elem? ordered high)
    ok (add at_low (mul (sub at_high at_low) (literal (step * (n - 1) % 10) 1)))

  -- `for step in range(11)`: the steps that are left
  unfoldable pub decile_steps : List Num → ℕ → ℕ → ℕ → Outcome (List Num)
  unfolding decile_at
  decile_steps ordered n step zero = ok []
  decile_steps ordered n step (suc left) = do
    quantile ← decile_at ordered n step
    rest ← decile_steps ordered n (step + 1) left
    ok (quantile ∷ rest)

  abbrev pub replicate : ℕ → Num → List Num
  replicate zero v = []
  replicate (suc n) v = v ∷ replicate n v

  unfoldable pub deciles : List Num → Outcome (List Num)
  unfolding sorted decile_steps
  deciles [] = raised value_error
  deciles (v ∷ []) = ok (replicate 11 v)
  deciles (v ∷ w ∷ rest) = decile_steps (sorted (v ∷ w ∷ rest)) (length (v ∷ w ∷ rest)) 0 11
