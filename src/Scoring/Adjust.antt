-- ===== src/Scoring/Adjust.antt =====
-- src/screener/scoring/adjust.py: closes and corporate actions into an adjusted series. Dates are day
-- numbers and `observed_at` is in microseconds on the same count.
pub mod Order
pub mod Reference
pub mod Returning
mod Tests
use stock_aggregator.Prelude.{
  ltb, if◌then◌else◌, ◌==◌, Outcome, ◌>>=◌, ok, ℕ, ◌-◌, ◌*◌, String, ◌&&◌, ◌||◌, Option, none, some,
  List, [], ◌∷◌, reverse, ℕ_key, String_key,
}
use stock_aggregator.Prelude.Decimal.{Decimal, of_ℕ, le}
use stock_aggregator.Scoring.Percentile.{divide}

-- `_start_of`: midnight UTC of a day.
abbrev pub start_of : ℕ → ℕ
start_of day = day * 86400000000

module _ (Num : Type 0) where
  pub record Action : Type 0 where
    pub effective_date : ℕ
    pub action_type : String
    pub ratio : Option Num
    pub amount : Option Num

  pub record Bar : Type 0 where
    pub day : ℕ
    pub close : Num
    pub observed_at : ℕ

-- `sorted(…, key=…)` by a day: rows of one day keep their order.
unfoldable pub place_by : {A : Type 0} → (A → ℕ) → A → List A → List A
place_by key a [] = a ∷ []
place_by key a (b ∷ rows) =
    let rest = place_by key a rows in if ltb (key b) (key a) then b ∷ rest else a ∷ b ∷ rows

unfoldable pub sort_by : {A : Type 0} → (A → ℕ) → List A → List A
unfolding place_by
sort_by key [] = []
sort_by key (a ∷ rows) = place_by key a (sort_by key rows)

-- The bar that `ordered[bisect_left(dates, day) - 1]` is, or None before the first.
unfoldable pub bar_before :
    {Num : Type 0} → ℕ → Option (Bar Num) → List (Bar Num) → Option (Bar Num)
bar_before day prior [] = prior
bar_before day prior (b ∷ bars) = if ltb b.day day then bar_before day (some b) bars else prior

module _ (D : Decimal) where
  open D use {Num, sub, mul}

  unfoldable pub split_factor : Action Num → Outcome (Option Num)
  split_factor action = elim action.ratio [
    | none ↦ ok none
    | some ratio ↦
        if le D ratio (of_ℕ D 0)
        then ok none
        else (divide D (of_ℕ D 1) ratio >>= λ factor. ok (some factor))
  ]

  unfoldable pub dividend_factor : Action Num → Option Num → Outcome (Option Num)
  dividend_factor action none = ok none
  dividend_factor action (some prior_close) = elim action.amount [
    | none ↦ ok none
    | some amount ↦
        if le D amount (of_ℕ D 0) || le D prior_close amount
        then ok none
        else (divide D (sub prior_close amount) prior_close >>= λ factor. ok (some factor))
  ]

  -- `_factor`
  unfoldable pub factor_of : Action Num → Option Num → Outcome (Option Num)
  unfolding split_factor dividend_factor
  factor_of action prior_close =
      if action.action_type == "split"
      then split_factor action
      else if action.action_type == "dividend"
      then dividend_factor action prior_close
      else ok none

  -- A dated factor.
  abbrev pub Factor : Type 0
  Factor = ℕ × Num

  abbrev pub close_of : Option (Bar Num) → Option Num
  close_of none = none
  close_of (some bar) = some bar.close

  -- `splits.append(…)` or `dividends.append(…)`, or `continue` where there is no factor
  abbrev pub listed :
      Action Num → Option Num → List Factor × List Factor → List Factor × List Factor
  listed action none found = found
  listed action (some f) found =
      if action.action_type == "split"
      then (found.0, (action.effective_date, f) ∷ found.1)
      else ((action.effective_date, f) ∷ found.0, found.1)

  -- The first loop: the dividends and the splits that can be applied, by ascending date.
  unfoldable pub factors : List (Bar Num) → List (Action Num) → Outcome (List Factor × List Factor)
  unfolding factor_of bar_before
  factors ordered [] = ok ([], [])
  factors ordered (action ∷ actions) = do
    factor ← factor_of action (close_of (bar_before action.effective_date none ordered))
    rest ← factors ordered actions
    ok (listed action factor rest)

  -- The `while`: dividends still ahead of the bar, newest first, are folded in and passed.
  unfoldable pub fold_in : ℕ → Num → List Factor → Num × List Factor
  fold_in day cumulative [] = (cumulative, [])
  fold_in day cumulative ((effective, f) ∷ ahead) =
      let rest = fold_in day (mul cumulative f) ahead in
      if ltb day effective then rest else (cumulative, (effective, f) ∷ ahead)

  -- The `for` over the splits of one bar.
  unfoldable pub fold_splits : Bar Num → Num → List Factor → Num
  fold_splits bar factor [] = factor
  fold_splits bar factor ((effective, split) ∷ splits) =
      fold_splits bar
        (if ltb bar.day effective && ltb bar.observed_at (start_of effective)
          then mul factor split
          else factor)
        splits

  -- The loop over the bars from the newest, with the running product and the dividends left.
  unfoldable pub adjust_from : List Factor → Num → List Factor → List (Bar Num) → List (ℕ × Num)
  unfolding fold_in fold_splits
  adjust_from splits cumulative ahead [] = []
  adjust_from splits cumulative ahead (bar ∷ bars) =
      let passed = fold_in bar.day cumulative ahead in
      (bar.day, mul bar.close (fold_splits bar passed.0 splits))
      ∷ adjust_from splits passed.0 passed.1 bars

  -- `adjusted_closes`, of the sorted bars: no action is looked at where there are none
  unfoldable pub adjust_ordered : List (Bar Num) → List (Action Num) → Outcome (List (ℕ × Num))
  unfolding factors adjust_from sort_by
  adjust_ordered [] actions = ok []
  adjust_ordered (bar ∷ bars) actions = do
    let ordered = bar ∷ bars
    found ← factors ordered (sort_by (λ (a : Action Num). a.effective_date) actions)
    ok (reverse (adjust_from found.1 (of_ℕ D 1) (reverse found.0) (reverse ordered)))

  unfoldable pub adjusted_closes : List (Bar Num) → List (Action Num) → Outcome (List (ℕ × Num))
  unfolding adjust_ordered sort_by
  adjusted_closes bars actions = adjust_ordered (sort_by (λ (b : Bar Num). b.day) bars) actions
