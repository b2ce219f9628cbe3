-- ===== src/Scoring/Momentum.antt =====
-- src/screener/scoring/metrics.py: the momentum metrics of one security. A bar's date is its ordinal.
pub mod Windows
mod Tests
use stock_aggregator.Prelude.{
  ltb, leb, if◌then◌else◌, ◌==◌, keep, Dict, lookup, Outcome, ◌>>=◌, or_raise, key_error,
  value_error, index_error, ok, raised, ℕ, ◌+◌, ◌-◌, ◌*◌, ◌/◌, ◌%◌, min, String, Bool, ◌&&◌, ◌||◌,
  Option, none, some, List, [], ◌∷◌, ◌++◌, ℕ_key, String_key,
}
use stock_aggregator.Prelude.Calendar.{Date, days_in_month, to_ordinal}
use stock_aggregator.Prelude.Decimal.{Decimal, of_ℕ, le, max_num}
use stock_aggregator.Scoring.Percentile.{divide}

abbrev pub codes : List String
codes = "ret_3m" ∷ "ret_6m" ∷ "ret_12m" ∷ "off_52w_high" ∷ []

abbrev pub return_months : List (String × ℕ)
return_months = ("ret_3m", 3) ∷ ("ret_6m", 6) ∷ ("ret_12m", 12) ∷ []

abbrev pub window_days : ℕ
window_days = 364

-- Months are counted from year 0; `date` raises below year 1.
unfoldable pub months_before : Date → ℕ → Outcome Date
months_before date months =
    let start = date.year * 12 + (date.month - 1) in
    let total = start - months in
    let month = total % 12 + 1 in
    if ltb start (months + 12)
    then raised value_error
    else ok (record {
      year = total / 12;
      month = month;
      day = min date.day (days_in_month (total / 12) month);
    })

-- The text of an Absent.
pub data NoValue : Type 0 where
  no_visible_bars no_bars_in_window high_not_positive past_not_positive short_of_52_weeks : NoValue
  short_of_months : ℕ → NoValue

pub data Measured (Num : Type 0) : Type 0 where
  measured : Num → Measured Num
  absent : NoValue → Measured Num

module _ (D : Decimal) where
  open D use {Num, sub, lt}

  -- `sorted(series)`: by date, then by close
  abbrev pub comes_before : ℕ × Num → ℕ × Num → Bool
  comes_before a b = ltb (a.0) (b.0) || a.0 == b.0 && lt (a.1) (b.1)

  unfoldable pub place_bar : ℕ × Num → List (ℕ × Num) → List (ℕ × Num)
  place_bar bar [] = bar ∷ []
  place_bar bar (b ∷ bars) =
      let rest = place_bar bar bars in if comes_before b bar then b ∷ rest else bar ∷ b ∷ bars

  unfoldable pub sort_bars : List (ℕ × Num) → List (ℕ × Num)
  unfolding place_bar
  sort_bars [] = []
  sort_bars (bar ∷ bars) = place_bar bar (sort_bars bars)

  -- `_at_or_before`, with the close that is the newest so far
  unfoldable pub at_or_before : Option Num → List (ℕ × Num) → ℕ → Option Num
  at_or_before newest [] target = newest
  at_or_before newest ((day, close) ∷ bars) target =
      if leb day target then at_or_before (some close) bars target else newest

  -- `latest / past - 1`
  abbrev pub change_from : Num → Num → Outcome (Measured Num)
  change_from latest past = divide D latest past >>= λ ratio. ok (measured (sub ratio (of_ℕ D 1)))

  -- One return, from the close at the start of its window.
  unfoldable pub return_since : ℕ → Num → Option Num → Outcome (Measured Num)
  return_since months latest none = ok (absent (short_of_months months))
  return_since months latest (some past) =
      if le D past (of_ℕ D 0) then ok (absent past_not_positive) else change_from latest past

  -- One return window.
  unfoldable pub return_over : List (ℕ × Num) → Date → Num → ℕ → Outcome (Measured Num)
  unfolding months_before at_or_before return_since
  return_over ordered as_of latest months = do
    start ← months_before as_of months
    return_since months latest (at_or_before none ordered (to_ordinal start))

  unfoldable pub returns_over :
      List (ℕ × Num) → Date → Num → List (String × ℕ) → Outcome (Dict String (Measured Num))
  unfolding return_over
  returns_over ordered as_of latest [] = ok []
  returns_over ordered as_of latest ((code, months) ∷ windows) = do
    here ← return_over ordered as_of latest months
    rest ← returns_over ordered as_of latest windows
    ok ((code, here) ∷ rest)

  -- `max(window)`: the first of the greatest
  unfoldable pub highest : Num → List (ℕ × Num) → Num
  highest high [] = high
  highest high (bar ∷ bars) = highest (max_num D high (bar.1)) bars

  unfoldable pub off_high : List (ℕ × Num) → Num → Outcome (Measured Num)
  unfolding highest
  off_high [] latest = ok (absent no_bars_in_window)
  off_high (bar ∷ bars) latest =
      let high = highest (bar.1) bars in
      if lt (of_ℕ D 0) high then change_from latest high else ok (absent high_not_positive)

  -- The distance from the high of the 52 weeks; `ordered[0]` is read first.
  unfoldable pub off_52w_high : List (ℕ × Num) → ℕ → Num → Outcome (Measured Num)
  unfolding off_high keep
  off_52w_high [] as_of latest = raised index_error
  off_52w_high (bar ∷ bars) as_of latest =
      let window_start = as_of - window_days in
      if ltb window_start (bar.0)
      then ok (absent short_of_52_weeks)
      else off_high (keep (λ (b : ℕ × Num). leb window_start (b.0) && leb (b.0) as_of) (bar ∷ bars))
          latest

  -- `{code: out[code] for code in CODES}`
  unfoldable pub in_order :
      Dict String (Measured Num) → List String → Outcome (Dict String (Measured Num))
  unfolding lookup
  in_order out [] = ok []
  in_order out (code ∷ rest) = do
    here ← or_raise key_error (lookup code out)
    more ← in_order out rest
    ok ((code, here) ∷ more)

  abbrev pub all_absent : List String → Dict String (Measured Num)
  all_absent [] = []
  all_absent (code ∷ rest) = (code, absent no_visible_bars) ∷ all_absent rest

  unfoldable pub explain_momentum : List (ℕ × Num) → Date → Outcome (Dict String (Measured Num))
  unfolding sort_bars at_or_before returns_over off_52w_high in_order
  explain_momentum series as_of =
      let ordered = sort_bars series in
      elim (at_or_before none ordered (to_ordinal as_of)) [
        | none ↦ ok (all_absent codes)
        | some latest ↦
            (returns_over ordered as_of latest return_months >>= λ returns.
            off_52w_high ordered (to_ordinal as_of) latest >>= λ off.
            in_order (returns ++ ("off_52w_high", off) ∷ []) codes)
      ]

  unfoldable pub values_in : Dict String (Measured Num) → Dict String Num
  values_in [] = []
  values_in ((code, measured v) ∷ out) = (code, v) ∷ values_in out
  values_in ((code, absent why) ∷ out) = values_in out

  unfoldable pub compute : List (ℕ × Num) → Date → Outcome (Dict String Num)
  unfolding explain_momentum values_in
  compute series as_of = explain_momentum series as_of >>= λ out. ok (values_in out)
