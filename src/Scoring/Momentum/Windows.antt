-- ===== src/Scoring/Momentum/Windows.antt =====
-- The dates of the windows of src/screener/scoring/metrics.py, and that `explain_momentum` returns.
use stock_aggregator.Prelude.{
  ltb, Bool-cases, Option-cases, Dict, lookup, keys, Outcome, ◌>>=◌, Returns, Returns-bind, Option,
  value_error, ok, raised, ℕ, ◌+◌, ◌-◌, ◌*◌, ◌/◌, ◌%◌, ◌≤◌, ◌<◌, min, String, ◌≡◌, refl, ◌⊎◌, inl,
  inr, true, none, some, List, [], ◌∷◌, ◌++◌, arith, ℕ_key, String_key,
}
use stock_aggregator.Prelude.Calendar.{Date, IsDate, days_in_month, to_ordinal}
use stock_aggregator.Prelude.Decimal.{Decimal, DivLaws, of_ℕ}
use stock_aggregator.Scoring.Momentum.{
  codes, return_months, window_days, months_before, Measured, sort_bars, at_or_before, change_from,
  return_since, return_over, returns_over, highest, off_high, off_52w_high, in_order,
  explain_momentum,
}

abbrev pub months_of : Date → ℕ
months_of date = date.year * 12 + date.month

-- So many months before a date: a date of the calendar, in that month, on the same day or on the last
-- day of a shorter month.
pub record IsBefore (date : Date) (months : ℕ) (start : Date) : Type 0 where
  pub is_date : IsDate start
  pub month_is : months_of start + months ≡ months_of date
  pub day_is : start.day ≡ min date.day (days_in_month start.year start.month)

some_days : (year month : ℕ) → 1 ≤ days_in_month year month
some_days year month = ground arith

-- A date of the calendar goes back by months to a date of the calendar, unless that falls before the
-- year 1, where the call raises ValueError.
pub months_before-IsBefore :
    (date : Date) (months : ℕ)
    → IsDate date
    → ((start : Date) × (months_before date months ≡ ok start) × IsBefore date months start)
      ⊎ ((months_before date months ≡ raised value_error) × (months_of date < months + 13))
unfolding months_before
months_before-IsBefore date months h =
    let total = date.year * 12 + (date.month - 1) - months in
    let month = total % 12 + 1 in
    elim (Bool-cases (ltb (date.year * 12 + (date.month - 1)) (months + 12))) [
      | inl e ↦ inr (rw (months_before, e) refl, ground (arith, e, h.month_from))
      | inr e ↦ inl (
        record {
          year = total / 12;
          month = month;
          day = min date.day (days_in_month (total / 12) month);
        },
        rw (months_before, e) refl,
        record {
          is_date = record {
            year_from = ground (arith, e);
            month_from = omega arith;
            month_to = omega arith;
            day_from = omega (arith, h.day_from, some_days (total / 12) month);
            day_to = omega arith;
          };
          month_is = ground (arith, e, h.month_from);
          day_is = refl;
        },
      )
    ]

module _ (D : Decimal) (laws : DivLaws D) where
  open D use {Num, lt}

  change_from-Returns :
      (latest past : Num) → lt (of_ℕ D 0) past ≡ true → Returns (change_from D latest past)
  change_from-Returns latest past h = let (q, e) = laws.div_pos latest past h in rw e (_, refl)

  return_since-Returns :
      (months : ℕ) (latest : Num) (past : Option Num) → Returns (return_since D months latest past)
  unfolding return_since
  return_since-Returns months latest none = (_, refl)
  return_since-Returns months latest (some past) = elim (Bool-cases (lt (of_ℕ D 0) past)) [
    | inl g ↦ rw (return_since, g) (change_from-Returns latest past g)
    | inr g ↦ rw (return_since, g) (_, refl)
  ]

  return_over-Returns :
      (ordered : List (ℕ × Num)) (as_of : Date) (latest : Num) (months : ℕ)
      → IsDate as_of
      → 2 ≤ as_of.year
      → months ≤ 12
      → Returns (return_over D ordered as_of latest months)
  unfolding return_over
  return_over-Returns ordered as_of latest months date late few =
      elim (months_before-IsBefore as_of months date) [
        | inr (e, early) ↦ absurd (omega (arith, date.month_from, late, few, early))
        | inl (start, e, before) ↦
            Returns-bind (months_before as_of months) _ (start, e)
              (λ found f. return_since-Returns months latest _)
      ]

  off_high-Returns : (window : List (ℕ × Num)) (latest : Num) → Returns (off_high D window latest)
  unfolding off_high
  off_high-Returns [] latest = (_, refl)
  off_high-Returns (bar ∷ bars) latest =
      elim (Bool-cases (lt (of_ℕ D 0) (highest D (bar.1) bars))) [
        | inl e ↦ rw (off_high, e) (change_from-Returns latest (highest D (bar.1) bars) e)
        | inr e ↦ rw (off_high, e) (_, refl)
      ]

  off_52w_high-Returns :
      (bar : ℕ × Num) (bars : List (ℕ × Num)) (as_of : ℕ) (latest : Num)
      → Returns (off_52w_high D (bar ∷ bars) as_of latest)
  unfolding off_52w_high
  off_52w_high-Returns bar bars as_of latest =
      elim (Bool-cases (ltb (as_of - window_days) (bar.0))) [
        | inl e ↦ rw (off_52w_high, e) (_, refl)
        | inr e ↦ rw (off_52w_high, e) (off_high-Returns _ latest)
      ]

  -- The four metrics, in the order of CODES.
  abbrev pub HasCodes : Outcome (Dict String (Measured Num)) → Type 0
  HasCodes m = (out : Dict String (Measured Num)) × (m ≡ ok out) × (keys out ≡ codes)

  measured-HasCodes :
      (ordered : List (ℕ × Num)) (as_of : Date) (latest : Num)
      → IsDate as_of
      → 2 ≤ as_of.year
      → at_or_before D none ordered (to_ordinal as_of) ≡ some latest
      → HasCodes (
          returns_over D ordered as_of latest return_months >>= λ returns.
          off_52w_high D ordered (to_ordinal as_of) latest >>= λ off.
          in_order D (returns ++ ("off_52w_high", off) ∷ []) codes)
  unfolding returns_over in_order lookup keys at_or_before
  measured-HasCodes [] as_of latest date late h = cc h
  measured-HasCodes (bar ∷ bars) as_of latest date late h =
      let ordered = bar ∷ bars in
      let (a, ea) = return_over-Returns ordered as_of latest 3 date late (omega arith) in
      let (b, eb) = return_over-Returns ordered as_of latest 6 date late (omega arith) in
      let (c, ec) = return_over-Returns ordered as_of latest 12 date late (omega arith) in
      let (d, ed) = off_52w_high-Returns bar bars (to_ordinal as_of) latest in
      rw (ea, eb, ec, ed) (_, refl, refl)

  -- `explain_momentum` always returns, with exactly the four metrics in the order of CODES, for a date
  -- from the year 2 on, whatever the bars: it does not raise where there are none or few, where they
  -- stopped a year ago or where a close is zero, provided that division by a positive number succeeds.
  pub explain_momentum-HasCodes :
      (series : List (ℕ × Num)) (as_of : Date)
      → IsDate as_of
      → 2 ≤ as_of.year
      → HasCodes (explain_momentum D series as_of)
  unfolding explain_momentum keys
  explain_momentum-HasCodes series as_of date late =
      elim (Option-cases (at_or_before D none (sort_bars D series) (to_ordinal as_of))) [
        | inl e ↦ rw (explain_momentum, e) (_, refl, refl)
        | inr (latest, e) ↦
            rw (explain_momentum, e)
              (measured-HasCodes (sort_bars D series) as_of latest date late e)
      ]
