-- ===== src/Prelude/Calendar.antt =====
-- The proleptic Gregorian calendar of Python's `datetime` and `calendar`.
use Prim.Native.Nat.{ℕ, zero, suc, ◌+◌, ◌-◌, ◌*◌, ◌/◌, ◌%◌, ◌≤◌}
use mathlib.Core.Bool.{Bool, not, ◌&&◌, ◌||◌}
use stock_aggregator.Prelude.Tests.{nat_eq, if◌then◌else◌}

pub record Date : Type 0 where
  pub year : ℕ
  pub month : ℕ
  pub day : ℕ

abbrev pub is_leap : ℕ → Bool
is_leap year = nat_eq (year % 4) 0 && not (nat_eq (year % 100) 0) || nat_eq (year % 400) 0

-- `calendar.monthrange(year, month)[1]`
abbrev pub days_in_month : ℕ → ℕ → ℕ
days_in_month year month =
    if nat_eq month 2
    then (if is_leap year then 29 else 28)
    else if nat_eq month 4 || nat_eq month 6 || nat_eq month 9 || nat_eq month 11
    then 30
    else 31

-- the days of a year before a month
unfoldable pub days_before_month : ℕ → ℕ → ℕ
days_before_month year zero = 0
days_before_month year (suc zero) = 0
days_before_month year (suc (suc month)) =
    days_before_month year (suc month) + days_in_month year (suc month)

-- `date.toordinal()`: the first of January of year 1 is 1
abbrev pub to_ordinal : Date → ℕ
to_ordinal date =
    let before = date.year - 1 in
    before * 365
    + before / 4
    - before / 100
    + before / 400
    + days_before_month date.year date.month
    + date.day

pub record IsDate (date : Date) : Type 0 where
  pub year_from : 1 ≤ date.year
  pub month_from : 1 ≤ date.month
  pub month_to : date.month ≤ 12
  pub day_from : 1 ≤ date.day
  pub day_to : date.day ≤ days_in_month date.year date.month
