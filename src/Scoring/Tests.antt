-- ===== src/Scoring/Tests.antt =====
-- Runs of the scoring functions on small inputs, and the theorems at them.
use mathlib.Core.Path.{◌≡◌, refl}
use stock_aggregator.Prelude.{
  ℕ, ◌+◌, ◌≤◌, ◌<◌, String, ◌≢◌, ◌↔◌, true, not, ◌&&◌, none, some, List, [], ◌∷◌, ◌==◌, String_key,
  Dict, lookup, get_list, keys, keep, count, length, All, Has, arith, ltb, ok, raised, Returns,
  value_error,
}
use stock_aggregator.Prelude.Int.{ℤ, pos}
use stock_aggregator.Prelude.Decimal.Whole.{whole, whole-DivLaws, whole-OrderLaws}
use stock_aggregator.Scoring.Basis.Facts.{
  Item, Basis, Held, same_currency, index_facts_explained, holds,
}
use stock_aggregator.Scoring.Basis.Facts.Index.{index_facts_explained_splits}
use stock_aggregator.Scoring.Basis.Flow.{ttm_basis, annual_basis, series_of}
use stock_aggregator.Scoring.Basis.Flow.Quarters.{IsTrailingYear, ttm_basis-IsTrailingYear}
use stock_aggregator.Scoring.Basis.Flow.Annual.{annual_basis_newest}
use stock_aggregator.Scoring.Basis.Flow.Totals.{Picked}
use stock_aggregator.Scoring.Basis.Balance.{
  balance_at, balance_on, first_missing_balance, newest_balance,
}
use stock_aggregator.Scoring.Basis.Balance.Laws.{
  IsBalance, balance_at_complete, first_missing_balance_lem, newest_balance_newest,
}
use stock_aggregator.Scoring.Basis.Cap.{
  Explained, value, absent, currencies, explain_market_cap, recent_split,
}
use stock_aggregator.Scoring.Basis.Cap.Laws.{IsMarketCap, explain_market_cap-IsMarketCap}
use stock_aggregator.Scoring.Ratios.Classes.{ratio_codes, applicable, contains}
use stock_aggregator.Scoring.Ratios.Inputs.{
  Ratio, ◌>>=◌, ◌>>◌, read, absent_if, divided, basis_for, newest, at_day,
}
use stock_aggregator.Scoring.Ratios.Explain.{explain_ratios, compute_ratios}
use stock_aggregator.Scoring.Ratios.Formulas.{earnings_yield, book_yield, roe}
use stock_aggregator.Scoring.Ratios.Returning.{explain_ratios-Returns}
use stock_aggregator.Scoring.Ratios.Reasons.{values_under, compute_ratios-explain_ratios}
use stock_aggregator.Scoring.Percentile.{percentiles, deciles}
use stock_aggregator.Scoring.Percentile.Counts.{place_all, percentiles-place_all}
use stock_aggregator.Scoring.Percentile.Deciles.{deciles_eleven}
use stock_aggregator.Scoring.Ranking.{Placed, GroupStat, rank_code}
use stock_aggregator.Scoring.Ranking.Peers.{IsFairlyPlaced, rank_code-fair}
use stock_aggregator.Scoring.Ranking.Placement.{rank_code-count}
use stock_aggregator.Scoring.Ranking.Returning.{rank_code-Returns}
use stock_aggregator.Scoring.Ranking.Standing.{IsDistinct}

abbrev fact : String → ℕ → String → ℕ → Item ℤ
fact code day kind n = record {
  code = code;
  period_end = day;
  period_type = kind;
  value = pos n;
  currency = some "USD";
}

abbrev euro : Item ℤ
euro = record {
  code = "net_income";
  period_end = 1273;
  period_type = "A";
  value = pos 9;
  currency = some "EUR";
}

abbrev facts : List (Item ℤ)
facts =
    fact "net_income" 1000 "Q" 10
    ∷ euro
    ∷ fact "net_income" 1091 "Q" 10
    ∷ fact "net_income" 1182 "Q" 10
    ∷ fact "net_income" 1273 "Q" 10
    ∷ fact "net_income" 1273 "A" 44
    ∷ fact "shares_outstanding" 1273 "Q" 5
    ∷ fact "stockholders_equity" 1273 "Q" 20
    ∷ []

abbrev held : Held ℤ
held =
    (
      "net_income",
      fact "net_income" 1000 "Q" 10
          ∷ fact "net_income" 1091 "Q" 10
          ∷ fact "net_income" 1182 "Q" 10
          ∷ fact "net_income" 1273 "Q" 10
          ∷ fact "net_income" 1273 "A" 44
          ∷ [],
    )
    ∷ ("shares_outstanding", fact "shares_outstanding" 1273 "Q" 5 ∷ [])
    ∷ ("stockholders_equity", fact "stockholders_equity" 1273 "Q" 20 ∷ [])
    ∷ []

abbrev year : Basis ℤ
year = record { kind = "TTM"; period_end = 1273; values = ("net_income", pos 40) ∷ [] }

abbrev annual : Basis ℤ
annual = record { kind = "A"; period_end = 1273; values = ("net_income", pos 44) ∷ [] }

index_runs : index_facts_explained facts "USD" ≡ (held, ("net_income", euro ∷ []) ∷ [])
unfolding index_facts_explained
index_runs = refl

index_facts_explained_splits_example :
    (get_list "net_income" (index_facts_explained facts "USD").0
      ≡ keep (λ i. i.code == "net_income" && same_currency i.currency "USD") facts)
    × (get_list "net_income" (index_facts_explained facts "USD").1
        ≡ keep (λ i. i.code == "net_income" && not (same_currency i.currency "USD")) facts)
index_facts_explained_splits_example = index_facts_explained_splits "USD" "net_income" facts

ttm_runs : ttm_basis whole held ("net_income" ∷ []) 1300 ≡ ok (some year)
unfolding ttm_basis
ttm_runs = refl

ttm_basis-IsTrailingYear_example : IsTrailingYear whole held ("net_income" ∷ []) 1300 year
ttm_basis-IsTrailingYear_example =
    ttm_basis-IsTrailingYear whole held ("net_income" ∷ []) 1300 year ttm_runs

annual_runs : annual_basis whole held ("net_income" ∷ []) 1300 ≡ ok (some annual)
unfolding annual_basis
annual_runs = refl

annual_basis_newest_example :
    let held_by_all =
      λ (day : ℕ). holds (series_of whole held "A" ("net_income" ∷ [])) day ≡ true in
    ((b : Basis ℤ)
      → annual_basis whole held ("net_income" ∷ []) 1300 ≡ ok (some b)
      → (b.kind ≡ "A")
        × (b.period_end ≤ 1300)
        × (1300 ≤ b.period_end + 456)
        × ((day : ℕ) → held_by_all day → day ≤ 1300 → day ≤ b.period_end)
        × ((c : String) → Has c ("net_income" ∷ []) → Picked whole held b.period_end c b.values))
    × (annual_basis whole held ("net_income" ∷ []) 1300 ≡ ok none
        → (day : ℕ) → held_by_all day
        → day ≤ 1300
        → day + 456 < 1300)
annual_basis_newest_example = annual_basis_newest whole held "net_income" [] 1300

balance_at_complete_example :
    ((out : Dict String ℤ)
      → balance_at held ("stockholders_equity" ∷ "cash" ∷ []) 1273 ≡ some out
      → (code : String) → Has code ("stockholders_equity" ∷ "cash" ∷ [])
      → IsBalance held 1273 code out)
    × ((balance_at held ("stockholders_equity" ∷ "cash" ∷ []) 1273 ≡ none)
        ↔ (first_missing_balance held ("stockholders_equity" ∷ "cash" ∷ []) 1273 ≢ none))
balance_at_complete_example = balance_at_complete held 1273 ("stockholders_equity" ∷ "cash" ∷ [])

first_missing_runs :
    first_missing_balance held ("stockholders_equity" ∷ "cash" ∷ []) 1273 ≡ some "cash"
unfolding first_missing_balance balance_on
first_missing_runs = refl

first_missing_balance_example :
    Has {A = String} "cash" ("stockholders_equity" ∷ "cash" ∷ [])
    × (balance_on held "cash" 1273 ≡ none)
first_missing_balance_example =
    first_missing_balance_lem held 1273 ("stockholders_equity" ∷ "cash" ∷ []) "cash"
      first_missing_runs

newest_runs :
    newest_balance held ("stockholders_equity" ∷ []) 1300 456
    ≡ some (1273, ("stockholders_equity", pos 20) ∷ [])
unfolding newest_balance
newest_runs = refl

newest_balance_newest_example :
    (1273 ≤ 1300)
    × (1300 ≤ 1273 + 456)
    × (balance_at held ("stockholders_equity" ∷ []) 1273
        ≡ some (("stockholders_equity", pos 20) ∷ []))
    × ((d : ℕ) → d ≤ 1300 → balance_at held ("stockholders_equity" ∷ []) d ≢ none → d ≤ 1273)
newest_balance_newest_example =
    newest_balance_newest held ("stockholders_equity" ∷ []) 1300 456 1273
      (("stockholders_equity", pos 20) ∷ []) newest_runs

cap_runs :
    explain_market_cap whole held (some (pos 2)) (some 1299) (900 ∷ []) 1300 (some "USD") []
    ≡ ok (value (pos 10))
unfolding explain_market_cap
cap_runs = refl

cap_after_split :
    explain_market_cap whole held (some (pos 2)) (some 1299) (1294 ∷ 900 ∷ []) 1300 none []
    ≡ ok (absent (recent_split 1294))
unfolding explain_market_cap
cap_after_split = refl

explain_market_cap-IsMarketCap_example :
    IsMarketCap whole held (some (pos 2)) (some 1299) (900 ∷ []) 1300 (pos 10)
explain_market_cap-IsMarketCap_example =
    explain_market_cap-IsMarketCap whole held (some (pos 2)) (some 1299) (900 ∷ []) 1300
      (some "USD") [] (pos 10) cap_runs

explain_ratios-Returns_example :
    (r : Dict String (Explained (Ratio ℤ))) × (explain_ratios whole held
        (some "banks-regional")
        (some (pos 2))
        (some 1299)
        []
        1300
        (some "USD")
        []
      ≡ ok r)
    × (keys r ≡ keep (λ code. contains code (applicable (some "banks-regional"))) ratio_codes)
explain_ratios-Returns_example =
    explain_ratios-Returns whole whole-DivLaws held (some "banks-regional") (some (pos 2))
      (some 1299) [] 1300 (some "USD") []

compute_ratios-explain_ratios_example :
    compute_ratios whole held (some "banks-regional") (some (pos 2)) (some 1299) [] 1300
    ≡ values_under (
        explain_ratios whole held
          (some "banks-regional")
          (some (pos 2))
          (some 1299)
          []
          1300
          (some "USD")
          (("net_income", euro ∷ []) ∷ []))
compute_ratios-explain_ratios_example =
    compute_ratios-explain_ratios whole held (some "banks-regional") (some (pos 2)) (some 1299) []
      1300 (some "USD") (("net_income", euro ∷ []) ∷ [])

-- A bank: earnings and book yields over a cap of 10, and a return on its equity of 20.
bank_runs :
    compute_ratios whole held (some "banks-regional") (some (pos 2)) (some 1299) [] 1300
    ≡ ok (
        ("earnings_yield", record { value = pos 4; basis = some "TTM"; period_end = 1273 })
        ∷ ("book_yield", record { value = pos 2; basis = none; period_end = 1273 })
        ∷ ("roe", record { value = pos 2; basis = some "TTM"; period_end = 1273 })
        ∷ [])
unfolding compute_ratios earnings_yield book_yield roe ◌>>=◌ ◌>>◌ read absent_if divided basis_for
    newest at_day
bank_runs = refl

percentiles_example_counts :
    percentiles whole (pos 3 ∷ pos 1 ∷ pos 3 ∷ []) true
    ≡ place_all whole whole-OrderLaws 3 true
        (pos 3 ∷ pos 1 ∷ pos 3 ∷ [])
        (pos 3 ∷ pos 1 ∷ pos 3 ∷ [])
percentiles_example_counts =
    percentiles-place_all whole whole-OrderLaws (pos 3) (pos 1) (pos 3 ∷ []) true

-- Quotients are cut off in whole numbers: of three values the middle one lands at 0.
percentiles_run :
    percentiles whole (pos 3 ∷ pos 1 ∷ pos 5 ∷ []) true ≡ ok (pos 0 ∷ pos 0 ∷ pos 100 ∷ [])
unfolding percentiles
percentiles_run = refl

deciles_eleven_example :
    (deciles whole [] ≡ raised value_error)
    × ((v : ℤ) (rest : List ℤ) → (r : List ℤ) × (deciles whole (v ∷ rest) ≡ ok r) × (length r ≡ 11))
deciles_eleven_example = deciles_eleven whole

abbrev groups : Dict ℕ (ℕ × ℕ)
groups = (1, (7, 1)) ∷ (2, (7, 1)) ∷ (3, (8, 1)) ∷ []

abbrev members : List (ℕ × ℤ)
members = (1, pos 4) ∷ (2, pos 6) ∷ (3, pos 5) ∷ []

abbrev placed_at : ℕ → ℕ → ℕ → ℕ → ℕ → ℕ → Placed ℤ
placed_at security v p group size level = record {
  security_id = security;
  code = "roe";
  value = pos v;
  percentile = pos p;
  peer_group_id = group;
  peer_count = size;
  level = level;
}

abbrev stat_of : ℕ → ℕ → List ℤ → GroupStat ℤ
stat_of group size quantiles = record {
  peer_group_id = group;
  code = "roe";
  member_count = size;
  deciles = quantiles;
}

-- Two securities are enough for a group of their own, and the third falls to the market.
abbrev ranked : List (Placed ℤ) × List (GroupStat ℤ)
ranked = (
  placed_at 1 4 0 7 2 1 ∷ placed_at 2 6 100 7 2 1 ∷ placed_at 3 5 0 0 3 0 ∷ [],
  stat_of 7 2
        (pos 4 ∷ pos 4 ∷ pos 4 ∷ pos 4 ∷ pos 4 ∷ pos 4 ∷ pos 4 ∷ pos 4 ∷ pos 4 ∷ pos 4 ∷ pos 6 ∷ [])
      ∷ stat_of 0 3 (
          pos 4
          ∷ pos 4
          ∷ pos 4
          ∷ pos 4
          ∷ pos 4
          ∷ pos 5
          ∷ pos 5
          ∷ pos 5
          ∷ pos 5
          ∷ pos 5
          ∷ pos 6
          ∷ [])
      ∷ [],
)

rank_run : rank_code whole groups 0 2 (("roe", true) ∷ []) "roe" members ≡ ok ranked
unfolding rank_code
rank_run = refl

members-IsDistinct : IsDistinct members
members-IsDistinct = omega arith

rank_code-fair_example :
    All (IsFairlyPlaced whole whole-OrderLaws groups 0 2 true "roe" members) ranked.0
unfolding lookup
rank_code-fair_example =
    rank_code-fair whole whole-OrderLaws groups 0 2 (("roe", true) ∷ []) "roe" members ranked true
      refl members-IsDistinct rank_run

-- each name once, and no name at all and an empty one alike
currencies_run :
    currencies (
      euro
      ∷ record euro { currency = none }
      ∷ fact "eps" 1 "A" 2
      ∷ record euro { currency = some "" }
      ∷ euro
      ∷ [])
    ≡ "EUR" ∷ "USD" ∷ "an unknown currency" ∷ []
unfolding currencies
currencies_run = refl

rank_code-count_example :
    count (λ (p : Placed ℤ). ltb 1 p.security_id) ranked.0
    ≡ count (λ (m : ℕ × ℤ). ltb 1 m.0) members
rank_code-count_example =
    rank_code-count whole (ltb 1) groups 0 2 (("roe", true) ∷ []) "roe" members ranked rank_run

rank_code-Returns_example : Returns (rank_code whole groups 0 2 (("roe", true) ∷ []) "roe" members)
unfolding lookup
rank_code-Returns_example =
    rank_code-Returns whole whole-DivLaws groups 0 2 (("roe", true) ∷ []) "roe" (1, pos 4)
      ((2, pos 6) ∷ (3, pos 5) ∷ []) refl (refl, (refl, (refl, tt)))
