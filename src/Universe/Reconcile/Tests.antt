-- ===== src/Universe/Reconcile/Tests.antt =====
-- A run of src/screener/universe/reconcile.py, and its properties there.
use stock_aggregator.Prelude.{
  length, keep, count, any, lookup, insert, Error, Returns, ambiguous_identity, ok, raised, ℕ, ◌≤◌,
  String, ◌≡◌, refl, ◌↔◌, Bool, true, some, false, List, [], ◌∷◌,
}
use stock_aggregator.Universe.Reconcile.{
  UniverseRow, ExistingSecurity, Plan, Regex, by_cik_from, by_symbol_from, match_of, slugify,
  settled, take_row, take_rows, plan,
}
use stock_aggregator.Universe.Reconcile.Reference.{pairs, resolving, reference, plan-reference}
use stock_aggregator.Universe.Reconcile.Ambiguity.{plan-Returns}

abbrev regex : Regex
regex = record {
  sub = λ pattern replacement text. text;
  lower = λ text. text;
  strip = λ text characters. text;
}

abbrev row_of : String → String → String → UniverseRow
row_of symbol cik industry = record {
  symbol = symbol;
  name = symbol;
  index_name = "S&P 500";
  mic = "XNYS";
  currency = "USD";
  cik = cik;
  yf_sector = "technology";
  yf_industry = industry;
  gics_sector = "";
}

abbrev security : ℕ → String → String → Bool → ExistingSecurity
security id cik symbol is_active = record {
  id = id;
  cik = cik;
  symbol = symbol;
  industry_code = some "software";
  is_active = is_active;
}

abbrev existing : List ExistingSecurity
existing = security 1 "0001" "FB" true ∷ security 2 "" "IBM" true ∷ security 3 "" "GE" false ∷ []

abbrev rows : List UniverseRow
rows = row_of "META" "0001" "software" ∷ row_of "GE" "" "engines" ∷ row_of "NEW" "" "software" ∷ []

abbrev planned : Plan
planned = reference regex existing rows

plan_run : plan regex rows existing ≡ ok planned
unfolding plan take_rows take_row match_of by_cik_from by_symbol_from settled slugify lookup insert
    keep count pairs any
plan_run = refl

sizes_run :
    (length planned.new ≡ 1)
    × (length planned.departed ≡ 1)
    × (length planned.renamed ≡ 1)
    × (length planned.reentered ≡ 1)
unfolding match_of by_cik_from by_symbol_from slugify lookup insert keep pairs any
sizes_run = (refl, refl, refl, refl)

plan-reference_example : planned ≡ reference regex existing rows
plan-reference_example = plan-reference regex existing rows planned plan_run

abbrev twice : List UniverseRow
twice = row_of "META" "0001" "software" ∷ row_of "FB" "" "software" ∷ []

ambiguous_run : plan regex twice existing ≡ raised ambiguous_identity
unfolding plan take_rows take_row match_of by_cik_from by_symbol_from settled slugify lookup insert
ambiguous_run = refl

plan-Returns_example :
    (Returns (plan regex twice existing) ↔ ((id : ℕ) → resolving regex existing id twice ≤ 1))
    × ((e : Error) → plan regex twice existing ≡ raised e → e ≡ ambiguous_identity)
plan-Returns_example = plan-Returns regex existing twice
