-- ===== src/Universe/Reconcile.antt =====
-- src/screener/universe/reconcile.py: what changed between the file of the universe and the stored
-- securities, and the ceiling of `apply` in load.py. Regular expressions are the parameter Regex.
pub mod Reference
pub mod Ambiguity
mod Tests
use stock_aggregator.Prelude.{
  ltb, if◌then◌else◌, ◌==◌, is_some, length, keep, count, Dict, lookup, insert, Outcome,
  ambiguous_identity, ok, raised, ℕ, ◌+◌, ◌-◌, ◌*◌, ◌^◌, String, Bool, true, false, not, ◌&&◌, ◌||◌,
  Option, none, some, List, [], ◌∷◌, ◌++◌, ◌>>=◌, ℕ_key, String_key,
}

pub record UniverseRow : Type 0 where
  pub symbol : String
  pub name : String
  pub index_name : String
  pub mic : String
  pub currency : String
  pub cik : String
  pub yf_sector : String
  pub yf_industry : String
  pub gics_sector : String

pub record ExistingSecurity : Type 0 where
  pub id : ℕ
  pub cik : String
  pub symbol : String
  -- null where the security has no classification
  pub industry_code : Option String
  pub is_active : Bool

abbrev pub Pair : Type 0
Pair = ExistingSecurity × UniverseRow

pub record Plan : Type 0 where
  pub new : List UniverseRow
  pub departed : List ExistingSecurity
  pub reclassified : List Pair
  pub renamed : List Pair
  pub reentered : List Pair
  pub unchanged : ℕ
  pub active_before : ℕ

-- `re.sub(pattern, replacement, text)`, `text.lower()` and `text.strip(characters)`
pub record Regex : Type 0 where
  pub sub : String → String → String → String
  pub lower : String → String
  pub strip : String → String → String

-- What the loop over the rows of the file has found so far.
pub record Progress : Type 0 where
  pub new : List UniverseRow
  pub reclassified : List Pair
  pub renamed : List Pair
  pub reentered : List Pair
  pub unchanged : ℕ
  pub seen : Dict ℕ String

abbrev pub nothing_yet : Progress
nothing_yet = record {
  new = [];
  reclassified = [];
  renamed = [];
  reentered = [];
  unchanged = 0;
  seen = [];
}

-- `{e.cik: e for e in existing if e.cik}`: the last of one key stays
unfoldable pub by_cik_from :
    Dict String ExistingSecurity → List ExistingSecurity → Dict String ExistingSecurity
unfolding insert
by_cik_from found [] = found
by_cik_from found (e ∷ existing) =
    let rest = by_cik_from (insert e.cik e found) existing in
    let skipped = by_cik_from found existing in if e.cik == "" then skipped else rest

unfoldable pub by_symbol_from :
    Dict String ExistingSecurity → List ExistingSecurity → Dict String ExistingSecurity
unfolding insert
by_symbol_from found [] = found
by_symbol_from found (e ∷ existing) = by_symbol_from (insert e.symbol e found) existing

-- The stored security that a row is about: by CIK, then by symbol.
unfoldable pub match_of : List ExistingSecurity → UniverseRow → Option ExistingSecurity
unfolding by_cik_from by_symbol_from lookup
match_of existing row =
    let by_symbol = lookup row.symbol (by_symbol_from [] existing) in
    if row.cik == ""
    then by_symbol
    else elim (lookup row.cik (by_cik_from [] existing)) [ none ↦ by_symbol | some e ↦ some e ]

abbrev pub is_reentered : Pair → Bool
is_reentered (e, row) = not e.is_active

abbrev pub is_renamed : Pair → Bool
is_renamed (e, row) = not (e.symbol == row.symbol)

-- `lst.append(x)` under an `if`
abbrev pub append_if : {A : Type 0} → (A → Bool) → A → List A → List A
append_if test x xs = if test x then xs ++ x ∷ [] else xs

module _ (regex : Regex) where
  unfoldable pub slugify : String → String
  slugify text =
      regex.strip (regex.sub "-+" "-" (regex.sub "[^a-z0-9]+" "-" (regex.lower text))) "-"

  -- `slugify(row.yf_industry or row.yf_sector)`
  abbrev pub classification : UniverseRow → String
  classification row = slugify (if row.yf_industry == "" then row.yf_sector else row.yf_industry)

  abbrev pub is_reclassified : Pair → Bool
  is_reclassified (e, row) = elim e.industry_code [
    | none ↦ true
    | some code ↦ not (code == classification row)
  ]

  abbrev pub is_unchanged : Pair → Bool
  is_unchanged pair = not (is_reentered pair || is_renamed pair || is_reclassified pair)

  -- The body of the loop once a row is matched.
  unfoldable pub settled : ExistingSecurity → UniverseRow → Progress → Progress
  unfolding insert
  settled e row p = record p {
    reentered = append_if is_reentered (e, row) p.reentered;
    renamed = append_if is_renamed (e, row) p.renamed;
    reclassified = append_if is_reclassified (e, row) p.reclassified;
    unchanged = p.unchanged + (if is_unchanged (e, row) then 1 else 0);
    seen = insert e.id row.symbol p.seen;
  }

  unfoldable pub take_row : List ExistingSecurity → UniverseRow → Progress → Outcome Progress
  unfolding match_of settled lookup
  take_row existing row p = elim (match_of existing row) [
    | none ↦ ok (record p { new = p.new ++ row ∷ [] })
    | some e ↦
        if is_some (lookup e.id p.seen) then raised ambiguous_identity else ok (settled e row p)
  ]

  unfoldable pub take_rows : List ExistingSecurity → List UniverseRow → Progress → Outcome Progress
  unfolding take_row
  take_rows existing [] p = ok p
  take_rows existing (row ∷ rows) p = do q ← take_row existing row p; take_rows existing rows q

  unfoldable pub plan : List UniverseRow → List ExistingSecurity → Outcome Plan
  unfolding take_rows keep count lookup
  plan rows existing = do
    p ← take_rows existing rows nothing_yet
    ok (record {
      new = p.new;
      departed =
          keep (λ (e : ExistingSecurity). e.is_active && not (is_some (lookup e.id p.seen)))
            existing;
      reclassified = p.reclassified;
      renamed = p.renamed;
      reentered = p.reentered;
      unchanged = p.unchanged;
      active_before = count (λ (e : ExistingSecurity). e.is_active) existing;
    })

-- `departure_share > DEPARTURE_CEILING`, a tenth
abbrev pub exceeds_ceiling : Plan → Bool
exceeds_ceiling p =
    if p.active_before == 0 then false else ltb p.active_before (10 * length p.departed)

abbrev pub is_empty_list : {A : Type 0} → List A → Bool
is_empty_list [] = true
is_empty_list (x ∷ xs) = false

abbrev pub is_empty : Plan → Bool
is_empty p =
    is_empty_list p.new
    && is_empty_list p.departed
    && is_empty_list p.reclassified
    && is_empty_list p.renamed
    && is_empty_list p.reentered
