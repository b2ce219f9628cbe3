-- ===== src/Scoring/Blend.antt =====
-- src/screener/scoring/pillars.py and blend.py: percentiles into a pillar's score, and pillars into
-- one snapshot.
pub mod Laws
mod Tests
use stock_aggregator.Prelude.{
  String_key, if◌then◌else◌, length, keep, count, Dict, lookup, Outcome, or_raise, key_error,
  value_error, ok, raised, ℕ, min, String, Bool, Option, none, some, List, [], ◌∷◌, ◌>>=◌,
}
use stock_aggregator.Prelude.Decimal.{Decimal, of_ℕ, le, min_num}
use stock_aggregator.Scoring.Percentile.{divide}

module _ (Num : Type 0) where
  pub record PillarScore : Type 0 where
    pub score : Num
    pub metric_count : ℕ
    pub coverage : Num

  pub record Snapshot : Type 0 where
    pub blended_score : Num
    pub pillar_agreement : ℕ
    pub min_coverage : Num
    pub worst_fallback_level : ℕ

unfoldable pub values_of : {V : Type 0} → Dict String V → List V
values_of [] = []
values_of ((code, v) ∷ d) = v ∷ values_of d

-- `min(fallback_levels) if fallback_levels else 0`
unfoldable pub least_level : List ℕ → ℕ
least_level [] = 0
least_level (level ∷ []) = level
least_level (level ∷ next ∷ levels) = min level (least_level (next ∷ levels))

module _ (D : Decimal) where
  open D use {Num, add, mul, lt}

  abbrev pub agreement_threshold : Num
  agreement_threshold = of_ℕ D 75

  -- `sum(…, start)`
  unfoldable pub sum_from : Num → List Num → Num
  sum_from start [] = start
  sum_from start (x ∷ xs) = sum_from (add start x) xs

  -- `min(…)` of what a generator gives; the first of equals is kept
  unfoldable pub min_from : Num → List Num → Num
  min_from least [] = least
  min_from least (x ∷ xs) = min_from (min_num D least x) xs

  unfoldable pub min_of : List Num → Outcome Num
  unfolding min_from
  min_of [] = raised value_error
  min_of (x ∷ xs) = ok (min_from x xs)

  unfoldable pub score_pillar : Dict String Num → ℕ → Outcome (Option (PillarScore Num))
  unfolding values_of sum_from
  score_pillar [] expected = ok none
  score_pillar (first ∷ rest) expected = do
    let present = values_of (first ∷ rest)
    score ← divide D (sum_from (of_ℕ D 0) present) (of_ℕ D (length present))
    coverage ← divide D (of_ℕ D (length present)) (of_ℕ D expected)
    ok (some (record { score = score; metric_count = length present; coverage = coverage }))

  -- `weights.get(code, Decimal(0)) > 0`
  abbrev pub has_weight : Dict String Num → String × PillarScore Num → Bool
  has_weight weights pillar = elim (lookup (pillar.0) weights) [
    | none ↦ lt (of_ℕ D 0) (of_ℕ D 0)
    | some weight ↦ lt (of_ℕ D 0) weight
  ]

  -- `weights[code] for code in contributing`
  unfoldable pub weights_of : Dict String Num → Dict String (PillarScore Num) → Outcome (List Num)
  unfolding lookup
  weights_of weights [] = ok []
  weights_of weights ((code, pillar) ∷ rest) = do
    weight ← or_raise key_error (lookup code weights)
    more ← weights_of weights rest
    ok (weight ∷ more)

  -- `weights[code] * pillar.score for code, pillar in contributing.items()`
  unfoldable pub weighted_scores :
      Dict String Num → Dict String (PillarScore Num) → Outcome (List Num)
  unfolding lookup
  weighted_scores weights [] = ok []
  weighted_scores weights ((code, pillar) ∷ rest) = do
    weight ← or_raise key_error (lookup code weights)
    more ← weighted_scores weights rest
    ok (mul weight pillar.score ∷ more)

  -- `pillars[code].coverage if code in pillars else Decimal(0)`
  abbrev pub coverage_of : Dict String (PillarScore Num) → String → Num
  coverage_of pillars code = elim (lookup code pillars) [
    | none ↦ of_ℕ D 0
    | some pillar ↦ pillar.coverage
  ]

  unfoldable pub coverages : Dict String (PillarScore Num) → Dict String Num → List Num
  unfolding lookup
  coverages pillars [] = []
  coverages pillars ((code, weight) ∷ weights) =
      let rest = coverages pillars weights in
      if lt (of_ℕ D 0) weight then coverage_of pillars code ∷ rest else rest

  abbrev pub snapshot : Dict String (PillarScore Num) → List ℕ → Num → Num → Snapshot Num
  snapshot contributing fallback_levels blended least = record {
    blended_score = blended;
    pillar_agreement =
        count (λ (p : PillarScore Num). le D agreement_threshold p.score) (values_of contributing);
    min_coverage = least;
    worst_fallback_level = least_level fallback_levels;
  }

  unfoldable pub snapshot_of :
      Dict String (PillarScore Num)
      → Dict String Num
      → List ℕ
      → Dict String (PillarScore Num)
      → Outcome (Option (Snapshot Num))
  unfolding weights_of weighted_scores sum_from min_of coverages count values_of least_level
  snapshot_of pillars weights fallback_levels [] = ok none
  snapshot_of pillars weights fallback_levels (first ∷ rest) = do
    let contributing = first ∷ rest
    parts ← weights_of weights contributing
    products ← weighted_scores weights contributing
    blended ← divide D (sum_from (of_ℕ D 0) products) (sum_from (of_ℕ D 0) parts)
    least ← min_of (coverages pillars weights)
    ok (some (snapshot contributing fallback_levels blended least))

  unfoldable pub blend :
      Dict String (PillarScore Num) → Dict String Num → List ℕ → Outcome (Option (Snapshot Num))
  unfolding snapshot_of keep lookup
  blend pillars weights fallback_levels =
      snapshot_of pillars weights fallback_levels (keep (has_weight weights) pillars)
