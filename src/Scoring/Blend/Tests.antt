-- ===== src/Scoring/Blend/Tests.antt =====
-- A run of src/screener/scoring/blend.py, and its properties there.
use stock_aggregator.Prelude.{
  is_some, keep, count, any, Dict, lookup, ok, String, ◌≡◌, refl, Option, some, [], ◌∷◌,
}
use stock_aggregator.Prelude.Int.{ℤ, pos}
use stock_aggregator.Prelude.Decimal.Whole.{whole, whole-DivLaws, whole-OrderLaws, whole-AddLaws}
use stock_aggregator.Scoring.Blend.{
  PillarScore, Snapshot, values_of, least_level, sum_from, min_from, min_of, score_pillar,
  has_weight, weights_of, weighted_scores, coverages, snapshot_of, blend,
}
use stock_aggregator.Scoring.Blend.Laws.{blend-Returns, CoversAll, blend-CoversAll}

abbrev momentum : PillarScore ℤ
momentum = record { score = pos 80; metric_count = 4; coverage = pos 1 }

abbrev quality : PillarScore ℤ
quality = record { score = pos 50; metric_count = 2; coverage = pos 1 }

abbrev pillars : Dict String (PillarScore ℤ)
pillars = ("momentum", momentum) ∷ ("quality", quality) ∷ []

abbrev weights : Dict String ℤ
weights = ("momentum", pos 2) ∷ ("quality", pos 0) ∷ ("valuation", pos 1) ∷ []

abbrev blended : Snapshot ℤ
blended = record {
  blended_score = pos 80;
  pillar_agreement = 1;
  min_coverage = pos 0;
  worst_fallback_level = 1;
}

blend_run : blend whole pillars weights (2 ∷ 1 ∷ []) ≡ ok (some blended)
unfolding blend snapshot_of weights_of weighted_scores sum_from min_of min_from coverages count
    values_of least_level keep lookup
blend_run = refl

score_run :
    score_pillar whole (("a", pos 10) ∷ ("b", pos 20) ∷ []) 2
    ≡ ok (some (record { score = pos 15; metric_count = 2; coverage = pos 1 }))
unfolding score_pillar values_of sum_from
score_run = refl

blend-Returns_example :
    (out : Option (Snapshot ℤ)) × (blend whole pillars weights [] ≡ ok out)
    × (is_some out ≡ any (has_weight whole weights) pillars)
blend-Returns_example =
    blend-Returns whole whole-OrderLaws whole-DivLaws whole-AddLaws pillars weights []

blend-CoversAll_example : CoversAll whole whole-OrderLaws pillars weights (pos 0)
blend-CoversAll_example =
    blend-CoversAll whole whole-OrderLaws pillars weights (2 ∷ 1 ∷ []) blended blend_run
