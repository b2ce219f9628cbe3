-- ===== src/Scoring/Ranking.antt =====
-- src/screener/scoring/ranking.py: values into percentiles, within a peer group when it has enough
-- values, else against the whole market.
pub mod Buckets
pub mod Peers
pub mod Placement
pub mod Returning
pub mod Standing
use stock_aggregator.Prelude.{
  ℕ, String, Bool, true, false, ◌||◌, Option, none, some, List, [], ◌∷◌, ◌++◌, map, ltb,
  if◌then◌else◌, ◌==◌, ℕ_key, String_key, Dict, lookup, insert, push, length, Outcome, ok, raised,
  ◌>>=◌, or_raise, key_error, index_error,
}
use stock_aggregator.Prelude.Decimal.{Decimal}
use stock_aggregator.Scoring.Percentile.{percentiles, deciles}

module _ (Num : Type 0) where
  pub record Placed : Type 0 where
    pub security_id : ℕ
    pub code : String
    pub value : Num
    pub percentile : Num
    pub peer_group_id : ℕ
    pub peer_count : ℕ
    pub level : ℕ

  pub record GroupStat : Type 0 where
    pub peer_group_id : ℕ
    pub code : String
    pub member_count : ℕ
    pub deciles : List Num

  -- a security with its value
  abbrev pub Member : Type 0
  Member = ℕ × Num

module _ {Num : Type 0} where
  -- the inner loop that fills `by_code`
  unfoldable pub collect_metrics :
      ℕ → Dict String Num → Dict String (List (Member Num)) → Dict String (List (Member Num))
  unfolding push
  collect_metrics security_id [] by_code = by_code
  collect_metrics security_id ((code, value) ∷ metrics) by_code =
      collect_metrics security_id metrics (push code (security_id, value) by_code)

  unfoldable pub collect :
      Dict ℕ (Dict String Num) → Dict String (List (Member Num)) → Dict String (List (Member Num))
  unfolding collect_metrics
  collect [] by_code = by_code
  collect ((security_id, metrics) ∷ values) by_code =
      collect values (collect_metrics security_id metrics by_code)

  -- the loop that fills `buckets`; `groups[security_id][0]`
  unfoldable pub fill_buckets :
      Dict ℕ (ℕ × ℕ)
      → List (Member Num)
      → Dict ℕ (List (Member Num))
      → Outcome (Dict ℕ (List (Member Num)))
  unfolding push lookup
  fill_buckets groups [] buckets = ok buckets
  fill_buckets groups (member ∷ members) buckets = do
    group ← or_raise key_error (lookup member.0 groups)
    fill_buckets groups members (push group.0 member buckets)

  -- the loop over `zip(bucket, ranked)`
  unfoldable pub zip_placed : String → ℕ → ℕ → ℕ → List (Member Num) → List Num → List (Placed Num)
  zip_placed code group size level [] ranked = []
  zip_placed code group size level (member ∷ bucket) [] = []
  zip_placed code group size level (member ∷ bucket) (percentile ∷ ranked) =
      (record {
        security_id = member.0;
        code = code;
        value = member.1;
        percentile = percentile;
        peer_group_id = group;
        peer_count = size;
        level = level;
      })
      ∷ zip_placed code group size level bucket ranked

  -- `groups[bucket[0][0]][1]`
  unfoldable pub level_of : Dict ℕ (ℕ × ℕ) → List (Member Num) → Outcome ℕ
  unfolding lookup
  level_of groups [] = raised index_error
  level_of groups (member ∷ bucket) = do
    group ← or_raise key_error (lookup member.0 groups)
    ok group.1

  -- `dict(zip(ids, percentiles))`
  unfoldable pub zip_market : List (Member Num) → List Num → Dict ℕ Num → Dict ℕ Num
  unfolding insert
  zip_market [] ranked market = market
  zip_market (member ∷ members) [] market = market
  zip_market (member ∷ members) (percentile ∷ ranked) market =
      zip_market members ranked (insert member.0 percentile market)

  -- the loop over `fallen`
  unfoldable pub place_fallen :
      String → ℕ → ℕ → Dict ℕ Num → List (Member Num) → Outcome (List (Placed Num))
  unfolding lookup
  place_fallen code market_id size market [] = ok []
  place_fallen code market_id size market (member ∷ fallen) = do
    percentile ← or_raise key_error (lookup member.0 market)
    rest ← place_fallen code market_id size market fallen
    ok (
        (record {
          security_id = member.0;
          code = code;
          value = member.1;
          percentile = percentile;
          peer_group_id = market_id;
          peer_count = size;
          level = 0;
        })
        ∷ rest)

  abbrev pub values_of : List (Member Num) → List Num
  values_of = map (λ m. m.1)

module _ (D : Decimal) (groups : Dict ℕ (ℕ × ℕ)) (market_id min_peers : ℕ) where
  open D use {Num}

  -- The loop over `buckets`: what was placed, the decile rows, and the members that fell.
  unfoldable pub rank_buckets :
      String
      → Bool
      → Dict ℕ (List (Member Num))
      → Outcome (List (Placed Num) × List (GroupStat Num) × List (Member Num))
  unfolding level_of zip_placed percentiles deciles
  rank_buckets code direction [] = ok ([], [], [])
  rank_buckets code direction ((group_id, bucket) ∷ buckets) =
      let others = rank_buckets code direction buckets in
      if group_id == market_id || ltb (length bucket) min_peers
      then (do (placed, stats, fallen) ← others; ok (placed, stats, bucket ++ fallen))
      else do
        level ← level_of groups bucket
        ranked ← percentiles D (values_of bucket) direction
        quantiles ← deciles D (values_of bucket)
        (placed, stats, fallen) ← others
        ok (
          zip_placed code group_id (length bucket) level bucket ranked ++ placed,
          (record {
            peer_group_id = group_id;
            code = code;
            member_count = length bucket;
            deciles = quantiles;
          })
              ∷ stats,
          fallen,
        )

  -- `if fallen:`, against everyone with the metric
  unfoldable pub rank_fallen :
      String
      → Bool
      → List (Member Num)
      → List (Member Num)
      → Outcome (List (Placed Num) × List (GroupStat Num))
  unfolding zip_market place_fallen percentiles deciles
  rank_fallen code direction members [] = ok ([], [])
  rank_fallen code direction members (first ∷ fallen) = do
    ranked ← percentiles D (values_of members) direction
    placed ←
        place_fallen code market_id (length members) (zip_market members ranked []) (first ∷ fallen)
    quantiles ← deciles D (values_of members)
    ok (
      placed,
      (record {
        peer_group_id = market_id;
        code = code;
        member_count = length members;
        deciles = quantiles;
      })
          ∷ [],
    )

  -- one pass of the loop over `by_code`
  unfoldable pub rank_code :
      Dict String Bool
      → String
      → List (Member Num)
      → Outcome (List (Placed Num) × List (GroupStat Num))
  unfolding lookup fill_buckets rank_buckets rank_fallen
  rank_code higher_is_better code members = do
    direction ← or_raise key_error (lookup code higher_is_better)
    buckets ← fill_buckets groups members []
    ranked ← rank_buckets code direction buckets
    market ← rank_fallen code direction members ranked.2
    ok (ranked.0 ++ market.0, ranked.1 ++ market.1)

  unfoldable pub rank_codes :
      Dict String Bool
      → Dict String (List (Member Num))
      → Outcome (List (Placed Num) × List (GroupStat Num))
  unfolding rank_code
  rank_codes higher_is_better [] = ok ([], [])
  rank_codes higher_is_better ((code, members) ∷ by_code) = do
    here ← rank_code higher_is_better code members
    rest ← rank_codes higher_is_better by_code
    ok (here.0 ++ rest.0, here.1 ++ rest.1)

  unfoldable pub rank :
      Dict ℕ (Dict String Num)
      → Dict String Bool
      → Outcome (List (Placed Num) × List (GroupStat Num))
  unfolding collect rank_codes
  rank values higher_is_better = rank_codes higher_is_better (collect values [])
