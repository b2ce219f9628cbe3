-- ===== src/Scoring/Ranking/Returning.antt =====
-- The lookups and divisions of `rank` of src/screener/scoring/ranking.py, for one metric.
use stock_aggregator.Prelude.{
  ℕ, String, ◌≡◌, refl, ◌∙◌, inl, inr, Bool, true, ◌||◌, Option, none, some, List, [], ◌∷◌, ◌++◌,
  ltb, length, All, Bool-cases, ◌==◌, ℕ_key, String_key, Dict, lookup, insert, push, lookup-insert,
  arith, ok, Returns, Returns-bind, or_raise, key_error, is_some,
}
use stock_aggregator.Prelude.Decimal.{Decimal, DivLaws}
use stock_aggregator.Scoring.Basis.Cap.{truthy}
use stock_aggregator.Scoring.Percentile.{percentiles, deciles}
use stock_aggregator.Scoring.Percentile.Deciles.{deciles-Returns}
use stock_aggregator.Scoring.Percentile.Returning.{percentiles-Returns}
use stock_aggregator.Scoring.Ranking.{
  Placed, GroupStat, Member, fill_buckets, zip_placed, level_of, zip_market, place_fallen,
  values_of, rank_buckets, rank_fallen, rank_code,
}
use stock_aggregator.Scoring.Ranking.Placement.{length-percentiles, length-map}

found-Returns : {A : Type 0} (o : Option A) → is_some o ≡ true → Returns (or_raise key_error o)
found-Returns none h = cc h
found-Returns (some a) h = (a, refl)

All-append : {A : Type 0} (P : A → Type 0) (xs ys : List A) → All P xs → All P ys → All P (xs ++ ys)
All-append P [] ys h k = k
All-append P (x ∷ xs) ys h k = (h.0, All-append P xs ys h.1 k)

module _ {Num : Type 0} (P : Member Num → Type 0) where
  -- every bucket has a member, and all of them have the property
  abbrev GoodBuckets : Dict ℕ (List (Member Num)) → Type 0
  GoodBuckets buckets = All (λ b. (truthy b.1 ≡ true) × All P b.1) buckets

  truthy-append : (l : List (Member Num)) (m : Member Num) → truthy (l ++ m ∷ []) ≡ true
  truthy-append [] m = refl
  truthy-append (x ∷ l) m = refl

  push-GoodBuckets :
      (g : ℕ) (m : Member Num) (buckets : Dict ℕ (List (Member Num)))
      → P m
      → GoodBuckets buckets
      → GoodBuckets (push g m buckets)
  unfolding push
  push-GoodBuckets g m [] p h = ((refl, (p, tt)), tt)
  push-GoodBuckets g m ((j, l) ∷ buckets) p h = elim (Bool-cases (j == g)) [
    | inl same ↦ rw same ((truthy-append l m, All-append P l (m ∷ []) h.0.1 (p, tt)), h.1)
    | inr other ↦ rw other (h.0, push-GoodBuckets g m buckets p h.1)
  ]

  fill_buckets-GoodBuckets :
      (groups : Dict ℕ (ℕ × ℕ)) (members : List (Member Num)) (buckets : Dict ℕ (List (Member Num)))
      → All (λ m. is_some (lookup m.0 groups) ≡ true) members
      → All P members
      → GoodBuckets buckets
      → (r : Dict ℕ (List (Member Num))) × (fill_buckets groups members buckets ≡ ok r)
        × GoodBuckets r
  unfolding fill_buckets
  fill_buckets-GoodBuckets groups [] buckets k p h = (buckets, refl, h)
  fill_buckets-GoodBuckets groups (m ∷ members) buckets k p h =
      let (g, eg) = found-Returns (lookup m.0 groups) k.0 in
      let (r, er, hr) =
        fill_buckets-GoodBuckets groups members (push g.0 m buckets) k.1 p.1
          (push-GoodBuckets g.0 m buckets p.0 h) in
      (r, rw eg er, hr)

-- what `zip_market` holds: every member that has a percentile
lookup-zip_market_keeps :
    {Num : Type 0} (members : List (Member Num)) (ranked : List Num) (market : Dict ℕ Num) (x : ℕ)
    → is_some (lookup x market) ≡ true
    → is_some (lookup x (zip_market members ranked market)) ≡ true
unfolding zip_market
lookup-zip_market_keeps [] ranked market x h = h
lookup-zip_market_keeps (m ∷ members) [] market x h = h
lookup-zip_market_keeps (m ∷ members) (p ∷ ranked) market x h =
    lookup-zip_market_keeps members ranked (insert m.0 p market) x
      (ground (arith, lookup-insert m.0 x p market))

zip_market-All :
    {Num : Type 0} (members : List (Member Num)) (ranked : List Num) (market : Dict ℕ Num)
    → length ranked ≡ length members
    → All (λ m. is_some (lookup m.0 (zip_market members ranked market)) ≡ true) members
unfolding zip_market
zip_market-All [] ranked market e = tt
zip_market-All (m ∷ members) [] market e = absurd (omega arith)
zip_market-All (m ∷ members) (p ∷ ranked) market e = (
  lookup-zip_market_keeps members ranked (insert m.0 p market) m.0
      (ground (arith, lookup-insert m.0 m.0 p market, ℕ_key.same_iff m.0 m.0)),
  zip_market-All members ranked (insert m.0 p market) (omega arith),
)

place_fallen-Returns :
    {Num : Type 0} (code : String) (g n : ℕ) (market : Dict ℕ Num) (fallen : List (Member Num))
    → All (λ m. is_some (lookup m.0 market) ≡ true) fallen
    → Returns (place_fallen code g n market fallen)
unfolding place_fallen
place_fallen-Returns code g n market [] h = ([], refl)
place_fallen-Returns code g n market (m ∷ fallen) h =
    Returns-bind _ _ (found-Returns (lookup m.0 market) h.0)
      λ p _. Returns-bind _ _ (place_fallen-Returns code g n market fallen h.1) λ rest _. (_, refl)

module _ (D : Decimal) (L : DivLaws D) (groups : Dict ℕ (ℕ × ℕ)) (market_id min_peers : ℕ) where
  open D use {Num}

  deciles_of : (l : List (Member Num)) → truthy l ≡ true → Returns (deciles D (values_of l))
  deciles_of [] h = cc h
  deciles_of (m ∷ l) h = let (r, e, _) = deciles-Returns D m.1 (values_of l) in (r, e)

  level_of-Returns :
      (l : List (Member Num))
      → truthy l ≡ true
      → All (λ m. is_some (lookup m.0 groups) ≡ true) l
      → Returns (level_of groups l)
  unfolding level_of
  level_of-Returns [] h k = cc h
  level_of-Returns (m ∷ l) h k =
      Returns-bind _ _ (found-Returns (lookup m.0 groups) k.0) λ g _. (_, refl)

  module _ (market : Dict ℕ Num) where
    -- the member has a group, and a percentile against the market
    abbrev IsKnown : Member Num → Type 0
    IsKnown m = (is_some (lookup m.0 groups) ≡ true) × (is_some (lookup m.0 market) ≡ true)

    All-group :
        (l : List (Member Num)) → All IsKnown l → All (λ m. is_some (lookup m.0 groups) ≡ true) l
    All-group [] h = tt
    All-group (m ∷ l) h = (h.0.0, All-group l h.1)

    All-market :
        (l : List (Member Num)) → All IsKnown l → All (λ m. is_some (lookup m.0 market) ≡ true) l
    All-market [] h = tt
    All-market (m ∷ l) h = (h.0.1, All-market l h.1)

    All-IsKnown :
        (l : List (Member Num))
        → All (λ m. is_some (lookup m.0 groups) ≡ true) l
        → All (λ m. is_some (lookup m.0 market) ≡ true) l
        → All IsKnown l
    All-IsKnown [] h k = tt
    All-IsKnown (m ∷ l) h k = ((h.0, k.0), All-IsKnown l h.1 k.1)

    rank_buckets-Returns :
        (code : String) (direction : Bool) (buckets : Dict ℕ (List (Member Num)))
        → GoodBuckets IsKnown buckets
        → (r : List (Placed Num) × List (GroupStat Num) × List (Member Num)) × (rank_buckets D
              groups market_id min_peers code direction buckets
            ≡ ok r)
          × All IsKnown r.2
    unfolding rank_buckets
    rank_buckets-Returns code direction [] h = (([], [], []), refl, tt)
    rank_buckets-Returns code direction ((g, bucket) ∷ buckets) h =
        let (o, eo, ho) = rank_buckets-Returns code direction buckets h.1 in
        let (level, el) = level_of-Returns bucket h.0.0 (All-group bucket h.0.1) in
        let (ranked, ek) = percentiles-Returns D L (values_of bucket) direction in
        let (quantiles, ed) = deciles_of bucket h.0.0 in
        elim (Bool-cases (g == market_id || ltb (length bucket) min_peers)) [
          | inl falls ↦
              ((o.0, o.1, bucket ++ o.2), rw (falls, eo), All-append IsKnown bucket o.2 h.0.1 ho)
          | inr stays ↦ (
            (
              zip_placed code g (length bucket) level bucket ranked ++ o.0,
              (record {
                peer_group_id = g;
                code = code;
                member_count = length bucket;
                deciles = quantiles;
              })
                  ∷ o.1,
              o.2,
            ),
            rw (stays, el, ek, ed, eo),
            ho,
          )
        ]

  -- Ranking a metric that has members and a direction returns, with no missing key, no index out of
  -- range and no division by zero, where every member has a group.
  pub rank_code-Returns :
      (higher_is_better : Dict String Bool) (code : String) (member : Member Num)
      (rest : List (Member Num))
      → is_some (lookup code higher_is_better) ≡ true
      → All (λ m. is_some (lookup m.0 groups) ≡ true) (member ∷ rest)
      → Returns (rank_code D groups market_id min_peers higher_is_better code (member ∷ rest))
  unfolding rank_code
  rank_code-Returns higher_is_better code member rest known groups_known =
      let members = member ∷ rest in
      Returns-bind _ _ (found-Returns (lookup code higher_is_better) known) λ direction _.
        let (ps, ep) = percentiles-Returns D L (values_of members) direction in
        let market = zip_market members ps [] in
        let in_market = zip_market-All members ps [] (
          length-percentiles D (values_of members) direction ps ep
          ∙ length-map (λ (m : Member Num). m.1) members) in
        let (buckets, eb, hb) =
          fill_buckets-GoodBuckets (IsKnown market) groups members [] groups_known
            (All-IsKnown market members groups_known in_market) tt in
        let (ranked, er, hr) = rank_buckets-Returns market code direction buckets hb in
        let (placed, eq) =
          fallen-Returns direction ps ep ranked.2 (All-market market ranked.2 hr) in
        ((ranked.0 ++ placed.0, ranked.1 ++ placed.1), rw (eb, er, eq))
    where
      fallen-Returns :
          (direction : Bool) (ps : List Num)
          → percentiles D (values_of (member ∷ rest)) direction ≡ ok ps
          → (fallen : List (Member Num))
          → All (λ m. is_some (lookup m.0 (zip_market (member ∷ rest) ps [])) ≡ true) fallen
          → Returns (rank_fallen D groups market_id min_peers code direction (member ∷ rest) fallen)
      fallen-Returns direction ps ep [] h = unfold rank_fallen in (_, refl)
      fallen-Returns direction ps ep (first ∷ fallen) h =
          let (placed, e) =
            place_fallen-Returns code market_id (length (member ∷ rest))
              (zip_market (member ∷ rest) ps []) (first ∷ fallen) h in
          let (quantiles, ed) = deciles_of (member ∷ rest) refl in
          unfold rank_fallen in
          (
            (
              placed,
              (record {
                peer_group_id = market_id;
                code = code;
                member_count = length (member ∷ rest);
                deciles = quantiles;
              })
                  ∷ [],
            ),
            rw (ep, e, ed),
          )
