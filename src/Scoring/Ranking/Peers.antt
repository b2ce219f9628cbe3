-- ===== src/Scoring/Ranking/Peers.antt =====
-- Against whom `rank` of src/screener/scoring/ranking.py places a value.
use stock_aggregator.Prelude.{
  ℕ, String, ◌≡◌, ◌≢◌, ◌≤◌, ◌<◌, refl, subst, sym, ◌⊎◌, inl, inr, Bool, true, false, ◌||◌, List, [],
  ◌∷◌, ◌++◌, ltb, length, keep, All, Has, Bool-cases, ◌==◌, ℕ_key, String_key, Dict, lookup, Option,
  some, arith, ok, or_raise, key_error, bind-ok, ok-injective, nat_eq_iff,
}
use stock_aggregator.Prelude.Rows.{All-each}
use stock_aggregator.Prelude.Decimal.{Decimal, OrderLaws}
use stock_aggregator.Scoring.Percentile.{percentiles, deciles}
use stock_aggregator.Scoring.Ranking.{
  Placed, GroupStat, Member, fill_buckets, zip_placed, level_of, zip_market, place_fallen,
  values_of, rank_buckets, rank_fallen, rank_code,
}
use stock_aggregator.Scoring.Ranking.Buckets.{peers_in, in_group, fill_buckets-peers}
use stock_aggregator.Scoring.Ranking.Standing.{
  IsDistinct, standing, Stands, percentiles-Stands, lookup-zip_market-Stands,
}

All-append : {A : Type 0} (P : A → Type 0) (xs ys : List A) → All P xs → All P ys → All P (xs ++ ys)
All-append P [] ys h k = k
All-append P (x ∷ xs) ys h k = (h.0, All-append P xs ys h.1 k)

keep-Has : {A : Type 0} (p : A → Bool) (x : A) (xs : List A) → Has x (keep p xs) → Has x xs
unfolding keep
keep-Has p x [] h = h
keep-Has p x (y ∷ xs) h = elim (Bool-cases (p y)) [
  | inl passes ↦ elim (rw passes at h) [ inl e ↦ inl e | inr k ↦ inr (keep-Has p x xs k) ]
  | inr fails ↦ inr (keep-Has p x xs (rw fails at h))
]

module _ (D : Decimal) (O : OrderLaws D) (groups : Dict ℕ (ℕ × ℕ)) (market_id min_peers : ℕ)
    (higher : Bool) (code : String) (members : List (Member D.Num)) where
  open D use {Num}

  abbrev peers : ℕ → List (Member Num)
  peers = peers_in groups members

  -- Placed by its standing among the values of a list of members, of which it is one.
  pub record IsRankedAmong (group : List (Member Num)) (p : Placed Num) : Type 0 where
    pub of_metric : p.code ≡ code
    pub among : Has (p.security_id, p.value) group
    pub counted : p.peer_count ≡ length group
    pub stands : standing D O higher (values_of group) p.value ≡ ok p.percentile

  -- A member whose own group is the market, or has too few values of the metric.
  abbrev pub Falls : Member Num → Type 0
  Falls m =
      (g : ℕ) × Has m (peers_in groups members g)
      × ((g ≡ market_id) ⊎ (length (peers_in groups members g) < min_peers))

  -- Ranked in its own group, or against every member.
  abbrev pub IsFairlyPlaced : Placed Num → Type 0
  IsFairlyPlaced p =
      ((p.peer_group_id ≢ market_id)
        × (min_peers ≤ length (peers_in groups members p.peer_group_id))
        × (level_of groups (peers_in groups members p.peer_group_id) ≡ ok p.level)
        × IsRankedAmong (peers_in groups members p.peer_group_id) p)
      ⊎ ((p.peer_group_id ≡ market_id)
          × (p.level ≡ 0)
          × Falls (p.security_id, p.value)
          × IsRankedAmong members p)

  -- the members of a large enough group
  module _ (g level : ℕ) (apart : g ≢ market_id) (enough : min_peers ≤ length (peers g))
      (leveled : level_of groups (peers g) ≡ ok level) where
    zip_placed-fair :
        (bucket : List (Member Num)) (ranked : List Num)
        → All (λ m. Has m (peers g)) bucket
        → Stands D O higher (values_of (peers g)) (values_of bucket) ranked
        → All IsFairlyPlaced (zip_placed code g (length (peers g)) level bucket ranked)
    unfolding zip_placed
    zip_placed-fair [] ranked h s = tt
    zip_placed-fair (m ∷ bucket) [] h s = tt
    zip_placed-fair (m ∷ bucket) (p ∷ ranked) h s = (
      inl (
        apart,
        enough,
        leveled,
        record { of_metric = refl; among = h.0; counted = refl; stands = s.0 },
      ),
      zip_placed-fair bucket ranked h.1 s.1,
    )

  -- the members that fell
  place_fallen-fair :
      (distinct : IsDistinct members) (ranked : List Num)
      → Stands D O higher (values_of members) (values_of members) ranked
      → (fallen : List (Member Num)) (placed : List (Placed Num)) → All Falls fallen
      → place_fallen code market_id (length members) (zip_market members ranked []) fallen
        ≡ ok placed
      → All IsFairlyPlaced placed
  unfolding place_fallen
  place_fallen-fair distinct ranked s [] placed f e = subst (All IsFairlyPlaced) (ok-injective e) tt
  place_fallen-fair distinct ranked s (m ∷ fallen) placed f e =
      let market = zip_market members ranked [] in
      let (p, ep, e₁) = bind-ok (or_raise key_error (lookup m.0 market)) _ e in
      let (rest, er, e₂) =
        bind-ok (place_fallen code market_id (length members) market fallen) _ e₁ in
      let (g, own, _) = f.0 in
      let member = keep-Has (in_group groups g) m members own in
      subst (All IsFairlyPlaced) (ok-injective e₂) (
        inr (
          refl,
          refl,
          f.0,
          record {
            of_metric = refl;
            among = member;
            counted = refl;
            stands =
                lookup-zip_market-Stands D O higher (values_of members) members ranked [] m p
                  distinct s member (found-some _ ep);
          },
        ),
        place_fallen-fair distinct ranked s fallen rest f.1 er,
      )
    where
      found-some : (o : Option Num) {q : Num} → or_raise key_error o ≡ ok q → o ≡ some q
      found-some o e = ground arith

  -- What `rank_buckets` makes of buckets that hold the members of their groups: what it places is
  -- placed fairly, and what is left falls.
  rank_buckets-fair :
      (buckets : Dict ℕ (List (Member Num)))
      (r : List (Placed Num) × List (GroupStat Num) × List (Member Num))
      → All (λ b. b.1 ≡ peers b.0) buckets
      → rank_buckets D groups market_id min_peers code higher buckets ≡ ok r
      → All IsFairlyPlaced r.0 × All Falls r.2
  unfolding rank_buckets
  rank_buckets-fair [] r held e =
      subst (λ t. All IsFairlyPlaced t.0 × All Falls t.2) (ok-injective e) (tt, tt)
  rank_buckets-fair ((g, bucket) ∷ buckets) r held e =
      let goal = λ (t : List (Placed Num) × List (GroupStat Num) × List (Member Num)).
        All IsFairlyPlaced t.0 × All Falls t.2 in
      elim (Bool-cases (g == market_id || ltb (length bucket) min_peers)) [
        | inl falls ↦
            let (o, eo, e') =
              bind-ok (rank_buckets D groups market_id min_peers code higher buckets) _
                (rw falls at e) in
            let (fair, left) = rank_buckets-fair buckets o held.1 eo in
            subst goal (ok-injective e')
              (fair, All-append Falls bucket o.2 (bucket-Falls g bucket held.0 falls) left)
        | inr stays ↦
            let (level, el, e₁) = bind-ok (level_of groups bucket) _ (rw stays at e) in
            let (ranked, ek, e₂) = bind-ok (percentiles D (values_of bucket) higher) _ e₁ in
            let (quantiles, ed, e₃) = bind-ok (deciles D (values_of bucket)) _ e₂ in
            let (o, eo, e₄) =
              bind-ok (rank_buckets D groups market_id min_peers code higher buckets) _ e₃ in
            let (fair, left) = rank_buckets-fair buckets o held.1 eo in
            subst goal (ok-injective e₄) (
              All-append IsFairlyPlaced _ o.0 (bucket-fair g level bucket ranked held.0 stays el ek)
                  fair,
              left,
            )
      ]
    where
      bucket-Falls :
          (g : ℕ) (bucket : List (Member Num))
          → bucket ≡ peers g
          → (g == market_id || ltb (length bucket) min_peers) ≡ true
          → All Falls bucket
      bucket-Falls g bucket held falls = All-each Falls bucket λ m h. (
        g,
        subst (Has m) held h,
        elim (Bool-cases (g == market_id)) [
          | inl market ↦ inl ((nat_eq_iff g market_id).0 market)
          | inr own ↦ inr (subst (λ l. length l < min_peers) held (ground (arith, falls, own)))
        ],
      )

      bucket-fair :
          (g level : ℕ) (bucket : List (Member Num)) (ranked : List Num)
          → bucket ≡ peers g
          → (g == market_id || ltb (length bucket) min_peers) ≡ false
          → level_of groups bucket ≡ ok level
          → percentiles D (values_of bucket) higher ≡ ok ranked
          → All IsFairlyPlaced (zip_placed code g (length bucket) level bucket ranked)
      bucket-fair g level bucket ranked held stays leveled ranks =
          let apart : g ≢ market_id =
            λ same. ground (arith, (nat_eq_iff g market_id).1 same, stays) in
          let enough : min_peers ≤ length bucket = ground (arith, stays) in
          subst
            (λ l.
              min_peers ≤ length l
              → level_of groups l ≡ ok level
              → percentiles D (values_of l) higher ≡ ok ranked
              → All IsFairlyPlaced (zip_placed code g (length l) level l ranked))
            (sym held)
            (λ enough leveled ranks.
              zip_placed-fair g level apart enough leveled (peers g) ranked
                (All-each (λ m. Has m (peers g)) (peers g) (λ m h. h))
                (percentiles-Stands D O higher (values_of (peers g)) ranked ranks))
            enough leveled ranks

  rank_fallen-fair :
      IsDistinct members
      → (fallen : List (Member Num)) (market : List (Placed Num) × List (GroupStat Num))
      → All Falls fallen
      → rank_fallen D groups market_id min_peers code higher members fallen ≡ ok market
      → All IsFairlyPlaced market.0
  unfolding rank_fallen
  rank_fallen-fair distinct [] market f e = subst (λ t. All IsFairlyPlaced t.0) (ok-injective e) tt
  rank_fallen-fair distinct (first ∷ fallen) market f e =
      let (ps, e₁, f₁) = bind-ok (percentiles D (values_of members) higher) _ e in
      let (placed, e₂, f₂) =
        bind-ok
          (place_fallen code market_id (length members) (zip_market members ps []) (first ∷ fallen))
          _ f₁ in
      let (qs, e₃, f₃) = bind-ok (deciles D (values_of members)) _ f₂ in
      subst (λ t. All IsFairlyPlaced t.0) (ok-injective f₃)
        (place_fallen-fair distinct ps (percentiles-Stands D O higher (values_of members) ps e₁)
          (first ∷ fallen) placed f e₂)

-- Where no security is a member twice, every value that is placed is that of a member, and is
-- placed in one of two ways. Either it is ranked in its own group, which is not the market and has at
-- least `min_peers` members: its percentile is computed from how many values of that group's members
-- are strictly below it and how many are equal to it, its peer count is their number, and its level
-- is the group's. Or its own group is the market or has fewer than `min_peers` members: then it has
-- the market's id and level 0, and its percentile and its peer count are computed in the same way
-- from all members, not from those that fell with it.
pub rank_code-fair :
    (D : Decimal) (O : OrderLaws D) (groups : Dict ℕ (ℕ × ℕ)) (market_id min_peers : ℕ)
    (higher_is_better : Dict String Bool) (code : String) (members : List (Member D.Num))
    (r : List (Placed D.Num) × List (GroupStat D.Num)) (higher : Bool)
    → lookup code higher_is_better ≡ some higher
    → IsDistinct members
    → rank_code D groups market_id min_peers higher_is_better code members ≡ ok r
    → All (IsFairlyPlaced D O groups market_id min_peers higher code members) r.0
unfolding rank_code
rank_code-fair D O groups market_id min_peers higher_is_better code members r higher known distinct
      e =
    let (buckets, eb, e₁) = bind-ok (fill_buckets groups members []) _ (rw known at e) in
    let (ranked, er, e₂) =
      bind-ok (rank_buckets D groups market_id min_peers code higher buckets) _ e₁ in
    let (market, em, e₃) =
      bind-ok (rank_fallen D groups market_id min_peers code higher members ranked.2) _ e₂ in
    let (fair, left) =
      rank_buckets-fair D O groups market_id min_peers higher code members buckets ranked
        (fill_buckets-peers groups members buckets eb) er in
    let placed = IsFairlyPlaced D O groups market_id min_peers higher code members in
    subst (λ t. All placed t.0) (ok-injective e₃)
      (All-append placed ranked.0 market.0 fair (
        rank_fallen-fair D O groups market_id min_peers higher code members distinct ranked.2 market
          left em))
