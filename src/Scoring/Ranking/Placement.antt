-- ===== src/Scoring/Ranking/Placement.antt =====
-- Which values `rank` of src/screener/scoring/ranking.py places, for one metric.
use stock_aggregator.Prelude.{
  ℕ, ◌+◌, suc, String, ◌≡◌, refl, sym, ◌∙◌, ap, subst, inl, inr, Bool, ◌||◌, List, [], ◌∷◌, ◌++◌,
  map, ltb, length, count, Bool-cases, if◌then◌else◌, ◌==◌, ℕ_key, String_key, Dict, lookup, push,
  arith, ok, or_raise, key_error, bind-ok, ok-injective,
}
use stock_aggregator.Prelude.Decimal.{Decimal}
use stock_aggregator.Scoring.Percentile.{percentiles, place_each, place, deciles}
use stock_aggregator.Scoring.Ranking.{
  Placed, GroupStat, Member, fill_buckets, zip_placed, level_of, zip_market, place_fallen,
  values_of, rank_buckets, rank_fallen, rank_code,
}

count-append :
    {A : Type 0} (p : A → Bool) (xs ys : List A) → count p (xs ++ ys) ≡ count p xs + count p ys
unfolding count
count-append p [] ys = omega arith
count-append p (x ∷ xs) ys = omega (arith, count-append p xs ys)

pub length-map : {A B : Type 0} (f : A → B) (xs : List A) → length (map f xs) ≡ length xs
length-map f [] = refl
length-map f (x ∷ xs) = ap suc (length-map f xs)

module _ (D : Decimal) where
  open D use {Num, lt}

  length-place_each :
      (n : ℕ) (higher : Bool) (ordered values r : List Num)
      → place_each D n higher ordered values ≡ ok r
      → length r ≡ length values
  unfolding place_each
  length-place_each n higher ordered [] r e = ap length (sym (ok-injective e))
  length-place_each n higher ordered (v ∷ values) r e =
      let (p, ep, e₁) = bind-ok (place D n higher _ _) _ e in
      let (rest, er, e₂) = bind-ok (place_each D n higher ordered values) _ e₁ in
      ap length (sym (ok-injective e₂)) ∙ ap suc (length-place_each n higher ordered values rest er)

  -- One percentile for each value.
  pub length-percentiles :
      (values : List Num) (higher : Bool) (r : List Num)
      → percentiles D values higher ≡ ok r
      → length r ≡ length values
  unfolding percentiles
  length-percentiles [] higher r e = ap length (sym (ok-injective e))
  length-percentiles (v ∷ []) higher r e = ap length (sym (ok-injective e))
  length-percentiles (v ∷ w ∷ rest) higher r e = length-place_each _ higher _ (v ∷ w ∷ rest) r e

  -- how many of the securities that pass a test are among the placed, and among the members
  module _ (q : ℕ → Bool) where
    abbrev placed_count : List (Placed Num) → ℕ
    placed_count = count (λ p. q p.security_id)

    abbrev member_count : List (Member Num) → ℕ
    member_count = count (λ m. q m.0)

    unfoldable bucket_count : Dict ℕ (List (Member Num)) → ℕ
    bucket_count [] = 0
    bucket_count ((g, bucket) ∷ buckets) = member_count bucket + bucket_count buckets

    bucket_count_empty :
        (members : List (Member Num))
        → bucket_count [] + member_count members ≡ member_count members
    unfolding bucket_count
    bucket_count_empty members = omega arith

    bucket_count-push :
        (g : ℕ) (m : Member Num) (buckets : Dict ℕ (List (Member Num)))
        → bucket_count (push g m buckets) ≡ bucket_count buckets + (if q m.0 then 1 else 0)
    unfolding push bucket_count count
    bucket_count-push g m [] = omega arith
    bucket_count-push g m ((j, l) ∷ buckets) = elim (Bool-cases (j == g)) [
      | inl same ↦ rw same (omega (arith, count-append (λ (x : Member Num). q x.0) l (m ∷ [])))
      | inr other ↦ rw other (omega (arith, bucket_count-push g m buckets))
    ]

    bucket_count-fill :
        (groups : Dict ℕ (ℕ × ℕ)) (members : List (Member Num))
        (buckets r : Dict ℕ (List (Member Num)))
        → fill_buckets groups members buckets ≡ ok r
        → bucket_count r ≡ bucket_count buckets + member_count members
    unfolding fill_buckets count
    bucket_count-fill groups [] buckets r e = rw (← ok-injective e) (omega arith)
    bucket_count-fill groups (m ∷ members) buckets r e =
        let (g, eg, e₁) = bind-ok (or_raise key_error (lookup m.0 groups)) _ e in
        omega (
          arith,
          bucket_count-fill groups members (push g.0 m buckets) r e₁,
          bucket_count-push g.0 m buckets,
        )

    count-zip_placed :
        (code : String) (g n level : ℕ) (bucket : List (Member Num)) (ranked : List Num)
        → length ranked ≡ length bucket
        → placed_count (zip_placed code g n level bucket ranked) ≡ member_count bucket
    unfolding zip_placed count
    count-zip_placed code g n level [] ranked e = refl
    count-zip_placed code g n level (m ∷ bucket) [] e = absurd (omega arith)
    count-zip_placed code g n level (m ∷ bucket) (p ∷ ranked) e =
        ap (λ t. (if q m.0 then 1 else 0) + t)
          (count-zip_placed code g n level bucket ranked (omega arith))

    count-place_fallen :
        (code : String) (g n : ℕ) (market : Dict ℕ Num) (fallen : List (Member Num))
        (r : List (Placed Num))
        → place_fallen code g n market fallen ≡ ok r
        → placed_count r ≡ member_count fallen
    unfolding place_fallen count
    count-place_fallen code g n market [] r e = ap placed_count (sym (ok-injective e))
    count-place_fallen code g n market (m ∷ fallen) r e =
        let (p, ep, e₁) = bind-ok (or_raise key_error (lookup m.0 market)) _ e in
        let (rest, er, e₂) = bind-ok (place_fallen code g n market fallen) _ e₁ in
        ap placed_count (sym (ok-injective e₂))
        ∙ ap (λ t. (if q m.0 then 1 else 0) + t) (count-place_fallen code g n market fallen rest er)

    module _ (groups : Dict ℕ (ℕ × ℕ)) (market_id min_peers : ℕ) (code : String)
        (direction : Bool) where
      rank_buckets-count :
          (buckets : Dict ℕ (List (Member Num)))
          (r : List (Placed Num) × List (GroupStat Num) × List (Member Num))
          → rank_buckets D groups market_id min_peers code direction buckets ≡ ok r
          → placed_count r.0 + member_count r.2 ≡ bucket_count buckets
      unfolding rank_buckets bucket_count
      rank_buckets-count [] r e = rw (← ok-injective e) (unfold count in refl)
      rank_buckets-count ((g, bucket) ∷ buckets) r e =
          elim (Bool-cases (g == market_id || ltb (length bucket) min_peers)) [
            | inl falls ↦
                let (o, eo, e') =
                  bind-ok (rank_buckets D groups market_id min_peers code direction buckets) _
                    (rw falls at e) in
                subst
                  (λ t.
                    placed_count t.0 + member_count t.2
                    ≡ member_count bucket + bucket_count buckets)
                  (ok-injective e')
                  (omega (
                    arith,
                    rank_buckets-count buckets o eo,
                    count-append (λ (x : Member Num). q x.0) bucket o.2,
                  ))
            | inr stays ↦
                let (level, el, e₁) = bind-ok (level_of groups bucket) _ (rw stays at e) in
                let (ranked, ek, e₂) = bind-ok (percentiles D (values_of bucket) direction) _ e₁ in
                let (quantiles, ed, e₃) = bind-ok (deciles D (values_of bucket)) _ e₂ in
                let (o, eo, e₄) =
                  bind-ok (rank_buckets D groups market_id min_peers code direction buckets) _ e₃ in
                let zipped = zip_placed code g (length bucket) level bucket ranked in
                subst
                  (λ t.
                    placed_count t.0 + member_count t.2
                    ≡ member_count bucket + bucket_count buckets)
                  (ok-injective e₄)
                  (omega (
                    arith,
                    rank_buckets-count buckets o eo,
                    count-append (λ (x : Placed Num). q x.security_id) zipped o.0,
                    count-zip_placed code g (length bucket) level bucket ranked (
                        length-percentiles (values_of bucket) direction ranked ek
                        ∙ length-map (λ (m : Member Num). m.1) bucket),
                  ))
          ]

      rank_fallen-count :
          (members fallen : List (Member Num)) (r : List (Placed Num) × List (GroupStat Num))
          → rank_fallen D groups market_id min_peers code direction members fallen ≡ ok r
          → placed_count r.0 ≡ member_count fallen
      unfolding rank_fallen
      rank_fallen-count members [] r e = rw (← ok-injective e) (unfold count in refl)
      rank_fallen-count members (first ∷ fallen) r e =
          let (ps, e₁, f₁) = bind-ok (percentiles D (values_of members) direction) _ e in
          let (placed, e₂, f₂) =
            bind-ok
              (place_fallen code market_id (length members) (zip_market members ps [])
                (first ∷ fallen))
              _ f₁ in
          let (qs, e₃, f₃) = bind-ok (deciles D (values_of members)) _ f₂ in
          subst (λ t. placed_count t.0 ≡ member_count (first ∷ fallen)) (ok-injective f₃)
            (count-place_fallen code market_id (length members) _ (first ∷ fallen) placed e₂)

  -- Whatever securities are counted, there are as many among the values placed for a metric as
  -- among the members that have it: each value is placed exactly once, in a bucket or in the market.
  pub rank_code-count :
      (q : ℕ → Bool) (groups : Dict ℕ (ℕ × ℕ)) (market_id min_peers : ℕ)
      (higher_is_better : Dict String Bool) (code : String) (members : List (Member Num))
      (r : List (Placed Num) × List (GroupStat Num))
      → rank_code D groups market_id min_peers higher_is_better code members ≡ ok r
      → count (λ p. q p.security_id) r.0 ≡ count (λ m. q m.0) members
  unfolding rank_code
  rank_code-count q groups market_id min_peers higher_is_better code members r e =
      let (direction, ed, e₁) = bind-ok (or_raise key_error (lookup code higher_is_better)) _ e in
      let (buckets, eb, e₂) = bind-ok (fill_buckets groups members []) _ e₁ in
      let (ranked, er, e₃) =
        bind-ok (rank_buckets D groups market_id min_peers code direction buckets) _ e₂ in
      let (market, em, e₄) =
        bind-ok (rank_fallen D groups market_id min_peers code direction members ranked.2) _ e₃ in
      let filled : bucket_count q buckets ≡ count (λ (m : Member Num). q m.0) members =
        bucket_count-fill q groups members [] buckets eb ∙ bucket_count_empty q members in
      subst
        (λ t.
          count (λ (p : Placed Num). q p.security_id) t.0
          ≡ count (λ (m : Member Num). q m.0) members)
        (ok-injective e₄)
        (omega (
          arith,
          count-append (λ (p : Placed Num). q p.security_id) ranked.0 market.0,
          rank_buckets-count q groups market_id min_peers code direction buckets ranked er,
          rank_fallen-count q groups market_id min_peers code direction members ranked.2 market em,
          filled,
        ))
