-- ===== src/Scoring/Blend/Laws.antt =====
-- What `score_pillar` and `blend` of src/screener/scoring promise.
use stock_aggregator.Prelude.{
  String_key, ◌==◌, Bool-cases, Option-cases, is_some, length, keep, all, All, any, Dict, lookup,
  Returns, ok-injective, bind-ok, ok-some-injective, some-injective, ok, ℕ, suc, String, ◌≡◌, refl,
  sym, ap, ◌∙◌, subst, inl, inr, Bool, true, false, Option, none, some, List, [], ◌∷◌, arith, ℕ_key,
}
use stock_aggregator.Prelude.Decimal.{Decimal, of_ℕ, le, min_num, DivLaws, OrderLaws, AddLaws}
use stock_aggregator.Scoring.Percentile.{divide}
use stock_aggregator.Scoring.Blend.{
  PillarScore, Snapshot, sum_from, min_from, min_of, has_weight, weights_of, weighted_scores,
  coverage_of, coverages, snapshot, snapshot_of, blend,
}

abbrev not_empty : {A : Type 0} → List A → Bool
not_empty [] = false
not_empty (x ∷ xs) = true

not_empty-keep : {A : Type 0} (p : A → Bool) (xs : List A) → not_empty (keep p xs) ≡ any p xs
unfolding keep any
not_empty-keep p [] = refl
not_empty-keep p (x ∷ xs) = elim (Bool-cases (p x)) [
  | inl e ↦ rw e refl
  | inr e ↦ rw e (not_empty-keep p xs)
]

module _ (D : Decimal) (order : OrderLaws D) where
  open D use {Num, add, mul, lt}

  abbrev Positive : Num → Type 0
  Positive x = lt (of_ℕ D 0) x ≡ true

  irreflexive : (x : Num) → lt x x ≡ false
  irreflexive x = elim (Bool-cases (lt x x)) [ inl e ↦ order.lt_asymm x x e | inr e ↦ e ]

  not_above : (a b : Num) → le D a b ≡ true → lt b a ≡ false
  not_above a b h = ground arith

  -- A pillar that contributes has a positive weight.
  weight_found :
      (weights : Dict String Num) (pillar : String × PillarScore Num)
      → has_weight D weights pillar ≡ true
      → (w : Num) × (lookup (pillar.0) weights ≡ some w) × Positive w
  weight_found weights pillar h = elim (Option-cases (lookup (pillar.0) weights)) [
    | inl e ↦ cc (rw (has_weight, e) at h, irreflexive (of_ℕ D 0))
    | inr (w, e) ↦ (w, e, rw (has_weight, e) at h)
  ]

  abbrev Weighted : Dict String Num → Dict String (PillarScore Num) → Type 0
  Weighted weights = All (λ (p : String × PillarScore Num). has_weight D weights p ≡ true)

  Weighted-keep :
      (weights : Dict String Num) (pillars : Dict String (PillarScore Num))
      → Weighted weights (keep (has_weight D weights) pillars)
  unfolding keep
  Weighted-keep weights [] = tt
  Weighted-keep weights (p ∷ pillars) = elim (Bool-cases (has_weight D weights p)) [
    | inl e ↦ rw e (e, Weighted-keep weights pillars)
    | inr e ↦ rw e (Weighted-keep weights pillars)
  ]

  weights_of-Positive :
      (weights : Dict String Num) (pillars : Dict String (PillarScore Num))
      → Weighted weights pillars
      → (parts : List Num) × (weights_of D weights pillars ≡ ok parts)
        × All Positive parts
        × (length parts ≡ length pillars)
  unfolding weights_of
  weights_of-Positive weights [] h = ([], refl, tt, refl)
  weights_of-Positive weights ((code, pillar) ∷ rest) h =
      let (w, found, positive) = weight_found weights (code, pillar) (h.0) in
      let (parts, e, all, n) = weights_of-Positive weights rest (h.1) in
      (w ∷ parts, rw (found, e) refl, (positive, all), ap suc n)

  weighted_scores-Returns :
      (weights : Dict String Num) (pillars : Dict String (PillarScore Num))
      → Weighted weights pillars
      → Returns (weighted_scores D weights pillars)
  unfolding weighted_scores
  weighted_scores-Returns weights [] h = ([], refl)
  weighted_scores-Returns weights ((code, pillar) ∷ rest) h =
      let (w, found, positive) = weight_found weights (code, pillar) (h.0) in
      let (parts, e) = weighted_scores-Returns weights rest (h.1) in
      (mul w pillar.score ∷ parts, rw (found, e) refl)

  -- A weight above zero gives one coverage at least.
  coverages-some :
      (pillars : Dict String (PillarScore Num)) (weights : Dict String Num) (code : String)
      (w : Num)
      → lookup code weights ≡ some w
      → Positive w
      → Returns (min_of D (coverages D pillars weights))
  unfolding coverages lookup min_of
  coverages-some pillars [] code w h k = cc h
  coverages-some pillars ((c, v) ∷ weights) code w h k = elim (Bool-cases (lt (of_ℕ D 0) v)) [
    | inl e ↦ rw e (_, refl)
    | inr e ↦ elim (Bool-cases (c == code)) [
      | inl f ↦ cc (subst Positive (sym (some-injective (rw f at h))) k, e)
      | inr f ↦ rw e (coverages-some pillars weights code w (rw f at h) k)
    ]
  ]

  module _ (laws : DivLaws D) (adding : AddLaws D) where
    sum_from-Positive :
        (start : Num) (xs : List Num)
        → Positive start
        → All Positive xs
        → Positive (sum_from D start xs)
    unfolding sum_from
    sum_from-Positive start [] h all = h
    sum_from-Positive start (x ∷ xs) h all =
        sum_from-Positive (add start x) xs
          (adding.add_pos start x (order.lt_asymm (of_ℕ D 0) start h) (all.0)) (all.1)

    divide-Returns : (a b : Num) → Positive b → Returns (divide D a b)
    divide-Returns a b h = let (q, e) = laws.div_pos a b h in rw e (q, refl)

    snapshot_of-Returns :
        (pillars contributing : Dict String (PillarScore Num)) (weights : Dict String Num)
        (levels : List ℕ)
        → Weighted weights contributing
        → (out : Option (Snapshot Num)) × (snapshot_of D pillars weights levels contributing
            ≡ ok out)
          × (is_some out ≡ not_empty contributing)
    unfolding snapshot_of sum_from
    snapshot_of-Returns pillars [] weights levels h = (none, refl, refl)
    snapshot_of-Returns pillars ((code, pillar) ∷ rest) weights levels h =
        let (w, found, positive) = weight_found weights (code, pillar) (h.0) in
        let (parts, e, all, n) = weights_of-Positive weights rest (h.1) in
        let (products, f) = weighted_scores-Returns weights rest (h.1) in
        let total =
          sum_from-Positive (add (of_ℕ D 0) w) parts
            (adding.add_pos (of_ℕ D 0) w (irreflexive (of_ℕ D 0)) positive) all in
        let (blended, g) =
          divide-Returns (sum_from D (add (of_ℕ D 0) (mul w pillar.score)) products) _ total in
        let (least, k) = coverages-some pillars weights code w found positive in
        (
          some (snapshot D ((code, pillar) ∷ rest) levels blended least),
          rw (snapshot_of, weights_of, weighted_scores, found, e, f, sum_from, g, k) refl,
          refl,
        )

    -- `blend` always returns, and gives a snapshot exactly where some pillar has a positive weight:
    -- neither the division by the total weight nor the minimum over the coverages fails, provided
    -- that division by a positive number succeeds, that a sum with a positive number is positive, and
    -- that the numbers are ordered.
    pub blend-Returns :
        (pillars : Dict String (PillarScore Num)) (weights : Dict String Num) (levels : List ℕ)
        → (out : Option (Snapshot Num)) × (blend D pillars weights levels ≡ ok out)
          × (is_some out ≡ any (has_weight D weights) pillars)
    unfolding blend
    blend-Returns pillars weights levels =
        let (out, e, n) =
          snapshot_of-Returns pillars (keep (has_weight D weights) pillars) weights levels
            (Weighted-keep weights pillars) in
        (out, e, n ∙ not_empty-keep (has_weight D weights) pillars)

  -- at least
  abbrev AboveEqual : Num → Num → Type 0
  AboveEqual least x = le D least x ≡ true

  not_below : (a b : Num) → lt b a ≡ false → AboveEqual a b
  not_below a b h = ground (arith, h)

  smaller :
      (least x : Num) → AboveEqual (min_num D least x) least × AboveEqual (min_num D least x) x
  smaller least x = elim (Bool-cases (lt x least)) [
    | inl e ↦ rw e (not_below x least (order.lt_asymm x least e), not_below x x (irreflexive x))
    | inr e ↦ rw e (not_below least least (irreflexive least), not_below least x e)
  ]

  through : (a b c : Num) → AboveEqual a b → AboveEqual b c → AboveEqual a c
  through a b c h k = not_below a c (order.le_trans a b c (ground (arith, h)) (ground (arith, k)))

  min_from-AboveEqual :
      (least : Num) (xs : List Num)
      → AboveEqual (min_from D least xs) least × All (AboveEqual (min_from D least xs)) xs
  unfolding min_from
  min_from-AboveEqual least [] = (not_below least least (irreflexive least), tt)
  min_from-AboveEqual least (x ∷ xs) =
      let (first, rest) = min_from-AboveEqual (min_num D least x) xs in
      let (to_least, to_x) = smaller least x in
      (
        through _ (min_num D least x) least first to_least,
        (through _ (min_num D least x) x first to_x, rest),
      )

  min_of-AboveEqual :
      (xs : List Num) (least : Num) → min_of D xs ≡ ok least → All (AboveEqual least) xs
  unfolding min_of
  min_of-AboveEqual [] least h = cc h
  min_of-AboveEqual (x ∷ xs) least h =
      subst (λ m. All (AboveEqual m) (x ∷ xs)) (ok-injective h) (min_from-AboveEqual x xs)

  -- Every weighted pillar's coverage is at least this, an absent one's being 0.
  abbrev pub CoversAll : Dict String (PillarScore Num) → Dict String Num → Num → Type 0
  CoversAll pillars weights least =
      All
        (λ (weight : String × Num).
          Positive (weight.1) → le D least (coverage_of D pillars (weight.0)) ≡ true)
        weights

  coverages-CoversAll :
      (pillars : Dict String (PillarScore Num)) (weights : Dict String Num) (least : Num)
      → All (AboveEqual least) (coverages D pillars weights)
      → CoversAll pillars weights least
  unfolding coverages
  coverages-CoversAll pillars [] least all = tt
  coverages-CoversAll pillars ((code, weight) ∷ weights) least all =
      elim (Bool-cases (lt (of_ℕ D 0) weight)) [
        | inl e ↦
            let both : All (AboveEqual least)
                (coverage_of D pillars code ∷ coverages D pillars weights) =
              rw (coverages, e) at all in
            ((λ positive. both.0), coverages-CoversAll pillars weights least (both.1))
        | inr e ↦ (
          (λ positive. cc (e, positive)),
          coverages-CoversAll pillars weights least (rw (coverages, e) at all),
        )
      ]

  snapshot_of-CoversAll :
      (pillars contributing : Dict String (PillarScore Num)) (weights : Dict String Num)
      (levels : List ℕ) (s : Snapshot Num)
      → snapshot_of D pillars weights levels contributing ≡ ok (some s)
      → CoversAll pillars weights s.min_coverage
  unfolding snapshot_of
  snapshot_of-CoversAll pillars [] weights levels s h = cc h
  snapshot_of-CoversAll pillars (first ∷ rest) weights levels s h =
      let (parts, e, e₁) = bind-ok (weights_of D weights (first ∷ rest)) _ h in
      let (products, f, e₂) = bind-ok (weighted_scores D weights (first ∷ rest)) _ e₁ in
      let (blended, g, e₃) = bind-ok (divide D (sum_from D (of_ℕ D 0) products) _) _ e₂ in
      let (least, k, e₄) = bind-ok (min_of D (coverages D pillars weights)) _ e₃ in
      subst (λ (x : Snapshot Num). CoversAll pillars weights x.min_coverage) (ok-some-injective e₄)
        (coverages-CoversAll pillars weights least
          (min_of-AboveEqual (coverages D pillars weights) least k))

  -- The coverage of a snapshot is not above that of any pillar with a positive weight, and not above
  -- 0 where such a pillar is absent, provided that the numbers are ordered.
  pub blend-CoversAll :
      (pillars : Dict String (PillarScore Num)) (weights : Dict String Num) (levels : List ℕ)
      (s : Snapshot Num)
      → blend D pillars weights levels ≡ ok (some s)
      → CoversAll pillars weights s.min_coverage
  unfolding blend
  blend-CoversAll pillars weights levels s h =
      snapshot_of-CoversAll pillars (keep (has_weight D weights) pillars) weights levels s h
