-- ===== src/Scoring/Basis/Flow/Total.antt =====
-- The lookups of `ttm_basis` and `annual_basis` of src/screener/scoring/basis.py.
use stock_aggregator.Prelude.{
  ℕ, ◌-◌, String, ◌≡◌, refl, inl, inr, true, none, some, List, [], ◌∷◌, ltb, Dict, All, Has, take,
  length, Bool-cases, Returns, Returns-bind,
}
use stock_aggregator.Prelude.Decimal.{Decimal}
use stock_aggregator.Scoring.Basis.Facts.{Held, holds, common_dates}
use stock_aggregator.Scoring.Basis.Facts.Dates.{Has-common_dates}
use stock_aggregator.Scoring.Basis.Flow.{
  gaps_ok, ttm_search, annual_search, ttm_basis, annual_basis, flow_basis, series_of,
}
use stock_aggregator.Scoring.Basis.Flow.Totals.{All-take, sums-Returns, picks-Returns}

All-of-Has : {A : Type 0} (P : A → Type 0) (xs : List A) → ((x : A) → Has x xs → P x) → All P xs
All-of-Has P [] h = tt
All-of-Has P (x ∷ xs) h = (h x (inl refl), All-of-Has P xs (λ y m. h y (inr m)))

module _ (D : Decimal) where
  open D use {Num}

  common_dates_held :
      (series : List (Dict ℕ Num)) → All (λ day. holds series day ≡ true) (common_dates series)
  unfolding common_dates
  common_dates_held [] = tt
  common_dates_held (s ∷ rest) =
      All-of-Has (λ day. holds (s ∷ rest) day ≡ true) (common_dates (s ∷ rest))
        λ x m. (Has-common_dates s rest x).0 m

  ttm_search-Returns :
      (codes : List String) (series : List (Dict ℕ Num)) (as_of : ℕ) (dates : List ℕ)
      → All (λ day. holds series day ≡ true) dates
      → Returns (ttm_search D codes series as_of dates)
  unfolding ttm_search
  ttm_search-Returns codes series as_of [] h = (none, refl)
  ttm_search-Returns codes series as_of (end ∷ rest) h =
      let next = ttm_search-Returns codes series as_of rest h.1 in
      elim (Bool-cases (ltb as_of end)) [
        | inl later ↦ rw later next
        | inr v ↦ elim (Bool-cases (ltb 135 (as_of - end))) [
          | inl old ↦ rw (v, old) (none, refl)
          | inr f ↦ elim (Bool-cases (ltb (length (take 4 (end ∷ rest))) 4)) [
            | inl short ↦ rw (v, f, short) (none, refl)
            | inr l ↦ elim (Bool-cases (gaps_ok (take 4 (end ∷ rest)))) [
              | inl g ↦
                  rw (v, f, l, g)
                    (Returns-bind _ _
                      (sums-Returns D (take 4 (end ∷ rest)) codes series []
                        (All-take (λ day. holds series day ≡ true) 4 (end ∷ rest) h))
                      λ values e. (_, refl))
              | inr broken ↦ rw (v, f, l, broken) next
            ]
          ]
        ]
      ]

  annual_search-Returns :
      (codes : List String) (series : List (Dict ℕ Num)) (as_of : ℕ) (dates : List ℕ)
      → All (λ day. holds series day ≡ true) dates
      → Returns (annual_search D codes series as_of dates)
  unfolding annual_search
  annual_search-Returns codes series as_of [] h = (none, refl)
  annual_search-Returns codes series as_of (end ∷ rest) h = elim (Bool-cases (ltb as_of end)) [
    | inl later ↦ rw later (annual_search-Returns codes series as_of rest h.1)
    | inr v ↦ elim (Bool-cases (ltb 456 (as_of - end))) [
      | inl old ↦ rw (v, old) (none, refl)
      | inr f ↦
          rw (v, f)
            (Returns-bind _ _ (picks-Returns D end codes series [] h.0) λ values e. (_, refl))
    ]
  ]

  pub ttm_basis-Returns :
      (held : Held Num) (codes : List String) (as_of : ℕ) → Returns (ttm_basis D held codes as_of)
  unfolding ttm_basis
  ttm_basis-Returns held codes as_of =
      ttm_search-Returns codes _ as_of _ (common_dates_held (series_of D held "Q" codes))

  pub annual_basis-Returns :
      (held : Held Num) (codes : List String) (as_of : ℕ)
      → Returns (annual_basis D held codes as_of)
  unfolding annual_basis
  annual_basis-Returns held codes as_of =
      annual_search-Returns codes _ as_of _ (common_dates_held (series_of D held "A" codes))

  pub flow_basis-Returns :
      (held : Held Num) (codes : List String) (as_of : ℕ) → Returns (flow_basis D held codes as_of)
  unfolding flow_basis
  flow_basis-Returns held codes as_of =
      Returns-bind _ _ (ttm_basis-Returns held codes as_of)
        (elim [ none ↦ λ e. annual_basis-Returns held codes as_of | some b ↦ λ e. (some b, refl) ])
