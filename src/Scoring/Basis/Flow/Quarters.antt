-- ===== src/Scoring/Basis/Flow/Quarters.antt =====
-- `ttm_basis` of src/screener/scoring/basis.py: the quarters it takes.
use stock_aggregator.Prelude.{
  ℕ, ◌+◌, ◌-◌, ◌≤◌, String, ◌≡◌, refl, inl, inr, true, false, some, List, [], ◌∷◌, arith, ltb, Has,
  take, length, Bool-cases, ok, ◌>>=◌, subst, ok-some-injective, bind-ok,
}
use stock_aggregator.Prelude.Decimal.{Decimal}
use stock_aggregator.Scoring.Basis.Facts.{Basis, Held, common_dates}
use stock_aggregator.Scoring.Basis.Flow.{gaps_ok, sums, ttm_search, ttm_basis, series_of}
use stock_aggregator.Scoring.Basis.Flow.Totals.{Summed, sums-Summed}

-- Two neighbouring quarter ends.
abbrev pub IsQuarterGap : ℕ → ℕ → Type 0
IsQuarterGap later earlier = (80 ≤ later - earlier) × (later - earlier ≤ 100)

take_three :
    (l : List ℕ) (e : ℕ)
    → ltb (length (take 4 (e ∷ l))) 4 ≡ false
    → (a : ℕ) × (b : ℕ) × (c : ℕ) × (take 4 (e ∷ l) ≡ e ∷ a ∷ b ∷ c ∷ [])
take_three [] e h = ground arith
take_three (a ∷ []) e h = ground arith
take_three (a ∷ b ∷ []) e h = ground arith
take_three (a ∷ b ∷ c ∷ l) e h = (a, b, c, refl)

gaps_ok_four :
    (a b c d : ℕ)
    → gaps_ok (a ∷ b ∷ c ∷ d ∷ []) ≡ true
    → IsQuarterGap a b × IsQuarterGap b c × IsQuarterGap c d
unfolding gaps_ok
gaps_ok_four a b c d h = ground arith

module _ (D : Decimal) where
  open D use {Num}

  pub record IsTrailingYear (held : Held Num) (codes : List String) (as_of : ℕ) (b : Basis Num)
      : Type 0 where
    pub kind : b.kind ≡ "TTM"
    pub visible : b.period_end ≤ as_of
    pub fresh : as_of ≤ b.period_end + 135
    pub second : ℕ
    pub third : ℕ
    pub fourth : ℕ
    pub gap_1 : IsQuarterGap b.period_end second
    pub gap_2 : IsQuarterGap second third
    pub gap_3 : IsQuarterGap third fourth
    pub sums :
        (code : String)
        → Has code codes
        → Summed D held (b.period_end ∷ second ∷ third ∷ fourth ∷ []) code b.values

  found :
      (held : Held Num) (codes : List String) (as_of end : ℕ) (rest : List ℕ) (b : Basis Num)
      → ltb as_of end ≡ false
      → ltb 135 (as_of - end) ≡ false
      → ltb (length (take 4 (end ∷ rest))) 4 ≡ false
      → gaps_ok (take 4 (end ∷ rest)) ≡ true
      → (sums D (take 4 (end ∷ rest)) codes (series_of D held "Q" codes) [] >>= λ values.
          ok (some (record { kind = "TTM"; period_end = end; values = values })))
        ≡ ok (some b)
      → IsTrailingYear held codes as_of b
  found held codes as_of end rest b v f l g e =
      let (q2, q3, q4, four) = take_three rest end l in
      let gaps = gaps_ok_four end q2 q3 q4 (subst (λ t. gaps_ok t ≡ true) four g) in
      let (values, es, eb) =
        bind-ok (sums D (take 4 (end ∷ rest)) codes (series_of D held "Q" codes) []) _ e in
      let same : record { kind = "TTM"; period_end = end; values = values } ≡ b =
        ok-some-injective eb in
      subst (IsTrailingYear held codes as_of) same (record {
        kind = refl;
        visible = ground arith;
        fresh = ground arith;
        second = q2;
        third = q3;
        fourth = q4;
        gap_1 = gaps.0;
        gap_2 = gaps.1;
        gap_3 = gaps.2;
        sums = λ code m.
            sums-Summed D held (end ∷ q2 ∷ q3 ∷ q4 ∷ []) code codes [] values
              (subst (λ t. sums D t codes (series_of D held "Q" codes) [] ≡ ok values) four es)
              (inr m);
      })

  ttm_search-IsTrailingYear :
      (held : Held Num) (codes : List String) (as_of : ℕ) (dates : List ℕ) (b : Basis Num)
      → ttm_search D codes (series_of D held "Q" codes) as_of dates ≡ ok (some b)
      → IsTrailingYear held codes as_of b
  unfolding ttm_search
  ttm_search-IsTrailingYear held codes as_of [] b e = cc e
  ttm_search-IsTrailingYear held codes as_of (end ∷ rest) b e =
      let next = ttm_search-IsTrailingYear held codes as_of rest b in
      elim (Bool-cases (ltb as_of end)) [
        | inl later ↦ next (rw later at e)
        | inr v ↦ elim (Bool-cases (ltb 135 (as_of - end))) [
          | inl old ↦ cc (rw (v, old) at e)
          | inr f ↦ elim (Bool-cases (ltb (length (take 4 (end ∷ rest))) 4)) [
            | inl short ↦ cc (rw (v, f, short) at e)
            | inr l ↦ elim (Bool-cases (gaps_ok (take 4 (end ∷ rest)))) [
              | inl g ↦ found held codes as_of end rest b v f l g (rw (v, f, l, g) at e)
              | inr broken ↦ next (rw (v, f, l, broken) at e)
            ]
          ]
        ]
      ]

  -- A trailing-twelve-month basis ends at or before `as_of` and at most 135 days before it; it
  -- names four dates, each 80 to 100 days before the one above it, and holds, for every code asked
  -- for, the sum of that code's quarterly figures at those same four dates.
  pub ttm_basis-IsTrailingYear :
      (held : Held Num) (codes : List String) (as_of : ℕ) (b : Basis Num)
      → ttm_basis D held codes as_of ≡ ok (some b)
      → IsTrailingYear held codes as_of b
  unfolding ttm_basis
  ttm_basis-IsTrailingYear held codes as_of b =
      ttm_search-IsTrailingYear held codes as_of (common_dates (series_of D held "Q" codes)) b
