-- ===== src/Scoring/Basis/Flow/Annual.antt =====
-- `annual_basis` of src/screener/scoring/basis.py: the period it takes.
use stock_aggregator.Prelude.{
  ℕ, ◌+◌, ◌-◌, ◌≤◌, ◌<◌, String, ◌≡◌, refl, inl, inr, true, false, none, some, List, [], ◌∷◌, arith,
  ltb, All, Has, Bool-cases, ok, ◌>>=◌, subst, ok-some-injective, bind-ok,
}
use stock_aggregator.Prelude.Decimal.{Decimal}
use stock_aggregator.Scoring.Basis.Facts.{Basis, Held, by_date, holds, common_dates}
use stock_aggregator.Scoring.Basis.Facts.Dates.{
  Descends, le_first, Has-common_dates, common_dates-Descends, Distinct-by_date,
}
use stock_aggregator.Scoring.Basis.Flow.{picks, annual_search, annual_basis, series_of}
use stock_aggregator.Scoring.Basis.Flow.Totals.{Picked, picks-Picked}

module _ (D : Decimal) where
  open D use {Num}

  -- The answer of a search over the dates: the newest of them that is visible.
  pub record IsNewestYear (held : Held Num) (codes : List String) (as_of : ℕ) (dates : List ℕ)
      (b : Basis Num) : Type 0 where
    pub kind : b.kind ≡ "A"
    pub visible : b.period_end ≤ as_of
    pub fresh : as_of ≤ b.period_end + 456
    pub newest : (day : ℕ) → Has day dates → day ≤ as_of → day ≤ b.period_end
    pub figures : (code : String) → Has code codes → Picked D held b.period_end code b.values

  found :
      (held : Held Num) (codes : List String) (as_of end : ℕ) (rest : List ℕ) (b : Basis Num)
      → All (λ e. e < end) rest
      → ltb as_of end ≡ false
      → ltb 456 (as_of - end) ≡ false
      → (picks D end codes (series_of D held "A" codes) [] >>= λ values.
          ok (some (record { kind = "A"; period_end = end; values = values })))
        ≡ ok (some b)
      → IsNewestYear held codes as_of (end ∷ rest) b
  found held codes as_of end rest b a v f e =
      let (values, es, eb) = bind-ok (picks D end codes (series_of D held "A" codes) []) _ e in
      let same : record { kind = "A"; period_end = end; values = values } ≡ b =
        ok-some-injective eb in
      subst (IsNewestYear held codes as_of (end ∷ rest)) same (record {
        kind = refl;
        visible = ground arith;
        fresh = ground arith;
        newest = λ day m le. le_first end day rest a m;
        figures = λ code m. picks-Picked D held end code codes [] values es (inr m);
      })

  annual_search-IsNewestYear :
      (held : Held Num) (codes : List String) (as_of : ℕ) (dates : List ℕ) (b : Basis Num)
      → Descends dates
      → annual_search D codes (series_of D held "A" codes) as_of dates ≡ ok (some b)
      → IsNewestYear held codes as_of dates b
  unfolding annual_search
  annual_search-IsNewestYear held codes as_of [] b d e = cc e
  annual_search-IsNewestYear held codes as_of (end ∷ rest) b d e =
      elim (Bool-cases (ltb as_of end)) [
        | inl later ↦
            let r = annual_search-IsNewestYear held codes as_of rest b d.1 (rw later at e) in
            record {
              kind = r.kind;
              visible = r.visible;
              fresh = r.fresh;
              newest = λ day m le. elim m [
                | inl same ↦ absurd (ground arith)
                | inr k ↦ r.newest day k le
              ];
              figures = r.figures;
            }
        | inr v ↦ elim (Bool-cases (ltb 456 (as_of - end))) [
          | inl old ↦ cc (rw (v, old) at e)
          | inr f ↦ found held codes as_of end rest b d.0 v f (rw (v, f) at e)
        ]
      ]

  annual_search-none :
      (held : Held Num) (codes : List String) (as_of : ℕ) (dates : List ℕ)
      → Descends dates
      → annual_search D codes (series_of D held "A" codes) as_of dates ≡ ok none
      → (day : ℕ) → Has day dates
      → day ≤ as_of
      → day + 456 < as_of
  unfolding annual_search
  annual_search-none held codes as_of [] d e day m le = absurd m
  annual_search-none held codes as_of (end ∷ rest) d e day m le =
      elim (Bool-cases (ltb as_of end)) [
        | inl later ↦ elim m [
          | inl same ↦ absurd (ground arith)
          | inr k ↦ annual_search-none held codes as_of rest d.1 (rw later at e) day k le
        ]
        | inr v ↦ elim (Bool-cases (ltb 456 (as_of - end))) [
          | inl old ↦ let at_most : day ≤ end = le_first end day rest d.0 m in ground arith
          | inr f ↦
              let (values, es, eb) =
                bind-ok (picks D end codes (series_of D held "A" codes) []) _ (rw (v, f) at e) in
              cc eb
        ]
      ]

  -- An annual basis over a non-empty list of codes is dated at the newest day, not after `as_of`,
  -- on which every code has an annual figure; that day is at most 456 days old and every code's
  -- value is its own figure there. Where there is none, every such day is older than 456 days.
  pub annual_basis_newest :
      (held : Held Num) (code : String) (codes : List String) (as_of : ℕ)
      → let all = code ∷ codes in
        let held_by_all = λ (day : ℕ). holds (series_of D held "A" all) day ≡ true in
        ((b : Basis Num)
          → annual_basis D held all as_of ≡ ok (some b)
          → (b.kind ≡ "A")
            × (b.period_end ≤ as_of)
            × (as_of ≤ b.period_end + 456)
            × ((day : ℕ) → held_by_all day → day ≤ as_of → day ≤ b.period_end)
            × ((c : String) → Has c all → Picked D held b.period_end c b.values))
        × (annual_basis D held all as_of ≡ ok none
            → (day : ℕ) → held_by_all day
            → day ≤ as_of
            → day + 456 < as_of)
  unfolding annual_basis
  annual_basis_newest held code codes as_of =
      let series = series_of D held "A" (code ∷ codes) in
      let desc =
        common_dates-Descends (by_date held code "A") (series_of D held "A" codes)
          (Distinct-by_date held code "A") in
      let common =
        λ (day : ℕ). Has-common_dates (by_date held code "A") (series_of D held "A" codes) day in
      (
        λ b e.
            let r =
              annual_search-IsNewestYear held (code ∷ codes) as_of (common_dates series) b desc e in
            (r.kind, r.visible, r.fresh, λ day h le. r.newest day ((common day).1 h) le, r.figures),
        λ e day h le.
            annual_search-none held (code ∷ codes) as_of (common_dates series) desc e day
              ((common day).1 h) le,
      )
