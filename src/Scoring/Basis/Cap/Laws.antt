-- ===== src/Scoring/Basis/Cap/Laws.antt =====
-- `explain_market_cap` and `market_cap` of src/screener/scoring/basis.py.
use stock_aggregator.Prelude.{
  ℕ, ◌+◌, ◌-◌, ◌≤◌, ◌<◌, String, ◌≡◌, refl, ◌∙◌, sym, subst, ◌⊎◌, inl, inr, true, ◌&&◌, Option,
  none, some, List, [], ◌∷◌, arith, ltb, leb, if◌then◌else◌, String_key, Dict, lookup, Has,
  Bool-cases, Option-cases, Outcome, ok, raised, Returns,
}
use stock_aggregator.Prelude.Decimal.{Decimal, of_ℕ, le}
use stock_aggregator.Scoring.Basis.Facts.{Held}
use stock_aggregator.Scoring.Basis.Balance.{newest_balance}
use stock_aggregator.Scoring.Basis.Balance.Laws.{newest_balance_newest, balance_at_complete}
use stock_aggregator.Scoring.Basis.Cap.{
  Explained, value, absent, cap_not_positive, insert_asc, sort_asc, recent_split_in, cap_of,
  explain_market_cap, market_cap, present,
}

-- The window after a split in which there is no market cap.
abbrev pub InSplitWindow : ℕ → ℕ → Type 0
InSplitWindow as_of split = (split ≤ as_of) × (as_of < split + 7)

-- The value, if there is one, under the outcome.
abbrev pub value_of : {A : Type 0} → Outcome (Explained A) → Outcome (Option A)
value_of (ok a) = ok (present a)
value_of (raised e) = raised e

Has-insert_asc : (d x : ℕ) (ds : List ℕ) → (d ≡ x) ⊎ Has x ds → Has x (insert_asc d ds)
unfolding insert_asc
Has-insert_asc d x [] h = h
Has-insert_asc d x (e ∷ ds) h = elim (Bool-cases (leb d e)) [
  | inl first ↦ rw first h
  | inr later ↦ rw later (elim h [
    | inl p ↦ inr (Has-insert_asc d x ds (inl p))
    | inr m ↦ elim m [ inl p ↦ inl p | inr k ↦ inr (Has-insert_asc d x ds (inr k)) ]
  ])
]

Has-sort_asc : (x : ℕ) (ds : List ℕ) → Has x ds → Has x (sort_asc ds)
unfolding sort_asc
Has-sort_asc x [] h = h
Has-sort_asc x (d ∷ ds) h =
    Has-insert_asc d x (sort_asc ds) (elim h [ inl p ↦ inl p | inr m ↦ inr (Has-sort_asc x ds m) ])

recent_split_in-none :
    (as_of : ℕ) (splits : List ℕ) (x : ℕ)
    → recent_split_in as_of splits ≡ none
    → Has x splits
    → ¬ InSplitWindow as_of x
unfolding recent_split_in
recent_split_in-none as_of [] x e m = absurd m
recent_split_in-none as_of (s ∷ splits) x e m =
    elim (Bool-cases (leb s as_of && ltb as_of (s + 7))) [
      | inl recent ↦ cc (rw recent at e)
      | inr clear ↦ elim m [
        | inl same ↦ λ w. ground arith
        | inr k ↦ recent_split_in-none as_of splits x (rw clear at e) k
      ]
    ]

module _ (D : Decimal) where
  open D use {Num, mul, lt}

  -- Why a close and a share count make a market cap.
  pub record IsMarketCap (held : Held Num) (close : Option Num) (close_date : Option ℕ)
      (splits : List ℕ) (as_of : ℕ) (cap : Num) : Type 0 where
    pub price : Num
    pub price_date : ℕ
    pub has_close : close ≡ some price
    pub has_date : close_date ≡ some price_date
    pub fresh : as_of ≤ price_date + 7
    pub no_split : (s : ℕ) → Has s splits → ¬ InSplitWindow as_of s
    pub counted : ℕ
    pub shares : Num
    pub found : Dict String Num
    pub newest : newest_balance held ("shares_outstanding" ∷ []) as_of 456 ≡ some (counted, found)
    pub count : lookup "shares_outstanding" found ≡ some shares
    pub product : cap ≡ mul price shares
    pub positive : lt (of_ℕ D 0) cap ≡ true

  shares_found :
      (held : Held Num) (as_of day : ℕ) (found : Dict String Num)
      → newest_balance held ("shares_outstanding" ∷ []) as_of 456 ≡ some (day, found)
      → (shares : Num) × (lookup "shares_outstanding" found ≡ some shares)
  shares_found held as_of day found e =
      let r = newest_balance_newest held ("shares_outstanding" ∷ []) as_of 456 day found e in
      let b =
        (balance_at_complete held day ("shares_outstanding" ∷ [])).0 found r.2 "shares_outstanding"
          (inl refl) in
      (b.0, b.1)

  cap_of_lem :
      (close shares : Num) (found : Dict String Num)
      → lookup "shares_outstanding" found ≡ some shares
      → cap_of D close found
        ≡ ok (
            if le D (mul close shares) (of_ℕ D 0)
            then absent cap_not_positive
            else value (mul close shares))
  unfolding cap_of
  cap_of_lem close shares found e = rw e

  -- Asking for a market cap or for the reason that there is none never raises.
  pub explain_market_cap-Returns :
      (held : Held Num) (close : Option Num) (close_date : Option ℕ) (splits : List ℕ) (as_of : ℕ)
      (currency : Option String) (dropped : Held Num)
      → Returns (explain_market_cap D held close close_date splits as_of currency dropped)
  unfolding explain_market_cap
  explain_market_cap-Returns held none close_date splits as_of currency dropped = (_, refl)
  explain_market_cap-Returns held (some c) none splits as_of currency dropped = (_, refl)
  explain_market_cap-Returns held (some c) (some day) splits as_of currency dropped =
      elim (Bool-cases (ltb 7 (as_of - day))) [
        | inl old ↦ rw old (_, refl)
        | inr fresh ↦ elim (Option-cases (recent_split_in as_of (sort_asc splits))) [
          | inr (s, split) ↦ rw (fresh, split, explain_market_cap) (_, refl)
          | inl clear ↦
              elim (Option-cases (newest_balance held ("shares_outstanding" ∷ []) as_of 456)) [
                | inl missing ↦ rw (fresh, clear, missing, explain_market_cap) (_, refl)
                | inr (p, e) ↦
                    let (n, en) = shares_found held as_of p.0 p.1 e in
                    rw (fresh, clear, e, explain_market_cap) (_, cap_of_lem c n p.1 en)
              ]
        ]
      ]

  cap_positive :
      (x cap : Num)
      → ok (if le D x (of_ℕ D 0) then absent cap_not_positive else value x) ≡ ok (value cap)
      → (cap ≡ x) × (lt (of_ℕ D 0) cap ≡ true)
  cap_positive x cap e = elim (Bool-cases (lt (of_ℕ D 0) x)) [
    | inl positive ↦
        let same : x ≡ cap = cc (rw positive at e) in
        (sym same, subst (λ y. lt (of_ℕ D 0) y ≡ true) same positive)
    | inr other ↦ cc (rw other at e)
  ]

  -- Whatever market cap is given is the product of the close with the newest share count of the
  -- last 456 days, it is positive, the close is at most 7 days old, and no split took effect in the
  -- 7 days up to `as_of`.
  pub explain_market_cap-IsMarketCap :
      (held : Held Num) (close : Option Num) (close_date : Option ℕ) (splits : List ℕ) (as_of : ℕ)
      (currency : Option String) (dropped : Held Num) (cap : Num)
      → explain_market_cap D held close close_date splits as_of currency dropped ≡ ok (value cap)
      → IsMarketCap held close close_date splits as_of cap
  unfolding explain_market_cap
  explain_market_cap-IsMarketCap held none close_date splits as_of currency dropped cap h = cc h
  explain_market_cap-IsMarketCap held (some c) none splits as_of currency dropped cap h = cc h
  explain_market_cap-IsMarketCap held (some c) (some day) splits as_of currency dropped cap h =
      elim (Bool-cases (ltb 7 (as_of - day))) [
        | inl old ↦ cc (rw (old, explain_market_cap) at h)
        | inr fresh ↦ elim (Option-cases (recent_split_in as_of (sort_asc splits))) [
          | inr (s, split) ↦ cc (rw (fresh, split, explain_market_cap) at h)
          | inl clear ↦
              elim (Option-cases (newest_balance held ("shares_outstanding" ∷ []) as_of 456)) [
                | inl missing ↦ cc (rw (fresh, clear, missing, explain_market_cap) at h)
                | inr (p, e) ↦
                    let (n, en) = shares_found held as_of p.0 p.1 e in
                    let (product, positive) = cap_positive (mul c n) cap (
                      sym (cap_of_lem c n p.1 en)
                      ∙ (rw (fresh, clear, e, explain_market_cap) at h)) in
                    record {
                      price = c;
                      price_date = day;
                      has_close = refl;
                      has_date = refl;
                      fresh = ground arith;
                      no_split = λ s m.
                          recent_split_in-none as_of (sort_asc splits) s clear
                            (Has-sort_asc s splits m);
                      counted = p.0;
                      shares = n;
                      found = p.1;
                      newest = e;
                      count = en;
                      product = product;
                      positive = positive;
                    }
              ]
        ]
      ]

  -- The market cap that is found does not depend on the currency or the dropped facts that are
  -- passed to explain its absence, and `market_cap` is exactly that value.
  pub explain_market_cap-market_cap :
      (held : Held Num) (close : Option Num) (close_date : Option ℕ) (splits : List ℕ) (as_of : ℕ)
      (currency : Option String) (dropped : Held Num)
      → value_of (explain_market_cap D held close close_date splits as_of currency dropped)
        ≡ market_cap D held close close_date splits as_of
  unfolding market_cap explain_market_cap
  explain_market_cap-market_cap held none close_date splits as_of currency dropped = refl
  explain_market_cap-market_cap held (some c) none splits as_of currency dropped = refl
  explain_market_cap-market_cap held (some c) (some day) splits as_of currency dropped =
      elim (Bool-cases (ltb 7 (as_of - day))) [
        | inl old ↦ rw (old, explain_market_cap)
        | inr fresh ↦ elim (Option-cases (recent_split_in as_of (sort_asc splits))) [
          | inr (s, split) ↦ rw (fresh, split, explain_market_cap)
          | inl clear ↦
              elim (Option-cases (newest_balance held ("shares_outstanding" ∷ []) as_of 456)) [
                | inl missing ↦ rw (fresh, clear, missing, explain_market_cap)
                | inr (p, e) ↦
                    let (n, en) = shares_found held as_of p.0 p.1 e in
                    rw (fresh, clear, e, explain_market_cap) (rw (cap_of_lem c n p.1 en))
              ]
        ]
      ]
