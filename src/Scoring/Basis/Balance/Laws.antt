-- ===== src/Scoring/Basis/Balance/Laws.antt =====
-- Balances at one date, and the newest date, of src/screener/scoring/basis.py.
use stock_aggregator.Prelude.{
  ℕ, ◌+◌, ◌-◌, ◌≤◌, ◌<◌, String, ◌≡◌, ◌≢◌, refl, ap, ◌∙◌, subst, ◌⊎◌, ◌↔◌, inl, inr, none, some,
  List, [], ◌∷◌, arith, ltb, if◌then◌else◌, ◌==◌, String_key, ℕ_key, Dict, lookup, insert,
  lookup-insert, get_list, All, Has, spread, Bool-cases, Option-cases, some-injective, nat_eq_iff,
}
use stock_aggregator.Scoring.Basis.Facts.{Item, Held}
use stock_aggregator.Scoring.Basis.Facts.Dates.{Descends, All-lt_trans, le_first}
use stock_aggregator.Scoring.Basis.Balance.{
  balance_on, balance_from, balance_at, first_missing_balance, insert_date, dates_desc, newest_from,
  newest_balance, labelled_from, annual_first,
}

module _ {Num : Type 0} (held : Held Num) (day : ℕ) where
  -- `out` has, under `code`, the balance of that code on the day
  abbrev pub IsBalance : String → Dict String Num → Type 0
  IsBalance code out = (v : Num) × (lookup code out ≡ some v) × (balance_on held code day ≡ some v)

  IsBalance-insert :
      (j c : String) (v : Num) (out : Dict String Num)
      → balance_on held c day ≡ some v
      → IsBalance j out ⊎ (c ≡ j)
      → IsBalance j (insert c v out)
  IsBalance-insert j c v out e h = elim (Bool-cases (c == j)) [
    | inl same ↦ (
      v,
      lookup-insert c j v out ∙ ap (λ b. if b then some v else lookup j out) same,
      subst (λ k. balance_on held k day ≡ some v) ((String_key.same_iff c j).0 same) e,
    )
    | inr other ↦ elim h [
      | inl (w, stored, own) ↦ (
        w,
        lookup-insert c j v out ∙ ap (λ b. if b then some v else lookup j out) other ∙ stored,
        own,
      )
      | inr same ↦ cc (other, (String_key.same_iff c j).1 same)
    ]
  ]

  balance_from-IsBalance :
      (j : String) (codes : List String) (acc out : Dict String Num)
      → balance_from held day codes acc ≡ some out
      → IsBalance j acc ⊎ Has j codes
      → IsBalance j out
  unfolding balance_from
  balance_from-IsBalance j [] acc out e h = elim h [
    | inl s ↦ subst (IsBalance j) (some-injective e) s
    | inr m ↦ absurd m
  ]
  balance_from-IsBalance j (c ∷ codes) acc out e h = elim (Option-cases (balance_on held c day)) [
    | inl missing ↦ cc (rw (missing, balance_from) at e)
    | inr (v, own) ↦
        let rest = rw (own, balance_from) at e in
        elim (spread h) [
          | inl now ↦
              balance_from-IsBalance j codes (insert c v acc) out rest
                (inl (IsBalance-insert j c v acc own now))
          | inr later ↦ balance_from-IsBalance j codes (insert c v acc) out rest (inr later)
        ]
  ]

  balance_from-missing :
      (codes : List String) (acc : Dict String Num)
      → (balance_from held day codes acc ≡ none) ↔ (first_missing_balance held codes day ≢ none)
  unfolding balance_from first_missing_balance
  balance_from-missing [] acc = (λ e. cc e, λ n. absurd (n refl))
  balance_from-missing (c ∷ codes) acc = elim (Option-cases (balance_on held c day)) [
    | inl missing ↦ rw (missing, balance_from, first_missing_balance) (λ e k. cc k, λ n. refl)
    | inr (v, own) ↦
        rw (own, balance_from, first_missing_balance) (balance_from-missing codes (insert c v acc))
  ]

  -- `balance_at` gives every code asked for its own balance on the day, and gives nothing exactly
  -- where `first_missing_balance` names a code.
  pub balance_at_complete :
      (codes : List String)
      → ((out : Dict String Num)
          → balance_at held codes day ≡ some out
          → (code : String) → Has code codes
          → IsBalance code out)
        × ((balance_at held codes day ≡ none) ↔ (first_missing_balance held codes day ≢ none))
  unfolding balance_at
  balance_at_complete codes = (
    λ out e code m. balance_from-IsBalance code codes [] out e (inr m),
    balance_from-missing codes [],
  )

  -- The code that `first_missing_balance` names is one of those asked for and has no balance there.
  pub first_missing_balance_lem :
      (codes : List String) (c : String)
      → first_missing_balance held codes day ≡ some c
      → Has c codes × (balance_on held c day ≡ none)
  unfolding first_missing_balance
  first_missing_balance_lem [] c e = cc e
  first_missing_balance_lem (k ∷ codes) c e = elim (Option-cases (balance_on held k day)) [
    | inl missing ↦
        let same : k ≡ c = some-injective (rw (missing, first_missing_balance) at e) in
        (inl same, subst (λ x. balance_on held x day ≡ none) same missing)
    | inr (v, own) ↦
        let (m, n) = first_missing_balance_lem codes c (rw (own, first_missing_balance) at e) in
        (inr m, n)
  ]

All-insert_date :
    (d b : ℕ) (ds : List ℕ) → d < b → All (λ e. e < b) ds → All (λ e. e < b) (insert_date d ds)
unfolding insert_date
All-insert_date d b [] h a = (h, tt)
All-insert_date d b (e ∷ ds) h a = ground (arith, All-insert_date d b ds h a.1)

insert_date-Descends : (d : ℕ) (ds : List ℕ) → Descends ds → Descends (insert_date d ds)
unfolding insert_date
insert_date-Descends d [] h = (tt, tt)
insert_date-Descends d (e ∷ ds) h = elim (Bool-cases (e == d)) [
  | inl same ↦ rw same h
  | inr other ↦ elim (Bool-cases (ltb e d)) [
    | inl later ↦ rw (other, later) ((ground arith, All-lt_trans d e ds (ground arith) h.0), h)
    | inr not_later ↦
        rw (other, not_later)
          (All-insert_date d e ds (ground arith) h.0, insert_date-Descends d ds h.1)
  ]
]

Has-insert_date : (d x : ℕ) (ds : List ℕ) → (d ≡ x) ⊎ Has x ds → Has x (insert_date d ds)
unfolding insert_date
Has-insert_date d x [] h = h
Has-insert_date d x (e ∷ ds) h = elim (Bool-cases (e == d)) [
  | inl same ↦ rw same (elim h [ inl p ↦ inl ((nat_eq_iff e d).0 same ∙ p) | inr m ↦ m ])
  | inr other ↦ elim (Bool-cases (ltb e d)) [
    | inl later ↦ rw (other, later) h
    | inr not_later ↦
        rw (other, not_later)
          (elim h [
            | inl p ↦ inr (Has-insert_date d x ds (inl p))
            | inr m ↦ elim m [ inl p ↦ inl p | inr k ↦ inr (Has-insert_date d x ds (inr k)) ]
          ])
  ]
]

module _ {Num : Type 0} where
  dates_desc-Descends : (items : List (Item Num)) → Descends (dates_desc items)
  unfolding dates_desc
  dates_desc-Descends [] = tt
  dates_desc-Descends (i ∷ items) =
      insert_date-Descends i.period_end (dates_desc items) (dates_desc-Descends items)

  labelled_from_other :
      (day : ℕ) (acc : Dict String Num) (items : List (Item Num))
      → ¬ Has day (dates_desc items)
      → labelled_from day acc items ≡ acc
  unfolding labelled_from dates_desc
  labelled_from_other day acc [] n = refl
  labelled_from_other day acc (i ∷ items) n = elim (Bool-cases (i.period_end == day)) [
    | inl same ↦ absurd (
        n (
          Has-insert_date i.period_end day (dates_desc items)
            (inl ((nat_eq_iff i.period_end day).0 same))))
    | inr other ↦ rw other (
        labelled_from_other day acc items
          (λ m. n (Has-insert_date i.period_end day (dates_desc items) (inr m))))
  ]

  -- what the search over the dates has found
  pub record IsNewestBalance (held : Held Num) (codes : List String) (as_of max_age : ℕ)
      (dates : List ℕ) (day : ℕ) (found : Dict String Num) : Type 0 where
    pub visible : day ≤ as_of
    pub fresh : as_of ≤ day + max_age
    pub balances : balance_at held codes day ≡ some found
    pub newest : (d : ℕ) → Has d dates → d ≤ as_of → balance_at held codes d ≢ none → d ≤ day

  newest_from-IsNewestBalance :
      (held : Held Num) (codes : List String) (as_of max_age : ℕ) (dates : List ℕ) (day : ℕ)
      (found : Dict String Num)
      → Descends dates
      → newest_from held codes as_of max_age dates ≡ some (day, found)
      → IsNewestBalance held codes as_of max_age dates day found
  unfolding newest_from
  newest_from-IsNewestBalance held codes as_of max_age [] day found d e = cc e
  newest_from-IsNewestBalance held codes as_of max_age (x ∷ rest) day found d e =
      elim (Bool-cases (ltb as_of x)) [
        | inl later ↦
            let r =
              newest_from-IsNewestBalance held codes as_of max_age rest day found d.1
                (rw later at e) in
            record {
              visible = r.visible;
              fresh = r.fresh;
              balances = r.balances;
              newest = λ y m le n. elim m [
                | inl same ↦ absurd (ground arith)
                | inr k ↦ r.newest y k le n
              ];
            }
        | inr v ↦ elim (Bool-cases (ltb max_age (as_of - x))) [
          | inl old ↦ cc (rw (v, old) at e)
          | inr f ↦ elim (Option-cases (balance_at held codes x)) [
            | inl missing ↦
                let r =
                  newest_from-IsNewestBalance held codes as_of max_age rest day found d.1
                    (rw (v, f, missing, newest_from) at e) in
                record {
                  visible = r.visible;
                  fresh = r.fresh;
                  balances = r.balances;
                  newest = λ y m le n. elim m [
                    | inl same ↦
                        absurd (n (subst (λ z. balance_at held codes z ≡ none) same missing))
                    | inr k ↦ r.newest y k le n
                  ];
                }
            | inr (out, own) ↦
                let same : x ≡ day =
                  ap (λ p. p.0) (some-injective (rw (v, f, own, newest_from) at e)) in
                let same_out : out ≡ found =
                  ap (λ p. p.1) (some-injective (rw (v, f, own, newest_from) at e)) in
                record {
                  visible = ground arith;
                  fresh = ground arith;
                  balances =
                      subst (λ z. balance_at held codes z ≡ some found) same
                        (own ∙ ap some same_out);
                  newest = λ y m le n. rw (← same) (le_first x y rest d.0 m);
                }
          ]
        ]
      ]

  balance_on_absent :
      (held : Held Num) (code : String) (day : ℕ)
      → ¬ Has day (dates_desc (get_list code held))
      → balance_on held code day ≡ none
  unfolding balance_on
  balance_on_absent held code day n =
      ap annual_first (labelled_from_other day [] (get_list code held) n)

  balance_at_absent :
      (held : Held Num) (code : String) (codes : List String) (day : ℕ)
      → ¬ Has day (dates_desc (get_list code held))
      → balance_at held (code ∷ codes) day ≡ none
  unfolding balance_at balance_from
  balance_at_absent held code codes day n = rw (balance_on_absent held code day n, balance_from)

has_dec : (x : ℕ) (ds : List ℕ) → Dec (Has x ds)
has_dec x [] = no (λ m. m)
has_dec x (d ∷ ds) = elim (Bool-cases (d == x)) [
  | inl same ↦ yes (inl ((nat_eq_iff d x).0 same))
  | inr other ↦ elim (has_dec x ds) [
    | yes m ↦ yes (inr m)
    | no n ↦ no (elim [ inl e ↦ cc (other, (nat_eq_iff d x).1 e) | inr m ↦ n m ])
  ]
]

-- What `newest_balance` finds is dated at or before `as_of` and within the age bound, is what
-- `balance_at` gives for every code on that date, and no later date up to `as_of` has a balance
-- for every code.
pub newest_balance_newest :
    {Num : Type 0} (held : Held Num) (codes : List String) (as_of max_age day : ℕ)
    (found : Dict String Num)
    → newest_balance held codes as_of max_age ≡ some (day, found)
    → (day ≤ as_of)
      × (as_of ≤ day + max_age)
      × (balance_at held codes day ≡ some found)
      × ((d : ℕ) → d ≤ as_of → balance_at held codes d ≢ none → d ≤ day)
unfolding newest_balance
newest_balance_newest held [] as_of max_age day found e = cc e
newest_balance_newest held (c ∷ codes) as_of max_age day found e =
    let items = get_list c held in
    let r =
      newest_from-IsNewestBalance held (c ∷ codes) as_of max_age (dates_desc items) day found
        (dates_desc-Descends items) e in
    (
      r.visible,
      r.fresh,
      r.balances,
      λ d le n. elim (has_dec d (dates_desc items)) [
        | yes m ↦ r.newest d m le n
        | no miss ↦ absurd (n (balance_at_absent held c codes d miss))
      ],
    )
