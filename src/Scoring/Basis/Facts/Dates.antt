-- ===== src/Scoring/Basis/Facts/Dates.antt =====
-- The dates of `_common_dates` of src/screener/scoring/basis.py.
use stock_aggregator.Prelude.{
  ℕ, ◌≤◌, ◌<◌, String, ◌≡◌, refl, ◌↔◌, ◌⊎◌, inl, inr, Bool, true, List, [], ◌∷◌, arith, ltb, ◌==◌,
  ℕ_key, String_key, get_list, Dict, lookup, insert, keys, keep, All, Has, Bool-cases, nat_eq_iff,
  subst, ap, lookup-insert, is_some,
}
use stock_aggregator.Scoring.Basis.Facts.{
  Item, Held, insert_desc, sort_desc, holds, common_dates, by_date_from, by_date,
}

-- Every date is later than all that follow it.
abbrev pub Descends : List ℕ → Type 0
Descends [] = Unit
Descends (d ∷ ds) = All (λ e. e < d) ds × Descends ds

-- No date is listed twice.
abbrev pub Distinct : List ℕ → Type 0
Distinct [] = Unit
Distinct (d ∷ ds) = ¬ Has d ds × Distinct ds

All-insert_desc :
    (d b : ℕ) (ds : List ℕ) → d < b → All (λ e. e < b) ds → All (λ e. e < b) (insert_desc d ds)
unfolding insert_desc
All-insert_desc d b [] h a = (h, tt)
All-insert_desc d b (e ∷ ds) h a = ground (arith, All-insert_desc d b ds h a.1)

pub All-lt_trans : (d e : ℕ) (ds : List ℕ) → e < d → All (λ f. f < e) ds → All (λ f. f < d) ds
All-lt_trans d e [] h a = tt
All-lt_trans d e (f ∷ ds) h a = (omega arith, All-lt_trans d e ds h a.1)

-- The first of descending dates is the latest.
pub le_first :
    (end day : ℕ) (rest : List ℕ) → All (λ e. e < end) rest → Has day (end ∷ rest) → day ≤ end
le_first end day [] a h = elim h [ inl e ↦ omega arith | inr m ↦ absurd m ]
le_first end day (x ∷ rest) a h = elim h [
  | inl e ↦ omega arith
  | inr m ↦ elim m [ inl e ↦ omega (arith, a.0) | inr k ↦ le_first end day rest a.1 (inr k) ]
]

insert_desc-Descends :
    (d : ℕ) (ds : List ℕ) → ¬ Has d ds → Descends ds → Descends (insert_desc d ds)
unfolding insert_desc
insert_desc-Descends d [] n h = (tt, tt)
insert_desc-Descends d (e ∷ ds) n h = elim (Bool-cases (ltb e d)) [
  | inl later ↦ rw later ((ground arith, All-lt_trans d e ds (ground arith) h.0), h)
  | inr not_later ↦
      rw not_later
        (All-insert_desc d e ds (ground arith) h.0, insert_desc-Descends d ds (λ m. n (inr m)) h.1)
]

Has-insert_desc : (d x : ℕ) (ds : List ℕ) → Has x (insert_desc d ds) ↔ ((d ≡ x) ⊎ Has x ds)
unfolding insert_desc
Has-insert_desc d x [] = (λ h. h, λ h. h)
Has-insert_desc d x (e ∷ ds) = elim (Bool-cases (ltb e d)) [
  | inl later ↦ rw later (λ h. h, λ h. h)
  | inr not_later ↦ rw not_later (
    elim [
      | inl p ↦ inr (inl p)
      | inr m ↦ elim ((Has-insert_desc d x ds).0 m) [ inl p ↦ inl p | inr k ↦ inr (inr k) ]
    ],
    elim [
      | inl p ↦ inr ((Has-insert_desc d x ds).1 (inl p))
      | inr m ↦ elim m [ inl p ↦ inl p | inr k ↦ inr ((Has-insert_desc d x ds).1 (inr k)) ]
    ],
  )
]

Has-sort_desc : (x : ℕ) (ds : List ℕ) → Has x (sort_desc ds) ↔ Has x ds
unfolding sort_desc
Has-sort_desc x [] = (λ h. h, λ h. h)
Has-sort_desc x (d ∷ ds) =
    let (from, to) = Has-insert_desc d x (sort_desc ds) in
    (
      λ h. elim (from h) [ inl p ↦ inl p | inr m ↦ inr ((Has-sort_desc x ds).0 m) ],
      elim [ inl p ↦ to (inl p) | inr m ↦ to (inr ((Has-sort_desc x ds).1 m)) ],
    )

sort_desc-Descends : (ds : List ℕ) → Distinct ds → Descends (sort_desc ds)
unfolding sort_desc
sort_desc-Descends [] h = tt
sort_desc-Descends (d ∷ ds) h =
    insert_desc-Descends d (sort_desc ds) (λ m. h.0 ((Has-sort_desc d ds).0 m))
      (sort_desc-Descends ds h.1)

Has-keep : (p : ℕ → Bool) (x : ℕ) (ds : List ℕ) → Has x (keep p ds) ↔ ((p x ≡ true) × Has x ds)
unfolding keep
Has-keep p x [] = (λ h. elim h [ ], λ h. h.1)
Has-keep p x (d ∷ ds) = elim (Bool-cases (p d)) [
  | inl passes ↦ rw passes (
    elim [
      | inl e ↦ (subst (λ y. p y ≡ true) e passes, inl e)
      | inr m ↦ let (q, k) = (Has-keep p x ds).0 m in (q, inr k)
    ],
    λ h. elim h.1 [ inl e ↦ inl e | inr m ↦ inr ((Has-keep p x ds).1 (h.0, m)) ],
  )
  | inr fails ↦ rw fails (
    λ h. let (q, k) = (Has-keep p x ds).0 h in (q, inr k),
    λ h. elim h.1 [ inl e ↦ cc (fails, h.0, ap p e) | inr m ↦ (Has-keep p x ds).1 (h.0, m) ],
  )
]

Distinct-keep : (p : ℕ → Bool) (ds : List ℕ) → Distinct ds → Distinct (keep p ds)
unfolding keep
Distinct-keep p [] h = tt
Distinct-keep p (d ∷ ds) h = elim (Bool-cases (p d)) [
  | inl passes ↦ rw passes (λ m. h.0 ((Has-keep p d ds).0 m).1, Distinct-keep p ds h.1)
  | inr fails ↦ rw fails (Distinct-keep p ds h.1)
]

module _ {Num : Type 0} where
  Has-keys : (x : ℕ) (d : Dict ℕ Num) → Has x (keys d) ↔ (is_some (lookup x d) ≡ true)
  unfolding keys lookup
  Has-keys x [] = (λ h. elim h [ ], λ h. cc h)
  Has-keys x ((k, v) ∷ d) = elim (Bool-cases (k == x)) [
    | inl same ↦ rw same (λ h. refl, λ h. inl ((nat_eq_iff k x).0 same))
    | inr other ↦ rw other (
      elim [ inl e ↦ cc (other, (nat_eq_iff k x).1 e) | inr m ↦ (Has-keys x d).0 m ],
      λ h. inr ((Has-keys x d).1 h),
    )
  ]

  Distinct-insert :
      (k : ℕ) (v : Num) (d : Dict ℕ Num) → Distinct (keys d) → Distinct (keys (insert k v d))
  unfolding insert keys
  Distinct-insert k v [] h = (λ m. m, tt)
  Distinct-insert k v ((j, w) ∷ d) h = elim (Bool-cases (j == k)) [
    | inl same ↦ rw same h
    | inr other ↦ rw other (
      λ m. h.0 (
          (Has-keys j d).1 (
            ground (
              arith,
              lookup-insert k j v d,
              nat_eq_iff k j,
              nat_eq_iff j k,
              (Has-keys j (insert k v d)).0 m,
            ))),
      Distinct-insert k v d h.1,
    )
  ]

  Distinct-by_date_from :
      (pt : String) (acc : Dict ℕ Num) (items : List (Item Num))
      → Distinct (keys acc)
      → Distinct (keys (by_date_from pt acc items))
  unfolding by_date_from
  Distinct-by_date_from pt acc [] h = h
  Distinct-by_date_from pt acc (i ∷ items) h = elim (Bool-cases (i.period_type == pt)) [
    | inl same ↦ rw same (
        Distinct-by_date_from pt (insert i.period_end i.value acc) items
          (Distinct-insert i.period_end i.value acc h))
    | inr other ↦ rw other (Distinct-by_date_from pt acc items h)
  ]

  pub Distinct-by_date :
      (held : Held Num) (code pt : String) → Distinct (keys (by_date held code pt))
  unfolding by_date keys
  Distinct-by_date held code pt = Distinct-by_date_from pt [] (get_list code held) tt

  -- Every common date is held by every mapping, and the other way round.
  pub Has-common_dates :
      (s : Dict ℕ Num) (rest : List (Dict ℕ Num)) (x : ℕ)
      → Has x (common_dates (s ∷ rest)) ↔ (holds (s ∷ rest) x ≡ true)
  unfolding common_dates
  Has-common_dates s rest x = (
    λ h.
        let (a, m) = (Has-keep (holds rest) x (keys s)).0 ((Has-sort_desc x _).0 h) in
        rw ((Has-keys x s).0 m, a),
    λ h.
        (Has-sort_desc x _).1
          ((Has-keep (holds rest) x (keys s)).1 (ground arith, (Has-keys x s).1 (ground arith))),
  )

  pub common_dates-Descends :
      (s : Dict ℕ Num) (rest : List (Dict ℕ Num))
      → Distinct (keys s)
      → Descends (common_dates (s ∷ rest))
  unfolding common_dates
  common_dates-Descends s rest h = sort_desc-Descends _ (Distinct-keep (holds rest) (keys s) h)
