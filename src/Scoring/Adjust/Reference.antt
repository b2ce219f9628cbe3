-- ===== src/Scoring/Adjust/Reference.antt =====
-- What `adjusted_closes` of src/screener/scoring/adjust.py computes, said of each bar on its own.
use stock_aggregator.Prelude.{
  Outcome, ◌&&◌, ltb, leb, ◌==◌, Bool-cases, keep, all, All, ◌>>=◌, ok-injective, bind-ok,
  bind-agree, ok, ℕ, ◌≡◌, refl, sym, ap, ◌∙◌, inl, inr, true, false, Option, none, some, List, [],
  ◌∷◌, map, reverse, arith, ℕ_key, String_key,
}
use stock_aggregator.Prelude.Decimal.{Decimal, of_ℕ}
use stock_aggregator.Scoring.Adjust.{
  start_of, Action, Bar, sort_by, factor_of, Factor, listed, factors, fold_in, fold_splits,
  adjust_from, adjust_ordered, adjusted_closes,
}
use stock_aggregator.Scoring.Adjust.Order.{
  AtMost, Descends, AtLeast, Ascends, Ascends-sort_by, Descends-reverse,
}
use mathlib.Core.List.{reverse_aux, reverse-reverse}

module _ (D : Decimal) where
  open D use {Num, mul}

  -- The factors one after the other, the newest first.
  abbrev pub product : Num → List (Factor D) → Num
  product c [] = c
  product c (f ∷ ahead) = product (mul c (f.1)) ahead

  -- The factors that take effect after a day.
  abbrev pub later : ℕ → List (Factor D) → List (Factor D)
  later day = keep (λ (f : Factor D). ltb day (f.0))

  -- The splits that take effect after a bar's day and after its fetch.
  abbrev pub unseen : Bar Num → List (Factor D) → List (Factor D)
  unseen bar = keep (λ (f : Factor D). ltb bar.day (f.0) && ltb bar.observed_at (start_of (f.0)))

  -- One bar: its close times every later dividend, starting from a number, and every later split
  -- that took effect after the fetch.
  abbrev pub adjusted_by : List (Factor D) → Num → List (Factor D) → Bar Num → ℕ × Num
  adjusted_by splits c newest_first bar = (
    bar.day,
    mul bar.close (product (product c (later bar.day newest_first)) (unseen bar splits)),
  )

  fold_splits-product :
      (bar : Bar Num) (c : Num) (splits : List (Factor D))
      → fold_splits D bar c splits ≡ product c (unseen bar splits)
  unfolding fold_splits keep
  fold_splits-product bar c [] = refl
  fold_splits-product bar c (f ∷ splits) =
      elim (Bool-cases (ltb bar.day f.0 && ltb bar.observed_at (start_of f.0))) [
        | inl e ↦ rw e (fold_splits-product bar (mul c f.1) splits)
        | inr e ↦ rw e (fold_splits-product bar c splits)
      ]

  abbrev dated : Factor D → ℕ
  dated f = f.0

  later_none :
      (day n : ℕ) (ahead : List (Factor D))
      → leb n day ≡ true
      → All (AtMost dated n) ahead
      → later day ahead ≡ []
  unfolding keep
  later_none day n [] h all = refl
  later_none day n (f ∷ ahead) h all =
      let k : ltb day (f.0) ≡ false = ground (arith, all.0) in
      rw k (later_none day n ahead h (all.1))

  fold_in-later :
      (day : ℕ) (c : Num) (ahead : List (Factor D))
      → Descends dated ahead
      → (fold_in D day c ahead).0 ≡ product c (later day ahead)
  unfolding fold_in keep
  fold_in-later day c [] desc = refl
  fold_in-later day c (f ∷ ahead) desc = elim (Bool-cases (ltb day (f.0))) [
    | inl e ↦ rw e (fold_in-later day (mul c (f.1)) ahead (desc.1))
    | inr e ↦ rw (e, later_none day (f.0) ahead (ground arith) (desc.0)) refl
  ]

  -- What was passed over at a day is ahead of every earlier day too.
  fold_in-earlier :
      (day before : ℕ) (c : Num) (ahead : List (Factor D))
      → leb before day ≡ true
      → product ((fold_in D day c ahead).0) (later before ((fold_in D day c ahead).1))
        ≡ product c (later before ahead)
  unfolding fold_in keep
  fold_in-earlier day before c [] h = refl
  fold_in-earlier day before c (f ∷ ahead) h = elim (Bool-cases (ltb day (f.0))) [
    | inl e ↦
        let k : ltb before (f.0) ≡ true = ground (arith, e) in
        rw (e, k) (fold_in-earlier day before (mul c (f.1)) ahead h)
    | inr e ↦ rw e refl
  ]

  Descends-fold_in :
      (day : ℕ) (c : Num) (ahead : List (Factor D))
      → Descends dated ahead
      → Descends dated ((fold_in D day c ahead).1)
  unfolding fold_in
  Descends-fold_in day c [] desc = tt
  Descends-fold_in day c (f ∷ ahead) desc = elim (Bool-cases (ltb day (f.0))) [
    | inl e ↦ rw e (Descends-fold_in day (mul c (f.1)) ahead (desc.1))
    | inr e ↦ rw e desc
  ]

  abbrev effective_of : Action Num → ℕ
  effective_of action = action.effective_date

  AtLeast-listed :
      (n : ℕ) (action : Action Num) (factor : Option Num)
      (found : List (Factor D) × List (Factor D))
      → leb n action.effective_date ≡ true
      → All (AtLeast dated n) (found.0)
      → All (AtLeast dated n) ((listed D action factor found).0)
  AtLeast-listed n action none found h all = all
  AtLeast-listed n action (some f) found h all = elim (Bool-cases (action.action_type == "split")) [
    | inl e ↦ rw e all
    | inr e ↦ rw e (h, all)
  ]

  Ascends-listed :
      (action : Action Num) (factor : Option Num) (found : List (Factor D) × List (Factor D))
      → All (AtLeast dated action.effective_date) (found.0)
      → Ascends dated (found.0)
      → Ascends dated ((listed D action factor found).0)
  Ascends-listed action none found all asc = asc
  Ascends-listed action (some f) found all asc = elim (Bool-cases (action.action_type == "split")) [
    | inl e ↦ rw e asc
    | inr e ↦ rw e (all, asc)
  ]

  AtLeast-factors :
      (n : ℕ) (ordered : List (Bar Num)) (actions : List (Action Num))
      (found : List (Factor D) × List (Factor D))
      → factors D ordered actions ≡ ok found
      → All (AtLeast effective_of n) actions
      → All (AtLeast dated n) (found.0)
  unfolding factors
  AtLeast-factors n ordered [] found e all = rw (sym (ok-injective e)) tt
  AtLeast-factors n ordered (action ∷ actions) found e all =
      let (factor, ef, e₁) = bind-ok (factor_of D action _) _ e in
      let (rest, er, e₂) = bind-ok (factors D ordered actions) _ e₁ in
      rw (sym (ok-injective e₂)) (
        AtLeast-listed n action factor rest (all.0)
          (AtLeast-factors n ordered actions rest er (all.1)))

  Ascends-factors :
      (ordered : List (Bar Num)) (actions : List (Action Num))
      (found : List (Factor D) × List (Factor D))
      → factors D ordered actions ≡ ok found
      → Ascends effective_of actions
      → Ascends dated (found.0)
  unfolding factors
  Ascends-factors ordered [] found e asc = rw (sym (ok-injective e)) tt
  Ascends-factors ordered (action ∷ actions) found e asc =
      let (factor, ef, e₁) = bind-ok (factor_of D action _) _ e in
      let (rest, er, e₂) = bind-ok (factors D ordered actions) _ e₁ in
      rw (sym (ok-injective e₂)) (
        Ascends-listed action factor rest
          (AtLeast-factors action.effective_date ordered actions rest er (asc.0))
          (Ascends-factors ordered actions rest er (asc.1)))

  abbrev day_of : Bar Num → ℕ
  day_of bar = bar.day

  map_agree :
      {A B : Type 0} (f g : A → B) (xs : List A)
      → All (λ (x : A). f x ≡ g x) xs
      → map f xs ≡ map g xs
  map_agree f g [] h = refl
  map_agree f g (x ∷ xs) h = rw (h.0, map_agree f g xs (h.1)) refl

  -- Once the factors after a day are passed over, an earlier bar is adjusted as before.
  adjusted_by-fold_in :
      (splits : List (Factor D)) (day : ℕ) (c : Num) (ahead : List (Factor D))
      (bars : List (Bar Num))
      → All (AtMost day_of day) bars
      → All
          (λ (bar : Bar Num).
            adjusted_by splits ((fold_in D day c ahead).0) ((fold_in D day c ahead).1) bar
            ≡ adjusted_by splits c ahead bar)
          bars
  adjusted_by-fold_in splits day c ahead [] h = tt
  adjusted_by-fold_in splits day c ahead (bar ∷ bars) h = (
    ap (λ (p : Num). (bar.day, mul bar.close (product p (unseen bar splits))))
        (fold_in-earlier day bar.day c ahead (h.0)),
    adjusted_by-fold_in splits day c ahead bars (h.1),
  )

  adjust_from-adjusted_by :
      (splits : List (Factor D)) (c : Num) (ahead : List (Factor D)) (bars : List (Bar Num))
      → Descends dated ahead
      → Descends day_of bars
      → adjust_from D splits c ahead bars ≡ map (adjusted_by splits c ahead) bars
  unfolding adjust_from
  adjust_from-adjusted_by splits c ahead [] dd db = refl
  adjust_from-adjusted_by splits c ahead (bar ∷ bars) dd db =
      let rest =
        adjust_from-adjusted_by splits ((fold_in D bar.day c ahead).0)
          ((fold_in D bar.day c ahead).1) bars (Descends-fold_in bar.day c ahead dd) (db.1)
        ∙ map_agree _ _ bars (adjusted_by-fold_in splits bar.day c ahead bars (db.0)) in
      rw
        (
          rest,
          fold_splits-product bar ((fold_in D bar.day c ahead).0) splits,
          fold_in-later bar.day c ahead dd,
        )
        refl

  reverse_aux-map :
      {A B : Type 0} (f : A → B) (xs done : List A)
      → map f (reverse_aux xs done) ≡ reverse_aux (map f xs) (map f done)
  reverse_aux-map f [] done = refl
  reverse_aux-map f (x ∷ xs) done = reverse_aux-map f xs (x ∷ done)

  -- The factors, then each bar adjusted by those that are ahead of it. Without a bar nothing is.
  abbrev pub each_adjusted : List (Bar Num) → List (Action Num) → Outcome (List (ℕ × Num))
  each_adjusted [] actions = ok []
  each_adjusted (bar ∷ bars) actions = factors D (bar ∷ bars) actions >>= λ found.
      ok (map (adjusted_by (found.1) (of_ℕ D 1) (reverse (found.0))) (bar ∷ bars))

  adjust_ordered-each_adjusted :
      (ordered : List (Bar Num)) (actions : List (Action Num))
      → Ascends day_of ordered
      → adjust_ordered D ordered actions ≡ each_adjusted ordered (sort_by effective_of actions)
  unfolding adjust_ordered
  adjust_ordered-each_adjusted [] actions asc = refl
  adjust_ordered-each_adjusted (bar ∷ bars) actions asc =
      let ordered = bar ∷ bars in
      let days = sort_by effective_of actions in
      bind-agree (factors D ordered days) _ _ (λ found returned. ap ok (
        ap reverse (
          adjust_from-adjusted_by (found.1) (of_ℕ D 1) (reverse (found.0)) (reverse ordered)
            (Descends-reverse dated (found.0)
              (Ascends-factors ordered days found returned (Ascends-sort_by effective_of actions)))
            (Descends-reverse day_of ordered asc))
        ∙ sym (reverse_aux-map _ (reverse ordered) [])
        ∙ ap (map _) (reverse-reverse ordered)))

  -- The one pass back over the bars gives each bar, in ascending order of days, its close times the
  -- factors of all dividends that take effect after it, newest first, times those of the splits that
  -- take effect after it and after its fetch. It raises where a factor does, and without a bar it
  -- gives nothing and no factor is computed.
  pub adjusted_closes_per_bar :
      (bars : List (Bar Num)) (actions : List (Action Num))
      → adjusted_closes D bars actions
        ≡ each_adjusted (sort_by day_of bars) (sort_by effective_of actions)
  unfolding adjusted_closes
  adjusted_closes_per_bar bars actions =
      adjust_ordered-each_adjusted (sort_by day_of bars) actions (Ascends-sort_by day_of bars)
