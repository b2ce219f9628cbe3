-- ===== src/Scoring/Adjust/Returning.antt =====
-- `adjusted_closes` of src/screener/scoring/adjust.py does not divide by zero.
use stock_aggregator.Prelude.{
  ◌==◌, Bool-cases, Option-cases, ◌>>=◌, Returns, Returns-bind, ok, ◌≡◌, refl, inl, inr, true,
  Option, none, some, List, [], ◌∷◌, ℕ_key, String_key,
}
use stock_aggregator.Prelude.Decimal.{Decimal, of_ℕ, DivLaws, OrderLaws}
use stock_aggregator.Scoring.Percentile.{divide}
use stock_aggregator.Scoring.Adjust.{
  Action, Bar, sort_by, split_factor, dividend_factor, factor_of, listed, factors, adjust_ordered,
  adjusted_closes,
}

module _ (D : Decimal) (laws : DivLaws D) (order : OrderLaws D) where
  open D use {Num, sub, mul, lt}

  divide_pos : (a b : Num) → lt (of_ℕ D 0) b ≡ true → Returns (divide D a b)
  divide_pos a b h = let (q, e) = laws.div_pos a b h in rw e (q, refl)

  factor_Returns :
      (a b : Num) → lt (of_ℕ D 0) b ≡ true → Returns (divide D a b >>= λ factor. ok (some factor))
  factor_Returns a b h = Returns-bind _ _ (divide_pos a b h) (λ q e. (some q, refl))

  split_factor-Returns : (action : Action Num) → Returns (split_factor D action)
  unfolding split_factor
  split_factor-Returns action = elim (Option-cases action.ratio) [
    | inl e ↦ rw e (none, refl)
    | inr (ratio, e) ↦ rw e (elim (Bool-cases (lt (of_ℕ D 0) ratio)) [
      | inl h ↦ rw h (factor_Returns _ ratio h)
      | inr h ↦ rw h (none, refl)
    ])
  ]

  -- what is above a positive number is positive
  positive_above : (a b : Num) → lt (of_ℕ D 0) a ≡ true → lt a b ≡ true → lt (of_ℕ D 0) b ≡ true
  positive_above a b ha hb = elim (Bool-cases (lt (of_ℕ D 0) b)) [
    | inl h ↦ h
    | inr h ↦ cc (order.le_trans b (of_ℕ D 0) a h (order.lt_asymm (of_ℕ D 0) a ha), hb)
  ]

  dividend_factor-Returns :
      (action : Action Num) (prior : Option Num) → Returns (dividend_factor D action prior)
  unfolding dividend_factor
  dividend_factor-Returns action none = (none, refl)
  dividend_factor-Returns action (some prior) = elim (Option-cases action.amount) [
    | inl e ↦ rw e (none, refl)
    | inr (amount, e) ↦ rw e (elim (Bool-cases (lt (of_ℕ D 0) amount)) [
      | inl h ↦ elim (Bool-cases (lt amount prior)) [
        | inl k ↦ rw (h, k) (factor_Returns _ prior (positive_above amount prior h k))
        | inr k ↦ rw (h, k) (none, refl)
      ]
      | inr h ↦ rw h (none, refl)
    ])
  ]

  factor_of-Returns :
      (action : Action Num) (prior : Option Num) → Returns (factor_of D action prior)
  unfolding factor_of
  factor_of-Returns action prior = elim (Bool-cases (action.action_type == "split")) [
    | inl e ↦ rw e (split_factor-Returns action)
    | inr e ↦ elim (Bool-cases (action.action_type == "dividend")) [
      | inl k ↦ rw (e, k) (dividend_factor-Returns action prior)
      | inr k ↦ rw (e, k) (none, refl)
    ]
  ]

  factors-Returns :
      (ordered : List (Bar Num)) (actions : List (Action Num)) → Returns (factors D ordered actions)
  unfolding factors
  factors-Returns ordered [] = (([], []), refl)
  factors-Returns ordered (action ∷ actions) =
      Returns-bind _ _ (factor_of-Returns action _) (λ factor e.
        Returns-bind _ _ (factors-Returns ordered actions)
          (λ rest e₁. (listed D action factor rest, refl)))

  adjust_ordered-Returns :
      (ordered : List (Bar Num)) (actions : List (Action Num))
      → Returns (adjust_ordered D ordered actions)
  unfolding adjust_ordered
  adjust_ordered-Returns [] actions = ([], refl)
  adjust_ordered-Returns (bar ∷ bars) actions =
      let days = sort_by (λ (a : Action Num). a.effective_date) actions in
      let (found, e) = factors-Returns (bar ∷ bars) days in rw e (_, refl)

  -- `adjusted_closes` always returns: no split ratio, dividend or close makes it divide by zero.
  pub adjusted_closes-Returns :
      (bars : List (Bar Num)) (actions : List (Action Num))
      → Returns (adjusted_closes D bars actions)
  unfolding adjusted_closes
  adjusted_closes-Returns bars actions =
      adjust_ordered-Returns (sort_by (λ (b : Bar Num). b.day) bars) actions
