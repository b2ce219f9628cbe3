-- ===== src/Scoring/Percentile/Counts.antt =====
-- The two bisections of src/screener/scoring/percentile.py as counts.
use stock_aggregator.Prelude.{
  ℕ, ◌+◌, ◌-◌, ◌≡◌, refl, ap, ◌∙◌, inl, inr, Bool, true, false, not, ◌&&◌, List, [], ◌∷◌, length,
  arith, if◌then◌else◌, count, All, Outcome, ok, ◌>>=◌, Bool-cases,
}
use stock_aggregator.Prelude.Decimal.{Decimal, OrderLaws}
use stock_aggregator.Scoring.Percentile.{
  insert_sorted, sorted, bisect_left, bisect_right, place, place_each, percentiles,
}

module _ (D : Decimal) (O : OrderLaws D) where
  open D use {Num, lt}

  -- No later item is below an earlier one.
  abbrev pub Ascends : List Num → Type 0
  Ascends [] = Unit
  Ascends (x ∷ xs) = All (λ y. lt y x ≡ false) xs × Ascends xs

  All-insert_sorted :
      (v b : Num) (xs : List Num)
      → lt v b ≡ false
      → All (λ y. lt y b ≡ false) xs
      → All (λ y. lt y b ≡ false) (insert_sorted D v xs)
  unfolding insert_sorted
  All-insert_sorted v b [] h a = (h, tt)
  All-insert_sorted v b (x ∷ xs) h a = elim (Bool-cases (lt x v)) [
    | inl before ↦ rw before (a.0, All-insert_sorted v b xs h a.1)
    | inr here ↦ rw here (h, a)
  ]

  All-le_trans :
      (v x : Num) (xs : List Num)
      → lt x v ≡ false
      → All (λ y. lt y x ≡ false) xs
      → All (λ y. lt y v ≡ false) xs
  All-le_trans v x [] h a = tt
  All-le_trans v x (y ∷ xs) h a = (O.le_trans v x y h a.0, All-le_trans v x xs h a.1)

  insert_sorted-Ascends : (v : Num) (xs : List Num) → Ascends xs → Ascends (insert_sorted D v xs)
  unfolding insert_sorted
  insert_sorted-Ascends v [] h = (tt, tt)
  insert_sorted-Ascends v (x ∷ xs) h = elim (Bool-cases (lt x v)) [
    | inl before ↦
        rw before
          (All-insert_sorted v x xs (O.lt_asymm x v before) h.0, insert_sorted-Ascends v xs h.1)
    | inr here ↦ rw here ((here, All-le_trans v x xs here h.0), h)
  ]

  pub sorted-Ascends : (xs : List Num) → Ascends (sorted D xs)
  unfolding sorted
  sorted-Ascends [] = tt
  sorted-Ascends (x ∷ xs) = insert_sorted-Ascends x (sorted D xs) (sorted-Ascends xs)

  count-insert_sorted :
      (p : Num → Bool) (v : Num) (xs : List Num) → count p (insert_sorted D v xs) ≡ count p (v ∷ xs)
  unfolding insert_sorted count
  count-insert_sorted p v [] = refl
  count-insert_sorted p v (x ∷ xs) = elim (Bool-cases (lt x v)) [
    | inl before ↦ rw before (omega (arith, count-insert_sorted p v xs))
    | inr here ↦ rw here
  ]

  -- Sorting keeps how many values pass any test.
  pub count-sorted : (p : Num → Bool) (xs : List Num) → count p (sorted D xs) ≡ count p xs
  unfolding sorted count
  count-sorted p [] = refl
  count-sorted p (x ∷ xs) =
      count-insert_sorted p x (sorted D xs)
      ∙ ap (λ n. (if p x then 1 else 0) + n) (count-sorted p xs)

  count_none : (p : Num → Bool) (xs : List Num) → All (λ y. p y ≡ false) xs → count p xs ≡ 0
  unfolding count
  count_none p [] h = refl
  count_none p (x ∷ xs) h = rw (h.0, count_none p xs h.1)

  bisect_left-count :
      (v : Num) (xs : List Num) → Ascends xs → bisect_left D xs v ≡ count (λ x. lt x v) xs
  unfolding bisect_left count
  bisect_left-count v [] h = refl
  bisect_left-count v (x ∷ xs) h = elim (Bool-cases (lt x v)) [
    | inl before ↦ rw before (omega (arith, bisect_left-count v xs h.1))
    | inr here ↦ rw here (omega (arith, count_none (λ x. lt x v) xs (All-le_trans v x xs here h.0)))
  ]

  All-lt :
      (v x : Num) (xs : List Num)
      → lt v x ≡ true
      → All (λ y. lt y x ≡ false) xs
      → All (λ y. not (lt v y) ≡ false) xs
  All-lt v x [] h a = tt
  All-lt v x (y ∷ xs) h a = (
    elim (Bool-cases (lt v y)) [
      | inl above ↦ rw above
      | inr below ↦ cc (h, O.le_trans x y v a.0 below)
    ],
    All-lt v x xs h a.1,
  )

  bisect_right-count :
      (v : Num) (xs : List Num) → Ascends xs → bisect_right D xs v ≡ count (λ x. not (lt v x)) xs
  unfolding bisect_right count
  bisect_right-count v [] h = refl
  bisect_right-count v (x ∷ xs) h = elim (Bool-cases (lt v x)) [
    | inl above ↦
        rw above (omega (arith, count_none (λ x. not (lt v x)) xs (All-lt v x xs above h.0)))
    | inr here ↦ rw here (omega (arith, bisect_right-count v xs h.1))
  ]

  -- neither is below the other
  abbrev pub same : Num → Num → Bool
  same v x = not (lt x v) && not (lt v x)

  count_split :
      (v : Num) (xs : List Num)
      → count (λ x. not (lt v x)) xs ≡ count (λ x. lt x v) xs + count (same v) xs
  unfolding count
  count_split v [] = omega arith
  count_split v (x ∷ xs) = elim (Bool-cases (lt x v)) [
    | inl below ↦ rw (below, O.lt_asymm x v below) (omega (arith, count_split v xs))
    | inr other ↦ elim (Bool-cases (lt v x)) [
      | inl above ↦ rw (other, above) (omega (arith, count_split v xs))
      | inr equal ↦ rw (other, equal) (omega (arith, count_split v xs))
    ]
  ]

  -- The formula at the top of the module, by counting: no sorting and no bisection.
  abbrev pub place_all : ℕ → Bool → List Num → List Num → Outcome (List Num)
  place_all n higher all [] = ok []
  place_all n higher all (v ∷ vs) = do
    percentile ← place D n higher (count (λ x. lt x v) all) (count (same v) all)
    rest ← place_all n higher all vs
    ok (percentile ∷ rest)

  place_each-place_all :
      (n : ℕ) (higher : Bool) (all vs : List Num)
      → place_each D n higher (sorted D all) vs ≡ place_all n higher all vs
  unfolding place_each
  place_each-place_all n higher all [] = refl
  place_each-place_all n higher all (v ∷ vs) =
      let below : bisect_left D (sorted D all) v ≡ count (λ x. lt x v) all =
        bisect_left-count v (sorted D all) (sorted-Ascends all) ∙ count-sorted (λ x. lt x v) all in
      let up : bisect_right D (sorted D all) v ≡ count (λ x. not (lt v x)) all =
        bisect_right-count v (sorted D all) (sorted-Ascends all)
        ∙ count-sorted (λ x. not (lt v x)) all in
      let equal : bisect_right D (sorted D all) v - bisect_left D (sorted D all) v
          ≡ count (same v) all =
        omega (arith, below, up, count_split v all) in
      rw (equal, below, place_each-place_all n higher all vs)

  -- In a group of two or more, each value's percentile is computed from how many of the group's
  -- values are strictly below it and how many are equal to it, in the order in which the values
  -- were given.
  pub percentiles-place_all :
      (v w : Num) (rest : List Num) (higher : Bool)
      → let all = v ∷ w ∷ rest in percentiles D all higher ≡ place_all (length all) higher all all
  unfolding percentiles
  percentiles-place_all v w rest higher =
      place_each-place_all _ higher (v ∷ w ∷ rest) (v ∷ w ∷ rest)
