-- ===== src/Scoring/Adjust/Order.antt =====
-- The orders in which src/screener/scoring/adjust.py goes through bars and actions.
use stock_aggregator.Prelude.{
  ltb, leb, Bool-cases, all, All, ℕ, ◌≡◌, inl, inr, true, List, [], ◌∷◌, reverse, arith, ℕ_key,
  String_key,
}
use stock_aggregator.Scoring.Adjust.{place_by, sort_by}
use mathlib.Core.List.{reverse_aux}

module _ {A : Type 0} (key : A → ℕ) where
  abbrev pub AtMost : ℕ → A → Type 0
  AtMost n a = leb (key a) n ≡ true

  -- no item's key is above the key of one before it
  abbrev pub Descends : List A → Type 0
  Descends [] = Unit
  Descends (a ∷ rows) = All (AtMost (key a)) rows × Descends rows

  abbrev pub AtLeast : ℕ → A → Type 0
  AtLeast n a = leb n (key a) ≡ true

  abbrev pub Ascends : List A → Type 0
  Ascends [] = Unit
  Ascends (a ∷ rows) = All (AtLeast (key a)) rows × Ascends rows

  AtLeast-place_by :
      (n : ℕ) (a : A) (rows : List A)
      → leb n (key a) ≡ true
      → All (AtLeast n) rows
      → All (AtLeast n) (place_by key a rows)
  unfolding place_by
  AtLeast-place_by n a [] h all = (h, tt)
  AtLeast-place_by n a (b ∷ rows) h all = elim (Bool-cases (ltb (key b) (key a))) [
    | inl e ↦ rw e (all.0, AtLeast-place_by n a rows h (all.1))
    | inr e ↦ rw e (h, all)
  ]

  AtLeast-weaken :
      (m n : ℕ) (rows : List A) → leb m n ≡ true → All (AtLeast n) rows → All (AtLeast m) rows
  AtLeast-weaken m n [] h all = tt
  AtLeast-weaken m n (b ∷ rows) h all = (ground (arith, all.0), AtLeast-weaken m n rows h (all.1))

  Ascends-place_by : (a : A) (rows : List A) → Ascends rows → Ascends (place_by key a rows)
  unfolding place_by
  Ascends-place_by a [] asc = (tt, tt)
  Ascends-place_by a (b ∷ rows) asc = elim (Bool-cases (ltb (key b) (key a))) [
    | inl e ↦
        rw e
          (AtLeast-place_by (key b) a rows (ground arith) (asc.0), Ascends-place_by a rows (asc.1))
    | inr e ↦
        let h : leb (key a) (key b) ≡ true = ground arith in
        rw e ((h, AtLeast-weaken (key a) (key b) rows h (asc.0)), asc)
  ]

  pub Ascends-sort_by : (rows : List A) → Ascends (sort_by key rows)
  unfolding sort_by
  Ascends-sort_by [] = tt
  Ascends-sort_by (a ∷ rows) = Ascends-place_by a (sort_by key rows) (Ascends-sort_by rows)

  AtMost-weaken :
      (m n : ℕ) (rows : List A) → leb m n ≡ true → All (AtMost m) rows → All (AtMost n) rows
  AtMost-weaken m n [] h all = tt
  AtMost-weaken m n (b ∷ rows) h all = (ground (arith, all.0), AtMost-weaken m n rows h (all.1))

  AtMost-reverse_aux :
      (n : ℕ) (rows done : List A)
      → All (AtMost n) rows
      → All (AtMost n) done
      → All (AtMost n) (reverse_aux rows done)
  AtMost-reverse_aux n [] done h k = k
  AtMost-reverse_aux n (a ∷ rows) done h k = AtMost-reverse_aux n rows (a ∷ done) (h.1) (h.0, k)

  -- what is turned over so far is below all that is left
  abbrev Below : List A → List A → Type 0
  Below rows done = All (λ (a : A). All (AtMost (key a)) done) rows

  Below-grow :
      (a : A) (rows done : List A)
      → All (AtLeast (key a)) rows
      → Below rows done
      → Below rows (a ∷ done)
  Below-grow a [] done h k = tt
  Below-grow a (b ∷ rows) done h k = ((h.0, k.0), Below-grow a rows done (h.1) (k.1))

  Descends-reverse_aux :
      (rows done : List A)
      → Ascends rows
      → Descends done
      → Below rows done
      → Descends (reverse_aux rows done)
  Descends-reverse_aux [] done asc desc below = desc
  Descends-reverse_aux (a ∷ rows) done asc desc below =
      Descends-reverse_aux rows (a ∷ done) (asc.1) (below.0, desc)
        (Below-grow a rows done (asc.0) (below.1))

  Below-nil : (rows : List A) → Below rows []
  Below-nil [] = tt
  Below-nil (a ∷ rows) = (tt, Below-nil rows)

  pub Descends-reverse : (rows : List A) → Ascends rows → Descends (reverse rows)
  Descends-reverse rows asc = Descends-reverse_aux rows [] asc tt (Below-nil rows)
