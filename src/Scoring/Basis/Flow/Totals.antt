-- ===== src/Scoring/Basis/Flow/Totals.antt =====
-- The values of a basis of src/screener/scoring/basis.py, code by code.
use stock_aggregator.Prelude.{
  ℕ, String, ◌≡◌, refl, ap, ◌∙◌, ◌⊎◌, inl, inr, true, Option, none, some, List, [], ◌∷◌, arith,
  if◌then◌else◌, ◌==◌, String_key, ℕ_key, Dict, lookup, insert, lookup-insert, All, Has, take,
  Bool-cases, spread, ok, Returns, Returns-bind, or_raise, key_error, zero, subst, ok-injective,
  bind-ok, suc, is_some,
}
use stock_aggregator.Prelude.Decimal.{Decimal, of_ℕ}
use stock_aggregator.Scoring.Basis.Facts.{Held, by_date, holds}
use stock_aggregator.Scoring.Basis.Flow.{sum_days, sums, picks, series_of}

pub All-take : {A : Type 0} (P : A → Type 0) (n : ℕ) (xs : List A) → All P xs → All P (take n xs)
All-take P zero xs h = tt
All-take P (suc n) [] h = tt
All-take P (suc n) (x ∷ xs) h = (h.0, All-take P n xs h.1)

module _ (D : Decimal) where
  open D use {Num, add}

  lookup-Returns :
      (day : ℕ) (dated : Dict ℕ Num)
      → is_some (lookup day dated) ≡ true
      → Returns (or_raise key_error (lookup day dated))
  lookup-Returns day dated h = go (lookup day dated) h
    where
      go : (o : Option Num) → is_some o ≡ true → Returns (or_raise key_error o)
      go none e = cc e
      go (some v) e = (v, refl)

  sum_days-Returns :
      (dated : Dict ℕ Num) (days : List ℕ) (total : Num)
      → All (λ day. is_some (lookup day dated) ≡ true) days
      → Returns (sum_days D dated days total)
  unfolding sum_days
  sum_days-Returns dated [] total h = (total, refl)
  sum_days-Returns dated (day ∷ days) total h =
      Returns-bind _ _ (lookup-Returns day dated h.0)
        λ v e. sum_days-Returns dated days (add total v) h.1

  holds_head :
      (s : Dict ℕ Num) (rest : List (Dict ℕ Num)) (days : List ℕ)
      → All (λ day. holds (s ∷ rest) day ≡ true) days
      → All (λ day. is_some (lookup day s) ≡ true) days
  unfolding holds
  holds_head s rest [] h = tt
  holds_head s rest (d ∷ days) h = (ground arith, holds_head s rest days h.1)

  holds_tail :
      (s : Dict ℕ Num) (rest : List (Dict ℕ Num)) (days : List ℕ)
      → All (λ day. holds (s ∷ rest) day ≡ true) days
      → All (λ day. holds rest day ≡ true) days
  unfolding holds
  holds_tail s rest [] h = tt
  holds_tail s rest (d ∷ days) h = (ground arith, holds_tail s rest days h.1)

  pub sums-Returns :
      (days : List ℕ) (codes : List String) (series : List (Dict ℕ Num)) (acc : Dict String Num)
      → All (λ day. holds series day ≡ true) days
      → Returns (sums D days codes series acc)
  unfolding sums
  sums-Returns days [] series acc h = (acc, refl)
  sums-Returns days (c ∷ codes) [] acc h = (acc, refl)
  sums-Returns days (c ∷ codes) (s ∷ series) acc h =
      Returns-bind _ _ (sum_days-Returns s days (of_ℕ D 0) (holds_head s series days h))
        λ t e. sums-Returns days codes series (insert c t acc) (holds_tail s series days h)

  pub picks-Returns :
      (end : ℕ) (codes : List String) (series : List (Dict ℕ Num)) (acc : Dict String Num)
      → holds series end ≡ true
      → Returns (picks D end codes series acc)
  unfolding picks holds
  picks-Returns end [] series acc h = (acc, refl)
  picks-Returns end (c ∷ codes) [] acc h = (acc, refl)
  picks-Returns end (c ∷ codes) (s ∷ series) acc h =
      Returns-bind _ _ (lookup-Returns end s (ground arith))
        λ t e. picks-Returns end codes series (insert c t acc) (ground arith)

  -- the figure under `code` is the sum of that code's own quarterly figures at the days
  pub record Summed (held : Held Num) (days : List ℕ) (code : String) (out : Dict String Num)
      : Type 0 where
    pub total : Num
    pub stored : lookup code out ≡ some total
    pub is_sum : sum_days D (by_date held code "Q") days (of_ℕ D 0) ≡ ok total

  -- the figure under `code` is that code's own annual figure at the date
  pub record Picked (held : Held Num) (end : ℕ) (code : String) (out : Dict String Num)
      : Type 0 where
    pub figure : Num
    pub stored : lookup code out ≡ some figure
    pub is_figure : lookup end (by_date held code "A") ≡ some figure

  Summed-insert :
      (held : Held Num) (days : List ℕ) (j c : String) (t : Num) (acc : Dict String Num)
      → sum_days D (by_date held c "Q") days (of_ℕ D 0) ≡ ok t
      → (Summed held days j acc) ⊎ (c ≡ j)
      → Summed held days j (insert c t acc)
  Summed-insert held days j c t acc e h = elim (Bool-cases (c == j)) [
    | inl same ↦
        let same' : c ≡ j = (String_key.same_iff c j).0 same in
        record {
          total = t;
          stored = lookup-insert c j t acc ∙ ap (λ b. if b then some t else lookup j acc) same;
          is_sum = rw (← same') e;
        }
    | inr other ↦ elim h [
      | inl s ↦ record {
        total = s.total;
        stored =
            lookup-insert c j t acc ∙ ap (λ b. if b then some t else lookup j acc) other ∙ s.stored;
        is_sum = s.is_sum;
      }
      | inr same ↦ cc (other, (String_key.same_iff c j).1 same)
    ]
  ]

  Picked-insert :
      (held : Held Num) (end : ℕ) (j c : String) (t : Num) (acc : Dict String Num)
      → lookup end (by_date held c "A") ≡ some t
      → (Picked held end j acc) ⊎ (c ≡ j)
      → Picked held end j (insert c t acc)
  Picked-insert held end j c t acc e h = elim (Bool-cases (c == j)) [
    | inl same ↦
        let same' : c ≡ j = (String_key.same_iff c j).0 same in
        record {
          figure = t;
          stored = lookup-insert c j t acc ∙ ap (λ b. if b then some t else lookup j acc) same;
          is_figure = rw (← same') e;
        }
    | inr other ↦ elim h [
      | inl s ↦ record {
        figure = s.figure;
        stored =
            lookup-insert c j t acc ∙ ap (λ b. if b then some t else lookup j acc) other ∙ s.stored;
        is_figure = s.is_figure;
      }
      | inr same ↦ cc (other, (String_key.same_iff c j).1 same)
    ]
  ]

  pub sums-Summed :
      (held : Held Num) (days : List ℕ) (j : String) (codes : List String) (acc : Dict String Num)
      (out : Dict String Num)
      → sums D days codes (series_of D held "Q" codes) acc ≡ ok out
      → (Summed held days j acc) ⊎ Has j codes
      → Summed held days j out
  unfolding sums
  sums-Summed held days j [] acc out e h = elim h [
    | inl s ↦ subst (Summed held days j) (ok-injective e) s
    | inr m ↦ absurd m
  ]
  sums-Summed held days j (c ∷ codes) acc out e h =
      let (t, et, rest) = bind-ok _ _ e in
      elim (spread h) [
        | inl now ↦
            sums-Summed held days j codes (insert c t acc) out rest
              (inl (Summed-insert held days j c t acc et now))
        | inr later ↦ sums-Summed held days j codes (insert c t acc) out rest (inr later)
      ]

  or_raise-ok : (o : Option Num) {t : Num} → or_raise key_error o ≡ ok t → o ≡ some t
  or_raise-ok none e = cc e
  or_raise-ok (some v) e = ap some (ok-injective e)

  pub picks-Picked :
      (held : Held Num) (end : ℕ) (j : String) (codes : List String) (acc : Dict String Num)
      (out : Dict String Num)
      → picks D end codes (series_of D held "A" codes) acc ≡ ok out
      → (Picked held end j acc) ⊎ Has j codes
      → Picked held end j out
  unfolding picks
  picks-Picked held end j [] acc out e h = elim h [
    | inl s ↦ subst (Picked held end j) (ok-injective e) s
    | inr m ↦ absurd m
  ]
  picks-Picked held end j (c ∷ codes) acc out e h =
      let (t, et, rest) = bind-ok _ _ e in
      elim (spread h) [
        | inl now ↦ picks-Picked held end j codes (insert c t acc) out rest (
            inl (
              Picked-insert held end j c t acc (or_raise-ok (lookup end (by_date held c "A")) et)
                now))
        | inr later ↦ picks-Picked held end j codes (insert c t acc) out rest (inr later)
      ]
