-- ===== src/Scoring/Ranking/Standing.antt =====
-- The percentiles that src/screener/scoring/ranking.py takes from percentile.py, value by value, and
-- its dictionary `market`.
use stock_aggregator.Prelude.{
  ℕ, ◌≡◌, ◌≢◌, refl, sym, subst, ◌∙◌, inl, inr, Bool, List, [], ◌∷◌, length, count, All, Has, arith,
  ℕ_key, Dict, lookup, insert, lookup-insert, some, Outcome, ok, raised, value_error, bind-ok,
  ok-injective,
}
use stock_aggregator.Prelude.Decimal.{Decimal, OrderLaws, of_ℕ}
use stock_aggregator.Scoring.Percentile.{place, percentiles}
use stock_aggregator.Scoring.Percentile.Counts.{same, place_all, percentiles-place_all}
use stock_aggregator.Scoring.Ranking.{Member, zip_market, values_of}

-- No security is a member twice.
abbrev pub IsDistinct : {Num : Type 0} → List (Member Num) → Type 0
IsDistinct [] = Unit
IsDistinct (m ∷ members) = All (λ n. n.0 ≢ m.0) members × IsDistinct members

lookup-zip_market_absent :
    {Num : Type 0} (members : List (Member Num)) (ranked : List Num) (market : Dict ℕ Num) (x : ℕ)
    → All (λ n. n.0 ≢ x) members
    → lookup x (zip_market members ranked market) ≡ lookup x market
unfolding zip_market
lookup-zip_market_absent [] ranked market x a = refl
lookup-zip_market_absent (m ∷ members) [] market x a = refl
lookup-zip_market_absent (m ∷ members) (p ∷ ranked) market x a =
    lookup-zip_market_absent members ranked (insert m.0 p market) x a.1
    ∙ ground (arith, lookup-insert m.0 x p market, ℕ_key.same_iff m.0 x, a.0)

module _ (D : Decimal) (O : OrderLaws D) (higher : Bool) where
  open D use {Num, lt}

  -- Where a value stands in a group: 50 in a group of one, and otherwise by how many of the group's
  -- values are strictly below it and how many are equal to it.
  abbrev pub standing : List Num → Num → Outcome Num
  standing [] v = raised value_error
  standing (only ∷ []) v = ok (of_ℕ D 50)
  standing (x ∷ y ∷ rest) v =
      let group = x ∷ y ∷ rest in
      place D (length group) higher (count (λ w. lt w v) group) (count (same D O v) group)

  -- one percentile for each value, its standing in the group
  abbrev pub Stands : List Num → List Num → List Num → Type 0
  Stands group [] [] = Unit
  Stands group [] (p ∷ ps) = ⊥
  Stands group (v ∷ vs) [] = ⊥
  Stands group (v ∷ vs) (p ∷ ps) = (standing group v ≡ ok p) × Stands group vs ps

  place_all-Stands :
      (x y : Num) (rest vs ps : List Num)
      → place_all D O (length (x ∷ y ∷ rest)) higher (x ∷ y ∷ rest) vs ≡ ok ps
      → Stands (x ∷ y ∷ rest) vs ps
  place_all-Stands x y rest [] ps e = subst (Stands (x ∷ y ∷ rest) []) (ok-injective e) tt
  place_all-Stands x y rest (v ∷ vs) ps e =
      let (p, ep, e₁) = bind-ok (standing (x ∷ y ∷ rest) v) _ e in
      let (qs, eq, e₂) =
        bind-ok (place_all D O (length (x ∷ y ∷ rest)) higher (x ∷ y ∷ rest) vs) _ e₁ in
      subst (Stands (x ∷ y ∷ rest) (v ∷ vs)) (ok-injective e₂)
        (ep, place_all-Stands x y rest vs qs eq)

  pub percentiles-Stands : (vs ps : List Num) → percentiles D vs higher ≡ ok ps → Stands vs vs ps
  unfolding percentiles
  percentiles-Stands [] ps e = subst (Stands [] []) (ok-injective e) tt
  percentiles-Stands (v ∷ []) ps e = subst (Stands (v ∷ []) (v ∷ [])) (ok-injective e) (refl, tt)
  percentiles-Stands (v ∷ w ∷ rest) ps e =
      place_all-Stands v w rest (v ∷ w ∷ rest) ps
        (sym (percentiles-place_all D O v w rest higher) ∙ e)

  -- What the dictionary holds for a member is the standing of that member's value.
  pub lookup-zip_market-Stands :
      (group : List Num) (members : List (Member Num)) (ranked : List Num) (market : Dict ℕ Num)
      (m : Member Num) (p : Num)
      → IsDistinct members
      → Stands group (values_of members) ranked
      → Has m members
      → lookup m.0 (zip_market members ranked market) ≡ some p
      → standing group m.1 ≡ ok p
  unfolding zip_market
  lookup-zip_market-Stands group [] ranked market m p d s h e = absurd h
  lookup-zip_market-Stands group (n ∷ members) [] market m p d s h e = absurd s
  lookup-zip_market-Stands group (n ∷ members) (q ∷ ranked) market m p d s (inr h) e =
      lookup-zip_market-Stands group members ranked (insert n.0 q market) m p d.1 s.1 h e
  lookup-zip_market-Stands group (n ∷ members) (q ∷ ranked) market m p d s (inl here) e =
      subst
        (λ k.
          lookup k.0 (zip_market members ranked (insert n.0 q market)) ≡ some p
          → standing group k.1 ≡ ok p)
        here
        (λ found.
          let kept = lookup-zip_market_absent members ranked (insert n.0 q market) n.0 d.0 in
          let own : q ≡ p =
            ground (arith, lookup-insert n.0 n.0 q market, ℕ_key.same_iff n.0 n.0, kept, found) in
          s.0 ∙ rw own)
        e
