-- ===== src/Scoring/Ratios/Steps.antt =====
-- Rules for the steps of a formula of src/screener/scoring/ratios.py.
use stock_aggregator.Prelude.{
  ℕ, String, ◌≡◌, refl, ap, ◌∙◌, ◌⊎◌, inl, inr, Bool, true, false, Option, none, some, List, ◌∷◌,
  arith, String_key, Dict, lookup, Has, Outcome, ok, raised, Returns, Option-cases,
  ok-some-injective, bind-ok, is_some,
}
use stock_aggregator.Prelude.Decimal.{Decimal, DivLaws, of_ℕ, le}
use stock_aggregator.Scoring.Basis.Facts.{Basis, Held}
use stock_aggregator.Scoring.Basis.Flow.{flow_basis, ttm_basis, annual_basis}
use stock_aggregator.Scoring.Basis.Flow.Quarters.{ttm_basis-IsTrailingYear}
use stock_aggregator.Scoring.Basis.Flow.Annual.{annual_basis_newest}
use stock_aggregator.Scoring.Basis.Flow.Total.{flow_basis-Returns}
use stock_aggregator.Scoring.Basis.Balance.{balance_at, newest_balance, first_missing_balance}
use stock_aggregator.Scoring.Basis.Balance.Laws.{newest_balance_newest, balance_at_complete}
use stock_aggregator.Scoring.Basis.Cap.{
  Reason, Explained, value, absent, no_clean_figure, no_date_holding_all, missing_at,
}
use stock_aggregator.Scoring.Basis.Cap.Laws.{value_of}
use stock_aggregator.Scoring.Ratios.Inputs.{
  Step, ◌>>=◌, ◌>>◌, absent_if, read, divided, Inputs, unavailable, found_some, basis_for, newest,
  at_day, combined, missing_codes,
}

pub Returns-step :
    {A B : Type 0} (m : Step A) (f : A → Step B)
    → Returns m
    → ((a : A) → m ≡ ok (value a) → Returns (f a))
    → Returns (m >>= f)
unfolding ◌>>=◌
Returns-step (ok (value a)) f h k = k a refl
Returns-step (ok (absent r)) f h k = (absent r, refl)
Returns-step (raised e) f h k = cc (h.1)

-- `if test: return Absent(...)`, then the rest
pub Returns-absent_if :
    {B : Type 0} (test : Bool) (r : Reason) (k : Step B)
    → (test ≡ false → Returns k)
    → Returns (absent_if test r >> k)
unfolding ◌>>◌ absent_if
Returns-absent_if true r k h = (absent r, refl)
Returns-absent_if false r k h = h refl

-- Two steps with the same value, whatever reasons they give.
abbrev pub Agree : {A : Type 0} → Step A → Step A → Type 0
Agree m n = value_of m ≡ value_of n

pub Agree-step :
    {A B : Type 0} (m n : Step A) (f g : A → Step B)
    → Agree m n
    → ((a : A) → Agree (f a) (g a))
    → Agree (m >>= f) (n >>= g)
unfolding ◌>>=◌
Agree-step (ok (value a)) (ok (value b)) f g h k =
    k a ∙ ap (λ x. value_of (g x)) (ok-some-injective h)
Agree-step (ok (value a)) (ok (absent r)) f g h k = cc h
Agree-step (ok (value a)) (raised e) f g h k = cc h
Agree-step (ok (absent r)) (ok (value b)) f g h k = cc h
Agree-step (ok (absent r)) (ok (absent s)) f g h k = refl
Agree-step (ok (absent r)) (raised e) f g h k = cc h
Agree-step (raised e) (ok (value b)) f g h k = cc h
Agree-step (raised e) (ok (absent s)) f g h k = cc h
Agree-step (raised e) (raised d) f g h k = cc h

module _ {Num : Type 0} where
  pub unavailable-Returns :
      {A : Type 0} (inputs : Inputs Num) (codes : List String) (r : Reason)
      (retry : Held Num → Outcome Bool) (currency : Option String)
      → ((h : Held Num) → Returns (retry h))
      → (s : Reason) × (unavailable {A = A} inputs codes r retry currency ≡ ok (absent s))
  unfolding unavailable
  unavailable-Returns inputs codes r retry none h = (r, refl)
  unavailable-Returns inputs codes r retry (some c) h =
      let (found, e) = h (combined inputs codes) in rw (e, unavailable) (_, refl)

  -- every code asked for has a figure
  abbrev pub Complete : List String → Dict String Num → Type 0
  Complete codes values =
      (code : String) → Has code codes → (v : Num) × (lookup code values ≡ some v)

pub found_some-Returns : {A : Type 0} (m : Outcome (Option A)) → Returns m → Returns (found_some m)
found_some-Returns (ok a) h = (_, refl)
found_some-Returns (raised e) h = cc (h.1)

module _ (D : Decimal) where
  open D use {Num, div, lt}

  flow_basis-Complete :
      (held : Held Num) (code : String) (codes : List String) (as_of : ℕ) (b : Basis Num)
      → flow_basis D held (code ∷ codes) as_of ≡ ok (some b)
      → Complete (code ∷ codes) b.values
  unfolding flow_basis
  flow_basis-Complete held code codes as_of b e c m =
      let (q, eq, rest) = bind-ok (ttm_basis D held (code ∷ codes) as_of) _ e in go q eq rest
    where
      go :
          (q : Option (Basis Num))
          → ttm_basis D held (code ∷ codes) as_of ≡ ok q
          → elim q [
            | some basis ↦ ok (some basis)
            | none ↦ annual_basis D held (code ∷ codes) as_of
          ]
            ≡ ok (some b)
          → (v : Num) × (lookup c b.values ≡ some v)
      go none eq rest =
          let p = ((annual_basis_newest D held code codes as_of).0 b rest).4 c m in
          (p.figure, p.stored)
      go (some t) eq rest =
          let s = (ttm_basis-IsTrailingYear D held (code ∷ codes) as_of b (eq ∙ rest)).sums c m in
          (s.total, s.stored)

  pub basis_for-Complete :
      (inputs : Inputs Num) (code : String) (codes : List String)
      → ((b : Basis Num) × (basis_for D inputs (code ∷ codes) ≡ ok (value b))
          × Complete (code ∷ codes) b.values)
        ⊎ ((r : Reason) × (basis_for D inputs (code ∷ codes) ≡ ok (absent r)))
  unfolding basis_for
  basis_for-Complete inputs code codes =
      let (q, e) = flow_basis-Returns D inputs.held (code ∷ codes) inputs.as_of in go q e
    where
      go :
          (q : Option (Basis Num))
          → flow_basis D inputs.held (code ∷ codes) inputs.as_of ≡ ok q
          → ((b : Basis Num) × (basis_for D inputs (code ∷ codes) ≡ ok (value b))
              × Complete (code ∷ codes) b.values)
            ⊎ ((r : Reason) × (basis_for D inputs (code ∷ codes) ≡ ok (absent r)))
      go none e =
          let (s, es) =
            unavailable-Returns {A = Basis Num} inputs (code ∷ codes)
              (no_clean_figure (code ∷ codes))
              (λ facts. found_some (flow_basis D facts (code ∷ codes) inputs.as_of)) inputs.currency
              (λ h. found_some-Returns _ (flow_basis-Returns D h (code ∷ codes) inputs.as_of)) in
          inr (s, rw (e, basis_for) es)
      go (some b) e =
          inl (b, rw (e, basis_for), flow_basis-Complete inputs.held code codes inputs.as_of b e)

module _ {Num : Type 0} where
  pub newest-Complete :
      (inputs : Inputs Num) (codes : List String)
      → ((p : ℕ × Dict String Num) × (newest inputs codes ≡ ok (value p)) × Complete codes p.1)
        ⊎ ((r : Reason) × (newest inputs codes ≡ ok (absent r)))
  unfolding newest
  newest-Complete inputs codes =
      elim (Option-cases (newest_balance inputs.held codes inputs.as_of 456)) [
        | inl missing ↦
            let (s, es) =
              unavailable-Returns {A = ℕ × Dict String Num} inputs codes (no_date_holding_all codes)
                (λ facts. ok (is_some (newest_balance facts codes inputs.as_of 456)))
                inputs.currency (λ h. (_, refl)) in
            inr (s, rw (missing, newest) es)
        | inr (p, e) ↦
            let r = newest_balance_newest inputs.held codes inputs.as_of 456 p.0 p.1 e in
            inl (
              p,
              rw (e, newest),
              λ c m.
                  let b = (balance_at_complete inputs.held p.0 codes).0 p.1 r.2 c m in (b.0, b.1),
            )
      ]

  pub at_day-Complete :
      (inputs : Inputs Num) (codes : List String) (day : ℕ)
      → ((d : Dict String Num) × (at_day inputs codes day ≡ ok (value d)) × Complete codes d)
        ⊎ ((r : Reason) × (at_day inputs codes day ≡ ok (absent r)))
  unfolding at_day
  at_day-Complete inputs codes day = elim (Option-cases (balance_at inputs.held codes day)) [
    | inl missing ↦
        let (s, es) =
          unavailable-Returns {A = Dict String Num} inputs codes
            (missing_at (missing_codes (first_missing_balance inputs.held codes day) codes) day)
            (λ facts. ok (is_some (balance_at facts codes day))) inputs.currency (λ h. (_, refl)) in
        inr (s, rw (missing, at_day) es)
    | inr (d, e) ↦ inl (
      d,
      rw (e, at_day),
      λ c m. let b = (balance_at_complete inputs.held day codes).0 d e c m in (b.0, b.1),
    )
  ]

-- A lookup of balances or of a basis, followed by the rest of the formula.
pub Returns-looked :
    {A B : Type 0} (P : A → Type 0) (m : Step A) (f : A → Step B)
    → ((a : A) × (m ≡ ok (value a)) × P a) ⊎ ((r : Reason) × (m ≡ ok (absent r)))
    → ((a : A) → P a → Returns (f a))
    → Returns (m >>= f)
unfolding ◌>>=◌
Returns-looked P m f (inl (a, e, p)) k = rw e (k a p)
Returns-looked P m f (inr (r, e)) k = rw e (absent r, refl)

-- `values[code]`, where the code is there
pub Returns-read :
    {Num B : Type 0} (values : Dict String Num) (code : String) (f : Num → Step B)
    → (v : Num) × (lookup code values ≡ some v)
    → ((v : Num) → Returns (f v))
    → Returns (read values code >>= f)
unfolding read ◌>>=◌
Returns-read values code f (v, e) k =
    let out : read values code ≡ ok (value v) = rw (e, read) in rw out (k v)

module _ (D : Decimal) (L : DivLaws D) where
  open D use {Num, div, lt}

  -- a division by a positive number
  pub Returns-div :
      {B : Type 0} (a b : Num) (f : Num → Step B)
      → lt (of_ℕ D 0) b ≡ true
      → ((q : Num) → Returns (f q))
      → Returns (divided (div a b) >>= f)
  unfolding divided ◌>>=◌
  Returns-div a b f h k = let (q, e) = L.div_pos a b h in rw e (k q)

  pub positive : (x : Num) → le D x (of_ℕ D 0) ≡ false → lt (of_ℕ D 0) x ≡ true
  positive x h = ground arith

-- The market cap that a formula is given: an absence ends it.
pub Returns-known :
    {A B : Type 0} (P : A → Type 0) (known : Explained A) (f : A → Step B)
    → ((a : A) → known ≡ value a → P a)
    → ((a : A) → P a → Returns (f a))
    → Returns (ok known >>= f)
unfolding ◌>>=◌
Returns-known P (value a) f h k = k a (h a refl)
Returns-known P (absent r) f h k = (absent r, refl)

pub Agree-then : {A B : Type 0} (m : Step A) (k l : Step B) → Agree k l → Agree (m >> k) (m >> l)
unfolding ◌>>◌
Agree-then m k l h = Agree-step m m (λ _. k) (λ _. l) refl (λ _. h)
