-- ===== src/Universe/Reconcile/Reference.antt =====
-- What the plan of src/screener/universe/reconcile.py is, said without its loop.
use mathlib.Core.List.{append_assoc}
use stock_aggregator.Prelude.{
  ◌==◌, Bool-cases, Option-cases, is_some, keep, count, any, Dict, lookup, insert, lookup-insert,
  ok-injective, bind-ok, ok, ℕ, ◌+◌, String, ◌≡◌, refl, sym, ap, ◌∙◌, subst, inl, inr, Bool, false,
  not, ◌&&◌, ◌||◌, none, some, List, [], ◌∷◌, ◌++◌, arith, ℕ_key, String_key,
}
use stock_aggregator.Universe.Reconcile.{
  UniverseRow, ExistingSecurity, Pair, Plan, Regex, Progress, nothing_yet, match_of, is_reentered,
  is_renamed, append_if, is_reclassified, is_unchanged, settled, take_row, take_rows, plan,
}

pub seen-insert :
    (id j : ℕ) (symbol : String) (d : Dict ℕ String)
    → is_some (lookup j (insert id symbol d)) ≡ (id == j || is_some (lookup j d))
seen-insert id j symbol d = elim (Bool-cases (id == j)) [
  | inl e ↦ rw (lookup-insert id j symbol d, e) refl
  | inr e ↦ rw (lookup-insert id j symbol d, e) refl
]

or_swap : (a b c : Bool) → ((a || b) || c) ≡ (b || (a || c))
or_swap a b c = ground arith

module _ (regex : Regex) (existing : List ExistingSecurity) where
  -- The rows that match a stored security, each with its security.
  unfoldable pub pairs : List UniverseRow → List Pair
  unfolding match_of
  pairs [] = []
  pairs (row ∷ rows) = elim (match_of existing row) [
    | none ↦ pairs rows
    | some e ↦ (e, row) ∷ pairs rows
  ]

  abbrev is_new : UniverseRow → Bool
  is_new row = not (is_some (match_of existing row))

  -- how many of the rows resolve to a security
  abbrev pub resolving : ℕ → List UniverseRow → ℕ
  resolving id rows = count (λ (pair : Pair). (pair.0).id == id) (pairs rows)

  abbrev resolves : List UniverseRow → ExistingSecurity → Bool
  resolves rows e = any (λ (pair : Pair). (pair.0).id == e.id) (pairs rows)

  -- Each part of the plan as a selection from the rows or from the stored securities, in their order.
  abbrev pub reference : List UniverseRow → Plan
  reference rows = record {
    new = keep is_new rows;
    departed = keep (λ (e : ExistingSecurity). e.is_active && not (resolves rows e)) existing;
    reclassified = keep (is_reclassified regex) (pairs rows);
    renamed = keep is_renamed (pairs rows);
    reentered = keep is_reentered (pairs rows);
    unchanged = count (is_unchanged regex) (pairs rows);
    active_before = count (λ (e : ExistingSecurity). e.is_active) existing;
  }

  -- A row that is matched adds to each list what its test selects.
  keep-append_if :
      {A : Type 0} (test : A → Bool) (x : A) (found rest : List A)
      → append_if test x found ++ keep test rest ≡ found ++ keep test (x ∷ rest)
  unfolding keep
  keep-append_if test x found rest = elim (Bool-cases (test x)) [
    | inl e ↦ rw (e, keep) (append_assoc found (x ∷ []) (keep test rest))
    | inr e ↦ rw (e, keep) refl
  ]

  -- What the loop has when it started with p.
  record Reads (p : Progress) (rows : List UniverseRow) (q : Progress) : Type 0 where
    new : q.new ≡ p.new ++ keep is_new rows
    reclassified : q.reclassified ≡ p.reclassified ++ keep (is_reclassified regex) (pairs rows)
    renamed : q.renamed ≡ p.renamed ++ keep is_renamed (pairs rows)
    reentered : q.reentered ≡ p.reentered ++ keep is_reentered (pairs rows)
    unchanged : q.unchanged ≡ p.unchanged + count (is_unchanged regex) (pairs rows)
    seen :
        (id : ℕ)
        → is_some (lookup id q.seen)
          ≡ (is_some (lookup id p.seen) || any (λ (pair : Pair). (pair.0).id == id) (pairs rows))

  Reads-new :
      (row : UniverseRow) (rows : List UniverseRow) (p q : Progress)
      → match_of existing row ≡ none
      → Reads (record p { new = p.new ++ row ∷ [] }) rows q
      → Reads p (row ∷ rows) q
  unfolding pairs keep
  Reads-new row rows p q e r = record {
    new = r.new ∙ append_assoc p.new (row ∷ []) (keep is_new rows) ∙ rw (keep, e) refl;
    reclassified = rw (pairs, e) r.reclassified;
    renamed = rw (pairs, e) r.renamed;
    reentered = rw (pairs, e) r.reentered;
    unchanged = rw (pairs, e) r.unchanged;
    seen = λ id. rw (pairs, e) (r.seen id);
  }

  Reads-settled :
      (e : ExistingSecurity) (row : UniverseRow) (rows : List UniverseRow) (p q : Progress)
      → match_of existing row ≡ some e
      → Reads (settled regex e row p) rows q
      → Reads p (row ∷ rows) q
  unfolding pairs keep count any settled
  Reads-settled e row rows p q h r = record {
    new = r.new ∙ rw (keep, h) refl;
    reclassified =
        rw (pairs, h)
          (r.reclassified
            ∙ keep-append_if (is_reclassified regex) (e, row) p.reclassified (pairs rows));
    renamed = rw (pairs, h) (r.renamed ∙ keep-append_if is_renamed (e, row) p.renamed (pairs rows));
    reentered =
        rw (pairs, h) (r.reentered ∙ keep-append_if is_reentered (e, row) p.reentered (pairs rows));
    unchanged = rw (pairs, h) (omega (arith, r.unchanged));
    seen = λ id.
        rw (pairs, h)
          (r.seen id
            ∙ ap (λ b. b || any (λ (pair : Pair). (pair.0).id == id) (pairs rows))
                (seen-insert e.id id row.symbol p.seen)
            ∙ or_swap (e.id == id) (is_some (lookup id p.seen))
                (any (λ (pair : Pair). (pair.0).id == id) (pairs rows)));
  }

  append_nil : {A : Type 0} (xs : List A) → xs ≡ xs ++ []
  append_nil [] = refl
  append_nil (x ∷ xs) = ap (λ ys. x ∷ ys) (append_nil xs)

  or_none : (b : Bool) → b ≡ (b || false)
  or_none b = ground arith

  take_rows-Reads :
      (rows : List UniverseRow) (p q : Progress)
      → take_rows regex existing rows p ≡ ok q
      → Reads p rows q
  unfolding take_rows take_row pairs keep count any
  take_rows-Reads [] p q h = subst (Reads p []) (ok-injective h) (record {
    new = append_nil p.new;
    reclassified = append_nil p.reclassified;
    renamed = append_nil p.renamed;
    reentered = append_nil p.reentered;
    unchanged = omega arith;
    seen = λ id. or_none (is_some (lookup id p.seen));
  })
  take_rows-Reads (row ∷ rows) p q h = elim (Option-cases (match_of existing row)) [
    | inl e ↦ Reads-new row rows p q e (
        take_rows-Reads rows (record p { new = p.new ++ row ∷ [] }) q
          (rw (take_rows, take_row, e) at h))
    | inr (e, f) ↦ elim (Bool-cases (is_some (lookup e.id p.seen))) [
      | inl g ↦ cc (rw (take_rows, take_row, f, g) at h)
      | inr g ↦
          Reads-settled e row rows p q f
            (take_rows-Reads rows (settled regex e row p) q (rw (take_rows, take_row, f, g) at h))
    ]
  ]

  keep-agree :
      {A : Type 0} (f g : A → Bool) → ((x : A) → f x ≡ g x) → (xs : List A) → keep f xs ≡ keep g xs
  unfolding keep
  keep-agree f g k [] = refl
  keep-agree f g k (x ∷ xs) = rw (k x, keep-agree f g k xs) refl

  abbrev plan_of :
      List UniverseRow → List ExistingSecurity → List Pair → List Pair → List Pair → ℕ → Plan
  plan_of new departed reclassified renamed reentered unchanged = record {
    new = new;
    departed = departed;
    reclassified = reclassified;
    renamed = renamed;
    reentered = reentered;
    unchanged = unchanged;
    active_before = count (λ (e : ExistingSecurity). e.is_active) existing;
  }

  same_plan :
      {a₀ a₁ : List UniverseRow} {b₀ b₁ : List ExistingSecurity} {c₀ c₁ d₀ d₁ e₀ e₁ : List Pair}
      {f₀ f₁ : ℕ}
      → a₀ ≡ a₁
      → b₀ ≡ b₁
      → c₀ ≡ c₁
      → d₀ ≡ d₁
      → e₀ ≡ e₁
      → f₀ ≡ f₁
      → plan_of a₀ b₀ c₀ d₀ e₀ f₀ ≡ plan_of a₁ b₁ c₁ d₁ e₁ f₁
  same_plan h₁ h₂ h₃ h₄ h₅ h₆ = cc (h₁, h₂, h₃, h₄, h₅, h₆)

  -- Whatever plan is returned is, part by part, a selection in the order of the file or of the stored
  -- securities: new are the rows that match no security, departed the active securities that no row
  -- resolves to, and the matched rows are re-entered, renamed, reclassified or unchanged by comparing
  -- the row with its security.
  pub plan-reference :
      (rows : List UniverseRow) (out : Plan)
      → plan regex rows existing ≡ ok out
      → out ≡ reference rows
  unfolding plan
  plan-reference rows out h =
      let (q, e, e₁) = bind-ok (take_rows regex existing rows nothing_yet) _ h in
      let r = take_rows-Reads rows nothing_yet q e in
      let unchanged : q.unchanged ≡ count (is_unchanged regex) (pairs rows) =
        omega (arith, r.unchanged) in
      sym (ok-injective e₁)
      ∙ same_plan r.new
          (keep-agree _ _ (λ (x : ExistingSecurity). ap (λ b. x.is_active && not b) (r.seen x.id))
            existing)
          r.reclassified r.renamed r.reentered unchanged
