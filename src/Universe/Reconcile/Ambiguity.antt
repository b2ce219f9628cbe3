-- ===== src/Universe/Reconcile/Ambiguity.antt =====
-- When `plan` of src/screener/universe/reconcile.py raises AmbiguousIdentity.
use stock_aggregator.Prelude.{
  if◌then◌else◌, ◌==◌, ℕ_key, Bool-cases, Option-cases, is_some, count, lookup, Error, Returns,
  bind-ok, Outcome-cases, ambiguous_identity, raised, ℕ, ◌+◌, ◌≤◌, ◌≡◌, refl, subst, ◌↔◌, inl, inr,
  true, false, none, some, List, [], ◌∷◌, ◌++◌, arith, ℕ_key, String_key,
}
use stock_aggregator.Universe.Reconcile.{
  UniverseRow, ExistingSecurity, Regex, Progress, nothing_yet, match_of, settled, take_row,
  take_rows, plan,
}
use stock_aggregator.Universe.Reconcile.Reference.{seen-insert, pairs, resolving}

module _ (regex : Regex) (existing : List ExistingSecurity) where
  abbrev times_seen : ℕ → Progress → ℕ
  times_seen id p = if is_some (lookup id p.seen) then 1 else 0

  -- No security is resolved to twice, counting the rows that are done.
  abbrev NoRepeat : Progress → List UniverseRow → Type 0
  NoRepeat p rows = (id : ℕ) → times_seen id p + resolving regex existing id rows ≤ 1

  settled-times_seen :
      (e : ExistingSecurity) (row : UniverseRow) (p : Progress) (id : ℕ)
      → is_some (lookup e.id p.seen) ≡ false
      → times_seen id (settled regex e row p) ≡ times_seen id p + (if e.id == id then 1 else 0)
  unfolding settled
  settled-times_seen e row p id new = elim (Bool-cases (e.id == id)) [
    | inl f ↦
        let g : is_some (lookup id p.seen) ≡ false =
          subst (λ j. is_some (lookup j p.seen) ≡ false) ((ℕ_key.same_iff e.id id).0 f) new in
        rw (settled, seen-insert e.id id row.symbol p.seen, f, g) (omega arith)
    | inr f ↦ rw (settled, seen-insert e.id id row.symbol p.seen, f) (omega arith)
  ]

  settled-NoRepeat :
      (e : ExistingSecurity) (row : UniverseRow) (rows : List UniverseRow) (p : Progress)
      → match_of existing row ≡ some e
      → is_some (lookup e.id p.seen) ≡ false
      → NoRepeat p (row ∷ rows) ↔ NoRepeat (settled regex e row p) rows
  unfolding pairs count
  settled-NoRepeat e row rows p h new = (
    (λ k id. omega (arith, settled-times_seen e row p id new, rw (pairs, h) at k id)),
    (λ k id. rw (pairs, h) (omega (arith, settled-times_seen e row p id new, k id))),
  )

  new-NoRepeat :
      (row : UniverseRow) (rows : List UniverseRow) (p : Progress)
      → match_of existing row ≡ none
      → NoRepeat p (row ∷ rows) ↔ NoRepeat (record p { new = p.new ++ row ∷ [] }) rows
  unfolding pairs
  new-NoRepeat row rows p h = ((λ k id. rw (pairs, h) at k id), (λ k id. rw (pairs, h) (k id)))

  -- A row that resolves to a security seen before is a repeat.
  seen_again :
      (e : ExistingSecurity) (row : UniverseRow) (rows : List UniverseRow) (p : Progress)
      → match_of existing row ≡ some e
      → is_some (lookup e.id p.seen) ≡ true
      → ¬ NoRepeat p (row ∷ rows)
  unfolding pairs count
  seen_again e row rows p h again k =
      let once : times_seen e.id p ≡ 1 = rw again refl in
      ground (arith, once, rw (pairs, h) at k e.id, (ℕ_key.same_iff e.id e.id).1 refl)

  take_rows-NoRepeat :
      (rows : List UniverseRow) (p : Progress)
      → Returns (take_rows regex existing rows p) ↔ NoRepeat p rows
  unfolding take_rows take_row pairs count
  take_rows-NoRepeat [] p = ((λ h id. ground arith), (λ k. (p, refl)))
  take_rows-NoRepeat (row ∷ rows) p = elim (Option-cases (match_of existing row)) [
    | inl e ↦
        let here = new-NoRepeat row rows p e in
        let rest = take_rows-NoRepeat rows (record p { new = p.new ++ row ∷ [] }) in
        (
          (λ h. here.1 (rest.0 (rw (take_rows, take_row, e) at h))),
          (λ k. rw (take_rows, take_row, e) (rest.1 (here.0 k))),
        )
    | inr (e, f) ↦ elim (Bool-cases (is_some (lookup e.id p.seen))) [
      | inl g ↦ (
        (λ (out, h). cc (rw (take_rows, take_row, f, g) at h)),
        (λ k. absurd (seen_again e row rows p f g k)),
      )
      | inr g ↦
          let here = settled-NoRepeat e row rows p f g in
          let rest = take_rows-NoRepeat rows (settled regex e row p) in
          (
            (λ h. here.1 (rest.0 (rw (take_rows, take_row, f, g) at h))),
            (λ k. rw (take_rows, take_row, f, g) (rest.1 (here.0 k))),
          )
    ]
  ]

  take_rows-raised :
      (rows : List UniverseRow) (p : Progress) (e : Error)
      → take_rows regex existing rows p ≡ raised e
      → e ≡ ambiguous_identity
  unfolding take_rows take_row
  take_rows-raised [] p e h = cc h
  take_rows-raised (row ∷ rows) p e h = elim (Option-cases (match_of existing row)) [
    | inl f ↦ take_rows-raised rows _ e (rw (take_rows, take_row, f) at h)
    | inr (s, f) ↦ elim (Bool-cases (is_some (lookup s.id p.seen))) [
      | inl g ↦ cc (rw (take_rows, take_row, f, g) at h)
      | inr g ↦
          take_rows-raised rows (settled regex s row p) e (rw (take_rows, take_row, f, g) at h)
    ]
  ]

  -- `plan` returns exactly where no two rows resolve to one security; else it raises
  -- AmbiguousIdentity.
  pub plan-Returns :
      (rows : List UniverseRow)
      → (Returns (plan regex rows existing) ↔ ((id : ℕ) → resolving regex existing id rows ≤ 1))
        × ((e : Error) → plan regex rows existing ≡ raised e → e ≡ ambiguous_identity)
  unfolding plan lookup
  plan-Returns rows =
      let both = take_rows-NoRepeat rows nothing_yet in
      (
        (
          (λ (out, h).
              let (q, e, e₁) = bind-ok (take_rows regex existing rows nothing_yet) _ h in
              λ id. omega (arith, both.0 (q, e) id)),
          (λ k. let (q, e) = both.1 (λ id. omega (arith, k id)) in rw (plan, e) (_, refl)),
        ),
        (λ e h. elim (Outcome-cases (take_rows regex existing rows nothing_yet)) [
          | inl (other, f) ↦ cc (rw (plan, f) at h, take_rows-raised rows nothing_yet other f)
          | inr (q, f) ↦ cc (rw (plan, f) at h)
        ]),
      )
