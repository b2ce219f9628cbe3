-- ===== src/Prelude/Rows.antt =====
-- Rows of a table under select, update, delete and insert.
use Prim.Native.Nat.{◌+◌, ◌≤◌}
use mathlib.Core.Path.{◌≡◌, refl, subst, ap, sym}
use mathlib.Core.Logic.{inl, inr}
use mathlib.Core.Bool.{Bool, true, false, ◌||◌}
use mathlib.Core.Option.{Option, none, some, map}
use mathlib.Core.List.{List, [], ◌∷◌, ◌++◌}
use native.Mathlib.Omega.{arith}
use stock_aggregator.Prelude.Tests.{Bool-cases}
use stock_aggregator.Prelude.Outcomes.{some-injective}
use stock_aggregator.Prelude.Lists.{keep, count, find_row, update_rows, any, All, Has}

module _ {A : Type 0} (q : A → Bool) where
  pub any-append : (xs ys : List A) → any q (xs ++ ys) ≡ (any q xs || any q ys)
  unfolding any
  any-append [] ys = refl
  any-append (x ∷ xs) ys = ground (arith, any-append xs ys)

  pub any-append_one :
      (xs : List A) (y : A) → any q xs ≡ false → q y ≡ false → any q (xs ++ y ∷ []) ≡ false
  unfolding any
  any-append_one [] y h k = rw k refl
  any-append_one (x ∷ xs) y h k = elim (Bool-cases (q x)) [
    | inl e ↦ cc (e, h)
    | inr e ↦ rw e (any-append_one xs y (rw e at h) k)
  ]

  pub any-none : (xs : List A) → any q xs ≡ false → find_row q xs ≡ none
  unfolding any find_row
  any-none [] h = refl
  any-none (x ∷ xs) h = elim (Bool-cases (q x)) [
    | inl e ↦ cc (e, h)
    | inr e ↦ rw e (any-none xs (rw e at h))
  ]

  pub any-keep : (p : A → Bool) (xs : List A) → any q xs ≡ false → any q (keep p xs) ≡ false
  unfolding any keep
  any-keep p [] h = refl
  any-keep p (x ∷ xs) h = ground (arith, any-keep p xs)

  -- An update that makes no row pass.
  pub any-update :
      (test : A → Bool) (change : A → A)
      → ((x : A) → test x ≡ true → q (change x) ≡ true → q x ≡ true)
      → (xs : List A) → any q xs ≡ false
      → any q (update_rows test change xs) ≡ false
  unfolding any update_rows
  any-update test change k [] h = refl
  any-update test change k (x ∷ xs) h = ground (arith, k x, any-update test change k xs)

  -- An update of every row that passes, after which none does.
  pub any-update_own :
      (change : A → A)
      → ((x : A) → q (change x) ≡ false)
      → (xs : List A) → any q (update_rows q change xs) ≡ false
  unfolding any update_rows
  any-update_own change k [] = refl
  any-update_own change k (x ∷ xs) = ground (arith, k x, any-update_own change k xs)

  pub any_weaken :
      (p : A → Bool)
      → ((x : A) → p x ≡ true → q x ≡ true)
      → (xs : List A) → any q xs ≡ false
      → any p xs ≡ false
  unfolding any
  any_weaken p k [] h = refl
  any_weaken p k (x ∷ xs) h = ground (arith, k x, any_weaken p k xs)

  pub any-count : (xs : List A) → any q xs ≡ false → count q xs ≡ 0
  unfolding any count
  any-count [] h = refl
  any-count (x ∷ xs) h = ground (arith, any-count xs)

  pub count_append : (xs ys : List A) → count q (xs ++ ys) ≡ count q xs + count q ys
  unfolding count
  count_append [] ys = omega arith
  count_append (x ∷ xs) ys = omega (arith, count_append xs ys)

  pub count-keep_le : (p : A → Bool) (xs : List A) → count q (keep p xs) ≤ count q xs
  unfolding count keep
  count-keep_le p [] = omega arith
  count-keep_le p (x ∷ xs) = ground (arith, count-keep_le p xs)

  pub count-update_same :
      (test : A → Bool) (change : A → A)
      → ((x : A) → q (change x) ≡ q x)
      → (xs : List A) → count q (update_rows test change xs) ≡ count q xs
  unfolding count update_rows
  count-update_same test change k [] = refl
  count-update_same test change k (x ∷ xs) = ground (arith, k x, count-update_same test change k xs)

  pub find_row-passes : (xs : List A) (x : A) → find_row q xs ≡ some x → q x ≡ true
  unfolding find_row
  find_row-passes [] x h = cc h
  find_row-passes (y ∷ xs) x h = elim (Bool-cases (q y)) [
    | inl e ↦ subst (λ z. q z ≡ true) (some-injective (rw e at h)) e
    | inr e ↦ find_row-passes xs x (rw e at h)
  ]

  pub find_row-Has : (xs : List A) (x : A) → find_row q xs ≡ some x → Has x xs
  unfolding find_row
  find_row-Has [] x h = cc h
  find_row-Has (y ∷ xs) x h = elim (Bool-cases (q y)) [
    | inl e ↦ inl (some-injective (rw e at h))
    | inr e ↦ inr (find_row-Has xs x (rw e at h))
  ]

  pub find_row-append :
      (xs ys : List A) (x : A) → find_row q xs ≡ some x → find_row q (xs ++ ys) ≡ some x
  unfolding find_row
  find_row-append [] ys x h = cc h
  find_row-append (y ∷ xs) ys x h = elim (Bool-cases (q y)) [
    | inl e ↦ rw e (rw e at h)
    | inr e ↦ rw e (find_row-append xs ys x (rw e at h))
  ]

  -- The row that was just inserted is found where none passed before.
  pub find_row-last :
      (xs : List A) (x : A) → any q xs ≡ false → q x ≡ true → find_row q (xs ++ x ∷ []) ≡ some x
  unfolding find_row any
  find_row-last [] x h k = rw k refl
  find_row-last (y ∷ xs) x h k = elim (Bool-cases (q y)) [
    | inl e ↦ cc (e, h)
    | inr e ↦ rw e (find_row-last xs x (rw e at h) k)
  ]

  pub find_row-keep :
      (p : A → Bool) (xs : List A) (x : A)
      → find_row q xs ≡ some x
      → p x ≡ true
      → find_row q (keep p xs) ≡ some x
  unfolding find_row keep
  find_row-keep p [] x h k = cc h
  find_row-keep p (y ∷ xs) x h k = elim (Bool-cases (q y)) [
    | inl e ↦
        let same : y ≡ x = some-injective (rw e at h) in
        rw (subst (λ z. p z ≡ true) (sym same) k, find_row, e) (ap some same)
    | inr e ↦ elim (Bool-cases (p y)) [
      | inl f ↦ rw (f, find_row, e) (find_row-keep p xs x (rw e at h) k)
      | inr f ↦ rw f (find_row-keep p xs x (rw e at h) k)
    ]
  ]

  -- What a column of the first such row says is not touched by an update of other columns.
  pub find_row-update :
      {B : Type 0} (f : A → B) (test : A → Bool) (change : A → A)
      → ((x : A) → q (change x) ≡ q x)
      → ((x : A) → f (change x) ≡ f x)
      → (xs : List A) → map f (find_row q (update_rows test change xs)) ≡ map f (find_row q xs)
  unfolding find_row update_rows
  find_row-update f test change k m [] = refl
  find_row-update f test change k m (x ∷ xs) = elim (Bool-cases (test x)) [
    | inl e ↦ elim (Bool-cases (q x)) [
      | inl g ↦ rw (e, find_row, k x, g) (ap some (m x))
      | inr g ↦ rw (e, find_row, k x, g) (find_row-update f test change k m xs)
    ]
    | inr e ↦ elim (Bool-cases (q x)) [
      | inl g ↦ rw (e, find_row, g) refl
      | inr g ↦ rw (e, find_row, g) (find_row-update f test change k m xs)
    ]
  ]

  count-found :
      (p : A → Bool)
      → ((x : A) → p x ≡ true → q x ≡ true)
      → (xs : List A) (x : A) → find_row p xs ≡ some x
      → 1 ≤ count q xs
  unfolding find_row count
  count-found p k [] x h = cc h
  count-found p k (y ∷ xs) x h = elim (Bool-cases (p y)) [
    | inl e ↦ ground (arith, k y e)
    | inr e ↦ ground (arith, count-found p k xs x (rw e at h))
  ]

  -- Where at most one row passes, a stronger test finds the same row.
  pub find_row-only :
      (p : A → Bool)
      → ((x : A) → p x ≡ true → q x ≡ true)
      → (xs : List A) (x : A) → count q xs ≤ 1
      → find_row p xs ≡ some x
      → find_row q xs ≡ some x
  unfolding find_row count
  find_row-only p k [] x c h = cc h
  find_row-only p k (y ∷ xs) x c h = elim (Bool-cases (p y)) [
    | inl e ↦ rw (k y e) (rw e at h)
    | inr e ↦ elim (Bool-cases (q y)) [
      | inl g ↦ absurd (ground (arith, g, c, count-found p k xs x (rw e at h)))
      | inr g ↦ rw g (find_row-only p k xs x (ground (arith, c)) (rw e at h))
    ]
  ]

  pub any-Has : (xs : List A) (x : A) → Has x xs → q x ≡ true → any q xs ≡ true
  unfolding any
  any-Has [] x h k = absurd h
  any-Has (y ∷ xs) x (inl e) k = rw (subst (λ z. q z ≡ true) (sym e) k) refl
  any-Has (y ∷ xs) x (inr h) k = ground (arith, any-Has xs x h k)

  -- A delete that spares every row that passes leaves one, where there was one.
  pub any-keep_all :
      (p : A → Bool) (xs : List A)
      → ((x : A) → q x ≡ true → p x ≡ true)
      → any q xs ≡ true
      → any q (keep p xs) ≡ true
  unfolding any keep
  any-keep_all p [] k h = h
  any-keep_all p (x ∷ xs) k h = elim (Bool-cases (q x)) [
    | inl e ↦ rw (k x e, any, e) refl
    | inr e ↦ elim (Bool-cases (p x)) [
      | inl f ↦ rw (f, any, e) (any-keep_all p xs k (rw e at h))
      | inr f ↦ rw f (any-keep_all p xs k (rw e at h))
    ]
  ]

module _ {A : Type 0} (P : A → Type 0) where
  pub All-each : (xs : List A) → ((x : A) → Has x xs → P x) → All P xs
  All-each [] k = tt
  All-each (x ∷ xs) k = (k x (inl refl), All-each xs (λ y h. k y (inr h)))

  pub All-Has : (xs : List A) (x : A) → All P xs → Has x xs → P x
  All-Has [] x all h = absurd h
  All-Has (y ∷ xs) x all (inl e) = subst P e (all.0)
  All-Has (y ∷ xs) x all (inr h) = All-Has xs x (all.1) h

  pub All-append_one : (xs : List A) (y : A) → All P xs → P y → All P (xs ++ y ∷ [])
  All-append_one [] y all p = (p, tt)
  All-append_one (x ∷ xs) y all p = (all.0, All-append_one xs y (all.1) p)

  pub All-keep : (p : A → Bool) (xs : List A) → All P xs → All P (keep p xs)
  unfolding keep
  All-keep p [] all = tt
  All-keep p (x ∷ xs) all = elim (Bool-cases (p x)) [
    | inl e ↦ rw e (all.0, All-keep p xs (all.1))
    | inr e ↦ rw e (All-keep p xs (all.1))
  ]

  pub All-update :
      (test : A → Bool) (change : A → A)
      → ((x : A) → test x ≡ true → P x → P (change x))
      → (xs : List A) → All P xs
      → All P (update_rows test change xs)
  unfolding update_rows
  All-update test change k [] all = tt
  All-update test change k (x ∷ xs) all = elim (Bool-cases (test x)) [
    | inl e ↦ rw e (k x e (all.0), All-update test change k xs (all.1))
    | inr e ↦ rw e (all.0, All-update test change k xs (all.1))
  ]

pub All-weaken :
    {A : Type 0} (P Q : A → Type 0) → ((x : A) → P x → Q x) → (xs : List A) → All P xs → All Q xs
All-weaken P Q k [] all = tt
All-weaken P Q k (x ∷ xs) all = (k x (all.0), All-weaken P Q k xs (all.1))

-- What a computed column is, is so of the row there.
pub map-some :
    {A B : Type 0} (f : A → B) (o : Option A) {b : B}
    → map f o ≡ some b
    → (a : A) × (o ≡ some a) × (f a ≡ b)
map-some f none h = cc h
map-some f (some a) h = (a, refl, some-injective h)
