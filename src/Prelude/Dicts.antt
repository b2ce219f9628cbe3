-- ===== src/Prelude/Dicts.antt =====
-- Python's `dict`: an association list in insertion order.
use mathlib.Core.Path.{◌≡◌, refl}
use mathlib.Core.Option.{Option, none, some}
use mathlib.Core.List.{List, [], ◌∷◌, ◌++◌}
use native.Mathlib.Omega.{arith}
use stock_aggregator.Prelude.Tests.{Key, ◌==◌, if◌then◌else◌}

abbrev pub Dict {ℓ κ} : Type ℓ → Type κ → Type (ℓ ⊔ κ)
Dict K V = List (K × V)

module _ {ℓ κ} {K : Type ℓ} {V : Type κ} ⦃e : Key K⦄ where
  -- `d.get(k)`
  unfoldable pub lookup : K → Dict K V → Option V
  lookup k [] = none
  lookup k ((j, v) ∷ d) = if j == k then some v else lookup k d

  -- `d[k] = v`: an old key keeps its place
  unfoldable pub insert : K → V → Dict K V → Dict K V
  insert k v [] = (k, v) ∷ []
  insert k v ((j, w) ∷ d) = if j == k then (j, v) ∷ d else (j, w) ∷ insert k v d

  pub lookup-insert :
      (k j : K) (v : V) (d : Dict K V)
      → lookup j (insert k v d) ≡ (if k == j then some v else lookup j d)
  unfolding lookup insert
  lookup-insert k j v [] = refl
  lookup-insert k j v ((i, w) ∷ d) =
      ground (arith, e.same_iff k j, e.same_iff i k, e.same_iff i j, lookup-insert k j v d)

module _ {ℓ κ} {K : Type ℓ} {V : Type κ} where
  unfoldable pub keys : Dict K V → List K
  keys [] = []
  keys ((k, v) ∷ d) = k ∷ keys d

module _ {ℓ κ} {K : Type ℓ} {V : Type κ} ⦃e : Key K⦄ where
  -- `d.setdefault(k, []).append(v)`
  unfoldable pub push : K → V → Dict K (List V) → Dict K (List V)
  push k v [] = (k, v ∷ []) ∷ []
  push k v ((j, l) ∷ d) = if j == k then (j, l ++ v ∷ []) ∷ d else (j, l) ∷ push k v d

  -- `d.get(k, ())`
  unfoldable pub get_list : K → Dict K (List V) → List V
  get_list k [] = []
  get_list k ((j, l) ∷ d) = if j == k then l else get_list k d

  pub get_list-push :
      (k j : K) (v : V) (d : Dict K (List V))
      → get_list j (push k v d) ≡ (if k == j then get_list j d ++ v ∷ [] else get_list j d)
  unfolding get_list push
  get_list-push k j v [] = refl
  get_list-push k j v ((i, l) ∷ d) =
      ground (arith, e.same_iff k j, e.same_iff i k, e.same_iff i j, get_list-push k j v d)
