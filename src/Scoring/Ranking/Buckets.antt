-- ===== src/Scoring/Ranking/Buckets.antt =====
-- The dictionary `buckets` of `rank` of src/screener/scoring/ranking.py.
use mathlib.Core.List.{append-nil, append_assoc}
use stock_aggregator.Prelude.{
  ℕ, ◌≡◌, refl, sym, ◌∙◌, inl, inr, Bool, true, false, none, some, List, [], ◌∷◌, ◌++◌,
  if◌then◌else◌, ◌==◌, ℕ_key, Dict, lookup, push, get_list, get_list-push, keep, All, Bool-cases,
  arith, ok, or_raise, key_error, bind-ok, ok-injective, Option-cases,
}
use stock_aggregator.Prelude.Rows.{All-weaken}
use stock_aggregator.Scoring.Ranking.{Member, fill_buckets}

-- the security's own group is `g`
abbrev pub in_group : {Num : Type 0} → Dict ℕ (ℕ × ℕ) → ℕ → Member Num → Bool
in_group groups g m = elim (lookup m.0 groups) [ none ↦ false | some group ↦ group.0 == g ]

-- The members whose own group is `g`, in their order.
abbrev pub peers_in : {Num : Type 0} → Dict ℕ (ℕ × ℕ) → List (Member Num) → ℕ → List (Member Num)
peers_in groups members g = keep (in_group groups g) members

module _ {Num : Type 0} where
  -- No key stands twice.
  abbrev IsKeyed : Dict ℕ (List (Member Num)) → Type 0
  IsKeyed [] = Unit
  IsKeyed ((k, l) ∷ d) = All (λ b. (b.0 == k) ≡ false) d × IsKeyed d

  push-apart :
      (k g : ℕ) (m : Member Num) (d : Dict ℕ (List (Member Num)))
      → (g == k) ≡ false
      → All (λ b. (b.0 == k) ≡ false) d
      → All (λ b. (b.0 == k) ≡ false) (push g m d)
  unfolding push
  push-apart k g m [] h a = (h, tt)
  push-apart k g m ((j, l) ∷ d) h a = elim (Bool-cases (j == g)) [
    | inl e ↦ rw e a
    | inr e ↦ rw e (a.0, push-apart k g m d h a.1)
  ]

  push-IsKeyed :
      (g : ℕ) (m : Member Num) (d : Dict ℕ (List (Member Num))) → IsKeyed d → IsKeyed (push g m d)
  unfolding push
  push-IsKeyed g m [] k = (tt, tt)
  push-IsKeyed g m ((j, l) ∷ d) k = elim (Bool-cases (j == g)) [
    | inl e ↦ rw e k
    | inr e ↦ rw e (push-apart j g m d (ground (arith, e)) k.0, push-IsKeyed g m d k.1)
  ]

  fill_buckets-IsKeyed :
      (groups : Dict ℕ (ℕ × ℕ)) (members : List (Member Num)) (d r : Dict ℕ (List (Member Num)))
      → fill_buckets groups members d ≡ ok r
      → IsKeyed d
      → IsKeyed r
  unfolding fill_buckets
  fill_buckets-IsKeyed groups [] d r e k = rw (← ok-injective e) k
  fill_buckets-IsKeyed groups (m ∷ members) d r e k =
      let (g, _, e') = bind-ok (or_raise key_error (lookup m.0 groups)) _ e in
      fill_buckets-IsKeyed groups members (push g.0 m d) r e' (push-IsKeyed g.0 m d k)

  -- one member joins the bucket of its own group
  push-in_group :
      (groups : Dict ℕ (ℕ × ℕ)) (m : Member Num) (g : ℕ) (own : ℕ × ℕ)
      (d : Dict ℕ (List (Member Num))) (rest : List (Member Num))
      → lookup m.0 groups ≡ some own
      → get_list g (push own.0 m d) ++ rest
        ≡ get_list g d ++ (if in_group groups g m then m ∷ rest else rest)
  push-in_group groups m g own d rest e =
      rw (get_list-push own.0 g m d, in_group, e)
        (elim (Bool-cases (own.0 == g)) [
          | inl same ↦ rw same (append_assoc (get_list g d) (m ∷ []) rest)
          | inr other ↦ rw other
        ])

  fill_buckets-get_list :
      (groups : Dict ℕ (ℕ × ℕ)) (g : ℕ) (members : List (Member Num))
      (d r : Dict ℕ (List (Member Num)))
      → fill_buckets groups members d ≡ ok r
      → get_list g r ≡ get_list g d ++ peers_in groups members g
  unfolding fill_buckets keep
  fill_buckets-get_list groups g [] d r e = rw (← ok-injective e, append-nil)
  fill_buckets-get_list groups g (m ∷ members) d r e = elim (Option-cases (lookup m.0 groups)) [
    | inl missing ↦ cc (rw missing at e)
    | inr (own, found) ↦
        fill_buckets-get_list groups g members (push own.0 m d) r (rw found at e)
        ∙ push-in_group groups m g own d (peers_in groups members g) found
  ]

  -- each entry is what a lookup of its key finds
  get_list-behind :
      (j : ℕ) (l : List (Member Num)) (d rows : Dict ℕ (List (Member Num)))
      → All (λ b. (b.0 == j) ≡ false) rows
      → All (λ b. get_list b.0 d ≡ b.1) rows
      → All (λ b. get_list b.0 ((j, l) ∷ d) ≡ b.1) rows
  unfolding get_list
  get_list-behind j l d [] a h = tt
  get_list-behind j l d ((k, n) ∷ rows) a h =
      let apart : (j == k) ≡ false = ground (arith, a.0) in
      (rw apart h.0, get_list-behind j l d rows a.1 h.1)

  get_list-own : (d : Dict ℕ (List (Member Num))) → IsKeyed d → All (λ b. get_list b.0 d ≡ b.1) d
  unfolding get_list
  get_list-own [] k = tt
  get_list-own ((j, l) ∷ d) k =
      let here : (j == j) ≡ true = (ℕ_key.same_iff j j).1 refl in
      (rw here, get_list-behind j l d d k.0 (get_list-own d k.1))

  -- Every bucket holds the members of its group, all of them and in their order.
  pub fill_buckets-peers :
      (groups : Dict ℕ (ℕ × ℕ)) (members : List (Member Num)) (r : Dict ℕ (List (Member Num)))
      → fill_buckets groups members [] ≡ ok r
      → All (λ b. b.1 ≡ peers_in groups members b.0) r
  unfolding get_list
  fill_buckets-peers groups members r e =
      All-weaken (λ b. get_list b.0 r ≡ b.1) (λ b. b.1 ≡ peers_in groups members b.0)
        (λ b own. sym own ∙ fill_buckets-get_list groups b.0 members [] r e) r
        (get_list-own r (fill_buckets-IsKeyed groups members [] r e tt))
