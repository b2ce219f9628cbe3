-- ===== src/Fetch/Lanes/Rotation.antt =====
-- Which lane `acquire` of src/screener/fetch/lanes.py hands out.
use native.Mathlib.Nat.{mod-eq_of_lt, add-mod_right, mod-add-mod}
use stock_aggregator.Prelude.{
  leb, nat_eq, nat_eq_iff, Bool-cases, leb→le, length, All, Has, count, ℕ, zero, suc, ◌+◌, ◌-◌, ◌%◌,
  ◌≤◌, ◌<◌, ◌≡◌, refl, sym, ap, ◌∙◌, subst, inl, inr, true, false, some, List, [], ◌∷◌, arith,
}
use stock_aggregator.Fetch.Lanes.{
  Lane, Pool, free_at_index, index_at, first_free, acquire, acquire_each,
}

-- From a place below the count, each other place lies some steps ahead.
offset_of :
    (next i count : ℕ) → next < count → i < count → (d : ℕ) × (d < count) × ((next + d) % count ≡ i)
offset_of next i count hn hi = elim (Bool-cases (leb next i)) [
  | inl e ↦ (
    i - next,
    omega (arith, leb→le next i e),
    subst (λ n. n % count ≡ i) (back e) (mod-eq_of_lt hi),
  )
  | inr e ↦ (
    i + count - next,
    before e,
    subst (λ n. n % count ≡ i) (around e) (add-mod_right i count ∙ mod-eq_of_lt hi),
  )
]
  where
    back : leb next i ≡ true → i ≡ next + (i - next)
    back e = omega (arith, leb→le next i e)

    before : leb next i ≡ false → i + count - next < count
    before e = ground (arith, e)

    around : leb next i ≡ false → i + count ≡ next + (i + count - next)
    around e = ground (arith, hn)

-- The scan stops at a free lane, no later than at one that is known.
record Stops (now : ℕ) (pool : Pool) (offset left d : ℕ) : Type 0 where
  found : ℕ
  is_found : first_free now pool offset left ≡ some found
  not_before : offset ≤ found
  not_after : found ≤ d
  is_free : free_at_index now pool.lanes (index_at pool found) ≡ true

first_free-Stops :
    (now : ℕ) (pool : Pool) (offset left d : ℕ)
    → offset ≤ d
    → d < offset + left
    → free_at_index now pool.lanes (index_at pool d) ≡ true
    → Stops now pool offset left d
unfolding first_free
first_free-Stops now pool offset zero d h k free = absurd (omega (arith, h, k))
first_free-Stops now pool offset (suc left) d h k free =
    elim (Bool-cases (free_at_index now pool.lanes (index_at pool offset))) [
      | inl e ↦ record {
        found = offset;
        is_found = rw (first_free, e) refl;
        not_before = omega arith;
        not_after = h;
        is_free = e;
      }
      | inr e ↦
          let r =
            first_free-Stops now pool (suc offset) left d (further e) (omega (arith, k)) free in
          record {
            found = r.found;
            is_found = rw (first_free, e) r.is_found;
            not_before = omega (arith, r.not_before);
            not_after = r.not_after;
            is_free = r.is_free;
          }
    ]
  where
    further : free_at_index now pool.lanes (index_at pool offset) ≡ false → suc offset ≤ d
    further e = elim (Bool-cases (nat_eq offset d)) [
      | inl same ↦ cc (
        subst (λ n. free_at_index now pool.lanes (index_at pool n) ≡ false)
            ((nat_eq_iff offset d).0 same) e,
        free,
      )
      | inr other ↦ ground (arith, other, h)
    ]

-- The lane at an index is free at a time.
abbrev pub IsFree : List Lane → ℕ → ℕ → Type 0
IsFree lanes i now = free_at_index now lanes i ≡ true

-- Whenever some lane is free, whatever `acquire` hands out is a free lane.
pub acquire-IsFree :
    (pool : Pool) (i now : ℕ)
    → pool.next < length pool.lanes
    → i < length pool.lanes
    → IsFree pool.lanes i now
    → IsFree pool.lanes (acquire now pool).0 now
unfolding acquire
acquire-IsFree pool i now hn hi free =
    let (d, below, at_d) = offset_of pool.next i (length pool.lanes) hn hi in
    let s =
      first_free-Stops now pool 0 (length pool.lanes) d (omega arith) (omega (arith, below))
        (subst (λ n. free_at_index now pool.lanes n ≡ true) (sym at_d) free) in
    rw (acquire, s.is_found) s.is_free

-- Where the lane is some steps ahead, so many calls and one more reach it.
turn_within :
    (lanes : List Lane) (i : ℕ) (times : List ℕ) (next d : ℕ)
    → (next + d) % length lanes ≡ i
    → d < length lanes
    → All (IsFree lanes i) times
    → d < length times
    → Has i (acquire_each times (record { lanes = lanes; next = next }))
unfolding acquire_each acquire
turn_within lanes i [] next d at_d below free h = absurd (omega (arith, h))
turn_within lanes i (now ∷ times) next d at_d below free h =
    let pool : Pool = record { lanes = lanes; next = next } in
    let s =
      first_free-Stops now pool 0 (length lanes) d (omega arith) (omega (arith, below))
        (subst (λ n. free_at_index now lanes n ≡ true) (sym at_d) (free.0)) in
    rw (acquire, s.is_found)
      (elim (Bool-cases (nat_eq s.found d)) [
        | inl same ↦
            inl (ap (λ n. (next + n) % length lanes) ((nat_eq_iff s.found d).0 same) ∙ at_d)
        | inr other ↦ inr (
            turn_within lanes i times ((next + s.found + 1) % length lanes) (d - s.found - 1)
              (mod-add-mod (next + s.found + 1) (length lanes) (d - s.found - 1)
                ∙ ap (λ n. n % length lanes)
                    (shorter next d s.found (ground (arith, other, s.not_after)))
                ∙ at_d)
              (omega (arith, below)) (free.1) (ground (arith, other, s.not_after, h)))
      ])
  where
    shorter : (n e o : ℕ) → o < e → n + o + 1 + (e - o - 1) ≡ n + e
    shorter n e o k = omega (arith, k)

-- A lane that stays free is handed out in one of as many calls as there are lanes, whichever other
-- lanes are on cooldown.
pub acquire_each-turn :
    (pool : Pool) (i : ℕ) (times : List ℕ)
    → pool.next < length pool.lanes
    → i < length pool.lanes
    → All (IsFree pool.lanes i) times
    → length times ≡ length pool.lanes
    → Has i (acquire_each times pool)
acquire_each-turn pool i times hn hi free enough =
    let (d, below, at_d) = offset_of pool.next i (length pool.lanes) hn hi in
    turn_within pool.lanes i times pool.next d at_d below free (omega (arith, below, enough))
