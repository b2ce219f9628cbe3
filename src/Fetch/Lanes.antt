-- ===== src/Fetch/Lanes.antt =====
-- src/screener/fetch/lanes.py: the cooldown of a lane and the rotation of a pool. Readings of the
-- clock are arguments, as whole units of time.
pub mod Rotation
use stock_aggregator.Prelude.{
  ltb, nat_eq, if◌then◌else◌, length, get_elem?, Outcome, value_error, ok, raised, ℕ, zero, suc,
  ◌+◌, ◌-◌, ◌%◌, String, Bool, false, Option, none, some, List, [], ◌∷◌,
}

pub record Lane : Type 0 where
  pub name : String
  pub free_at : ℕ

pub record Pool : Type 0 where
  pub lanes : List Lane
  pub next : ℕ

-- `max(0.0, self._free_at - self._clock())`
abbrev pub parked_for : ℕ → Lane → ℕ
parked_for now lane = lane.free_at - now

abbrev pub park : ℕ → ℕ → Lane → Lane
park now seconds lane = record lane { free_at = now + seconds }

-- `LanePool(lanes)`
abbrev pub pool_of : List Lane → Outcome Pool
pool_of [] = raised value_error
pool_of (lane ∷ lanes) = ok (record { lanes = lane ∷ lanes; next = 0 })

-- `not lane.parked_for`, of the lane at an index
abbrev pub free_at_index : ℕ → List Lane → ℕ → Bool
free_at_index now lanes index = elim (get_elem? lanes index) [
  | none ↦ false
  | some lane ↦ nat_eq (parked_for now lane) 0
]

-- `(self._next + offset) % count`
abbrev pub index_at : Pool → ℕ → ℕ
index_at pool offset = (pool.next + offset) % length pool.lanes

-- The loop over the offsets: the first whose lane is free, of so many that are left.
unfoldable pub first_free : ℕ → Pool → ℕ → ℕ → Option ℕ
first_free now pool offset zero = none
first_free now pool offset (suc left) =
    let rest = first_free now pool (suc offset) left in
    if free_at_index now pool.lanes (index_at pool offset) then some offset else rest

-- `min(self._lanes, key=…)`: the index of the first of the least, given the best so far.
unfoldable pub soonest_from : ℕ → ℕ → ℕ → ℕ → List Lane → ℕ
soonest_from now best least index [] = best
soonest_from now best least index (lane ∷ lanes) =
    if ltb (parked_for now lane) least
    then soonest_from now index (parked_for now lane) (suc index) lanes
    else soonest_from now best least (suc index) lanes

unfoldable pub soonest : ℕ → List Lane → ℕ
unfolding soonest_from
soonest now [] = 0
soonest now (lane ∷ lanes) = soonest_from now 0 (parked_for now lane) 1 lanes

-- The index of the lane that is handed out, and the pool after.
unfoldable pub acquire : ℕ → Pool → ℕ × Pool
unfolding first_free soonest
acquire now pool = elim (first_free now pool 0 (length pool.lanes)) [
  | none ↦ (soonest now pool.lanes, pool)
  | some offset ↦
      (index_at pool offset, record pool { next = (pool.next + offset + 1) % length pool.lanes })
]

-- The lanes handed out at these times, one after the other.
unfoldable pub acquire_each : List ℕ → Pool → List ℕ
unfolding acquire
acquire_each [] pool = []
acquire_each (now ∷ times) pool =
    let turn = acquire now pool in turn.0 ∷ acquire_each times (turn.1)
