-- ===== src/Nightly/Schedule.antt =====
-- src/screener/nightly/schedule.py. An instant is in microseconds from midnight UTC of some day.
use stock_aggregator.Prelude.{
  ltb, leb, if◌then◌else◌, Bool-cases, Outcome, value_error, ok, raised, ℕ, ◌+◌, ◌*◌, ◌/◌, ◌%◌, ◌≤◌,
  ◌<◌, ◌≡◌, refl, ap, inl, inr, Bool, true, arith,
}

abbrev pub hour_length : ℕ
hour_length = 3600000000

abbrev pub day_length : ℕ
day_length = 86400000000

-- `datetime.combine(now.date(), time(hour=hour))`; `time` raises from hour 24 on.
unfoldable pub next_trigger : ℕ → ℕ → Outcome ℕ
next_trigger now hour =
    let tonight = now / day_length * day_length + hour * hour_length in
    if ltb hour 24
    then ok (if ltb now tonight then tonight else tonight + day_length)
    else raised value_error

-- A `datetime`, with its zone or without.
pub data Moment : Type 0 where
  utc naive : ℕ → Moment

-- `now.hour >= hour`
unfoldable pub is_due : Moment → ℕ → Outcome Bool
is_due (utc now) hour = ok (leb hour (now % day_length / hour_length))
is_due (naive now) hour = raised value_error

-- The first instant after now on this hour of a day.
pub record IsNext (now hour trigger : ℕ) : Type 0 where
  pub after : now < trigger
  pub within_a_day : trigger ≤ now + day_length
  pub on_the_hour : trigger % day_length ≡ hour * hour_length
  pub is_first : (t : ℕ) → now < t → t % day_length ≡ hour * hour_length → trigger ≤ t

next_trigger-IsNext :
    (now hour : ℕ)
    → hour < 24
    → (trigger : ℕ) × (next_trigger now hour ≡ ok trigger) × IsNext now hour trigger
unfolding next_trigger
next_trigger-IsNext now hour h =
    let tonight = now / day_length * day_length + hour * hour_length in
    let in_day : ltb hour 24 ≡ true = ground (arith, h) in
    elim (Bool-cases (ltb now tonight)) [
      | inl e ↦ (
        tonight,
        rw (next_trigger, in_day, e) refl,
        record {
          after = ground (arith, e);
          within_a_day = omega (arith, h);
          on_the_hour = omega (arith, h);
          is_first = λ t later same. omega (arith, h, later, same);
        },
      )
      | inr e ↦ (
        tonight + day_length,
        rw (next_trigger, in_day, e) refl,
        record {
          after = omega (arith, h);
          within_a_day = ground (arith, e);
          on_the_hour = omega (arith, h);
          is_first = λ t later same. ground (arith, e, h, later, same);
        },
      )
    ]

-- For an hour of the day the next trigger is the first instant after now on that hour, within a day;
-- and tonight's run is due exactly where that trigger falls on a later day than now.
pub next_trigger-is_due :
    (now hour : ℕ)
    → hour < 24
    → (trigger : ℕ) × (next_trigger now hour ≡ ok trigger)
      × IsNext now hour trigger
      × (is_due (utc now) hour ≡ ok (ltb (now / day_length) (trigger / day_length)))
unfolding is_due
next_trigger-is_due now hour h =
    let (trigger, e, k) = next_trigger-IsNext now hour h in
    (trigger, e, k, ap ok (same_day now hour trigger h k))
  where
    same_day :
        (n o t : ℕ)
        → o < 24
        → IsNext n o t
        → leb o (n % day_length / hour_length) ≡ ltb (n / day_length) (t / day_length)
    same_day n o t h k = ground (arith, h, k.after, k.within_a_day, k.on_the_hour)
