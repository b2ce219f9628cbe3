-- ===== src/Nightly/Tests.antt =====
-- A run of src/screener/nightly/schedule.py, and its property there.
use stock_aggregator.Prelude.{ltb, ok, ℕ, ◌+◌, ◌*◌, ◌/◌, ◌≡◌, refl, arith}
use stock_aggregator.Nightly.Schedule.{
  day_length, hour_length, next_trigger, IsNext, is_due, utc, next_trigger-is_due,
}

abbrev half_past_eleven : ℕ
half_past_eleven = 19000 * day_length + 23 * hour_length + 1800000000

trigger_run : next_trigger half_past_eleven 23 ≡ ok (19001 * day_length + 23 * hour_length)
unfolding next_trigger
trigger_run = refl

next_trigger-is_due_example :
    (trigger : ℕ) × (next_trigger half_past_eleven 23 ≡ ok trigger)
    × IsNext half_past_eleven 23 trigger
    × (is_due (utc half_past_eleven) 23
        ≡ ok (ltb (half_past_eleven / day_length) (trigger / day_length)))
next_trigger-is_due_example = next_trigger-is_due half_past_eleven 23 (omega arith)
