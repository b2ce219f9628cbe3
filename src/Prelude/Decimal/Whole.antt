-- ===== src/Prelude/Decimal/Whole.antt =====
-- Whole numbers as an instance of the interface: a value at which the laws hold. A literal with
-- digits after the point is cut off, and so is a quotient.
use mathlib.Core.Path.{◌≡◌, refl}
use mathlib.Core.Bool.{true}
use mathlib.Core.Option.{Option, none, some}
use Prim.Native.Nat.{ℕ, zero, suc, ◌+◌, ◌*◌, ◌/◌, ◌^◌}
use native.Mathlib.Omega.{arith}
use stock_aggregator.Prelude.Int.{ℤ, pos, negsuc, pos_part, neg_part, sub_ℕ, add_ℤ, sub_ℤ, ltb_ℤ}
use stock_aggregator.Prelude.Decimal.{Decimal, DivLaws, OrderLaws, AddLaws}

abbrev mul_ℤ : ℤ → ℤ → ℤ
mul_ℤ a b =
    sub_ℕ (pos_part a * pos_part b + neg_part a * neg_part b)
      (pos_part a * neg_part b + neg_part a * pos_part b)

abbrev div_ℤ : ℤ → ℤ → Option ℤ
div_ℤ a (pos zero) = none
div_ℤ a (pos (suc n)) = some (sub_ℕ (pos_part a / suc n) (neg_part a / suc n))
div_ℤ a (negsuc n) = some (sub_ℕ (neg_part a / suc n) (pos_part a / suc n))

abbrev pub whole : Decimal
whole = record {
  Num = ℤ;
  literal = λ m k. pos (m / 10 ^ k);
  add = add_ℤ;
  sub = sub_ℤ;
  mul = mul_ℤ;
  div = div_ℤ;
  lt = ltb_ℤ;
}

div_found : (a b : ℤ) → ltb_ℤ (pos 0) b ≡ true → (q : ℤ) × (div_ℤ a b ≡ some q)
div_found a (pos zero) h = cc h
div_found a (pos (suc n)) h = (_, refl)
div_found a (negsuc n) h = (_, refl)

literal_found : (m : ℕ) → ltb_ℤ (pos (0 / 10 ^ 0)) (pos (suc m / 10 ^ 0)) ≡ true
literal_found m = ground arith

pub whole-DivLaws : DivLaws whole
whole-DivLaws = record { div_pos = div_found; literal_pos = literal_found }

pub whole-OrderLaws : OrderLaws whole
whole-OrderLaws = record { lt_asymm = λ a b h. ground arith; le_trans = λ a b c h k. ground arith }

pub whole-AddLaws : AddLaws whole
whole-AddLaws = record { add_pos = λ a b h k. ground arith }
