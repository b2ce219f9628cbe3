-- ===== src/Prelude/Decimal.antt =====
-- `decimal.Decimal`, and `float` where it is only added, divided and compared: the numbers and
-- their operations are a parameter. Arithmetic rounds, so no ring law is assumed.
pub mod Whole
use mathlib.Core.Path.{◌≡◌}
use mathlib.Core.Bool.{Bool, true, false, not}
use mathlib.Core.Option.{Option, some}
use Prim.Native.Nat.{ℕ, suc}
use stock_aggregator.Prelude.Tests.{if◌then◌else◌}

pub record Decimal : Type 1 where
  pub Num : Type 0
  -- the literal m · 10⁻ᵏ
  pub literal : ℕ → ℕ → Num
  pub add : Num → Num → Num
  pub sub : Num → Num → Num
  pub mul : Num → Num → Num
  -- `none` is `decimal.DivisionByZero` (or `InvalidOperation` for 0 / 0)
  pub div : Num → Num → Option Num
  pub lt : Num → Num → Bool

module _ (D : Decimal) where
  open D use {Num, literal, add, div, lt}

  -- `Decimal(n)`
  abbrev pub of_ℕ : ℕ → Num
  of_ℕ n = literal n 0

  -- `a <= b`; NaN is left out
  abbrev pub le : Num → Num → Bool
  le a b = not (lt b a)

  -- `min(a, b)` and `max(a, b)` keep the first of equals
  abbrev pub min_num : Num → Num → Num
  min_num a b = if lt b a then b else a

  abbrev pub max_num : Num → Num → Num
  max_num a b = if lt a b then b else a

  -- Division by a positive number does not raise, and a literal above zero is positive.
  pub record DivLaws : Type 0 where
    pub div_pos : (a b : Num) → lt (of_ℕ 0) b ≡ true → (q : Num) × (div a b ≡ some q)
    pub literal_pos : (m : ℕ) → lt (of_ℕ 0) (of_ℕ (suc m)) ≡ true

  -- A strict weak order.
  pub record OrderLaws : Type 0 where
    pub lt_asymm : (a b : Num) → lt a b ≡ true → lt b a ≡ false
    pub le_trans : (a b c : Num) → lt b a ≡ false → lt c b ≡ false → lt c a ≡ false

  -- What is not negative, plus what is positive, is positive.
  pub record AddLaws : Type 0 where
    pub add_pos :
        (a b : Num) → lt a (of_ℕ 0) ≡ false → lt (of_ℕ 0) b ≡ true → lt (of_ℕ 0) (add a b) ≡ true
