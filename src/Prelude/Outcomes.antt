-- ===== src/Prelude/Outcomes.antt =====
-- A call that returns or raises. What it raised is kept as far as the code can tell it apart.
use mathlib.Core.Path.{◌≡◌, refl}
use mathlib.Core.Logic.{◌⊎◌, inl, inr}
use mathlib.Core.Option.{Option, none, some}

pub data Error : Type 0 where
  key_error division_by_zero value_error type_error index_error runtime_error already_live : Error
  integrity_error unauthorized ambiguous_identity departure_ceiling_exceeded : Error

pub data Outcome {ℓ} (A : Type ℓ) : Type ℓ where
  ok : A → Outcome A
  raised : Error → Outcome A

infixl 5 ◌>>=◌
abbrev pub ◌>>=◌ {ℓ κ} : {A : Type ℓ} {B : Type κ} → Outcome A → (A → Outcome B) → Outcome B
ok a >>= f = f a
raised e >>= f = raised e

-- `d[k]` on a looked-up value.
abbrev pub or_raise {ℓ} : {A : Type ℓ} → Error → Option A → Outcome A
or_raise e none = raised e
or_raise e (some a) = ok a

-- The call returns.
abbrev pub Returns {ℓ} : {A : Type ℓ} → Outcome A → Type ℓ
Returns {A} m = (a : A) × (m ≡ ok a)

pub Returns-bind {ℓ κ} :
    {A : Type ℓ} {B : Type κ} (m : Outcome A) (f : A → Outcome B)
    → Returns m
    → ((a : A) → m ≡ ok a → Returns (f a))
    → Returns (m >>= f)
Returns-bind (ok a) f h k = k a refl
Returns-bind (raised e) f h k = cc (h.1)

pub ok-injective : {A : Type 0} {a b : A} → ok a ≡ ok b → a ≡ b
ok-injective e = cc

-- Where two calls in a row returned, the first returned what the second was given.
pub bind-ok {ℓ κ} :
    {A : Type ℓ} {B : Type κ} (first : Outcome A) (second : A → Outcome B) {out : B}
    → (first >>= second) ≡ ok out
    → (mid : A) × (first ≡ ok mid) × (second mid ≡ ok out)
bind-ok (ok mid) second e = (mid, refl, e)
bind-ok (raised error) second e = cc

pub ok-some-injective : {A : Type 0} {a b : A} → ok (some a) ≡ ok (some b) → a ≡ b
ok-some-injective e = cc

pub some-injective : {A : Type 0} {a b : A} → some a ≡ some b → a ≡ b
some-injective e = cc

-- What follows a call may be replaced where the call returned.
pub bind-agree {ℓ κ} :
    {A : Type ℓ} {B : Type κ} (m : Outcome A) (f g : A → Outcome B)
    → ((a : A) → m ≡ ok a → f a ≡ g a)
    → (m >>= f) ≡ (m >>= g)
bind-agree (ok a) f g h = h a refl
bind-agree (raised e) f g h = refl

pub Outcome-cases {ℓ} : {A : Type ℓ} (m : Outcome A) → ((e : Error) × (m ≡ raised e)) ⊎ Returns m
Outcome-cases (ok a) = inr (a, refl)
Outcome-cases (raised e) = inl (e, refl)
