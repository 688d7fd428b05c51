-- ===== src/Common/Options.antt =====
-- Chains of steps that may fail, for `do` blocks over `Option`.
use mathlib.Core.Option.{Option, none, some}
use mathlib.Core.Path.{◌≡◌, refl}
use mathlib.Core.Logic.{◌⊎◌, inl, inr}

infixl 5 ◌>>=◌
abbrev pub ◌>>=◌ {ℓ κ} : {A : Type ℓ} {B : Type κ} → Option A → (A → Option B) → Option B
some a >>= f = f a
none >>= f = none

-- A chain that gives a result has an intermediate result.
pub bind-some {ℓ κ} :
    {A : Type ℓ} {B : Type κ} (a? : Option A) (f : A → Option B) {b : B}
    → (a? >>= f) ≡ some b
    → (a : A) × (a? ≡ some a) × (f a ≡ some b)
bind-some (some a) f e = (a, refl, e)
bind-some none f e = absurd (cc)

pub Option-cases {ℓ} : {A : Type ℓ} (a? : Option A) → (a? ≡ none) ⊎ ((a : A) × (a? ≡ some a))
Option-cases none = inl refl
Option-cases (some a) = inr (a, refl)
