-- ===== src/Common/Double.antt =====
-- Floating-point numbers, as an interface: what C's `double` and `float` promise of the values that
-- are numbers. Comparisons form a linear order, conversions are monotone, and so is division by a
-- positive number.
use Prim.Native.Nat.{ℕ, ◌+◌, ◌-◌, ◌*◌, ◌/◌, ◌≤◌, compare, Ordering}
use mathlib.Core.Path.{◌≡◌}
use mathlib.Core.Bool.{Bool, true, false}
use native.Mathlib.Omega.{arith}

pub record Double : Type 1 where
  pub F : Type 0
  pub from_u64 : ℕ → F
  pub to_u64 : F → ℕ
  pub add : F → F → F
  pub sub : F → F → F
  pub mul : F → F → F
  pub div : F → F → F
  pub lt : F → F → Bool
  pub le : F → F → Type 0
  pub le_refl : (a : F) → le a a
  pub le_trans : (a b c : F) → le a b → le b c → le a c
  pub le_of_lt : (a b : F) → lt a b ≡ true → le a b
  pub le_of_not_lt : (a b : F) → lt a b ≡ false → le b a
  pub from_u64_mono : (m n : ℕ) → m ≤ n → le (from_u64 m) (from_u64 n)
  pub to_u64_mono : (a b : F) → le a b → to_u64 a ≤ to_u64 b
  pub div_mono : (a b c : F) → lt (from_u64 0) c ≡ true → le a b → le (div a c) (div b c)

-- Non-negative fixed-point numbers with twelve decimals, which meet the interface. A difference
-- stops at 0.
abbrev pub scale : ℕ
scale = 1_000_000_000_000

unfoldable pub fixed_lt : ℕ → ℕ → Bool
fixed_lt a b = elim (compare a b) [ Ordering.lt ↦ true | _ ↦ false ]

pub fixed_lt→lt : (a b : ℕ) → fixed_lt a b ≡ true → a ≤ b
unfolding fixed_lt
fixed_lt→lt a b h = ground arith

pub not-fixed_lt : (a b : ℕ) → fixed_lt a b ≡ false → b ≤ a
unfolding fixed_lt
not-fixed_lt a b h = ground arith

pub mul_mono : (a b k : ℕ) → a ≤ b → a * k ≤ b * k
mul_mono a b k h = grind arith

pub div_mono_lem : (a b c : ℕ) → a ≤ b → a / c ≤ b / c
div_mono_lem a b c h = grind arith

abbrev pub fixed_point : Double
fixed_point = record {
  F = ℕ;
  from_u64 = λ n. n * scale;
  to_u64 = λ a. a / scale;
  add = λ a b. a + b;
  sub = λ a b. a - b;
  mul = λ a b. a * b / scale;
  div = λ a b. a * scale / b;
  lt = λ a b. fixed_lt a b;
  le = λ a b. a ≤ b;
  le_refl = λ a. omega arith;
  le_trans = λ a b c p q. omega arith;
  le_of_lt = fixed_lt→lt;
  le_of_not_lt = not-fixed_lt;
  from_u64_mono = λ m n p. mul_mono m n scale p;
  to_u64_mono = λ a b p. div_mono_lem a b scale p;
  div_mono = λ a b c q p. div_mono_lem (a * scale) (b * scale) c (mul_mono a b scale p);
}
