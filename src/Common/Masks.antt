-- ===== src/Common/Masks.antt =====
-- `bit_and` and `bit_or` on numbers that are shifted, as masks of a field and words made of fields.
use Prim.Native.Nat.{bit_or-bitwise}
use taste_samv71_rtems_runti.Common.{
  ℕ, zero, suc, ◌+◌, ◌*◌, ◌/◌, ◌%◌, ◌^◌, ◌<◌, ◌≡◌, sym, ◌∙◌, ap, max, arith, bit_and, bit_or,
}
use taste_samv71_rtems_runti.Common.Bits.{bit_and_step, low_digit}
use taste_samv71_rtems_runti.Common.Powers.{bit_and_zero, pow_positive}
use native.Mathlib.Nat.{div-add-mod', mod-lt}

bit_or_step : (x y : ℕ) → bit_or x y ≡ bit_or (x / 2) (y / 2) * 2 + max (x % 2) (y % 2)
bit_or_step zero y = simp bit_or-bitwise (omega arith)
bit_or_step (suc x) y = simp bit_or-bitwise (low_digit (λ w. w) max x y)

-- Nothing is added by no bits.
pub bit_or_zero : (v : ℕ) → bit_or 0 v ≡ v
bit_or_zero v = simp bit_or-bitwise

double_shift : (m p : ℕ) → m * 2 ^ suc p ≡ (m * 2 ^ p) * 2
double_shift m p = grind arith

-- A shifted mask reads the shifted bits.
pub bit_and_shift :
    (p m q r : ℕ) → r < 2 ^ p → bit_and (m * 2 ^ p) (q * 2 ^ p + r) ≡ bit_and m q * 2 ^ p
bit_and_shift zero m q r h =
    let whole : q * 2 ^ 0 + r ≡ q = omega arith in
    let same : m * 2 ^ 0 ≡ m = omega arith in rw (whole, same) (omega arith)
bit_and_shift (suc p) m q r h =
    let half : (q * 2 ^ suc p + r) / 2 ≡ q * 2 ^ p + r / 2 = omega (arith, double_shift q p) in
    let half_mask : m * 2 ^ suc p / 2 ≡ m * 2 ^ p = omega (arith, double_shift m p) in
    let even : m * 2 ^ suc p % 2 ≡ 0 = omega (arith, double_shift m p) in
    bit_and_step (m * 2 ^ suc p) (q * 2 ^ suc p + r)
    ∙ rw (half, half_mask, even)
        (omega (arith, bit_and_shift p m q (r / 2) (omega arith), double_shift (bit_and m q) p))

-- A number below a shifted one is added to it.
pub bit_or_shift : (p b a : ℕ) → a < 2 ^ p → bit_or a (b * 2 ^ p) ≡ a + b * 2 ^ p
bit_or_shift zero b a h =
    let nothing : a ≡ 0 = omega arith in rw nothing (omega (arith, bit_or_zero (b * 2 ^ 0)))
bit_or_shift (suc p) b a h =
    let half : b * 2 ^ suc p / 2 ≡ b * 2 ^ p = omega (arith, double_shift b p) in
    let even : b * 2 ^ suc p % 2 ≡ 0 = omega (arith, double_shift b p) in
    bit_or_step a (b * 2 ^ suc p)
    ∙ rw (half, even) (omega (arith, bit_or_shift p b (a / 2) (omega arith), double_shift b p))

bit_and_one : (n : ℕ) → bit_and 1 n ≡ n % 2
bit_and_one n = omega (arith, bit_and_step 1 n, bit_and_zero (n / 2))

bit_and_three : (n : ℕ) → bit_and 3 n ≡ n % 4
bit_and_three n = omega (arith, bit_and_step 3 n, bit_and_one (n / 2))

bit_and_seven : (n : ℕ) → bit_and 7 n ≡ n % 8
bit_and_seven n = omega (arith, bit_and_step 7 n, bit_and_three (n / 2))

bit_and_127 : (n : ℕ) → bit_and 127 n ≡ n % 128
bit_and_127 n =
    let n₁ = n / 2 in
    let n₂ = n₁ / 2 in
    let n₃ = n₂ / 2 in
    omega (
      arith,
      bit_and_step 127 n,
      bit_and_step 63 n₁,
      bit_and_step 31 n₂,
      bit_and_step 15 n₃,
      bit_and_seven (n₃ / 2),
    )

-- The bits of a field of one, two, three and seven bits, from bit p on
module _ (p n : ℕ) where
  abbrev Field : ℕ → ℕ → Type 0
  Field mask size = bit_and (mask * 2 ^ p) n ≡ (n / 2 ^ p % size) * 2 ^ p

  bit_and_mask : (mask size : ℕ) → ((q : ℕ) → bit_and mask q ≡ q % size) → Field mask size
  bit_and_mask mask size low =
      ap (bit_and (mask * 2 ^ p)) (sym (div-add-mod' n (2 ^ p)))
      ∙ bit_and_shift p mask (n / 2 ^ p) (n % 2 ^ p) (mod-lt n (pow_positive p))
      ∙ ap (λ t. t * 2 ^ p) (low (n / 2 ^ p))

  pub mask_1 : Field 1 2
  mask_1 = bit_and_mask 1 2 bit_and_one

  pub mask_2 : Field 3 4
  mask_2 = bit_and_mask 3 4 bit_and_three

  pub mask_3 : Field 7 8
  mask_3 = bit_and_mask 7 8 bit_and_seven

  pub mask_7 : Field 127 128
  mask_7 = bit_and_mask 127 128 bit_and_127

-- Two words whose bits are apart are added.
pub bit_or_apart : (p a b : ℕ) → a < 2 ^ p → b % 2 ^ p ≡ 0 → bit_or a b ≡ a + b
bit_or_apart p a b low high =
    let whole : b / 2 ^ p * 2 ^ p ≡ b = omega (arith, div-add-mod' b (2 ^ p)) in
    ap (bit_or a) (sym whole) ∙ bit_or_shift p (b / 2 ^ p) a low ∙ ap (λ t. a + t) whole
