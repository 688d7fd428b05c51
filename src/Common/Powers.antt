-- ===== src/Common/Powers.antt =====
-- `bit_and` on powers of two, as masks of one bit.
use taste_samv71_rtems_runti.Common.{
  ℕ, zero, suc, ◌-◌, ◌*◌, ◌/◌, ◌%◌, ◌^◌, ◌<◌, ◌≡◌, ◌≢◌, refl, ◌∙◌, arith, bit_and,
}
use Prim.Native.Nat.{bit_and-bitwise}
use taste_samv71_rtems_runti.Common.Bits.{bit_and_step}

half_pow : (i : ℕ) → 2 ^ suc i / 2 ≡ 2 ^ i
half_pow i = omega arith

even_pow : (i : ℕ) → 2 ^ suc i % 2 ≡ 0
even_pow i = omega arith

bit_and-pow_suc : (i j : ℕ) → bit_and (2 ^ suc i) (2 ^ suc j) ≡ bit_and (2 ^ i) (2 ^ j) * 2
bit_and-pow_suc i j =
    bit_and_step (2 ^ suc i) (2 ^ suc j)
    ∙ rw (half_pow i, half_pow j, even_pow i, even_pow j) (omega arith)

pub bit_and-pow_self : (i : ℕ) → bit_and (2 ^ i) (2 ^ i) ≡ 2 ^ i
bit_and-pow_self zero = refl
bit_and-pow_self (suc i) = bit_and-pow_suc i i ∙ rw (bit_and-pow_self i) (omega arith)

pub bit_and_zero : (y : ℕ) → bit_and 0 y ≡ 0
bit_and_zero y = simp bit_and-bitwise

bit_and-pow_zero : (i : ℕ) → bit_and (2 ^ i) 0 ≡ 0
bit_and-pow_zero zero = refl
bit_and-pow_zero (suc i) =
    bit_and_step (2 ^ suc i) 0 ∙ rw (half_pow i, bit_and-pow_zero i) (omega arith)

pub pow_positive : (k : ℕ) → 0 < 2 ^ k
pow_positive zero = omega arith
pow_positive (suc k) = omega (arith, pow_positive k)

-- Different single bits
pub bit_and-pow_ne : (i j : ℕ) → i ≢ j → bit_and (2 ^ i) (2 ^ j) ≡ 0
bit_and-pow_ne zero zero ne = absurd (ne refl)
bit_and-pow_ne zero (suc j) ne =
    bit_and_step 1 (2 ^ suc j) ∙ rw (half_pow j, even_pow j) (omega (arith, bit_and_zero (2 ^ j)))
bit_and-pow_ne (suc i) zero ne =
    bit_and_step (2 ^ suc i) 1 ∙ rw (half_pow i, even_pow i) (omega (arith, bit_and-pow_zero i))
bit_and-pow_ne (suc i) (suc j) ne =
    bit_and-pow_suc i j ∙ rw (bit_and-pow_ne i j (λ e. ne (omega arith))) refl

-- A single bit below a mask of k bits
pub bit_and-pow_mask : (i k : ℕ) → i < k → bit_and (2 ^ i) (2 ^ k - 1) ≡ 2 ^ i
bit_and-pow_mask i zero h = absurd (omega arith)
bit_and-pow_mask zero (suc k) h =
    let odd : (2 ^ suc k - 1) % 2 ≡ 1 = omega (arith, pow_positive k) in
    bit_and_step 1 (2 ^ suc k - 1) ∙ rw (odd, bit_and_zero ((2 ^ suc k - 1) / 2)) refl
bit_and-pow_mask (suc i) (suc k) h =
    let half : (2 ^ suc k - 1) / 2 ≡ 2 ^ k - 1 = omega arith in
    bit_and_step (2 ^ suc i) (2 ^ suc k - 1)
    ∙ rw (half_pow i, even_pow i, half, bit_and-pow_mask i k (omega arith)) (omega arith)
