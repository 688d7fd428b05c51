-- ===== src/FaultHandler/Crc/Shift.antt =====
-- One round of the checksum's inner loop on 16-bit values: its two branches, and injectivity.
use taste_samv71_rtems_runti.Common.{
  ℕ, zero, suc, ◌+◌, ◌-◌, ◌*◌, ◌^◌, ◌<◌, ◌≤◌, ◌≡◌, ◌∙◌, sym, ap, inl, inr, arith, bit_xor,
}
use taste_samv71_rtems_runti.Common.Bits.{
  bit_and-top, bit_xor-lt, bit_xor_fields, bit_xor_step, bit_xor_assoc, bit_xor_self, bit_xor-zero,
}
use taste_samv71_rtems_runti.FaultHandler.Crc.{crc_bit, crc_bits, crc_polynomial}

-- The branch without the polynomial.
pub crc_bit_low : (x : ℕ) → x < 2 ^ 15 → crc_bit x ≡ x * 2
unfolding crc_bit
crc_bit_low x h = ground (arith, bit_and-top 15 x)

-- The branch with the polynomial, which drops the top bit.
pub crc_bit_high :
    (x : ℕ) → 2 ^ 15 ≤ x → x < 2 ^ 16 → crc_bit x ≡ bit_xor ((x - 2 ^ 15) * 2) crc_polynomial
unfolding crc_bit
crc_bit_high x above below =
    let double : x * 2 ≡ 1 * 2 ^ 16 + (x - 2 ^ 15) * 2 = omega arith in
    let split : bit_xor (x * 2) crc_polynomial
        ≡ 2 ^ 16 + bit_xor ((x - 2 ^ 15) * 2) crc_polynomial =
      ap (λ t. bit_xor t crc_polynomial) double
      ∙ bit_xor_fields 16 1 ((x - 2 ^ 15) * 2) 0 crc_polynomial (omega arith) (omega arith) in
    ground (arith, bit_and-top 15 x, split, bit_xor-lt 16 ((x - 2 ^ 15) * 2) crc_polynomial)

pub crc_bit-lt : (x : ℕ) → x < 2 ^ 16 → crc_bit x < 2 ^ 16
unfolding crc_bit
crc_bit-lt x h = ground arith

pub bit_xor_cancel :
    (x y z : ℕ) → x < 2 ^ 16 → y < 2 ^ 16 → z < 2 ^ 16 → bit_xor x z ≡ bit_xor y z → x ≡ y
bit_xor_cancel x y z hx hy hz e = sym (back x hx) ∙ ap (λ t. bit_xor t z) e ∙ back y hy
  where
    back : (w : ℕ) → w < 2 ^ 16 → bit_xor (bit_xor w z) z ≡ w
    back w hw = bit_xor_assoc 16 w z z hw hz hz ∙ ap (bit_xor w) (bit_xor_self z) ∙ bit_xor-zero w

-- The polynomial is odd, so the lowest bit of the result tells the two branches apart.
pub crc_bit-injective : (x y : ℕ) → x < 2 ^ 16 → y < 2 ^ 16 → crc_bit x ≡ crc_bit y → x ≡ y
crc_bit-injective x y hx hy e = elim (bit_and-top 15 x hx) [
  | inl (lx, _) ↦ elim (bit_and-top 15 y hy) [
    | inl (ly, _) ↦ omega (arith, crc_bit_low x lx, crc_bit_low y ly)
    | inr (gy, _) ↦ absurd (
        omega (
          arith,
          crc_bit_low x lx,
          crc_bit_high y gy hy,
          bit_xor_step ((y - 2 ^ 15) * 2) crc_polynomial,
        ))
  ]
  | inr (gx, _) ↦ elim (bit_and-top 15 y hy) [
    | inl (ly, _) ↦ absurd (
        omega (
          arith,
          crc_bit_low y ly,
          crc_bit_high x gx hx,
          bit_xor_step ((x - 2 ^ 15) * 2) crc_polynomial,
        ))
    | inr (gy, _) ↦
        let same : (x - 2 ^ 15) * 2 ≡ (y - 2 ^ 15) * 2 =
          bit_xor_cancel _ _ crc_polynomial (omega arith) (omega arith) (omega arith)
            (sym (crc_bit_high x gx hx) ∙ e ∙ crc_bit_high y gy hy) in
        omega arith
  ]
]

pub crc_bits-lt : (n x : ℕ) → x < 2 ^ 16 → crc_bits n x < 2 ^ 16
unfolding crc_bits
crc_bits-lt zero x h = h
crc_bits-lt (suc n) x h = crc_bits-lt n (crc_bit x) (crc_bit-lt x h)

pub crc_bits-injective : (n x y : ℕ) → x < 2 ^ 16 → y < 2 ^ 16 → crc_bits n x ≡ crc_bits n y → x ≡ y
unfolding crc_bits
crc_bits-injective zero x y hx hy e = e
crc_bits-injective (suc n) x y hx hy e =
    crc_bit-injective x y hx hy
      (crc_bits-injective n (crc_bit x) (crc_bit y) (crc_bit-lt x hx) (crc_bit-lt y hy) e)
