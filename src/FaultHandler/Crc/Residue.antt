-- ===== src/FaultHandler/Crc/Residue.antt =====
-- A report's checksum, appended high byte first, brings the checksum to zero.
use native.Mathlib.Nat.{one-le-pow, pow-suc}
use mathlib.Core.Path.{ap₂}
use taste_samv71_rtems_runti.Common.{
  ◌≤◌, sym, ℕ, zero, suc, ◌+◌, ◌*◌, ◌/◌, ◌%◌, ◌^◌, ◌<◌, ◌≡◌, ◌∙◌, refl, ap, List, [], ◌∷◌, ◌++◌,
  arith, bit_xor, u16,
}
use taste_samv71_rtems_runti.Common.Bits.{bit_xor_fields, bit_xor_self, bit_xor-zero, bit_xor-lt}
use taste_samv71_rtems_runti.FaultHandler.Crc.{
  crc_initial_value, crc_bits, crc_byte, crc_loop, calculate_crc,
}
use taste_samv71_rtems_runti.FaultHandler.Crc.Shift.{crc_bit_low, crc_bits-lt}

pub crc_byte-lt : (crc byte : ℕ) → crc_byte crc byte < 2 ^ 16
unfolding crc_byte
crc_byte-lt crc byte = crc_bits-lt 8 _ (omega arith)

pub crc_loop-lt : (crc : ℕ) (bytes : List ℕ) → crc < 2 ^ 16 → crc_loop crc bytes < 2 ^ 16
unfolding crc_loop
crc_loop-lt crc [] h = h
crc_loop-lt crc (b ∷ bs) h = crc_loop-lt (crc_byte crc b) bs (crc_byte-lt crc b)

pub crc_loop-append :
    (crc : ℕ) (xs ys : List ℕ) → crc_loop crc (xs ++ ys) ≡ crc_loop (crc_loop crc xs) ys
unfolding crc_loop
crc_loop-append crc [] ys = refl
crc_loop-append crc (x ∷ xs) ys = crc_loop-append (crc_byte crc x) xs ys

-- While no bit reaches the top, a round doubles.
crc_bits_small : (n x : ℕ) → x * 2 ^ n < 2 ^ 16 → crc_bits n x ≡ x * 2 ^ n
unfolding crc_bits
crc_bits_small zero x h = omega arith
crc_bits_small (suc n) x h =
    let pos : x * 1 ≤ x * 2 ^ n = grind (arith, one-le-pow n 2) in
    let double : x * 2 ^ suc n ≡ x * 2 * 2 ^ n =
      omega (arith, ap (λ (t : ℕ). x * t) (pow-suc 2 n)) in
    ap (crc_bits n) (crc_bit_low x (omega arith))
    ∙ crc_bits_small n (x * 2) (omega arith)
    ∙ sym double

-- A byte is combined with the upper half only.
pub crc_byte_lem :
    (crc byte : ℕ)
    → crc < 2 ^ 16
    → byte < 256
    → crc_byte crc byte ≡ crc_bits 8 (bit_xor (crc / 256) byte * 256 + crc % 256)
unfolding crc_byte
crc_byte_lem crc byte hc hb =
    let fields : bit_xor (crc / 256 * 2 ^ 8 + crc % 256) (byte * 2 ^ 8 + 0)
        ≡ bit_xor (crc / 256) byte * 2 ^ 8 + bit_xor (crc % 256) 0 =
      bit_xor_fields 8 (crc / 256) (crc % 256) byte 0 (omega arith) (omega arith) in
    let left : crc / 256 * 2 ^ 8 + crc % 256 ≡ crc = omega arith in
    let right : byte * 2 ^ 8 + 0 ≡ u16 byte * 2 ^ 8 = omega arith in
    let upper : bit_xor (crc / 256) byte < 2 ^ 8 = bit_xor-lt 8 (crc / 256) byte (omega arith) hb in
    let whole : bit_xor crc (u16 byte * 2 ^ 8) ≡ bit_xor (crc / 256) byte * 256 + crc % 256 =
      ap₂ bit_xor (sym left) (sym right)
      ∙ fields
      ∙ ap (λ t. bit_xor (crc / 256) byte * 256 + t) (bit_xor-zero (crc % 256)) in
    ap (crc_bits 8) (ap u16 whole ∙ omega arith)

-- A high byte equal to that of the checksum leaves its low byte, moved up.
crc_byte_high : (crc : ℕ) → crc < 2 ^ 16 → crc_byte crc (crc / 256) ≡ crc % 256 * 256
crc_byte_high crc h =
    crc_byte_lem crc (crc / 256) h (omega arith)
    ∙ ap (crc_bits 8) (omega (arith, bit_xor_self (crc / 256)))
    ∙ crc_bits_small 8 (crc % 256) (omega arith)

crc_byte_low : (low : ℕ) → low < 256 → crc_byte (low * 256) low ≡ 0
crc_byte_low low h =
    let top : low * 256 / 256 ≡ low = omega arith in
    crc_byte_lem (low * 256) low (omega arith) h
    ∙ ap (crc_bits 8) (rw top (omega (arith, bit_xor_self low)))
    ∙ crc_bits_small 8 0 (omega arith)

-- The checksum of any bytes followed by their own checksum, high byte first, is 0.
pub calculate_crc-append_crc :
    (bytes : List ℕ)
    → let crc = calculate_crc bytes in calculate_crc (bytes ++ (crc / 256 ∷ crc % 256 ∷ [])) ≡ 0
unfolding calculate_crc
calculate_crc-append_crc bytes =
    let crc = calculate_crc bytes in
    let small : crc < 2 ^ 16 = crc_loop-lt crc_initial_value bytes (omega arith) in
    crc_loop-append crc_initial_value bytes (crc / 256 ∷ crc % 256 ∷ []) ∙ last_two crc small
  where
    last_two : (crc : ℕ) → crc < 2 ^ 16 → crc_loop crc (crc / 256 ∷ crc % 256 ∷ []) ≡ 0
    last_two crc h =
        unfold crc_loop in rw (crc_byte_high crc h) (crc_byte_low (crc % 256) (omega arith))
