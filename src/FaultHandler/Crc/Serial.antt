-- ===== src/FaultHandler/Crc/Serial.antt =====
-- The checksum against a bit-serial CRC-16 with polynomial 0x1021, as a shift register computes it:
-- one message bit at a time, most significant first, with no byte in sight.
use mathlib.Core.Path.{ap₂}
use taste_samv71_rtems_runti.Common.{
  Bool-cases, ℕ, zero, suc, ◌+◌, ◌-◌, ◌*◌, ◌/◌, ◌%◌, ◌^◌, ◌<◌, ◌≡◌, ◌∙◌, refl, sym, ap, List, [],
  ◌∷◌, ◌++◌, arith, bit_xor, if◌then◌else◌, ◌==◌, inl, inr, u16,
}
use taste_samv71_rtems_runti.Common.Bits.{
  bit_xor-lt, bit_xor_comm, bit_xor_assoc, bit_xor_fields, bit_xor-zero,
}
use taste_samv71_rtems_runti.FaultHandler.Crc.{
  crc_initial_value, crc_polynomial, crc_bit, crc_bits, crc_byte, crc_loop, calculate_crc, AreBytes,
}
use taste_samv71_rtems_runti.FaultHandler.Crc.Shift.{crc_bit_low, crc_bit_high}
use taste_samv71_rtems_runti.FaultHandler.Crc.Residue.{crc_byte-lt}

-- The shift register: the bit that leaves at the top, added to the message bit, is fed back.
pub shift_register : ℕ → ℕ → ℕ
shift_register reg bit =
    if (reg / 2 ^ 15 + bit) % 2 == 0 then reg % 2 ^ 15 * 2 else bit_xor (reg % 2 ^ 15 * 2) 0x1021

pub serial_crc : ℕ → List ℕ → ℕ
serial_crc reg [] = reg
serial_crc reg (bit ∷ bits) = serial_crc (shift_register reg bit) bits

-- The bits of a byte and of a message, most significant first.
pub bits_of : ℕ → List ℕ
bits_of b =
    b / 128 % 2
    ∷ b / 64 % 2
    ∷ b / 32 % 2
    ∷ b / 16 % 2
    ∷ b / 8 % 2
    ∷ b / 4 % 2
    ∷ b / 2 % 2
    ∷ b % 2
    ∷ []

pub message_bits : List ℕ → List ℕ
message_bits [] = []
message_bits (b ∷ bs) = bits_of b ++ message_bits bs

-- The k top bits of a 16-bit word, and the word shifted left by k.
top_bits : ℕ → ℕ → List ℕ
top_bits zero w = []
top_bits (suc k) w = w / 2 ^ 15 ∷ top_bits k (w % 2 ^ 15 * 2)

shifted : ℕ → ℕ → ℕ
shifted zero w = w
shifted (suc k) w = shifted k (w % 2 ^ 15 * 2)

bit_xor_digits : (a b : ℕ) → a < 2 → b < 2 → bit_xor a b ≡ (a + b) % 2
bit_xor_digits zero zero p q = refl
bit_xor_digits zero (suc zero) p q = refl
bit_xor_digits (suc zero) zero p q = refl
bit_xor_digits (suc zero) (suc zero) p q = refl
bit_xor_digits zero (suc (suc b)) p q = absurd (omega arith)
bit_xor_digits (suc zero) (suc (suc b)) p q = absurd (omega arith)
bit_xor_digits (suc (suc a)) b p q = absurd (omega arith)

bit_xor_swap :
    (a b c : ℕ)
    → a < 2 ^ 16
    → b < 2 ^ 16
    → c < 2 ^ 16
    → bit_xor (bit_xor a b) c ≡ bit_xor (bit_xor a c) b
bit_xor_swap a b c ha hb hc =
    bit_xor_assoc 16 a b c ha hb hc
    ∙ ap (bit_xor a) (bit_xor_comm 16 b c hb hc)
    ∙ sym (bit_xor_assoc 16 a c b ha hc hb)

module _ (reg w : ℕ) (hr : reg < 2 ^ 16) (hw : w < 2 ^ 16) where
  -- The sum of register and word, its top bit and the rest apart.
  sum_fields :
      bit_xor reg w ≡ (reg / 2 ^ 15 + w / 2 ^ 15) % 2 * 2 ^ 15 + bit_xor (reg % 2 ^ 15) (w % 2 ^ 15)
  sum_fields =
      let left : reg / 2 ^ 15 * 2 ^ 15 + reg % 2 ^ 15 ≡ reg = omega arith in
      let right : w / 2 ^ 15 * 2 ^ 15 + w % 2 ^ 15 ≡ w = omega arith in
      ap₂ bit_xor (sym left) (sym right)
      ∙ bit_xor_fields 15 (reg / 2 ^ 15) (reg % 2 ^ 15) (w / 2 ^ 15) (w % 2 ^ 15) (omega arith)
          (omega arith)
      ∙ ap (λ t. t * 2 ^ 15 + bit_xor (reg % 2 ^ 15) (w % 2 ^ 15))
          (bit_xor_digits (reg / 2 ^ 15) (w / 2 ^ 15) (omega arith) (omega arith))

  sum_doubled :
      bit_xor (reg % 2 ^ 15) (w % 2 ^ 15) * 2 ≡ bit_xor (reg % 2 ^ 15 * 2) (w % 2 ^ 15 * 2)
  sum_doubled =
      let split = bit_xor_fields 1 (reg % 2 ^ 15) 0 (w % 2 ^ 15) 0 (omega arith) (omega arith) in
      let left : reg % 2 ^ 15 * 2 ^ 1 + 0 ≡ reg % 2 ^ 15 * 2 = omega arith in
      let right : w % 2 ^ 15 * 2 ^ 1 + 0 ≡ w % 2 ^ 15 * 2 = omega arith in
      omega (arith, sym split) ∙ ap₂ bit_xor left right

  -- One round on a register that a word has been added to.
  crc_bit-xor : crc_bit (bit_xor reg w) ≡ bit_xor (shift_register reg (w / 2 ^ 15)) (w % 2 ^ 15 * 2)
  unfolding shift_register
  crc_bit-xor =
      let low : bit_xor (reg % 2 ^ 15) (w % 2 ^ 15) < 2 ^ 15 =
        bit_xor-lt 15 (reg % 2 ^ 15) (w % 2 ^ 15) (omega arith) (omega arith) in
      elim (Bool-cases ((reg / 2 ^ 15 + w / 2 ^ 15) % 2 == 0)) [
        | inl e ↦ rw e (
            let sum : bit_xor reg w ≡ bit_xor (reg % 2 ^ 15) (w % 2 ^ 15) =
              ground (arith, sum_fields) in
            ap crc_bit sum ∙ crc_bit_low _ low ∙ sum_doubled)
        | inr e ↦ rw e (
            let sum : bit_xor reg w ≡ 2 ^ 15 + bit_xor (reg % 2 ^ 15) (w % 2 ^ 15) =
              ground (arith, sum_fields) in
            let rest : (bit_xor reg w - 2 ^ 15) * 2 ≡ bit_xor (reg % 2 ^ 15 * 2) (w % 2 ^ 15 * 2) =
              omega (arith, sum, sum_doubled) in
            crc_bit_high (bit_xor reg w) (omega arith) (omega arith)
            ∙ ap (λ t. bit_xor t crc_polynomial) rest
            ∙ bit_xor_swap (reg % 2 ^ 15 * 2) (w % 2 ^ 15 * 2) crc_polynomial (omega arith)
                (omega arith) (omega arith))
      ]

shift_register-lt : (reg bit : ℕ) → shift_register reg bit < 2 ^ 16
unfolding shift_register
shift_register-lt reg bit = ground (arith, bit_xor-lt 16 (reg % 2 ^ 15 * 2) crc_polynomial)

crc_bits-xor :
    (k reg w : ℕ)
    → reg < 2 ^ 16
    → w < 2 ^ 16
    → crc_bits k (bit_xor reg w) ≡ bit_xor (serial_crc reg (top_bits k w)) (shifted k w)
unfolding crc_bits serial_crc top_bits shifted
crc_bits-xor zero reg w hr hw = refl
crc_bits-xor (suc k) reg w hr hw =
    ap (crc_bits k) (crc_bit-xor reg w hr hw)
    ∙ crc_bits-xor k (shift_register reg (w / 2 ^ 15)) (w % 2 ^ 15 * 2) (shift_register-lt _ _)
        (omega arith)

top_bits-bits_of : (b : ℕ) → b < 256 → top_bits 8 (b * 2 ^ 8) ≡ bits_of b
unfolding top_bits bits_of
top_bits-bits_of b h = ground arith

shifted-zero : (b : ℕ) → b < 256 → shifted 8 (b * 2 ^ 8) ≡ 0
unfolding shifted
shifted-zero b h = omega arith

crc_byte-serial : (reg b : ℕ) → reg < 2 ^ 16 → b < 256 → crc_byte reg b ≡ serial_crc reg (bits_of b)
unfolding crc_byte
crc_byte-serial reg b hr hb =
    let word : u16 b * 2 ^ 8 ≡ b * 2 ^ 8 = omega arith in
    let fits : u16 (bit_xor reg (b * 2 ^ 8)) ≡ bit_xor reg (b * 2 ^ 8) =
      omega (arith, bit_xor-lt 16 reg (b * 2 ^ 8) hr (omega arith)) in
    ap (crc_bits 8) (ap (λ t. u16 (bit_xor reg t)) word ∙ fits)
    ∙ crc_bits-xor 8 reg (b * 2 ^ 8) hr (omega arith)
    ∙ ap₂ bit_xor (ap (serial_crc reg) (top_bits-bits_of b hb)) (shifted-zero b hb)
    ∙ bit_xor-zero (serial_crc reg (bits_of b))

serial_crc-append :
    (reg : ℕ) (xs ys : List ℕ) → serial_crc reg (xs ++ ys) ≡ serial_crc (serial_crc reg xs) ys
unfolding serial_crc
serial_crc-append reg [] ys = refl
serial_crc-append reg (x ∷ xs) ys = serial_crc-append (shift_register reg x) xs ys

crc_loop-serial :
    (reg : ℕ) (bytes : List ℕ)
    → reg < 2 ^ 16
    → AreBytes bytes
    → crc_loop reg bytes ≡ serial_crc reg (message_bits bytes)
unfolding crc_loop message_bits
crc_loop-serial reg [] h hb = unfold serial_crc in refl
crc_loop-serial reg (b ∷ bs) h hb =
    crc_loop-serial (crc_byte reg b) bs (crc_byte-lt reg b) hb.1
    ∙ ap (λ r. serial_crc r (message_bits bs)) (crc_byte-serial reg b h hb.0)
    ∙ sym (serial_crc-append reg (bits_of b) (message_bits bs))

-- The byte-wise computation with its eight shifts gives, for every message, what the shift register
-- with the polynomial 0x1021, started at 0xffff, gives on the message's bits.
pub calculate_crc-serial :
    (bytes : List ℕ) → AreBytes bytes → calculate_crc bytes ≡ serial_crc 0xffff (message_bits bytes)
unfolding calculate_crc
calculate_crc-serial bytes h = crc_loop-serial crc_initial_value bytes (omega arith) h
