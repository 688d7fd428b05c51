-- ===== src/FaultHandler/Crc.antt =====
-- `calculate_crc` of src/FaultHandler/DeathReportWriter.c. Bytes are numbers below 256.
pub mod Shift
pub mod Residue
pub mod Detect
pub mod Serial
mod Tests
use taste_samv71_rtems_runti.Common.{
  ℕ, zero, suc, ◌+◌, ◌*◌, ◌^◌, ◌<◌, ◌==◌, List, [], ◌∷◌, bit_and, bit_xor, if◌then◌else◌, u16,
}

abbrev pub crc_initial_value : ℕ
crc_initial_value = 0xffff

abbrev pub crc_polynomial : ℕ
crc_polynomial = 0x1021

abbrev pub crc_most_sygnificant_bit : ℕ
crc_most_sygnificant_bit = 0x8000

-- One round of the inner loop.
unfoldable pub crc_bit : ℕ → ℕ
crc_bit crc =
    if bit_and crc crc_most_sygnificant_bit == 0
    then u16 (crc * 2)
    else u16 (bit_xor (crc * 2) crc_polynomial)

-- `rounds` rounds of the inner loop.
unfoldable pub crc_bits : ℕ → ℕ → ℕ
crc_bits zero crc = crc
crc_bits (suc rounds) crc = crc_bits rounds (crc_bit crc)

-- One round of the outer loop: a byte goes into the upper half, and eight bits are shifted out.
unfoldable pub crc_byte : ℕ → ℕ → ℕ
crc_byte crc byte = crc_bits 8 (u16 (bit_xor crc (u16 byte * 2 ^ 8)))

-- The outer loop, over the bytes that are left.
unfoldable pub crc_loop : ℕ → List ℕ → ℕ
crc_loop crc [] = crc
crc_loop crc (byte ∷ bytes) = crc_loop (crc_byte crc byte) bytes

unfoldable pub calculate_crc : List ℕ → ℕ
calculate_crc bytes = crc_loop crc_initial_value bytes

abbrev pub AreBytes : List ℕ → Type 0
AreBytes [] = Unit {0}
AreBytes (b ∷ bs) = (b < 256) × AreBytes bs
