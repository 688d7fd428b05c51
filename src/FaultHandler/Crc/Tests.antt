-- ===== src/FaultHandler/Crc/Tests.antt =====
-- The checksum on concrete bytes.
use taste_samv71_rtems_runti.Common.{◌/◌, ◌%◌, ◌≡◌, ◌≢◌, refl, List, ℕ, [], ◌∷◌, ◌++◌, arith}
use taste_samv71_rtems_runti.FaultHandler.Crc.{crc_bit, crc_bits, crc_byte, crc_loop, calculate_crc}
use taste_samv71_rtems_runti.FaultHandler.Crc.Residue.{calculate_crc-append_crc}
use taste_samv71_rtems_runti.FaultHandler.Crc.Detect.{calculate_crc-ne}
use taste_samv71_rtems_runti.FaultHandler.Crc.Serial.{
  serial_crc, message_bits, calculate_crc-serial,
}

-- "123456789"
abbrev digits : List ℕ
digits = 0x31 ∷ 0x32 ∷ 0x33 ∷ 0x34 ∷ 0x35 ∷ 0x36 ∷ 0x37 ∷ 0x38 ∷ 0x39 ∷ []

-- the published check value of CRC-16/CCITT-FALSE
check_value : calculate_crc digits ≡ 0x29b1
unfolding calculate_crc crc_loop crc_byte crc_bits crc_bit
check_value = refl

calculate_crc-append_crc_test :
    let crc = calculate_crc digits in calculate_crc (digits ++ (crc / 256 ∷ crc % 256 ∷ [])) ≡ 0
calculate_crc-append_crc_test = calculate_crc-append_crc digits

calculate_crc-ne_test : calculate_crc (1 ∷ 2 ∷ 3 ∷ []) ≢ calculate_crc (1 ∷ 7 ∷ 3 ∷ [])
calculate_crc-ne_test =
    calculate_crc-ne (1 ∷ []) 2 7 (3 ∷ []) (omega arith) (omega arith) (omega arith) (omega arith)

calculate_crc-serial_example : calculate_crc digits ≡ serial_crc 0xffff (message_bits digits)
calculate_crc-serial_example = calculate_crc-serial digits (omega arith)
