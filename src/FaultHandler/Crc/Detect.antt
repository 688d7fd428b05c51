-- ===== src/FaultHandler/Crc/Detect.antt =====
-- The checksum tells apart any two reports that differ in one byte.
use taste_samv71_rtems_runti.Common.{
  ℕ, ◌+◌, ◌*◌, ◌/◌, ◌%◌, ◌^◌, ◌<◌, ◌≡◌, ◌≢◌, ◌∙◌, sym, List, [], ◌∷◌, ◌++◌, arith, bit_xor,
}
use taste_samv71_rtems_runti.Common.Bits.{bit_xor-lt, bit_xor_comm}
use taste_samv71_rtems_runti.FaultHandler.Crc.{
  crc_initial_value, crc_byte, crc_loop, calculate_crc, AreBytes,
}
use taste_samv71_rtems_runti.FaultHandler.Crc.Shift.{crc_bits-injective, bit_xor_cancel}
use taste_samv71_rtems_runti.FaultHandler.Crc.Residue.{
  crc_byte_lem, crc_byte-lt, crc_loop-lt, crc_loop-append,
}

-- Equal results mean equal upper halves, each combined with its byte, and equal lower halves.
halves_eq :
    (x y b c : ℕ)
    → x < 2 ^ 16
    → y < 2 ^ 16
    → b < 256
    → c < 256
    → crc_byte x b ≡ crc_byte y c
    → (bit_xor (x / 256) b ≡ bit_xor (y / 256) c) × (x % 256 ≡ y % 256)
halves_eq x y b c hx hy hb hc e =
    let bx : bit_xor (x / 256) b < 2 ^ 8 = bit_xor-lt 8 (x / 256) b (omega arith) hb in
    let by : bit_xor (y / 256) c < 2 ^ 8 = bit_xor-lt 8 (y / 256) c (omega arith) hc in
    let same : bit_xor (x / 256) b * 256 + x % 256 ≡ bit_xor (y / 256) c * 256 + y % 256 =
      crc_bits-injective 8 _ _ (omega arith) (omega arith)
        (sym (crc_byte_lem x b hx hb) ∙ e ∙ crc_byte_lem y c hy hc) in
    (omega arith, omega arith)

crc_byte-injective :
    (x y b : ℕ) → x < 2 ^ 16 → y < 2 ^ 16 → b < 256 → crc_byte x b ≡ crc_byte y b → x ≡ y
crc_byte-injective x y b hx hy hb e =
    let halves = halves_eq x y b b hx hy hb hb e in
    let upper : x / 256 ≡ y / 256 =
      bit_xor_cancel (x / 256) (y / 256) b (omega arith) (omega arith) (omega arith) halves.0 in
    omega (arith, halves.1)

crc_byte-injective_byte :
    (x b c : ℕ) → x < 2 ^ 16 → b < 256 → c < 256 → crc_byte x b ≡ crc_byte x c → b ≡ c
crc_byte-injective_byte x b c hx hb hc e =
    let halves = halves_eq x x b c hx hx hb hc e in
    bit_xor_cancel b c (x / 256) (omega arith) (omega arith) (omega arith) (
      bit_xor_comm 16 b (x / 256) (omega arith) (omega arith)
      ∙ halves.0
      ∙ bit_xor_comm 16 (x / 256) c (omega arith) (omega arith))

crc_loop-injective :
    (bytes : List ℕ) (x y : ℕ)
    → AreBytes bytes
    → x < 2 ^ 16
    → y < 2 ^ 16
    → crc_loop x bytes ≡ crc_loop y bytes
    → x ≡ y
unfolding crc_loop
crc_loop-injective [] x y h hx hy e = e
crc_loop-injective (b ∷ bs) x y h hx hy e =
    crc_byte-injective x y b hx hy h.0 (
      crc_loop-injective bs (crc_byte x b) (crc_byte y b) h.1 (crc_byte-lt x b) (crc_byte-lt y b) e)

-- Changing one byte, anywhere in the data, changes the checksum.
pub calculate_crc-ne :
    (before : List ℕ) (b c : ℕ) (after : List ℕ)
    → b < 256
    → c < 256
    → AreBytes after
    → b ≢ c
    → calculate_crc (before ++ (b ∷ after)) ≢ calculate_crc (before ++ (c ∷ after))
unfolding calculate_crc
calculate_crc-ne before b c after hb hc ha ne e =
    let start = crc_loop crc_initial_value before in
    let small : start < 2 ^ 16 = crc_loop-lt crc_initial_value before (omega arith) in
    let tails : crc_loop start (b ∷ after) ≡ crc_loop start (c ∷ after) =
      sym (crc_loop-append crc_initial_value before (b ∷ after))
      ∙ e
      ∙ crc_loop-append crc_initial_value before (c ∷ after) in
    ne (
      crc_byte-injective_byte start b c small hb hc (
        crc_loop-injective after _ _ ha (crc_byte-lt start b) (crc_byte-lt start c)
          (unfold crc_loop in tails)))
