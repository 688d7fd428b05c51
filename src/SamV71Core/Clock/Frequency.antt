-- ===== src/SamV71Core/Clock/Frequency.antt =====
-- The frequency as one formula.
use taste_samv71_rtems_runti.Common.{ℕ, ◌+◌, ◌*◌, ◌/◌, ◌^◌, ◌<◌, ◌≤◌, ◌≡◌, refl, arith, max}
use taste_samv71_rtems_runti.SamV71Core.Clock.{
  Target, samv71q21, PllConfig, MasterckSrc, pllack, other, MasterckConfig, MasterckPresc, presc_1,
  presc_2, presc_4, presc_8, presc_16, presc_32, presc_64, presc_3, MasterckDiv, div_1, div_2,
  unnamed, Pmc, apply_plla_config, apply_presc, apply_divider, extract_main_oscilator_frequency,
  extract_mck_frequency,
}

-- What a prescaler's and a divider's name say.
pub presc_value : MasterckPresc → ℕ
presc_value presc_1 = 1
presc_value presc_2 = 2
presc_value presc_4 = 4
presc_value presc_8 = 8
presc_value presc_16 = 16
presc_value presc_32 = 32
presc_value presc_64 = 64
presc_value presc_3 = 3

pub divider_value : MasterckDiv → ℕ
divider_value div_1 = 1
divider_value div_2 = 2
divider_value unnamed = 1

-- What leaves the clock source: with the PLL, the oscillator divided and multiplied, a divider of 0
-- counting as 1.
unfoldable pub source_frequency : MasterckSrc → PllConfig → ℕ → ℕ
source_frequency pllack pll f = f / max 1 pll.plla_div * (pll.plla_mul + 1)
source_frequency other pll f = f

apply_presc_three :
    (t : Target) (p : MasterckPresc) (d : MasterckDiv) (f : ℕ)
    → t ≡ samv71q21
    → p ≡ presc_3
    → 6 ≤ f
    → (apply_divider d (apply_presc t p f) ≡ f / (7 * divider_value d))
      × (apply_divider d (apply_presc t p f) < f / (presc_value p * divider_value d))
unfolding apply_presc apply_divider presc_value divider_value
apply_presc_three t p d f same three big = ground arith

mul_mono : (a b k : ℕ) → a ≤ b → a * k ≤ b * k
mul_mono a b k h = grind arith

product_small : (f d m : ℕ) → f < 2 ^ 32 → m < 2 ^ 11 → f / max 1 d * (m + 1) < 2 ^ 64
product_small f d m hf hm =
    let le : f / max 1 d ≤ 2 ^ 32 = omega arith in
    omega (arith, mul_mono (f / max 1 d) (2 ^ 32) (m + 1) le)

apply_plla_config_lem :
    (s : MasterckSrc) (pll : PllConfig) (f : ℕ)
    → f < 2 ^ 32
    → pll.plla_mul < 2 ^ 11
    → apply_plla_config s pll f ≡ source_frequency s pll f
unfolding apply_plla_config source_frequency
apply_plla_config_lem pllack pll f hf hm = ground (arith, product_small f pll.plla_div pll.plla_mul)
apply_plla_config_lem other pll f hf hm = refl

module _ (pmc : Pmc) (t : Target) (r : pmc.Registers) (mck : ℕ) where
  abbrev oscillator : ℕ
  oscillator = extract_main_oscilator_frequency t (pmc.get_mainck_config r) mck

  abbrev master : MasterckConfig
  master = pmc.get_masterck_config r

  abbrev pll : PllConfig
  pll = pmc.get_pll_config r

  module _ (slow : oscillator < 2 ^ 32) (fits : pll.plla_mul < 2 ^ 11) where
    -- With the prescaler 3 of a SAMV71Q21 the source frequency is divided by 7, so the result is too
    -- low from a source of 6 Hz on.
    pub extract_mck_frequency_presc_three :
        t ≡ samv71q21
        → master.presc ≡ presc_3
        → 6 ≤ source_frequency master.src pll oscillator
        → (extract_mck_frequency pmc t r mck
            ≡ source_frequency master.src pll oscillator / (7 * divider_value master.divider))
          × (extract_mck_frequency pmc t r mck
              < source_frequency master.src pll oscillator
                / (presc_value master.presc * divider_value master.divider))
    unfolding extract_mck_frequency
    extract_mck_frequency_presc_three same three big =
        rw (apply_plla_config_lem master.src pll oscillator slow fits)
          (apply_presc_three t master.presc master.divider _ same three big)
