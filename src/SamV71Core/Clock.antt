-- ===== src/SamV71Core/Clock.antt =====
-- The clock configuration of src/SamV71Core/SamV71Core.c and the frequency that is derived from it.
-- The power management controller's driver is no part of the repository: `Pmc` is its interface.
pub mod Frequency
pub mod Init
use taste_samv71_rtems_runti.Common.{
  ℕ, ◌+◌, ◌*◌, ◌/◌, ◌≡◌, Bool, true, false, Option, none, some, List, [], ◌∷◌, if◌then◌else◌, ltb,
  ◌==◌, ◌&&◌, u64,
}

pub data Target : Type 0 where
  samv71q21 samrh71f20 samrh707f18 : Target

-- The driver's enumerations, as far as the source names their values.
pub data MainckSrc : Type 0 where
  xosc rc_osc : MainckSrc

pub data RcOscFreq : Type 0 where
  rc_4m rc_8m rc_10m rc_12m : RcOscFreq

pub data MasterckSrc : Type 0 where
  pllack other : MasterckSrc

pub data MasterckPresc : Type 0 where
  presc_1 presc_2 presc_4 presc_8 presc_16 presc_32 presc_64 presc_3 : MasterckPresc

pub data MasterckDiv : Type 0 where
  div_1 div_2 unnamed : MasterckDiv

pub data PckSrc : Type 0 where
  pck_slck pck_pllack : PckSrc

pub record MainckConfig : Type 0 where
  pub src : MainckSrc
  pub rc_osc_freq : RcOscFreq
  pub xosc_startup_time : ℕ

pub record PllConfig : Type 0 where
  pub plla_mul : ℕ
  pub plla_div : ℕ
  pub plla_startup_time : ℕ

pub record MasterckConfig : Type 0 where
  pub src : MasterckSrc
  pub presc : MasterckPresc
  pub divider : MasterckDiv

pub record PckConfig : Type 0 where
  pub is_enabled : Bool
  pub src : PckSrc
  pub presc : ℕ

pub record PmcConfig : Type 0 where
  pub mainck : MainckConfig
  pub pll : PllConfig
  pub masterck : MasterckConfig
  pub pck : List PckConfig

-- What the source uses of the driver. A successful `set_config` is read back as it was given.
pub record Pmc : Type 1 where
  pub Registers : Type 0
  pub set_config : PmcConfig → ℕ → Registers → Bool × Registers
  pub get_mainck_config : Registers → MainckConfig
  pub get_pll_config : Registers → PllConfig
  pub get_masterck_config : Registers → MasterckConfig
  pub read_back :
      (c : PmcConfig) (timeout : ℕ) (r : Registers)
      → (set_config c timeout r).0 ≡ true
      → (get_mainck_config (set_config c timeout r).1 ≡ c.mainck)
        × (get_pll_config (set_config c timeout r).1 ≡ c.pll)
        × (get_masterck_config (set_config c timeout r).1 ≡ c.masterck)

abbrev pub mega_hz : ℕ
mega_hz = 1_000_000

abbrev pub main_crystal_oscillator_frequency : ℕ
main_crystal_oscillator_frequency = 12 * mega_hz

-- The `switch` on the RC oscillator's frequency; a value that it does not list for the target leaves
-- the variable alone.
unfoldable pub rc_frequency : Target → RcOscFreq → ℕ → ℕ
rc_frequency t rc_4m mck = 4 * mega_hz
rc_frequency t rc_8m mck = 8 * mega_hz
rc_frequency samv71q21 rc_12m mck = 12 * mega_hz
rc_frequency samv71q21 rc_10m mck = mck
rc_frequency samrh71f20 rc_10m mck = 10 * mega_hz
rc_frequency samrh71f20 rc_12m mck = 12 * mega_hz
rc_frequency samrh707f18 rc_10m mck = 10 * mega_hz
rc_frequency samrh707f18 rc_12m mck = 12 * mega_hz

is_xosc : MainckSrc → Bool
is_xosc xosc = true
is_xosc rc_osc = false

unfoldable pub extract_main_oscilator_frequency : Target → MainckConfig → ℕ → ℕ
unfolding is_xosc
extract_main_oscilator_frequency t config mck =
    if is_xosc config.src
    then main_crystal_oscillator_frequency
    else rc_frequency t config.rc_osc_freq mck

-- `mck_frequency` is a `uint64_t`.
unfoldable pub apply_pll : PllConfig → ℕ → ℕ
apply_pll pll mck =
    if ltb 0 pll.plla_div && ltb 0 pll.plla_mul
    then u64 (mck / pll.plla_div * (pll.plla_mul + 1))
    else if pll.plla_div == 0 && ltb 0 pll.plla_mul
    then u64 (mck * (pll.plla_mul + 1))
    else if ltb 0 pll.plla_div && pll.plla_mul == 0
    then mck / pll.plla_div
    else mck

unfoldable pub apply_plla_config : MasterckSrc → PllConfig → ℕ → ℕ
unfolding apply_pll
apply_plla_config pllack pll mck = apply_pll pll mck
apply_plla_config other pll mck = mck

unfoldable pub apply_presc : Target → MasterckPresc → ℕ → ℕ
apply_presc t presc_1 mck = mck
apply_presc t presc_2 mck = mck / 2
apply_presc t presc_4 mck = mck / 4
apply_presc t presc_8 mck = mck / 8
apply_presc t presc_16 mck = mck / 16
apply_presc t presc_32 mck = mck / 32
apply_presc t presc_64 mck = mck / 64
apply_presc samv71q21 presc_3 mck = mck / 7
apply_presc samrh71f20 presc_3 mck = mck
apply_presc samrh707f18 presc_3 mck = mck

unfoldable pub apply_divider : MasterckDiv → ℕ → ℕ
apply_divider div_1 mck = mck
apply_divider div_2 mck = mck / 2
apply_divider unnamed mck = mck

-- The configuration that `SamV71Core_Init` sets.
abbrev pub idle_pck : PckConfig
idle_pck = record { is_enabled = false; src = pck_slck; presc = 0 }

abbrev pub default_config : PmcConfig
default_config = record {
  mainck = record { src = rc_osc; rc_osc_freq = rc_12m; xosc_startup_time = 0 };
  pll = record { plla_mul = 24; plla_div = 1; plla_startup_time = 60 };
  masterck = record { src = pllack; presc = presc_2; divider = div_2 };
  pck =
      idle_pck
      ∷ idle_pck
      ∷ idle_pck
      ∷ idle_pck
      ∷ idle_pck
      ∷ record { is_enabled = false; src = pck_pllack; presc = 14 }
      ∷ idle_pck
      ∷ idle_pck
      ∷ [];
}

module _ (pmc : Pmc) (t : Target) where
  unfoldable pub extract_mck_frequency : pmc.Registers → ℕ → ℕ
  extract_mck_frequency r mck =
      let master = pmc.get_masterck_config r in
      let osc = extract_main_oscilator_frequency t (pmc.get_mainck_config r) mck in
      let pll = apply_plla_config master.src (pmc.get_pll_config r) osc in
      apply_divider master.divider (apply_presc t master.presc pll)

  -- `SamV71Core_Init` behind the set-up of the memory protection unit: the registers and
  -- `mck_frequency`, or `none` where its assertion fails.
  unfoldable pub init : Bool → pmc.Registers → ℕ → Option (pmc.Registers × ℕ)
  unfolding extract_mck_frequency
  init no_init r mck =
      let (done, r') = pmc.set_config default_config 1_000_000 r in
      if no_init
      then some (r, extract_mck_frequency r mck)
      else if done
      then some (r', extract_mck_frequency r' mck)
      else none
