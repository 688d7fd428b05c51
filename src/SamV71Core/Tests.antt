-- ===== src/SamV71Core/Tests.antt =====
-- The clock tree and the cache regions over concrete drivers.
use taste_samv71_rtems_runti.Common.{
  ℕ, ◌-◌, ◌*◌, ◌/◌, ◌≤◌, ◌<◌, ◌≡◌, ◌≢◌, ◌⊎◌, refl, true, false, some, none, List, [], ◌∷◌, arith,
  length, get_or,
}
use taste_samv71_rtems_runti.SamV71Core.Clock.{
  samv71q21, xosc, RcOscFreq, presc_3, div_1, PmcConfig, Pmc, default_config, rc_frequency,
  extract_main_oscilator_frequency, extract_mck_frequency, init,
}
use taste_samv71_rtems_runti.SamV71Core.Clock.Frequency.{
  source_frequency, presc_value, divider_value, extract_mck_frequency_presc_three,
}
use taste_samv71_rtems_runti.SamV71Core.Clock.Init.{init_lem}
use taste_samv71_rtems_runti.SamV71Core.Cache.{RegionConfig, Mpu, accepts, first_region}
use taste_samv71_rtems_runti.SamV71Core.Cache.Regions.{
  disable_all, regions_from, AllAccepted, disable_all_lem, names, names_distinct,
}

-- a controller whose registers are the configuration
abbrev plain_pmc : Pmc
plain_pmc = record {
  Registers = PmcConfig;
  set_config = λ c timeout r. (true, c);
  get_mainck_config = λ r. r.mainck;
  get_pll_config = λ r. r.pll;
  get_masterck_config = λ r. r.masterck;
  read_back = λ c timeout r e. (refl, refl, refl);
}

abbrev crystal : PmcConfig
crystal = record default_config {
  mainck = record { src = xosc; rc_osc_freq = RcOscFreq.rc_4m; xosc_startup_time = 0 };
}

abbrev prescaled : PmcConfig
prescaled = record default_config {
  masterck = record { src = default_config.masterck.src; presc = presc_3; divider = div_1 };
}

init_lem_test :
    ((plain_pmc.set_config default_config 1_000_000 crystal).0 ≡ true
      → init plain_pmc samv71q21 false crystal 0
        ≡ some ((plain_pmc.set_config default_config 1_000_000 crystal).1, 75_000_000))
    × ((plain_pmc.set_config default_config 1_000_000 crystal).0 ≡ false
        → init plain_pmc samv71q21 false crystal 0 ≡ none)
init_lem_test = init_lem plain_pmc samv71q21 crystal 0

extract_mck_frequency_presc_three_test :
    (extract_mck_frequency plain_pmc samv71q21 prescaled 0
      ≡ source_frequency prescaled.masterck.src prescaled.pll 12_000_000
        / (7 * divider_value div_1))
    × (extract_mck_frequency plain_pmc samv71q21 prescaled 0
        < source_frequency prescaled.masterck.src prescaled.pll 12_000_000
          / (presc_value presc_3 * divider_value div_1))
unfolding extract_main_oscilator_frequency rc_frequency source_frequency
extract_mck_frequency_presc_three_test =
    extract_mck_frequency_presc_three plain_pmc samv71q21 prescaled 0 (omega arith) (omega arith)
      refl refl (omega arith)

-- a unit that keeps what was written, latest first
abbrev plain_mpu : Mpu
plain_mpu = record {
  Registers = List (ℕ × RegionConfig);
  rbar_addr_mask = 0xffff_ffe0;
  set_region_config = λ region config r. (region, config) ∷ r;
}

abbrev calls : List (ℕ × ℕ)
calls = (0x2040_0000, 11) ∷ (0x2040_1000, 4) ∷ []

calls_accepted : AllAccepted plain_mpu calls
unfolding accepts
calls_accepted = (refl, (refl, tt))

disable_all_lem_example :
    ((length calls ≤ 4)
      × (disable_all plain_mpu calls ([], first_region)
          ≡ some (regions_from plain_mpu first_region calls [], first_region - length calls)))
    ⊎ ((4 < length calls) × (disable_all plain_mpu calls ([], first_region) ≡ none))
disable_all_lem_example = disable_all_lem plain_mpu calls [] calls_accepted

names_distinct_test : get_or (names 5 0x4300_0000) 1 0 ≢ get_or (names 5 0x4300_0000) 3 0
names_distinct_test =
    names_distinct 5 0x4300_0000 1 3 (omega arith) (omega arith) (omega arith) (omega arith)
