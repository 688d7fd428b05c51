-- ===== src/SamV71Core/Clock/Init.antt =====
-- What `SamV71Core_Init` leaves in `mck_frequency`.
use taste_samv71_rtems_runti.Common.{ℕ, ◌≡◌, refl, true, false, some, none}
use taste_samv71_rtems_runti.SamV71Core.Clock.{
  Target, samv71q21, samrh71f20, samrh707f18, Pmc, MainckConfig, PllConfig, MasterckConfig,
  default_config, rc_frequency, apply_plla_config, apply_presc, apply_divider,
  extract_main_oscilator_frequency, extract_mck_frequency, init,
}

-- The frequency depends on the three configurations alone.
derive : Target → MainckConfig → PllConfig → MasterckConfig → ℕ → ℕ
derive t main pll master mck = apply_divider master.divider (
    apply_presc t master.presc
      (apply_plla_config master.src pll (extract_main_oscilator_frequency t main mck)))

derive_default :
    (t : Target) (mck : ℕ)
    → derive t default_config.mainck default_config.pll default_config.masterck mck ≡ 75_000_000
unfolding derive apply_divider apply_presc apply_plla_config extract_main_oscilator_frequency
    rc_frequency
derive_default samv71q21 mck = refl
derive_default samrh71f20 mck = refl
derive_default samrh707f18 mck = refl

-- Unless the runtime is built with RT_RTOS_NO_INIT, initialisation succeeds exactly when the driver
-- accepts the configuration, and then the main clock frequency is 75 MHz on every target.
pub init_lem :
    (pmc : Pmc) (t : Target) (r : pmc.Registers) (mck : ℕ)
    → ((pmc.set_config default_config 1_000_000 r).0 ≡ true
        → init pmc t false r mck ≡ some ((pmc.set_config default_config 1_000_000 r).1, 75_000_000))
      × ((pmc.set_config default_config 1_000_000 r).0 ≡ false → init pmc t false r mck ≡ none)
unfolding init
init_lem pmc t r mck = (
  λ ok.
      let back = pmc.read_back default_config 1_000_000 r ok in
      let value : extract_mck_frequency pmc t (pmc.set_config default_config 1_000_000 r).1 mck
          ≡ 75_000_000 =
        (unfold derive in rw (back.0, back.1, back.2) (derive_default t mck)) in
      rw (ok, value),
  λ failed. rw failed,
)
