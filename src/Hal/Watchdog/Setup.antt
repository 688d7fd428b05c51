-- ===== src/Hal/Watchdog/Setup.antt =====
-- When the watchdog's set-up succeeds.
use taste_samv71_rtems_runti.Common.{
  ◌≡◌, refl, ◌∙◌, ap, sym, Bool, true, false, Option, none, some, if◌then◌else◌, ◌&&◌, arith,
}
use taste_samv71_rtems_runti.Hal.Watchdog.{WdtConfig, Wdt, wdt_config, same, init_setup_watchdog}

-- What the two assertions make of the configuration read back.
abbrev checked : {A : Type 0} → Bool → WdtConfig → A → Option A
checked use_watchdog c a =
    if same c.is_disabled (wdt_config use_watchdog).is_disabled
      && same c.is_reset_enabled (wdt_config use_watchdog).is_reset_enabled
    then some a
    else none

same_refl : (b : Bool) → same b b ≡ true
same_refl true = refl
same_refl false = refl

checked-agrees :
    {A : Type 0} (u : Bool) (c : WdtConfig) (a : A)
    → c.is_disabled ≡ (wdt_config u).is_disabled
    → c.is_reset_enabled ≡ (wdt_config u).is_reset_enabled
    → checked u c a ≡ some a
checked-agrees u c a d e = ground arith

checked-differs :
    {A : Type 0} (u : Bool) (c : WdtConfig) (a : A)
    → (c.is_disabled ≡ (wdt_config u).is_disabled
        → c.is_reset_enabled ≡ (wdt_config u).is_reset_enabled
        → ⊥)
    → checked u c a ≡ none
checked-differs u c a differ = ground arith

module _ (wdt : Wdt) (use_watchdog enabled : Bool) (r : wdt.Registers) where
  abbrev chosen : WdtConfig
  chosen = wdt_config use_watchdog

  checked-chosen :
      {A : Type 0} (c : WdtConfig) (a : A) → c ≡ chosen → checked use_watchdog c a ≡ some a
  checked-chosen c a e =
      checked-agrees use_watchdog c a (ap (λ c. c.is_disabled) e) (ap (λ c. c.is_reset_enabled) e)

  -- On a watchdog that is not locked the set-up succeeds and the registers hold the chosen
  -- configuration. On a locked one it succeeds when the configuration in force agrees with the
  -- chosen one on being disabled and on causing a reset, and fails otherwise.
  pub init_setup_watchdog_lem :
      let r₁ = wdt.init r in
      let r₂ = wdt.set_config chosen r₁ in
      (wdt.locked r₁ ≡ false
        → (init_setup_watchdog wdt false use_watchdog (r, enabled) ≡ some (r₂, enabled))
          × (wdt.get_config r₂ ≡ chosen))
      × (wdt.locked r₁ ≡ true
          → (wdt.get_config r₁).is_disabled ≡ chosen.is_disabled
          → (wdt.get_config r₁).is_reset_enabled ≡ chosen.is_reset_enabled
          → init_setup_watchdog wdt false use_watchdog (r, enabled) ≡ some (r₂, enabled))
      × (wdt.locked r₁ ≡ true
          → ((wdt.get_config r₁).is_disabled ≡ chosen.is_disabled
              → (wdt.get_config r₁).is_reset_enabled ≡ chosen.is_reset_enabled
              → ⊥)
          → init_setup_watchdog wdt false use_watchdog (r, enabled) ≡ none)
  unfolding init_setup_watchdog
  init_setup_watchdog_lem =
      let r₁ = wdt.init r in
      let r₂ = wdt.set_config chosen r₁ in
      (
        λ free. (
          checked-chosen (wdt.get_config r₂) (r₂, enabled) (wdt.read_back chosen r₁ free),
          wdt.read_back chosen r₁ free,
        ),
        λ locked d e.
            checked-agrees use_watchdog (wdt.get_config r₂) (r₂, enabled)
              (ap (λ c. c.is_disabled) (wdt.keeps_old chosen r₁ locked) ∙ d)
              (ap (λ c. c.is_reset_enabled) (wdt.keeps_old chosen r₁ locked) ∙ e),
        λ locked differ.
            checked-differs use_watchdog (wdt.get_config r₂) (r₂, enabled)
              (λ d e.
                differ (sym (ap (λ c. c.is_disabled) (wdt.keeps_old chosen r₁ locked)) ∙ d)
                  (sym (ap (λ c. c.is_reset_enabled) (wdt.keeps_old chosen r₁ locked)) ∙ e)),
      )
