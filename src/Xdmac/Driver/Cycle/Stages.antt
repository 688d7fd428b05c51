-- ===== src/Xdmac/Driver/Cycle/Stages.antt =====
-- The driver's instance at each stage of a transfer, and the channel on the way.
use taste_samv71_rtems_runti.Common.{
  ℕ, ◌<◌, ◌≡◌, ◌≢◌, ◌∙◌, ap, arith, length, length-modify, get_or, get_or-modify_self,
  get_or-modify_ne,
}
use taste_samv71_rtems_runti.Xdmac.Channels.{free, start, done, Channel, blank, Xdmad}
use taste_samv71_rtems_runti.Xdmac.Driver.{set_state}
use taste_samv71_rtems_runti.Xdmac.Driver.Cycle.Steps.{with_callback}

module _ (i callback arg : ℕ) (x : Xdmad) where
  abbrev pub attached : Xdmad
  attached = with_callback i callback arg x

  abbrev pub running : Xdmad
  running = set_state i start attached

  abbrev pub ended : Xdmad
  ended = set_state i done running

  abbrev pub released : Xdmad
  released = set_state i free ended

  length-attached : length attached.channels ≡ length x.channels
  length-attached = length-modify x.channels i _

  pub length-running : length running.channels ≡ length x.channels
  length-running = length-modify attached.channels i _ ∙ length-attached

  length-ended : length ended.channels ≡ length x.channels
  length-ended = length-modify running.channels i _ ∙ length-running

  module _ (room : i < length x.channels) {mine : Channel}
      (taken : get_or x.channels i blank ≡ mine) where
    pub get_or-attached :
        get_or attached.channels i blank ≡ record mine { callback = callback; arg = arg }
    get_or-attached =
        get_or-modify_self x.channels i _ blank room
        ∙ ap (λ (c : Channel). record c { callback = callback; arg = arg }) taken

    pub get_or-running :
        get_or running.channels i blank
        ≡ record mine { callback = callback; arg = arg; state = start }
    get_or-running =
        get_or-modify_self attached.channels i _ blank (omega (arith, length-attached))
        ∙ ap (λ (c : Channel). record c { state = start }) get_or-attached

    pub get_or-ended :
        get_or ended.channels i blank ≡ record mine { callback = callback; arg = arg; state = done }
    get_or-ended =
        get_or-modify_self running.channels i _ blank (omega (arith, length-running))
        ∙ ap (λ (c : Channel). record c { state = done }) get_or-running

    pub get_or-released :
        get_or released.channels i blank
        ≡ record mine { callback = callback; arg = arg; state = free }
    get_or-released =
        get_or-modify_self ended.channels i _ blank (omega (arith, length-ended))
        ∙ ap (λ (c : Channel). record c { state = free }) get_or-ended

  pub released-other :
      (j : ℕ) → i ≢ j → get_or released.channels j blank ≡ get_or x.channels j blank
  released-other j ne =
      get_or-modify_ne ended.channels i j _ blank ne
      ∙ get_or-modify_ne running.channels i j _ blank ne
      ∙ get_or-modify_ne attached.channels i j _ blank ne
      ∙ get_or-modify_ne x.channels i j _ blank ne
