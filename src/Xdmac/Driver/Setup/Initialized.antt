-- ===== src/Xdmac/Driver/Setup/Initialized.antt =====
-- The driver's instance after its initialization, and the allocations that follow.
use native.Mathlib.Decide.{ℕ_discrete}
use taste_samv71_rtems_runti.Common.{
  ℕ, zero, suc, ◌+◌, ◌≤◌, ◌<◌, ◌≡◌, refl, sym, ◌∙◌, ap, true, false, some, List, arith, length,
  length-modify, get_or, get_or-modify_self, get_or-modify_ne, bit_and, u8,
}
use taste_samv71_rtems_runti.Rtems.{Rtems, is_successful}
use taste_samv71_rtems_runti.Xdmac.Registers.Device.{Device}
use taste_samv71_rtems_runti.Xdmac.Registers.Global.{get_type}
use taste_samv71_rtems_runti.Xdmac.Table.{Peripheral}
use taste_samv71_rtems_runti.Xdmac.Channels.{is_free, Channel, blank, Xdmad}
use taste_samv71_rtems_runti.Xdmac.Channels.Sequence.{
  Requests, allocate_all, count_all, IsFilled, allocate_all-eq-count_all,
}
use taste_samv71_rtems_runti.Xdmac.Driver.Setup.{reset_channels, initialize}

length-reset_channels :
    (left j : ℕ) (channels : List Channel)
    → length (reset_channels j left channels) ≡ length channels
unfolding reset_channels
length-reset_channels zero j channels = refl
length-reset_channels (suc left) j channels =
    length-reset_channels left (j + 1) _ ∙ length-modify channels j _

reset_channels-below :
    (left j i : ℕ) (channels : List Channel)
    → i < j
    → get_or (reset_channels j left channels) i blank ≡ get_or channels i blank
unfolding reset_channels
reset_channels-below zero j i channels h = refl
reset_channels-below (suc left) j i channels h =
    reset_channels-below left (j + 1) i _ (omega arith)
    ∙ get_or-modify_ne channels j i _ blank (λ e. omega arith)

get_or-reset_channels :
    (left j i : ℕ) (channels : List Channel)
    → j ≤ i
    → i < j + left
    → j + left ≤ length channels
    → get_or (reset_channels j left channels) i blank ≡ blank
unfolding reset_channels
get_or-reset_channels zero j i channels low high room = absurd (omega arith)
get_or-reset_channels (suc left) j i channels low high room =
    let sized = length-modify channels j (λ c. blank) in
    elim (ℕ_discrete j i) [
      | yes e ↦ rw (sym e) (
          reset_channels-below left (j + 1) j _ (omega arith)
          ∙ get_or-modify_self channels j _ blank (omega arith))
      | no ne ↦ get_or-reset_channels left (j + 1) i _ (omega arith) (omega arith) (omega arith)
    ]

module _ (dev : Device) (os : Rtems) (xdmad_lock polling : ℕ) (x : Xdmad) (s : dev.State)
    (w : os.World) where
  -- `XDMAC_GTYPE_NB_CH` and one
  abbrev pub channel_count : ℕ
  channel_count = u8 (bit_and 0x1f (get_type dev s).0 + 1)

  abbrev pub after_lock : os.World
  after_lock = (os.semaphore_release xdmad_lock (os.semaphore_obtain xdmad_lock w).1).1

  abbrev pub initialized : Xdmad
  initialized = record {
    channels = reset_channels 0 channel_count x.channels;
    num_controllers = 1;
    num_channels = channel_count;
    polling_mode = polling;
  }

  initialized-IsFilled : channel_count ≤ length x.channels → IsFilled 0 initialized
  initialized-IsFilled room = record {
    within = omega arith;
    room = omega (arith, length-reset_channels channel_count 0 x.channels);
    small = omega arith;
    taken = λ j h. absurd (omega arith);
    left = λ j h below.
        ap (λ (c : Channel). is_free c.state)
          (get_or-reset_channels channel_count 0 j x.channels h (omega arith) (omega arith));
  }

  -- When the lock is obtained and the array holds the channels that the controller has, the first call
  -- of the initialization releases the lock and leaves each of these channels blank. From then on a
  -- sequence of allocations is answered by a counter from 0. A second call, when it obtains the lock,
  -- keeps the instance and the controller whatever they have become.
  pub initialize_lem :
      (j again : ℕ) (periph_id : Peripheral → ℕ) (xdmac_type : ℕ) (rs : Requests) (x' : Xdmad)
      (s' : dev.State) (w' : os.World)
      → is_successful (os.semaphore_obtain xdmad_lock w).0 ≡ true
      → is_successful (os.semaphore_obtain xdmad_lock w').0 ≡ true
      → channel_count ≤ length x.channels
      → j < channel_count
      → (initialize dev os xdmad_lock polling (x, false, s, w)
          ≡ some (initialized, true, (get_type dev s).1, after_lock))
        × (get_or initialized.channels j blank ≡ blank)
        × (allocate_all periph_id xdmac_type rs initialized
            ≡ count_all periph_id xdmac_type channel_count 0 rs)
        × (initialize dev os xdmad_lock again (x', true, s', w')
            ≡ some (
              x',
              true,
              s',
              (os.semaphore_release xdmad_lock (os.semaphore_obtain xdmad_lock w').1).1,
            ))
  unfolding initialize
  initialize_lem j again periph_id xdmac_type rs x' s' w' obtained obtained' room below = (
    rw obtained refl,
    get_or-reset_channels channel_count 0 j x.channels (omega arith) (omega arith) (omega arith),
    allocate_all-eq-count_all periph_id xdmac_type rs 0 initialized (initialized-IsFilled room),
    rw obtained' refl,
  )
