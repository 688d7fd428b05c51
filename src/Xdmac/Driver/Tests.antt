-- ===== src/Xdmac/Driver/Tests.antt =====
-- A driver with two channels, the second of them started with a callback that counts its calls in the
-- argument of the first channel.
use taste_samv71_rtems_runti.Common.{
  ℕ, ◌+◌, ◌≡◌, inl, refl, Bool, true, false, [], ◌∷◌, some, none, if◌then◌else◌, ◌==◌, get_or,
  modify, arith,
}
use taste_samv71_rtems_runti.Xdmac.Registers.Layout.{address, global_index, channel_index}
use taste_samv71_rtems_runti.Xdmac.Registers.Device.Memory.{Words, memory}
use taste_samv71_rtems_runti.Xdmac.Channels.{allocated, start, done, blank, Xdmad, ok}
use taste_samv71_rtems_runti.Xdmac.Driver.{Board, Node}
use taste_samv71_rtems_runti.Xdmac.Driver.Handler.{
  continued, clean, handle_channel, handle_from, handler, is_transfer_done,
}
use taste_samv71_rtems_runti.Xdmac.Driver.Handler.Finish.{finished, called}
use taste_samv71_rtems_runti.Xdmac.Driver.Handler.Single.{noticed, handler-single}
use taste_samv71_rtems_runti.Xdmac.Driver.Handler.Callbacks.{
  handle_channel_block_end, handle_channel_null,
}
use taste_samv71_rtems_runti.Xdmac.Driver.Transfer.{Cfg}
use taste_samv71_rtems_runti.Xdmac.Driver.Transfer.Configured.{configured_node}
use taste_samv71_rtems_runti.Xdmac.Driver.Handler.Rounds.{handle_from-enough}
use taste_samv71_rtems_runti.Xdmac.Samples.{cfg}

-- Whether the clock of the controller runs
abbrev clock : Board
clock = record {
  World = Bool;
  is_peripheral_clk_enabled = λ w. w;
  enable_peripheral_clk = λ w. true;
  disable_dcache = λ w. w;
}

abbrev System : Type 0
System = Node memory clock

abbrev two : Xdmad
two = record {
  channels = blank ∷ record blank { state = start; callback = 7; arg = 5 } ∷ [];
  num_controllers = 1;
  num_channels = 2;
  polling_mode = 0;
}

-- Channel 1 has raised the interrupt, no channel runs, and every status is an end of linked list.
abbrev ended : Words
ended a = if a == 0x4007_8024 then 0 else 2

abbrev system : System
unfolding memory
system = record { xdmad = two; device = ended; world = true }

abbrev count : ℕ → ℕ → ℕ → System → System
count callback i arg n = record n {
  xdmad = record n.xdmad {
    channels = modify n.xdmad.channels 0 (λ c. record c { arg = c.arg + 1 });
  };
}

-- The same when channel 1 still runs and has ended a block
abbrev busy_system : System
unfolding memory
busy_system = record { xdmad = two; device = λ a. 3; world = true }

abbrev silent_system : System
unfolding memory
silent_system = record {
  xdmad = record two { channels = blank ∷ record blank { state = start } ∷ [] };
  device = λ a. 3;
  world = true;
}

abbrev at_end : System
unfolding memory
at_end = finished memory clock count 1 (noticed memory clock count 1 system)

handler-single_test :
    (handler memory clock count system
      ≡ some (called memory clock count 1 (noticed memory clock count 1 system)))
    × (get_or at_end.xdmad.channels 1 blank ≡ record (get_or two.channels 1 blank) { state = done })
    × (get_or at_end.xdmad.channels 0 blank ≡ get_or two.channels 0 blank)
    × (is_transfer_done memory clock count 1 at_end ≡ some (clean memory clock count at_end, ok))
unfolding memory address global_index channel_index
handler-single_test =
    handler-single memory clock count 1 system 0 (λ e. omega arith) (omega arith) (omega arith)
      (omega arith) refl refl refl (inl refl)

handle_channel_block_end_test :
    (handle_channel memory clock count 2 2 1 busy_system false
      ≡ some (continued (count 7 1 5 busy_system) false))
    × (handle_channel memory clock count 2 2 1 busy_system true
        ≡ some (continued (count 7 1 5 (count 7 1 5 busy_system)) true))
unfolding memory
handle_channel_block_end_test =
    handle_channel_block_end memory clock count 2 2 1 busy_system (omega arith) refl refl refl refl
      (λ e. omega arith)

handle_channel_null_test : handle_channel memory clock count 2 2 1 silent_system true ≡ none
unfolding memory
handle_channel_null_test =
    handle_channel_null memory clock count 2 2 1 silent_system (omega arith) refl refl refl refl
      true refl

handle_from-enough_test :
    handle_from memory clock count 2 0 0 (2 + 30) system false
    ≡ handle_from memory clock count 2 0 0 2 system false
unfolding memory
handle_from-enough_test =
    handle_from-enough memory clock count (λ callback i arg n. refl) 2 0 2 30 0 system false
      (omega arith)

abbrev long : Cfg
long = record cfg { mbr_ubc = 0x100_0010 }

abbrev allocated_system : System
unfolding memory
allocated_system = record {
  xdmad = record two { channels = blank ∷ record blank { state = allocated } ∷ [] };
  device = λ a. 0;
  world = true;
}

abbrev ready : System
unfolding memory
ready = configured_node memory clock 1 long 0 0 2 allocated_system
