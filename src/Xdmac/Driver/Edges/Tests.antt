-- ===== src/Xdmac/Driver/Edges/Tests.antt =====
-- A transfer that is stopped and released, on the driver of two channels.
use taste_samv71_rtems_runti.Common.{ℕ, ◌≡◌, ◌≢◌, ◌⊎◌, refl, some, [], ◌∷◌, if◌then◌else◌, ◌==◌}
use taste_samv71_rtems_runti.Xdmac.Registers.Device.Memory.{memory}
use taste_samv71_rtems_runti.Xdmac.Channels.{
  start, in_xfr, done, halted, blank, Xdmad, ok, busy, free_channel,
}
use taste_samv71_rtems_runti.Xdmac.Driver.{Node, state_of}
use taste_samv71_rtems_runti.Xdmac.Driver.Transfer.{stop_transfer}
use taste_samv71_rtems_runti.Xdmac.Registers.{global, gd, chid, cid}
use taste_samv71_rtems_runti.Xdmac.Registers.Global.{
  get_gisr, get_global_ch_status, disable_channel,
}
use taste_samv71_rtems_runti.Xdmac.Registers.Channel.{
  get_mask_channel_isr, get_channel_it_mask, get_channel_isr, disable_channel_it,
}
use taste_samv71_rtems_runti.Xdmac.Registers.Layout.{address, global_index, channel_index}
use taste_samv71_rtems_runti.Xdmac.Driver.Handler.{
  handler, handle_from, handle_channel, finish, is_last_block, execute, is_transfer_done,
}
use taste_samv71_rtems_runti.Xdmac.Driver.Edges.{Moves}
use taste_samv71_rtems_runti.Xdmac.Driver.Edges.Operations.{Step, stopping, freeing, Step-Moves}
use taste_samv71_rtems_runti.Xdmac.Driver.Edges.Run.{
  Steps, rests, goes, Steps-never_in_xfr, Steps-freed,
}
use taste_samv71_rtems_runti.Xdmac.Driver.Edges.Interrupt.{interrupt-Steps}
use taste_samv71_rtems_runti.Xdmac.Samples.{ids, board}

abbrev running : Xdmad
running = record {
  channels = blank ∷ record blank { state = start } ∷ [];
  num_controllers = 1;
  num_channels = 2;
  polling_mode = 0;
}

abbrev system : Node memory board
unfolding memory
system = record { xdmad = running; device = λ a. 0; world = 0 }

abbrev stopped : Xdmad
stopped = record running { channels = blank ∷ record blank { state = halted } ∷ [] }

abbrev released : Xdmad
released = record running { channels = blank ∷ blank ∷ [] }

abbrev stopped_system : Node memory board
unfolding memory
stopped_system = record {
  xdmad = stopped;
  device = memory.write (chid 1 cid) 0xff (memory.write (global gd) 2 (λ a. 0));
  world = 0;
}

stop : Step memory board ids 0 running stopped
unfolding memory stop_transfer disable_channel disable_channel_it get_channel_isr
    get_global_ch_status
stop = stopping system stopped_system ok 1 refl

Step-Moves_example : Moves running stopped
Step-Moves_example = Step-Moves memory board ids 0 running stopped stop

run : Steps memory board ids 0 running released
unfolding free_channel
run =
    goes running stopped released stop
      (goes stopped released released (freeing stopped 1) (rests released))

Steps-never_in_xfr_test : state_of released 1 ≢ in_xfr
Steps-never_in_xfr_test = Steps-never_in_xfr memory board ids 0 running released 1 run (λ e. cc)

Steps-freed_example :
    (y : Xdmad) × Steps memory board ids 0 running y
    × Steps memory board ids 0 y released
    × ((state_of y 1 ≡ done) ⊎ (state_of y 1 ≡ halted))
Steps-freed_example = Steps-freed memory board ids 0 running released 1 run refl refl

-- Channel 1 has raised the interrupt and reports the end of its linked list; it has no callback.
abbrev before : Node memory board
unfolding memory
before = record { xdmad = running; device = λ a. if a == 0x4007_8024 then 0 else 2; world = 0 }

abbrev after : Node memory board
unfolding memory
after = record before {
  xdmad = record running { channels = blank ∷ record blank { state = done } ∷ [] };
}

idle : ℕ → ℕ → ℕ → Node memory board → Node memory board
idle callback i arg n = n

handled : handler memory board idle before ≡ some after
unfolding memory handler handle_from handle_channel finish is_last_block execute get_gisr
    get_global_ch_status get_mask_channel_isr get_channel_it_mask address global_index channel_index
handled = refl

asked : is_transfer_done memory board idle 1 before ≡ some (before, busy)
unfolding memory is_transfer_done
asked = refl

interrupt-Steps_example :
    Steps memory board ids 0 before.xdmad after.xdmad
    × Steps memory board ids 0 before.xdmad before.xdmad
unfolding idle
interrupt-Steps_example =
    interrupt-Steps memory board idle ids 0 (λ callback i arg n. rests n.xdmad) before after before
      1 busy handled asked
