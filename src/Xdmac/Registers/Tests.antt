-- ===== src/Xdmac/Registers/Tests.antt =====
-- A flush of channel 3 on a controller that reports its end at once.
use taste_samv71_rtems_runti.Common.{◌≡◌, refl, some, arith}
use taste_samv71_rtems_runti.Xdmac.Registers.{global, gswf, chid, csa}
use taste_samv71_rtems_runti.Xdmac.Registers.Layout.{address, address_injective}
use taste_samv71_rtems_runti.Xdmac.Registers.Device.Memory.{memory}
use taste_samv71_rtems_runti.Xdmac.Registers.Global.{channel_bit}
use taste_samv71_rtems_runti.Xdmac.Registers.Channel.{software_flush_req}
use taste_samv71_rtems_runti.Xdmac.Registers.Channel.Flush.{
  polled, is_flushed, software_flush_req_lem,
}

address_injective_test : chid 2 csa ≡ chid 2 csa
address_injective_test = address_injective (chid 2 csa) (chid 2 csa) refl

abbrev flushed : memory.State
unfolding memory
flushed = λ a. 8

software_flush_req_lem_test :
    software_flush_req memory 5 3 flushed
    ≡ some (polled memory 3 1 (memory.write (global gswf) (channel_bit 3) flushed))
unfolding memory is_flushed polled address
software_flush_req_lem_test =
    software_flush_req_lem memory 3 0 5 flushed (omega arith) (omega arith)
      (λ k h. absurd (omega arith)) refl
