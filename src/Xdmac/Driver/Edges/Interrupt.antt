-- ===== src/Xdmac/Driver/Edges/Interrupt.antt =====
-- The interrupt handler and the query for the end of a transfer as sequences of steps.
use taste_samv71_rtems_runti.Common.{ℕ, ◌≡◌, some}
use taste_samv71_rtems_runti.Xdmac.Table.{Peripheral}
use taste_samv71_rtems_runti.Xdmac.Registers.Device.{Device}
use taste_samv71_rtems_runti.Xdmac.Channels.{ReturnCode}
use taste_samv71_rtems_runti.Xdmac.Driver.{Board, Node}
use taste_samv71_rtems_runti.Xdmac.Driver.Handler.{handler, is_transfer_done}
use taste_samv71_rtems_runti.Xdmac.Driver.Handler.Kept
use taste_samv71_rtems_runti.Xdmac.Driver.Edges.Operations.{ending}
use taste_samv71_rtems_runti.Xdmac.Driver.Edges.Run.{Steps, rests, goes, join}

module _ (dev : Device) (board : Board) (invoke : ℕ → ℕ → ℕ → Node dev board → Node dev board)
    (periph_id : Peripheral → ℕ) (xdmac_type : ℕ)
    (calls : (callback i arg : ℕ) (n : Node dev board)
      → Steps dev board periph_id xdmac_type n.xdmad (invoke callback i arg n).xdmad) where
  -- When callbacks only change the driver by its operations, the handler and a query for the end of a
  -- transfer are sequences of operations and of transfers that end on channels in use.
  pub interrupt-Steps :
      (n n' n'' : Node dev board) (channel : ℕ) (code : ReturnCode)
      → handler dev board invoke n ≡ some n'
      → is_transfer_done dev board invoke channel n ≡ some (n'', code)
      → Steps dev board periph_id xdmac_type n.xdmad n'.xdmad
        × Steps dev board periph_id xdmac_type n.xdmad n''.xdmad
  interrupt-Steps n n' n'' channel code handled asked = (
    Kept.handler-Runs dev board invoke (Steps dev board periph_id xdmac_type) (λ x. rests x)
        (join dev board periph_id xdmac_type) (λ x i used. goes x _ _ (ending x i used) (rests _))
        calls n n' handled,
    Kept.is_transfer_done-Runs dev board invoke (Steps dev board periph_id xdmac_type)
        (λ x. rests x) (join dev board periph_id xdmac_type)
        (λ x i used. goes x _ _ (ending x i used) (rests _)) calls channel n n'' code asked,
  )
