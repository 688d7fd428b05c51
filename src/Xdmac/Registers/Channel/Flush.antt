-- ===== src/Xdmac/Registers/Channel/Flush.antt =====
-- The wait for the end of a flush.
use taste_samv71_rtems_runti.Common.{
  ℕ, zero, suc, ◌<◌, ◌≡◌, some, Bool, true, false, if◌then◌else◌, ◌==◌, bit_and, arith,
}
use taste_samv71_rtems_runti.Xdmac.Registers.{global, gswf, chid, cis}
use taste_samv71_rtems_runti.Xdmac.Registers.Device.{Device}
use taste_samv71_rtems_runti.Xdmac.Registers.Global.{channel_bit}
use taste_samv71_rtems_runti.Xdmac.Registers.Channel.{cis_fis, wait_for_flush, software_flush_req}

module _ (dev : Device) (channel : ℕ) where
  -- The controller after n reads of the channel's status
  unfoldable pub polled : ℕ → dev.State → dev.State
  polled zero s = s
  polled (suc n) s = polled n (dev.read (chid channel cis) s).1

  -- Whether the flush is reported by the next read of the status
  unfoldable pub is_flushed : dev.State → Bool
  is_flushed s = if bit_and (dev.read (chid channel cis) s).0 cis_fis == 0 then false else true

  wait_for_flush_lem :
      (n rounds : ℕ) (s : dev.State)
      → n < rounds
      → ((k : ℕ) → k < n → is_flushed (polled k s) ≡ false)
      → is_flushed (polled n s) ≡ true
      → wait_for_flush dev rounds channel s ≡ some (polled (suc n) s)
  unfolding wait_for_flush polled is_flushed
  wait_for_flush_lem n zero s h waits ends = absurd (omega arith)
  wait_for_flush_lem zero (suc rounds) s h waits ends = ground arith
  wait_for_flush_lem (suc n) (suc rounds) s h waits ends = ground (
    arith,
    waits 0 (omega arith),
    wait_for_flush_lem n rounds (dev.read (chid channel cis) s).1 (omega arith)
        (λ k p. waits (suc k) (omega arith)) ends,
  )

  -- When the controller reports the end of the flush at the n-th read of its status for the first time,
  -- the request ends, with any number of rounds above n, right after that read.
  pub software_flush_req_lem :
      (n rounds : ℕ) (s : dev.State)
      → channel < 24
      → n < rounds
      → let requested = dev.write (global gswf) (channel_bit channel) s in
        ((k : ℕ) → k < n → is_flushed (polled k requested) ≡ false)
        → is_flushed (polled n requested) ≡ true
        → software_flush_req dev rounds channel s ≡ some (polled (suc n) requested)
  unfolding software_flush_req
  software_flush_req_lem n rounds s inside h waits ends = ground (
    arith,
    inside,
    wait_for_flush_lem n rounds (dev.write (global gswf) (channel_bit channel) s) h waits ends,
  )
