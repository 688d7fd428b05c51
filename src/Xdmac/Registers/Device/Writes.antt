-- ===== src/Xdmac/Registers/Device/Writes.antt =====
-- What the parameter registers of a channel hold after a sequence of writes to its registers.
use native.Mathlib.Decide.{ℕ_discrete}
use taste_samv71_rtems_runti.Common.{
  ℕ, ◌^◌, ◌<◌, ◌≡◌, ◌≢◌, refl, ◌∙◌, ap, sym, true, List, [], ◌∷◌, if◌then◌else◌, ◌==◌, arith,
}
use taste_samv71_rtems_runti.Xdmac.Registers.{chid, ChannelRegister, cie, cid, cim}
use taste_samv71_rtems_runti.Xdmac.Registers.Layout.{channel_index, channel_index_injective}
use taste_samv71_rtems_runti.Xdmac.Registers.Device.{Device, is_parameter, cut}

-- Writes, the latest first
abbrev pub Writes : Type 0
Writes = List (ChannelRegister × ℕ)

abbrev pub AreWords : Writes → Type 0
AreWords [] = Unit {0}
AreWords ((r, v) ∷ ws) = (v < 2 ^ 32) × AreWords ws

abbrev pub AreParameters : Writes → Type 0
AreParameters [] = Unit {0}
AreParameters ((r, v) ∷ ws) = (is_parameter r ≡ true) × AreParameters ws

-- What stays of the last value written to a register, or the value before
unfoldable pub last_write : ChannelRegister → Writes → ℕ → ℕ
last_write q [] old = old
last_write q ((r, v) ∷ ws) old =
    if channel_index q == channel_index r then cut q v else last_write q ws old

module _ (dev : Device) (c : ℕ) where
  unfoldable pub write_all : Writes → dev.State → dev.State
  write_all [] s = s
  write_all ((r, v) ∷ ws) s = dev.write (chid c r) v (write_all ws s)

  pub write_all-value :
      (ws : Writes) (q : ChannelRegister) (s : dev.State)
      → is_parameter q ≡ true
      → AreWords ws
      → dev.value (chid c q) (write_all ws s) ≡ last_write q ws (dev.value (chid c q) s)
  unfolding write_all last_write
  write_all-value [] q s h words = refl
  write_all-value ((r, v) ∷ ws) q s h (word, words) =
      elim (ℕ_discrete (channel_index q) (channel_index r)) [
        | yes same ↦
            let e : q ≡ r = channel_index_injective q r same in
            ground (
              arith,
              same,
              ap (λ p. dev.value (chid c p) (dev.write (chid c r) v (write_all ws s))) e
                  ∙ dev.write-value c r v (write_all ws s) (ap is_parameter (sym e) ∙ h) word,
            )
        | no other ↦ ground (
          arith,
          other,
          write_all-value ws q s h words,
          dev.write_keeps (chid c r) c q v (write_all ws s) h
              (λ e. let same : q ≡ r = cc in other (ap channel_index same)) (λ e. cc),
        )
      ]

  -- Writes to parameters keep the interrupt masks.
  pub write_all-mask :
      (ws : Writes) (j : ℕ) (s : dev.State)
      → AreParameters ws
      → dev.value (chid j cim) (write_all ws s) ≡ dev.value (chid j cim) s
  unfolding write_all
  write_all-mask [] j s p = refl
  write_all-mask ((r, v) ∷ ws) j s (p, ps) =
      dev.write_keeps_mask (chid c r) j v (write_all ws s)
        (λ e. let same : r ≡ cie = cc in cc (ap is_parameter same))
        (λ e. let same : r ≡ cid = cc in cc (ap is_parameter same))
        (λ e. let same : r ≡ cim = cc in cc (ap is_parameter same))
      ∙ write_all-mask ws j s ps

  -- The registers of another channel are kept.
  pub write_all-other :
      (ws : Writes) (j : ℕ) (q : ChannelRegister) (s : dev.State)
      → is_parameter q ≡ true
      → c ≢ j
      → dev.value (chid j q) (write_all ws s) ≡ dev.value (chid j q) s
  unfolding write_all
  write_all-other [] j q s h ne = refl
  write_all-other ((r, v) ∷ ws) j q s h ne =
      dev.write_keeps (chid c r) j q v (write_all ws s) h (λ e. ne (cc)) (λ e. cc)
      ∙ write_all-other ws j q s h ne
