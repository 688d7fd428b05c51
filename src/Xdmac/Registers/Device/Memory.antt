-- ===== src/Xdmac/Registers/Device/Memory.antt =====
-- A controller whose channels never run: words, cut to the fields that can be written, with interrupt masks that can be set and
-- cleared. It meets the interface, and the driver can be run on it.
use native.Mathlib.Decide.{ℕ_discrete}
use taste_samv71_rtems_runti.Common.{ℕ, ◌≡◌, ◌≢◌, refl, true, bit_or, if◌then◌else◌, ◌==◌, arith}
use taste_samv71_rtems_runti.Xdmac.Registers.{
  Register, global, chid, ChannelRegister, cie, cid, cim, cis, csa, cda, cnda, cndc, cubc, cbc, cc,
  cds_msp, csus, cdus,
}
use taste_samv71_rtems_runti.Xdmac.Registers.Layout.{address, address_injective}
use taste_samv71_rtems_runti.Xdmac.Registers.Device.{is_parameter, cut, Device}

-- the words by address
abbrev pub Words : Type 0
Words = ℕ → ℕ

abbrev store : Register → ℕ → Words → Words
store r v s a = if a == address r then v else s a

unfoldable pub put : Register → ℕ → Words → Words
put (chid c cie) v s = store (chid c cim) (bit_or (s (address (chid c cim))) v) s
put (chid c cid) v s = store (chid c cim) (if v == 0xff then 0 else s (address (chid c cim))) s
put (chid c cim) v s = store (chid c cim) v s
put (chid c cis) v s = store (chid c cis) v s
put (chid c csa) v s = store (chid c csa) (cut csa v) s
put (chid c cda) v s = store (chid c cda) (cut cda v) s
put (chid c cnda) v s = store (chid c cnda) (cut cnda v) s
put (chid c cndc) v s = store (chid c cndc) (cut cndc v) s
put (chid c cubc) v s = store (chid c cubc) (cut cubc v) s
put (chid c cbc) v s = store (chid c cbc) (cut cbc v) s
put (chid c cc) v s = store (chid c cc) (cut cc v) s
put (chid c cds_msp) v s = store (chid c cds_msp) (cut cds_msp v) s
put (chid c csus) v s = store (chid c csus) (cut csus v) s
put (chid c cdus) v s = store (chid c cdus) (cut cdus v) s
put (global r) v s = store (global r) v s

store_self : (r : Register) (v : ℕ) (s : Words) → store r v s (address r) ≡ v
store_self r v s = ground arith

store_ne : (r q : Register) (v : ℕ) (s : Words) → r ≢ q → store r v s (address q) ≡ s (address q)
store_ne r q v s h = elim (ℕ_discrete (address q) (address r)) [
  | yes same ↦ absurd (h (address_injective r q (omega arith)))
  | no other ↦ ground (arith, other)
]

-- The register that a write changes
abbrev target : Register → Register
target (chid c cie) = chid c cim
target (chid c cid) = chid c cim
target r = r

put_ne : (r q : Register) (v : ℕ) (s : Words) → target r ≢ q → put r v s (address q) ≡ s (address q)
unfolding put
put_ne (global r) q v s h = store_ne (global r) q v s h
put_ne (chid c cie) q v s h = store_ne (chid c cim) q _ s h
put_ne (chid c cid) q v s h = store_ne (chid c cim) q _ s h
put_ne (chid c cim) q v s h = store_ne (chid c cim) q v s h
put_ne (chid c cis) q v s h = store_ne (chid c cis) q v s h
put_ne (chid c csa) q v s h = store_ne (chid c csa) q _ s h
put_ne (chid c cda) q v s h = store_ne (chid c cda) q _ s h
put_ne (chid c cnda) q v s h = store_ne (chid c cnda) q _ s h
put_ne (chid c cndc) q v s h = store_ne (chid c cndc) q _ s h
put_ne (chid c cubc) q v s h = store_ne (chid c cubc) q _ s h
put_ne (chid c cbc) q v s h = store_ne (chid c cbc) q _ s h
put_ne (chid c cc) q v s h = store_ne (chid c cc) q _ s h
put_ne (chid c cds_msp) q v s h = store_ne (chid c cds_msp) q _ s h
put_ne (chid c csus) q v s h = store_ne (chid c csus) q _ s h
put_ne (chid c cdus) q v s h = store_ne (chid c cdus) q _ s h

put-parameter :
    (c : ℕ) (q : ChannelRegister) (v : ℕ) (s : Words)
    → is_parameter q ≡ true
    → put (chid c q) v s (address (chid c q)) ≡ cut q v
unfolding put
put-parameter c q v s h = ground (arith, store_self (chid c q) (cut q v) s)

target-parameter :
    (r : Register) (c : ℕ) (q : ChannelRegister)
    → is_parameter q ≡ true
    → r ≢ chid c q
    → target r ≢ chid c q
target-parameter r c q h ne e = ground arith

target-mask :
    (r : Register) (c : ℕ)
    → r ≢ chid c cie
    → r ≢ chid c cid
    → r ≢ chid c cim
    → target r ≢ chid c cim
target-mask r c ne₁ ne₂ ne₃ e = ground arith

unfoldable pub memory : Device
unfolding put put-parameter put_ne store_ne target-parameter store_self target-mask
memory = record {
  State = Words;
  read = λ r s. (s (address r), s);
  write = put;
  value = λ r s. s (address r);
  read-value = λ g s. refl;
  read_mask = λ c s. refl;
  read_keeps = λ r c q s h. refl;
  write-value = λ c q v s h small. put-parameter c q v s h;
  write_keeps = λ r c q v s h ne started. put_ne r (chid c q) v s (target-parameter r c q h ne);
  read_keeps_mask = λ r c s. refl;
  mask_set = λ c v s. store_self (chid c cim) _ s;
  mask_clear = λ c s. store_self (chid c cim) _ s;
  write_keeps_mask = λ r c v s ne₁ ne₂ ne₃. put_ne r (chid c cim) v s (target-mask r c ne₁ ne₂ ne₃);
}
