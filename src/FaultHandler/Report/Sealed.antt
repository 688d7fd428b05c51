-- ===== src/FaultHandler/Report/Sealed.antt =====
-- The checksum of a generated report.
use taste_samv71_rtems_runti.Common.{
  ℕ, zero, suc, ◌-◌, ◌*◌, ◌<◌, ◌≡◌, ◌∙◌, ◌≢◌, refl, ap, sym, true, false, List, [], ◌∷◌, ◌++◌,
  arith, length, take,
}
use taste_samv71_rtems_runti.FaultHandler.Crc.{calculate_crc, AreBytes}
use taste_samv71_rtems_runti.FaultHandler.Crc.Detect.{calculate_crc-ne}
use taste_samv71_rtems_runti.FaultHandler.Report.{
  DeathReport, words_bytes, body_bytes, report_bytes, death_report_size,
  death_report_stack_trace_size, calculate_report_crc, save_stack, generate_death_report,
}
use taste_samv71_rtems_runti.FaultHandler.Report.Stack.{save_stack_parts}

length-words_bytes : (ws : List ℕ) → length (words_bytes ws) ≡ 4 * length ws
length-words_bytes [] = refl
length-words_bytes (w ∷ ws) = omega (arith, length-words_bytes ws)

length-body_bytes :
    (r : DeathReport)
    → length r.stack_trace ≡ death_report_stack_trace_size
    → length (body_bytes r) ≡ death_report_size - 2
unfolding body_bytes
length-body_bytes r h = omega (arith, length-words_bytes r.stack_trace)

take-length : (xs : List ℕ) (n : ℕ) → length xs ≡ n → take n xs ≡ xs
take-length [] zero h = refl
take-length [] (suc n) h = refl
take-length (x ∷ xs) zero h = absurd (omega arith)
take-length (x ∷ xs) (suc n) h = ap (◌∷◌ x) (take-length xs n (omega arith))

-- The checksum covers all that stands behind it, and nothing else.
calculate_report_crc-body :
    (r : DeathReport)
    → length r.stack_trace ≡ death_report_stack_trace_size
    → calculate_report_crc (report_bytes r) death_report_size ≡ calculate_crc (body_bytes r)
unfolding calculate_report_crc report_bytes
calculate_report_crc-body r h =
    ap calculate_crc (take-length (body_bytes r) _ (length-body_bytes r h))

module _ (start stack_end : ℕ) (memory : ℕ → ℕ) (r : DeathReport)
    (room : length r.stack_trace ≡ death_report_stack_trace_size) where
  abbrev generated : DeathReport
  generated = (generate_death_report start stack_end memory r).0

  length-generated : length generated.stack_trace ≡ death_report_stack_trace_size
  unfolding generate_death_report
  length-generated = (save_stack_parts start stack_end memory r room).1

  checksum-generated : generated.checksum ≡ calculate_crc (body_bytes generated)
  unfolding generate_death_report body_bytes
  checksum-generated = calculate_report_crc-body _ length-generated

  sealed_size : length (report_bytes generated) ≡ death_report_size
  unfolding report_bytes
  sealed_size = omega (arith, length-body_bytes generated length-generated)

  sealed_sum : generated.checksum ≡ calculate_report_crc (report_bytes generated) death_report_size
  sealed_sum = checksum-generated ∙ sym (calculate_report_crc-body generated length-generated)

  -- A generated report is marked unseen, has no padding, keeps the registers, the control block,
  -- the exception and the stack pointer that the handler saved, takes up `sizeof` bytes, and its
  -- checksum is the one that a reader computes from its bytes.
  pub generate_death_report_lem :
      let (g, done) = generate_death_report start stack_end memory r in
      (done ≡ true)
      × (g.was_seen ≡ false)
      × (g.padding ≡ 0)
      × (g.registers ≡ r.registers)
      × (g.system_control_block ≡ r.system_control_block)
      × (g.exception_id ≡ r.exception_id)
      × (g.stack_trace_pointer ≡ r.stack_trace_pointer)
      × (length (report_bytes g) ≡ death_report_size)
      × (g.checksum ≡ calculate_report_crc (report_bytes g) death_report_size)
  unfolding generate_death_report save_stack
  generate_death_report_lem = (refl, refl, refl, refl, refl, refl, refl, sealed_size, sealed_sum)

  -- Whatever single byte behind the checksum is changed, the checksum of the changed bytes is not
  -- the one stored in the report.
  pub generate_death_report_detects :
      (before : List ℕ) (b c : ℕ) (after : List ℕ)
      → body_bytes generated ≡ before ++ (b ∷ after)
      → b < 256
      → c < 256
      → AreBytes after
      → b ≢ c
      → calculate_crc (before ++ (c ∷ after)) ≢ generated.checksum
  generate_death_report_detects before b c after e hb hc ha ne same =
      calculate_crc-ne before b c after hb hc ha ne
        (ap calculate_crc (sym e) ∙ sym checksum-generated ∙ sym same)
