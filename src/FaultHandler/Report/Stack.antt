-- ===== src/FaultHandler/Report/Stack.antt =====
-- What `save_stack` copies.
use native.Mathlib.Decide.{ℕ_discrete}
use taste_samv71_rtems_runti.Common.{
  ℕ, zero, suc, ◌+◌, ◌-◌, ◌*◌, ◌^◌, ◌<◌, ◌≤◌, ◌≡◌, ◌≢◌, ◌⊎◌, inl, inr, ◌∙◌, refl, Bool-cases, ltb,
  List, arith, length, get_or, length-modify, get_or-modify_self, get_or-modify_ne, u32,
}
use taste_samv71_rtems_runti.FaultHandler.Report.{
  DeathReport, death_report_stack_trace_size, stored, copy_words, saved_length, save_stack,
}

-- The word that is copied to place i of the trace lies outside the trace and its length.
abbrev pub IsApart : ℕ → ℕ → ℕ → Type 0
IsApart start pointer i =
    (u32 (pointer + 4 * i) + 4 ≤ start + 116) ⊎ (start + 632 ≤ u32 (pointer + 4 * i))

IsApart-ne :
    (start pointer i m : ℕ)
    → IsApart start pointer i
    → m < 129
    → u32 (pointer + 4 * i) ≢ start + (116 + 4 * m)
IsApart-ne start pointer i m (inl below) h e = omega arith
IsApart-ne start pointer i m (inr above) h e = omega arith

stored-ne : (a v b : ℕ) (memory : ℕ → ℕ) → b ≢ a → stored a v memory b ≡ memory b
unfolding stored
stored-ne a v b memory ne = ground arith

module _ (start : ℕ) where
  length-copy_words :
      (memory : ℕ → ℕ) (pointer left i : ℕ) (trace : List ℕ)
      → length (copy_words start memory pointer left i trace) ≡ length trace
  unfolding copy_words
  length-copy_words memory pointer zero i trace = refl
  length-copy_words memory pointer (suc left) i trace =
      length-copy_words (stored (start + (120 + 4 * i)) (memory (u32 (pointer + 4 * i))) memory)
        pointer left (i + 1) _
      ∙ length-modify trace i _

  copy_words_outside :
      (memory : ℕ → ℕ) (pointer left i j : ℕ) (trace : List ℕ)
      → (j < i) ⊎ (i + left ≤ j)
      → get_or (copy_words start memory pointer left i trace) j 0 ≡ get_or trace j 0
  unfolding copy_words
  copy_words_outside memory pointer zero i j trace h = refl
  copy_words_outside memory pointer (suc left) i j trace h =
      copy_words_outside (stored (start + (120 + 4 * i)) (memory (u32 (pointer + 4 * i))) memory)
        pointer left (i + 1) j _ (ground arith)
      ∙ get_or-modify_ne trace i j _ 0 (ground arith)

  copy_words_inside :
      (memory : ℕ → ℕ) (pointer left i j : ℕ) (trace : List ℕ)
      → i ≤ j
      → j < i + left
      → j < length trace
      → j < 128
      → IsApart start pointer j
      → get_or (copy_words start memory pointer left i trace) j 0 ≡ memory (u32 (pointer + 4 * j))
  unfolding copy_words
  copy_words_inside memory pointer zero i j trace p q r b apart = absurd (omega arith)
  copy_words_inside memory pointer (suc left) i j trace p q r b apart = elim (ℕ_discrete i j) [
    | yes e ↦
        copy_words_outside (stored (start + (120 + 4 * i)) (memory (u32 (pointer + 4 * i))) memory)
          pointer left (i + 1) j _ (inl (omega arith))
        ∙ rw (← e) (get_or-modify_self trace i _ 0 (omega arith))
    | no ne ↦
        copy_words_inside (stored (start + (120 + 4 * i)) (memory (u32 (pointer + 4 * i))) memory)
          pointer left (i + 1) j _ (omega arith) (omega arith) (rw length-modify r) b apart
        ∙ stored-ne (start + (120 + 4 * i)) (memory (u32 (pointer + 4 * i))) (u32 (pointer + 4 * j))
            memory (λ e. IsApart-ne start pointer j (i + 1) apart (omega arith) (omega arith))
  ]

saved_length-le :
    (stack_end pointer : ℕ) → saved_length stack_end pointer ≤ death_report_stack_trace_size
unfolding saved_length
saved_length-le stack_end pointer = ground arith

module _ (start stack_end : ℕ) (memory : ℕ → ℕ) where
  pub save_stack_parts :
      (r : DeathReport)
      → length r.stack_trace ≡ death_report_stack_trace_size
      → let saved = save_stack start stack_end memory r in
        (saved.stack_trace_length ≤ death_report_stack_trace_size)
        × (length saved.stack_trace ≡ death_report_stack_trace_size)
        × ((i : ℕ)
            → i < saved.stack_trace_length
            → IsApart start r.stack_trace_pointer i
            → get_or saved.stack_trace i 0 ≡ memory (u32 (r.stack_trace_pointer + 4 * i)))
        × ((i : ℕ)
            → saved.stack_trace_length ≤ i
            → get_or saved.stack_trace i 0 ≡ get_or r.stack_trace i 0)
  unfolding save_stack
  save_stack_parts r h =
      let le = saved_length-le stack_end r.stack_trace_pointer in
      (
        le,
        length-copy_words start _ r.stack_trace_pointer
              (saved_length stack_end r.stack_trace_pointer) 0 r.stack_trace
            ∙ h,
        λ i p apart.
            copy_words_inside start _ r.stack_trace_pointer
              (saved_length stack_end r.stack_trace_pointer) 0 i r.stack_trace (omega arith)
              (omega arith) (omega arith) (omega arith) apart
            ∙ stored-ne (start + 116) (saved_length stack_end r.stack_trace_pointer)
                (u32 (r.stack_trace_pointer + 4 * i)) memory
                (λ e. IsApart-ne start r.stack_trace_pointer i 0 apart (omega arith) (omega arith)),
        λ i p.
            copy_words_outside start _ r.stack_trace_pointer
              (saved_length stack_end r.stack_trace_pointer) 0 i r.stack_trace (inr (omega arith)),
      )

  -- For a trace array of 128 words, at most 128 words are copied, whatever the stack pointer: word i
  -- of the trace is the word at the pointer plus 4 i if i is below the recorded length and that
  -- word does not lie in the trace or at its length, and keeps its value otherwise, and the array keeps
  -- its size.
  pub save_stack_lem :
      (r : DeathReport) (i : ℕ)
      → length r.stack_trace ≡ death_report_stack_trace_size
      → IsApart start r.stack_trace_pointer i
      → let saved = save_stack start stack_end memory r in
        (saved.stack_trace_length ≤ death_report_stack_trace_size)
        × (length saved.stack_trace ≡ death_report_stack_trace_size)
        × (((i < saved.stack_trace_length)
              × (get_or saved.stack_trace i 0 ≡ memory (u32 (r.stack_trace_pointer + 4 * i))))
            ⊎ ((saved.stack_trace_length ≤ i)
                × (get_or saved.stack_trace i 0 ≡ get_or r.stack_trace i 0)))
  save_stack_lem r i h apart =
      let (le, size, inside, outside) = save_stack_parts r h in
      let saved = save_stack start stack_end memory r in
      (
        le,
        size,
        elim (Bool-cases (ltb i saved.stack_trace_length)) [
          | inl p ↦ inl (ground arith, inside i (ground arith) apart)
          | inr p ↦ inr (ground arith, outside i (ground arith))
        ],
      )

  -- The recorded length is a number of bytes, and as many words are copied: when the value of the symbol
  -- is 2 to 127 above the stack pointer, the last word copied lies at or above the address it names.
  pub save_stack-past_end :
      (r : DeathReport)
      → stack_end < 2 ^ 31
      → r.stack_trace_pointer + 2 ≤ stack_end
      → stack_end < r.stack_trace_pointer + death_report_stack_trace_size
      → let saved = save_stack start stack_end memory r in
        (saved.stack_trace_length ≡ stack_end - r.stack_trace_pointer)
        × (stack_end ≤ r.stack_trace_pointer + 4 * (saved.stack_trace_length - 1))
  unfolding save_stack
  save_stack-past_end r small below near = ground arith
