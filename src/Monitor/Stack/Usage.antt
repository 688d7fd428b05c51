-- ===== src/Monitor/Stack/Usage.antt =====
-- What the stack usage that is reported means.
use taste_samv71_rtems_runti.Common.{
  ℕ, zero, suc, ◌+◌, ◌-◌, ◌*◌, ◌/◌, ◌^◌, ◌<◌, ◌≡◌, ◌≢◌, ◌∙◌, refl, ap, true, false, List, [], ◌∷◌,
  ◌++◌, arith, get_or,
}
use taste_samv71_rtems_runti.Common.Integers.{pos, to_int32-small}
use taste_samv71_rtems_runti.Monitor.Stack.{
  stack_byte_pattern, Thread, MaximumStackUsageData, visit, Tasks, search_from,
  find_high_water_mark, calculate_used_stack, thread_stack_usage_visitor, get_maximum_stack_usage,
}

-- No thread of the list has the identifier.
abbrev pub Absent : ℕ → List Thread → Type 0
Absent id [] = Unit {0}
Absent id (t ∷ ts) = (t.id ≢ id) × Absent id ts

module _ (memory : ℕ → ℕ) where
  -- The first word from a pointer on that differs from the pattern is found, if it lies below the limit
  -- and there are rounds enough.
  search_from-first :
      (k rounds pointer limit : ℕ)
      → k < rounds
      → pointer + 4 * k < limit
      → ((j : ℕ) → j < k → memory (pointer + 4 * j) ≡ stack_byte_pattern)
      → memory (pointer + 4 * k) ≢ stack_byte_pattern
      → search_from memory rounds pointer limit ≡ pointer + 4 * k
  unfolding search_from
  search_from-first k zero pointer limit enough p filled used = absurd (omega arith)
  search_from-first zero (suc rounds) pointer limit enough p filled used = ground (arith, used)
  search_from-first (suc k) (suc rounds) pointer limit enough p filled used =
      let rest : search_from memory rounds (pointer + 4) limit ≡ pointer + 4 + 4 * k =
        search_from-first k rounds (pointer + 4) limit (omega arith) (omega arith)
          (λ j q. ap memory (omega arith) ∙ filled (suc j) (omega arith))
          (λ e. used (ap memory (omega arith) ∙ e)) in
      ground (arith, rest, filled 0 (omega arith))

  -- Without such a word nothing is found.
  search_from_none :
      (rounds pointer limit : ℕ)
      → ((j : ℕ) → pointer + 4 * j < limit → memory (pointer + 4 * j) ≡ stack_byte_pattern)
      → search_from memory rounds pointer limit ≡ 0
  unfolding search_from
  search_from_none zero pointer limit filled = refl
  search_from_none (suc rounds) pointer limit filled =
      let rest : search_from memory rounds (pointer + 4) limit ≡ 0 =
        search_from_none rounds (pointer + 4) limit
          (λ j q. ap memory (omega arith) ∙ filled (suc j) (omega arith)) in
      let here : pointer < limit → memory pointer ≡ stack_byte_pattern =
        λ q. ap memory (omega arith) ∙ filled 0 (omega arith) in
      ground (arith, rest, here)

  module _ (ids : List ℕ) where
    visitor_other :
        (t : Thread) (usage : MaximumStackUsageData)
        → t.id ≢ get_or ids usage.interface 0
        → thread_stack_usage_visitor memory ids t usage ≡ (usage, false)
    unfolding thread_stack_usage_visitor
    visitor_other t usage other = ground arith

    visit-Absent :
        (before rest : List Thread) (usage : MaximumStackUsageData)
        → Absent (get_or ids usage.interface 0) before
        → visit (thread_stack_usage_visitor memory ids) (before ++ rest) usage
          ≡ visit (thread_stack_usage_visitor memory ids) rest usage
    unfolding visit
    visit-Absent [] rest usage h = refl
    visit-Absent (t ∷ ts) rest usage (other, h) =
        rw (visitor_other t usage other) (visit-Absent ts rest usage h)

    module _ (tasks : Tasks) (interface : ℕ) (before after : List Thread) (t : Thread)
        (listed : tasks.threads ≡ before ++ (t ∷ after))
        (first : Absent (get_or ids interface 0) before) (same : t.id ≡ get_or ids interface 0)
        (area : 0 < t.area) (inside : t.area + t.size < 2 ^ 32) (small : t.size < 2 ^ 31) where
      abbrev start : MaximumStackUsageData
      start = record { interface = interface; maximum_stack_usage = 0; is_found = false }

      iterated :
          tasks.iterate (thread_stack_usage_visitor memory ids) start
          ≡ (thread_stack_usage_visitor memory ids t start).0
      unfolding visit thread_stack_usage_visitor
      iterated =
          tasks.iterate-visit (thread_stack_usage_visitor memory ids) start
          ∙ ap (λ ts. visit (thread_stack_usage_visitor memory ids) ts start) listed
          ∙ visit-Absent before (t ∷ after) start first
          ∙ ground arith

      -- The interface's thread is the first of its identifier and has a stack, whose k lowest words
      -- still hold the pattern and whose next word does not: the reported usage is the number of bytes
      -- from that word to the end of the stack.
      pub get_maximum_stack_usage_lem :
          (k : ℕ)
          → 4 * k < t.size
          → ((j : ℕ) → j < k → memory (t.area + 4 * j) ≡ stack_byte_pattern)
          → memory (t.area + 4 * k) ≢ stack_byte_pattern
          → get_maximum_stack_usage memory tasks true ids interface ≡ pos (t.size - 4 * k)
      unfolding get_maximum_stack_usage thread_stack_usage_visitor find_high_water_mark
          calculate_used_stack
      get_maximum_stack_usage_lem k p filled used =
          let mark : search_from memory (t.size / 4 + 2) t.area (t.area + t.size) ≡ t.area + 4 * k =
            search_from-first k (t.size / 4 + 2) t.area (t.area + t.size) (omega arith)
              (omega arith) filled used in
          rw (iterated) (
            ground (arith, mark, same, area, inside, to_int32-small (t.size - 4 * k) (omega arith)))

      -- If every word of the stack still holds the pattern the reported usage is 0.
      pub get_maximum_stack_usage_unused :
          ((j : ℕ)
            → t.area + 4 * j < t.area + t.size
            → memory (t.area + 4 * j) ≡ stack_byte_pattern)
          → get_maximum_stack_usage memory tasks true ids interface ≡ pos 0
      unfolding get_maximum_stack_usage thread_stack_usage_visitor find_high_water_mark
      get_maximum_stack_usage_unused filled = rw (iterated) (
          ground (
            arith,
            search_from_none (t.size / 4 + 2) t.area (t.area + t.size) filled,
            same,
            area,
            to_int32-small 0 (omega arith),
          ))
