-- ===== src/Trap/Faults.antt =====
-- The case of a load page fault in `user_trap` has no `break`.
use toy_riscv_kernel.Prelude.{
  ℕ, ◌+◌, ◌^◌, ◌<◌, ◌≡◌, refl, inl, inr, true, false, some, arith, Option-cases,
}
use toy_riscv_kernel.Machine.{Machine}
use toy_riscv_kernel.VirtualMemory.{page_round_down}
use toy_riscv_kernel.Process.Stack.{
  MemorySection, within_stack_range, try_enlarge_stack, try_enlarge_stack-covers,
}
use toy_riscv_kernel.Trap.{load_page_fault, store_page_fault, handle_page_fault, user_trap}

module _ (pool pagetable stack_permission : ℕ) where
  -- Growing the stack again for the same address changes nothing.
  try_enlarge_stack-again :
      (addr : ℕ) (s t : Machine) (old new : MemorySection)
      → page_round_down old.start ≡ old.start
      → old.start + old.size < 2 ^ 64
      → try_enlarge_stack pool pagetable stack_permission addr s old ≡ some ((t, new), true)
      → try_enlarge_stack pool pagetable stack_permission addr t new ≡ some ((t, new), true)
  unfolding try_enlarge_stack within_stack_range page_round_down
  try_enlarge_stack-again addr s t old new aligned low run =
      let covers =
        try_enlarge_stack-covers pool pagetable stack_permission addr s t old new true aligned low
          run in
      let (above, below, start) = covers.1 refl in ground (arith, above, below, start)

  -- Falling through to the case of a store is harmless: a load page fault is handled exactly as a
  -- store page fault at that address, for a stack that starts at a page and ends below 2 ^ 64.
  pub load-falls_through :
      (stval : ℕ) (s : Machine) (stack : MemorySection)
      → page_round_down stack.start ≡ stack.start
      → stack.start + stack.size < 2 ^ 64
      → user_trap pool pagetable stack_permission load_page_fault stval s stack
        ≡ user_trap pool pagetable stack_permission store_page_fault stval s stack
  unfolding user_trap handle_page_fault
  load-falls_through stval s stack aligned low =
      elim (Option-cases (try_enlarge_stack pool pagetable stack_permission stval s stack)) [
        | inl out ↦ rw (handle_page_fault, out) refl
        | inr (((t, new), true), run) ↦
            let again = try_enlarge_stack-again stval s t stack new aligned low run in
            rw (handle_page_fault, run, again) refl
        | inr (((t, new), false), run) ↦ rw (handle_page_fault, run) refl
      ]
