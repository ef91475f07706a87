-- ===== src/Trap/Causes.antt =====
-- Which values of `scause` and of the claimed interrupt give which cause.
use toy_riscv_kernel.Prelude.{ℕ, ◌+◌, ◌^◌, ◌≡◌, Bool, true, false, ◌&&◌, arith, ◌==◌}
use toy_riscv_kernel.Trap.{
  Cause, syscall, timer, uart, load_page_fault, store_page_fault, is_external, switch_cause,
  supervisor_trap_cause,
}

abbrev pub test : Cause → Cause → Bool
test syscall syscall = true
test timer timer = true
test load_page_fault load_page_fault = true
test store_page_fault store_page_fault = true
test uart uart = true
test _ _ = false

-- The cause is a system call exactly for the exception 8, the timer exactly for the software
-- interrupt, a load or store page fault exactly for the exceptions 13 and 15, and the UART exactly
-- for an external interrupt that the interrupt controller ascribes to it.
pub supervisor_trap_cause_iff :
    (scause irq : ℕ)
    → let cause = (supervisor_trap_cause scause irq).0 in
      (test cause syscall ≡ (scause == 8))
      × (test cause timer ≡ (scause == 2 ^ 63 + 1))
      × (test cause load_page_fault ≡ (scause == 13))
      × (test cause store_page_fault ≡ (scause == 15))
      × (test cause uart ≡ (is_external scause && (irq == 10)))
unfolding supervisor_trap_cause switch_cause
supervisor_trap_cause_iff scause irq =
    (ground arith, ground arith, ground arith, ground arith, ground arith)
