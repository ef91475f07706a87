-- ===== src/Trap.antt =====
-- kernel/trap.c: the cause of a trap, and what a user trap does about it. `irq` is what
-- `plic_claim` gives; what happens besides is listed in order.
pub mod Causes
pub mod Faults
pub mod Frame
pub mod Return
use toy_riscv_kernel.Prelude.{
  ℕ, ◌+◌, ◌/◌, ◌%◌, ◌^◌, Bool, true, false, not, ◌&&◌, Option, none, some, List, [], ◌∷◌, ◌==◌,
  if◌then◌else◌,
}
use toy_riscv_kernel.Machine.{Machine}
use toy_riscv_kernel.Process.Stack.{MemorySection, try_enlarge_stack}

pub data Cause : Type 0 where
  unknown : Cause
  syscall : Cause
  timer : Cause
  uart : Cause
  virtio : Cause
  illegal_instruction : Cause
  instruction_page_fault : Cause
  load_page_fault : Cause
  store_page_fault : Cause

pub data Effect : Type 0 where
  uart_interrupt : Effect
  complete : ℕ → Effect
  report : ℕ → Effect
  clear_software_interrupt : Effect

-- `scause & 0x8000000000000000L` and `scause & 0xff` for an external interrupt
abbrev pub is_external : ℕ → Bool
is_external scause = (scause / 2 ^ 63 % 2 == 1) && (scause % 256 == 9)

-- The `switch` of `supervisor_trap_cause`
unfoldable pub switch_cause : ℕ → Cause × List Effect
switch_cause scause =
    if scause == 2 ^ 63 + 1
    then (timer, clear_software_interrupt ∷ [])
    else if scause == 8
    then (syscall, [])
    else if scause == 2
    then (illegal_instruction, [])
    else if scause == 12
    then (instruction_page_fault, [])
    else if scause == 13
    then (load_page_fault, [])
    else if scause == 15
    then (store_page_fault, [])
    else (unknown, [])

unfoldable pub supervisor_trap_cause : ℕ → ℕ → Cause × List Effect
supervisor_trap_cause scause irq =
    if is_external scause && (irq == 10)
    then (uart, uart_interrupt ∷ complete irq ∷ [])
    else if is_external scause && (irq == 1)
    then (virtio, complete irq ∷ [])
    else if is_external scause && not (irq == 0)
    then (unknown, report irq ∷ complete irq ∷ [])
    else switch_cause scause

-- What a user trap calls, up to the first call that does not come back.
pub data Handled : Type 0 where
  yields : Handled
  calls : Handled
  exits : Handled  -- `exit_process` of the task, with -1
  resumes : Machine → MemorySection → Handled

module _ (pool pagetable stack_permission : ℕ) where
  -- `handle_load_page_fault` and `handle_store_page_fault`, which differ in what they print; `next`
  -- is what follows where they come back. `none` is a panic.
  unfoldable pub handle_page_fault :
      ℕ → (Machine → MemorySection → Option Handled) → Machine → MemorySection → Option Handled
  handle_page_fault addr next s stack =
      elim (try_enlarge_stack pool pagetable stack_permission addr s stack) [
        | none ↦ none
        | some ((t, grown), true) ↦ next t grown
        | some (_, false) ↦ some exits
      ]

  -- The `switch` of `user_trap`. A load page fault falls through to the case of a store.
  unfoldable pub user_trap : Cause → ℕ → Machine → MemorySection → Option Handled
  user_trap timer stval s stack = some yields
  user_trap syscall stval s stack = some calls
  user_trap illegal_instruction stval s stack = some exits
  user_trap instruction_page_fault stval s stack = some exits
  user_trap load_page_fault stval s stack =
      handle_page_fault stval (handle_page_fault stval (λ t grown. some (resumes t grown))) s stack
  user_trap store_page_fault stval s stack =
      handle_page_fault stval (λ t grown. some (resumes t grown)) s stack
  user_trap _ stval s stack = some (resumes s stack)
