-- ===== src/Trap/Return.antt =====
-- `user_trap_return` and `kernel_trap` of kernel/trap.c, on the registers and the trap frame. The
-- addresses of code are given, as is what `yield` leaves in the registers.
use toy_riscv_kernel.Prelude.{
  ℕ, ◌+◌, ◌-◌, ◌<◌, ◌≡◌, refl, ap, ◌∙◌, not, Option, none, some, List, [], ◌∷◌, arith, ◌==◌,
  if◌then◌else◌,
}
use toy_riscv_kernel.VirtualMemory.{page_size, max_va}
use toy_riscv_kernel.VirtualMemory.WholeTables.{make_satp}
use toy_riscv_kernel.Registers.{
  sstatus, sepc, satp, Registers, read_sepc, write_sepc, read_sstatus, write_sstatus, read_sip,
  write_sip, write_stvec, read_satp, bit, set_bit, clear_bit, interrupt_off, interrupt_status,
}
use toy_riscv_kernel.Trap.{
  timer, Effect, uart_interrupt, complete, report, clear_software_interrupt, supervisor_trap_cause,
}
use toy_riscv_kernel.Trap.Frame.{
  Field, kernel_satp, kernel_sp, kernel_trap, epc, TrapFrame, set, place,
}

abbrev pub trampoline_at : ℕ
trampoline_at = max_va - page_size

-- Where the code of the trampoline and `user_trap` stand in the kernel.
pub record Code : Type 0 where
  pub trampoline : ℕ
  pub user_vector : ℕ
  pub user_return : ℕ
  pub user_trap_entry : ℕ

-- What is left at the jump to `user_return`: the registers, the frame, the address, and its
-- argument.
pub record Leaving : Type 0 where
  pub registers : Registers
  pub frame : TrapFrame
  pub target : ℕ
  pub user_satp : ℕ

unfoldable pub user_trap_return :
    Code → (kernel_stack pagetable : ℕ) → Registers → TrapFrame → Leaving
user_trap_return code kernel_stack pagetable r frame =
    let off = interrupt_off r in
    let vector = trampoline_at + (code.user_vector - code.trampoline) in
    let r1 = write_stvec vector off in
    let frame1 = set kernel_satp (read_satp r1) frame in
    let frame2 = set kernel_sp (kernel_stack + page_size) frame1 in
    let frame3 = set kernel_trap code.user_trap_entry frame2 in
    let r2 = write_sstatus (set_bit 5 (clear_bit 8 (read_sstatus r1))) r1 in
    record {
      registers = write_sepc (frame3 epc) r2;
      frame = frame3;
      target = trampoline_at + (code.user_return - code.trampoline);
      user_satp = make_satp pagetable;
    }

-- The change of `sip` in `supervisor_trap_cause`
unfoldable pub acknowledge : List Effect → Registers → Registers
acknowledge [] r = r
acknowledge (clear_software_interrupt ∷ effects) r =
    acknowledge effects (write_sip (clear_bit 1 (read_sip r)) r)
acknowledge (_ ∷ effects) r = acknowledge effects r

-- `none` is a panic.
unfoldable pub kernel_trap_handler :
    (Registers → Registers) → (scause irq : ℕ) → Registers → Option Registers
kernel_trap_handler yield scause irq r =
    let (cause, effects) = supervisor_trap_cause scause irq in
    let r1 = acknowledge effects r in
    let r2 : Registers = elim cause [ timer ↦ yield r1 | _ ↦ r1 ] in
    if bit 8 (read_sstatus r) == 0
    then none
    else if not (interrupt_status r1 == 0)
    then none
    else some (write_sstatus (read_sstatus r) (write_sepc (read_sepc r) r2))

acknowledge-sstatus :
    (effects : List Effect) (r : Registers) → acknowledge effects r sstatus ≡ r sstatus
unfolding acknowledge
acknowledge-sstatus [] r = refl
acknowledge-sstatus (uart_interrupt ∷ effects) r = acknowledge-sstatus effects r
acknowledge-sstatus (complete irq ∷ effects) r = acknowledge-sstatus effects r
acknowledge-sstatus (report irq ∷ effects) r = acknowledge-sstatus effects r
acknowledge-sstatus (clear_software_interrupt ∷ effects) r =
    acknowledge-sstatus effects (write_sip (clear_bit 1 (read_sip r)) r)

-- A trap from supervisor mode with interrupts off comes back, and the registers that `sret` uses,
-- `sepc` and `sstatus`, are those at the trap, whatever other tasks have made of them during a
-- `yield`.
pub kernel_trap-restores :
    (yield : Registers → Registers) (scause irq : ℕ) (r : Registers)
    → bit 8 (r sstatus) ≡ 1
    → bit 1 (r sstatus) ≡ 0
    → (r' : Registers) × (kernel_trap_handler yield scause irq r ≡ some r')
      × (r' sepc ≡ r sepc)
      × (r' sstatus ≡ r sstatus)
unfolding kernel_trap_handler interrupt_status
kernel_trap-restores yield scause irq r mode off =
    let (cause, effects) = supervisor_trap_cause scause irq in
    let r1 = acknowledge effects r in
    let r2 : Registers = elim cause [ timer ↦ yield r1 | _ ↦ r1 ] in
    let off' : bit 1 (r1 sstatus) ≡ 0 = ap (bit 1) (acknowledge-sstatus effects r) ∙ off in
    (write_sstatus (read_sstatus r) (write_sepc (read_sepc r) r2), rw (mode, off') refl, refl, refl)

-- At the jump to `user_return` the registers are set for `sret` to go to user mode with interrupts
-- on (SPP clear, SPIE set) at the saved `epc`, with interrupts off until then; the frame has the
-- kernel's page table, the top of the task's kernel stack and `user_trap`, and keeps all fields of
-- the user program.
pub user_trap_return-leaves :
    (code : Code) (kernel_stack pagetable : ℕ) (r : Registers) (frame : TrapFrame)
    → let l = user_trap_return code kernel_stack pagetable r frame in
      (bit 8 (l.registers sstatus) ≡ 0)
      × (bit 5 (l.registers sstatus) ≡ 1)
      × (bit 1 (l.registers sstatus) ≡ 0)
      × (l.registers sepc ≡ frame epc)
      × (l.frame kernel_satp ≡ r satp)
      × (l.frame kernel_sp ≡ kernel_stack + page_size)
      × (l.frame kernel_trap ≡ code.user_trap_entry)
      × ((f : Field) → 2 < place f → l.frame f ≡ frame f)
unfolding user_trap_return interrupt_off
user_trap_return-leaves code kernel_stack pagetable r frame = (
  ground (arith),
  ground (arith),
  ground (arith),
  refl,
  refl,
  refl,
  refl,
  λ f lt. ground (arith, lt),
)
