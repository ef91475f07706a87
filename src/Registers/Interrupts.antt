-- ===== src/Registers/Interrupts.antt =====
-- The interrupt-enable bit of kernel/riscv.h as the memory code uses it.
use toy_riscv_kernel.Prelude.{ℕ, ◌/◌, ◌%◌, ◌≡◌, inl, inr, false, not, arith, ◌==◌, Bool-cases}
use toy_riscv_kernel.Machine.{Machine}
use toy_riscv_kernel.Registers.{
  Csr, index, sstatus, Registers, interrupt_on, interrupt_off, interrupt_status,
  set_interrupt_status,
}

-- The machine's bit is the one in `sstatus`.
abbrev pub Shows : Registers → Machine → Type 0
Shows registers s = (interrupt_status registers == 1) ≡ s.sie

-- `set_interrupt_status` on the registers does what it does on the one bit of the memory code: the
-- same bit is set and the same old one given; all other bits of `sstatus` and all other registers
-- are kept.
pub set_interrupt_status-Shows :
    (registers : Registers) (s : Machine) (status : ℕ)
    → Shows registers s
    → let (after, old) = set_interrupt_status status registers in
      let (s', was) = toy_riscv_kernel.Machine.set_interrupt_status (not (status == 0)) s in
      Shows after s'
      × ((old == 1) ≡ was)
      × (after sstatus / 4 ≡ registers sstatus / 4)
      × (after sstatus % 2 ≡ registers sstatus % 2)
      × ((r : Csr) → (index r == index sstatus) ≡ false → after r ≡ registers r)
unfolding set_interrupt_status interrupt_status interrupt_on interrupt_off
    toy_riscv_kernel.Machine.set_interrupt_status
set_interrupt_status-Shows registers s status shows = elim (Bool-cases (status == 0)) [
  | inl off ↦
      rw off
        (ground (arith), shows, ground (arith), ground (arith), λ r other. ground (arith, other))
  | inr on ↦
      rw on
        (ground (arith), shows, ground (arith), ground (arith), λ r other. ground (arith, other))
]
