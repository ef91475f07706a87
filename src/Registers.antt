-- ===== src/Registers.antt =====
-- kernel/riscv.h: the control and status registers, as words that keep what is written, and the
-- interrupt-enable bit of `sstatus`. (`sstatus` shows some bits of `mstatus`; the kernel changes
-- other bits through the one than through the other.) The functions for general registers and
-- `sfence_vma` are left out.
pub mod Interrupts
use toy_riscv_kernel.Prelude.{ℕ, ◌+◌, ◌-◌, ◌*◌, ◌/◌, ◌%◌, ◌^◌, ◌==◌, if◌then◌else◌}

pub data Csr : Type 0 where
  mstatus : Csr
  mepc : Csr
  sstatus : Csr
  sip : Csr
  sie : Csr
  mie : Csr
  sepc : Csr
  medeleg : Csr
  mideleg : Csr
  stvec : Csr
  mtvec : Csr
  pmpcfg0 : Csr
  pmpaddr0 : Csr
  satp : Csr
  mscratch : Csr
  scause : Csr
  stval : Csr
  mcounteren : Csr
  time : Csr

abbrev pub index : Csr → ℕ
index mstatus = 0
index mepc = 1
index sstatus = 2
index sip = 3
index sie = 4
index mie = 5
index sepc = 6
index medeleg = 7
index mideleg = 8
index stvec = 9
index mtvec = 10
index pmpcfg0 = 11
index pmpaddr0 = 12
index satp = 13
index mscratch = 14
index scause = 15
index stval = 16
index mcounteren = 17
index time = 18

abbrev pub Registers : Type 0
Registers = Csr → ℕ

-- `csrw`
abbrev pub csrw : Csr → ℕ → Registers → Registers
csrw r x registers s = if index s == index r then x else registers s

abbrev pub read_mstatus : Registers → ℕ
read_mstatus registers = registers mstatus

abbrev pub write_mstatus : ℕ → Registers → Registers
write_mstatus = csrw mstatus

abbrev pub write_mepc : ℕ → Registers → Registers
write_mepc = csrw mepc

abbrev pub read_sstatus : Registers → ℕ
read_sstatus registers = registers sstatus

abbrev pub write_sstatus : ℕ → Registers → Registers
write_sstatus = csrw sstatus

abbrev pub read_sip : Registers → ℕ
read_sip registers = registers sip

abbrev pub write_sip : ℕ → Registers → Registers
write_sip = csrw sip

abbrev pub read_sie : Registers → ℕ
read_sie registers = registers sie

abbrev pub write_sie : ℕ → Registers → Registers
write_sie = csrw sie

abbrev pub read_mie : Registers → ℕ
read_mie registers = registers mie

abbrev pub write_mie : ℕ → Registers → Registers
write_mie = csrw mie

abbrev pub write_sepc : ℕ → Registers → Registers
write_sepc = csrw sepc

abbrev pub read_sepc : Registers → ℕ
read_sepc registers = registers sepc

abbrev pub read_medeleg : Registers → ℕ
read_medeleg registers = registers medeleg

abbrev pub write_medeleg : ℕ → Registers → Registers
write_medeleg = csrw medeleg

abbrev pub read_mideleg : Registers → ℕ
read_mideleg registers = registers mideleg

abbrev pub write_mideleg : ℕ → Registers → Registers
write_mideleg = csrw mideleg

abbrev pub write_stvec : ℕ → Registers → Registers
write_stvec = csrw stvec

abbrev pub read_stvec : Registers → ℕ
read_stvec registers = registers stvec

abbrev pub write_mtvec : ℕ → Registers → Registers
write_mtvec = csrw mtvec

abbrev pub write_pmpcfg0 : ℕ → Registers → Registers
write_pmpcfg0 = csrw pmpcfg0

abbrev pub write_pmpaddr0 : ℕ → Registers → Registers
write_pmpaddr0 = csrw pmpaddr0

abbrev pub write_satp : ℕ → Registers → Registers
write_satp = csrw satp

abbrev pub read_satp : Registers → ℕ
read_satp registers = registers satp

abbrev pub write_mscratch : ℕ → Registers → Registers
write_mscratch = csrw mscratch

abbrev pub read_scause : Registers → ℕ
read_scause registers = registers scause

abbrev pub read_stval : Registers → ℕ
read_stval registers = registers stval

abbrev pub write_mcounteren : ℕ → Registers → Registers
write_mcounteren = csrw mcounteren

abbrev pub read_mcounteren : Registers → ℕ
read_mcounteren registers = registers mcounteren

abbrev pub read_time : Registers → ℕ
read_time registers = registers time

-- `x & (1 << k)`, as 0 or 1
abbrev pub bit : ℕ → ℕ → ℕ
bit k x = x / 2 ^ k % 2

-- `x | (1 << k)`
abbrev pub set_bit : ℕ → ℕ → ℕ
set_bit k x = if bit k x == 0 then x + 2 ^ k else x

-- `x & ~(1 << k)`
abbrev pub clear_bit : ℕ → ℕ → ℕ
clear_bit k x = x - bit k x * 2 ^ k

-- SSTATUS_SIE is bit 1.
unfoldable pub interrupt_on : Registers → Registers
interrupt_on registers = write_sstatus (set_bit 1 (read_sstatus registers)) registers

unfoldable pub interrupt_off : Registers → Registers
interrupt_off registers = write_sstatus (clear_bit 1 (read_sstatus registers)) registers

unfoldable pub interrupt_status : Registers → ℕ
interrupt_status registers = if bit 1 (read_sstatus registers) == 0 then 0 else 1

-- The old status is returned.
unfoldable pub set_interrupt_status : ℕ → Registers → Registers × ℕ
set_interrupt_status status registers =
    let last_status = interrupt_status registers in
    (if status == 0 then interrupt_off registers else interrupt_on registers, last_status)
