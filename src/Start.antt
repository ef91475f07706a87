-- ===== src/Start.antt =====
-- kernel/start.c: what is done in machine mode before `mret` goes to `main` in supervisor mode. The
-- code addresses and the two arrays of the file are given; the set-up of the serial port and the
-- messages are left out.
pub mod Identity
use toy_riscv_kernel.Prelude.{ℕ, zero, suc, ◌+◌, ◌-◌, ◌*◌, ◌/◌, ◌%◌, ◌^◌}
use Prim.Native.Nat.{bit_or}
use toy_riscv_kernel.Machine.{Mem, write}
use toy_riscv_kernel.Registers.{
  Registers, read_mstatus, write_mstatus, write_medeleg, write_mideleg, read_sie, write_sie,
  write_pmpaddr0, write_pmpcfg0, write_satp, read_sstatus, write_sstatus, write_mepc,
  write_mscratch, write_mtvec, read_mie, write_mie, set_bit, clear_bit,
}

-- The registers, and the memory with its devices.
pub record Boot : Type 0 where
  pub registers : Registers
  pub mem : Mem

-- The loop of `establish_page_table`, for `count` entries from `i` on.
unfoldable pub establish_from : ℕ → ℕ → ℕ → Mem → Mem
establish_from zero i pagetable m = m
establish_from (suc count) i pagetable m =
    establish_from count (i + 1) pagetable
      (write m (pagetable + 8 * i) (bit_or (i * 2 ^ 28 % 2 ^ 64) 15))

unfoldable pub establish_page_table : ℕ → Mem → Mem
establish_page_table = establish_from 512 0

-- CLINT_MTIMECMP(0) and CLINT_MTIME
abbrev pub clint_mtimecmp : ℕ
clint_mtimecmp = 33570816

abbrev pub clint_mtime : ℕ
clint_mtime = 33603576

abbrev pub interval : ℕ
interval = 1000000

unfoldable pub init_timer : (timer_scratch timer_vector : ℕ) → Boot → Boot
init_timer timer_scratch timer_vector b =
    let m = write b.mem clint_mtimecmp ((b.mem clint_mtime + interval) % 2 ^ 64) in
    let m1 = write m (timer_scratch + 24) clint_mtimecmp in
    let m2 = write m1 (timer_scratch + 32) interval in
    let r = write_mtvec timer_vector (write_mscratch timer_scratch b.registers) in
    let r1 = write_mstatus (set_bit 3 (read_mstatus r)) r in
    record { registers = write_mie (set_bit 7 (read_mie r1)) r1; mem = m2 }

-- MSTATUS_MPP_MASK is the bits 11 and 12, MSTATUS_MPP_S the bit 11; the interrupts of supervisor
-- mode are the bits 9, 5 and 1 of `sie`; SATP_SV39 is the bit 63.
unfoldable pub start : (pagetable timer_scratch timer_vector main : ℕ) → Boot → Boot
start pagetable timer_scratch timer_vector main b =
    let m = establish_page_table pagetable b.mem in
    let x = set_bit 11 (clear_bit 12 (clear_bit 11 (read_mstatus b.registers))) in
    let r = write_mideleg 65535 (write_medeleg 65535 (write_mstatus x b.registers)) in
    let r1 = write_sie (set_bit 1 (set_bit 5 (set_bit 9 (read_sie r)))) r in
    let r2 = write_pmpcfg0 15 (write_pmpaddr0 (2 ^ 54 - 1) r1) in
    let r3 = write_satp (bit_or (pagetable / 2 ^ 12) (2 ^ 63)) r2 in
    let r4 = write_sstatus (clear_bit 1 (set_bit 8 (read_sstatus r3))) r3 in
    init_timer timer_scratch timer_vector (record { registers = write_mepc main r4; mem = m })
