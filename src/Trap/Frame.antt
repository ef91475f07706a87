-- ===== src/Trap/Frame.antt =====
-- `struct trap_frame` of kernel/process.h: the page in which the trampoline saves the registers of
-- a user program.
use toy_riscv_kernel.Prelude.{ℕ, ◌+◌, ◌*◌, List, [], ◌∷◌, ◌==◌, if◌then◌else◌}
use toy_riscv_kernel.Machine.{Mem, write}

pub data Field : Type 0 where
  kernel_satp : Field
  kernel_sp : Field
  kernel_trap : Field
  epc : Field
  kernel_hartid : Field
  ra : Field
  sp : Field
  gp : Field
  tp : Field
  t0 : Field
  t1 : Field
  t2 : Field
  s0 : Field
  s1 : Field
  a0 : Field
  a1 : Field
  a2 : Field
  a3 : Field
  a4 : Field
  a5 : Field
  a6 : Field
  a7 : Field
  s2 : Field
  s3 : Field
  s4 : Field
  s5 : Field
  s6 : Field
  s7 : Field
  s8 : Field
  s9 : Field
  s10 : Field
  s11 : Field
  t3 : Field
  t4 : Field
  t5 : Field
  t6 : Field

-- The place of a field, in words of eight bytes.
abbrev pub place : Field → ℕ
place kernel_satp = 0
place kernel_sp = 1
place kernel_trap = 2
place epc = 3
place kernel_hartid = 4
place ra = 5
place sp = 6
place gp = 7
place tp = 8
place t0 = 9
place t1 = 10
place t2 = 11
place s0 = 12
place s1 = 13
place a0 = 14
place a1 = 15
place a2 = 16
place a3 = 17
place a4 = 18
place a5 = 19
place a6 = 20
place a7 = 21
place s2 = 22
place s3 = 23
place s4 = 24
place s5 = 25
place s6 = 26
place s7 = 27
place s8 = 28
place s9 = 29
place s10 = 30
place s11 = 31
place t3 = 32
place t4 = 33
place t5 = 34
place t6 = 35

abbrev pub TrapFrame : Type 0
TrapFrame = Field → ℕ

abbrev pub set : Field → ℕ → TrapFrame → TrapFrame
set field x frame other = if place other == place field then x else frame other

abbrev pub fields : List Field
fields =
    kernel_satp ∷ kernel_sp ∷ kernel_trap ∷ epc ∷ kernel_hartid ∷ ra ∷ sp ∷ gp ∷ tp ∷ t0 ∷ t1 ∷ t2
    ∷ s0 ∷ s1 ∷ a0 ∷ a1 ∷ a2 ∷ a3 ∷ a4 ∷ a5 ∷ a6 ∷ a7 ∷ s2 ∷ s3 ∷ s4 ∷ s5 ∷ s6 ∷ s7 ∷ s8 ∷ s9 ∷ s10
    ∷ s11 ∷ t3 ∷ t4 ∷ t5 ∷ t6 ∷ []

-- An assignment of the struct, as the words of memory from `address` on.
abbrev pub store_fields : List Field → (address : ℕ) → TrapFrame → Mem → Mem
store_fields [] address frame m = m
store_fields (f ∷ fs) address frame m =
    store_fields fs address frame (write m (address + 8 * place f) (frame f))
