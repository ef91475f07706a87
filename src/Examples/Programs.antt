-- ===== src/Examples/Programs.antt =====
-- Turns of tasks, a fork, the loading of a program, the start of the machine and a trap in the
-- kernel.
use toy_riscv_kernel.Prelude.{
  ℕ, ◌+◌, ◌*◌, ◌/◌, ◌%◌, ◌^◌, ◌<◌, ◌≡◌, refl, ◌⊎◌, false, inl, inr, true, false, ◌||◌, Option, some,
  List, [], ◌∷◌, arith, ◌==◌, if◌then◌else◌, length, get_elem?,
}
use toy_riscv_kernel.Machine.{write, Machine}
use toy_riscv_kernel.SmallBlocks.{Blocks}
use toy_riscv_kernel.Process.{ProcessState, runnable, running, Task, Kernel}
use toy_riscv_kernel.Process.Turns.{Turns, queued_task-runs}
use toy_riscv_kernel.Process.Space.{Space}
use toy_riscv_kernel.Process.Fork.{fork_process}
use toy_riscv_kernel.Elf.{Elf}
use toy_riscv_kernel.Registers.{
  Csr, mstatus, sstatus, mepc, sepc, index, Registers, interrupt_status, set_interrupt_status,
}
use toy_riscv_kernel.Registers.Interrupts.{Shows, set_interrupt_status-Shows}
use toy_riscv_kernel.Start.{Boot}
use toy_riscv_kernel.Start.Identity.{booted, huge_page_address, start-identity}
use toy_riscv_kernel.Trap.Return.{kernel_trap_handler, kernel_trap-restores}
use toy_riscv_kernel.Plic.{
  plicinit, plicinithart, plic, plic_senable, plic_spriority, cpuid, uart0_irq, virtio0_irq,
  plic-enabled,
}

-- A block for objects, and free pages from 0x80100000 on.
abbrev pub blocks : Blocks
blocks = record {
  machine = record {
    mem =
        write
          (write (write (write (λ _. 0) 2147500040 1) 2147500048 2147500112) (4096 + 8 * 6)
            2148532224)
          2148532224 0;
    sie = true;
  };
  head = 2147500032;
  tail = 2147500032;
  stack_to_remove_next = 0;
}

abbrev parent : Space
parent = record {
  address = 2147500200;
  kernel_stack = 0;
  mem_sections = [];
  stack_permission = 22;
  stack = record { start = 8192; size = 0 };
  pagetable = 0;
  trap_frame = 0;
  frame = λ field. 5;
  shared = 0;
  name = b's' ∷ b'h' ∷ [];
}

abbrev pub forked : Option (Blocks × Space × Option Space)
forked = fork_process 4096 parent 2147487744 0 parent blocks

-- A file at 0x80300000 with a page of code at 0x1000 and a header for the stack.
abbrev pub file : Elf
file = record {
  address = 2150629376;
  magic = λ i. if i == 0 then 127 else if i == 1 then b'E' else if i == 2 then b'L' else b'F';
  e_entry = 4096;
  headers =
      record { p_type = 1; p_flags = 5; p_offset = 0; p_vaddr = 4096; p_filesz = 64; p_memsz = 64 }
      ∷ record {
        p_type = 1685382481;
        p_flags = 6;
        p_offset = 0;
        p_vaddr = 0;
        p_filesz = 0;
        p_memsz = 0;
      }
      ∷ [];
}

-- The task with an empty page table at 0x80200000.
abbrev pub fresh : Space
fresh = record parent { pagetable = 2149580800 }

-- The task 2 runs, 1 and 3 are queued.
abbrev task : ProcessState → ℕ → Task
task state pid = record {
  state = state;
  channel = 0;
  pid = pid;
  parent = 1;
  kernel_stack = 0;
  exit_status = 0;
  a0 = 0;
  a1 = 0;
  a7 = 0;
  epc = 0;
  shared = 0;
}

abbrev kernel : Kernel
kernel = record {
  tasks = λ t. if t == 2 then task running 2 else task runnable t;
  all_tasks = 1 ∷ 2 ∷ 3 ∷ [];
  runnable_tasks = 1 ∷ 3 ∷ [];
  running_task = 2;
  init = 1;
  stack_to_remove = 0;
  stack_to_remove_next = 0;
  sie = true;
  released = [];
  freed_memory = [];
  powered_off = false;
}

queued_task-runs_example :
    ((n : ℕ) → (turns : List ℕ) × (k' : Kernel) × Turns kernel turns k' × (length turns ≡ n))
    × ((turns : List ℕ) (k' : Kernel)
        → Turns kernel turns k'
        → 1 < length turns
        → get_elem? turns 1 ≡ some 3)
queued_task-runs_example =
    queued_task-runs kernel 1 3 (omega arith) refl
      (omega arith, refl, refl, (omega arith, refl, refl, tt)) refl

-- `sstatus` with the bits 1, 5 and 8 set.
abbrev registers : Registers
registers r = if index r == index sstatus then 290 else 7

shown : Shows registers (record { mem = λ _. 0; sie = true })
unfolding interrupt_status
shown = refl

set_interrupt_status-Shows_example :
    let (after, old) = set_interrupt_status 0 registers in
    Shows after (record { mem = λ _. 0; sie = false })
    × ((old == 1) ≡ true)
    × (after sstatus / 4 ≡ 290 / 4)
    × (after sstatus % 2 ≡ 290 % 2)
    × ((r : Csr) → (index r == index sstatus) ≡ false → after r ≡ registers r)
unfolding toy_riscv_kernel.Machine.set_interrupt_status
set_interrupt_status-Shows_example =
    set_interrupt_status-Shows registers (record { mem = λ _. 0; sie = true }) 0 shown

abbrev trapped : Registers
trapped r = if index r == index sstatus then 256 else 7

kernel_trap-restores_example :
    (r' : Registers) × (kernel_trap_handler (λ r c. 0) (2 ^ 63 + 1) 0 trapped ≡ some r')
    × (r' sepc ≡ 7)
    × (r' sstatus ≡ 256)
kernel_trap-restores_example = kernel_trap-restores (λ r c. 0) (2 ^ 63 + 1) 0 trapped refl refl

abbrev reset : Boot
reset = record { registers = λ r. 6144; mem = λ a. 0 }

-- The table at 0x80010000, the scratch area at 0x80020000, `main` at 0x80001000.
start-identity_example :
    let pte =
      (booted 2147549184 2147614720 2147487000 2147487744 reset).mem
        (2147549184 + 8 * (2147483700 / 2 ^ 30 % 512)) in
    (pte % 16 ≡ 15)
    × (huge_page_address pte 2147483700 ≡ some 2147483700)
    × ((booted 2147549184 2147614720 2147487000 2147487744 reset).registers mstatus / 2 ^ 11 % 4
        ≡ 1)
    × ((booted 2147549184 2147614720 2147487000 2147487744 reset).registers mepc ≡ 2147487744)
start-identity_example =
    start-identity 2147549184 2147614720 2147487000 2147487744 reset 2147483700 (inl (omega arith))
      (inr (omega arith)) (inr (omega arith)) (omega arith)

plic-enabled_example :
    let m' = plicinithart (plicinit (λ _. 0)) in
    ((m' (plic_senable cpuid) / 2 ^ 10 % 2 == 1) ≡ ((10 == uart0_irq) || (10 == virtio0_irq)))
    × ((((10 == uart0_irq) || (10 == virtio0_irq)) ≡ false)
        ⊎ (m' (plic_spriority cpuid) < m' (plic + 10 * 4)))
plic-enabled_example = plic-enabled (λ _. 0) 10 (omega arith)
