-- ===== src/Main.antt =====
-- `main` of kernel/main.c up to `scheduler`: the set-up of the kernel in supervisor mode, without
-- its messages. The addresses that the linker gives, and what lies in fresh memory, are given;
-- `none` is a panic.
use toy_riscv_kernel.Prelude.{◌>>=◌, ℕ, ◌≡◌, ap, ◌∙◌, sym, Option, some, bind-case, eq_of_some}
use toy_riscv_kernel.Machine.{null, Machine}
use toy_riscv_kernel.Buddy.Init.{init_mem_manage}
use toy_riscv_kernel.SmallBlocks.{Blocks}
use toy_riscv_kernel.Registers.{satp, Registers}
use toy_riscv_kernel.VirtualMemory.WholeTables.{
  make_kernel_pagetable, make_satp, init_kernel_pagetable,
}
use toy_riscv_kernel.Plic.{plicinit, plicinithart}
use toy_riscv_kernel.Elf.{Elf}
use toy_riscv_kernel.Process.Space.{Space}
use toy_riscv_kernel.Process.Program.{init_scheduler}

-- The kernel that `scheduler` starts from.
pub record Started : Type 0 where
  pub blocks : Blocks
  pub registers : Registers
  pub kernel_pagetable : ℕ
  pub init_task : Space

module _ (pool start_addr : ℕ) where
  unfoldable pub main :
      (etext trampoline : ℕ) → (stale : Space) → Elf → Machine → Registers → Option Started
  main etext trampoline stale init_program s registers = do
    paging ←
        init_kernel_pagetable pool etext trampoline
          (record s { mem = init_mem_manage pool start_addr s.mem }) registers
    let plic_set : Machine = record (paging.0) { mem = plicinithart (plicinit (paging.0).mem) }
    let free : Blocks = record {
      machine = plic_set;
      head = null;
      tail = null;
      stack_to_remove_next = null;
    }
    first ← init_scheduler pool stale trampoline paging.2 init_program free
    some (record {
      blocks = first.0;
      registers = paging.1;
      kernel_pagetable = paging.2;
      init_task = first.1;
    })

  -- When `scheduler` is called, the kernel runs on the page table that it has made.
  main-satp :
      (etext trampoline : ℕ) (stale : Space) (init_program : Elf) (s : Machine) (r : Registers)
      (started : Started)
      → main etext trampoline stale init_program s r ≡ some started
      → started.registers satp ≡ make_satp started.kernel_pagetable
  unfolding main init_kernel_pagetable
  main-satp etext trampoline stale init_program s r started run =
      let cleared : Machine = record s { mem = init_mem_manage pool start_addr s.mem } in
      bind-case (init_kernel_pagetable pool etext trampoline cleared r) _ run (λ paging ran run1.
        bind-case (make_kernel_pagetable pool etext trampoline cleared) _ ran (λ made _ ran1.
          bind-case (init_scheduler pool stale trampoline paging.2 init_program _) _ run1
            (λ first _ run2.
              let registers = ap (λ (x : Started). x.registers satp) (eq_of_some run2) in
              let table = ap (λ (x : Started). x.kernel_pagetable) (eq_of_some run2) in
              let written = ap (λ p. p.1 satp) (eq_of_some ran1) in
              let there = ap (λ p. p.2) (eq_of_some ran1) in
              sym registers ∙ sym written ∙ ap make_satp (there ∙ table))))
