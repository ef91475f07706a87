-- ===== src/Process/Fork.antt =====
-- `new_task` and `fork_process` of kernel/process.c with the copying of all memory in
-- kernel/virtual_memory.c. What the allocator leaves in a fresh `task_struct` is given as `stale`.
-- The entries in the lists of tasks are made by `start_child`.
pub mod Areas
pub mod Ready
use toy_riscv_kernel.Prelude.{
  ◌>>=◌, ℕ, zero, suc, ◌+◌, ◌/◌, ◌%◌, ◌^◌, Bool, true, false, ◌&&◌, ◌||◌, Option, none, some, List,
  [], ◌∷◌, ◌++◌, ◌==◌, if◌then◌else◌, take,
}
use toy_riscv_kernel.Machine.{null, Machine}
use toy_riscv_kernel.Buddy.{allocate, deallocate}
use toy_riscv_kernel.SmallBlocks.{Blocks, kmalloc, kfree}
use toy_riscv_kernel.VirtualMemory.{
  page_size, physical_address, map_page, unmap_page, create_void_pagetable, free_memory,
}
use toy_riscv_kernel.VirtualMemory.Sections.{copy_memory_with_pagetable}
use toy_riscv_kernel.Trap.Frame.{Field, kernel_satp, a0, epc, TrapFrame, set, fields, store_fields}
use toy_riscv_kernel.Process.{Task, Kernel, runnable, set_task}
use toy_riscv_kernel.Process.Stack.{MemorySection, allocate_for_user, shared_memory}
use toy_riscv_kernel.Process.Space.{
  Section, Space, task_size, trapframe_va, trampoline_va, on_pages, on_pages_only,
  register_memory_section, free_user_memory,
}

-- PTE_U | PTE_R | PTE_W
abbrev pub urw_permission : ℕ
urw_permission = 22

module _ (pool : ℕ) where
  -- The result is `none` where it is NULL.
  unfoldable pub new_task :
      (stale : Space)
      → (trampoline kernel_pagetable : ℕ) → List ℕ
      → Blocks
      → Option (Blocks × Option Space)
  new_task stale trampoline kernel_pagetable name b = do
    task ← kmalloc pool task_size b
    let allocated = (do
      kernel_stack ← on_pages (allocate pool 0) task.0
      pagetable ← on_pages (create_void_pagetable pool) kernel_stack.0
      trap_frame ← on_pages (allocate_for_user pool pagetable.1 urw_permission) pagetable.0
      shared ← on_pages (allocate_for_user pool pagetable.1 urw_permission) trap_frame.0
      let space : Space = record {
        address = task.1;
        kernel_stack = kernel_stack.1;
        mem_sections = [];
        stack_permission = urw_permission;
        stack = record { start = 0; size = 0 };
        pagetable = pagetable.1;
        trap_frame = trap_frame.1;
        frame = set epc 0 (set kernel_satp kernel_pagetable (λ field. 0));
        shared = shared.1;
        name = take 31 name;
      }
      let undone = (do
        c ← on_pages_only (deallocate pool kernel_stack.1 0) shared.0
        d ← on_pages_only (deallocate pool pagetable.1 0) c
        e ← kfree pool task.1 d
        some (e, none))
      let mapped = (do
        frame_mapped ← on_pages (map_page pool pagetable.1 trapframe_va trap_frame.1 6) shared.0
        code_mapped ←
            on_pages (map_page pool pagetable.1 trampoline_va trampoline 10) frame_mapped.0
        shared_mapped ←
            on_pages (map_page pool pagetable.1 shared_memory shared.1 urw_permission) code_mapped.0
        let freed = (do
          c ←
              free_user_memory pool (record space { shared = stale.shared; stack = stale.stack })
                shared_mapped.0
          d ← kfree pool task.1 c.0
          some (d, none))
        if (frame_mapped.1 == 0) && (code_mapped.1 == 0) && (shared_mapped.1 == 0)
            then some (shared_mapped.0, some space)
            else freed)
      if (kernel_stack.1 == null)
            || (pagetable.1 == null)
            || (shared.1 == null)
            || (trap_frame.1 == null)
          then undone
          else mapped)
    if task.1 == null then some (task.0, none) else allocated

  -- The loop of `copy_all_memory_with_pagetable` over the sections of the source. `true` is the
  -- result 0, `false` the result -1.
  unfoldable pub copy_sections :
      (source_pagetable : ℕ) → List Section → Space → Blocks → Option ((Blocks × Space) × Bool)
  copy_sections source_pagetable [] target b = some ((b, target), true)
  copy_sections source_pagetable (s ∷ sections) target b = do
    copied ←
        on_pages
          (copy_memory_with_pagetable pool source_pagetable target.pagetable s.section.start
            s.section.size)
          b
    let failed = (do freed ← free_user_memory pool target copied.0; some (freed, false))
    let registered = (do
      added ← register_memory_section pool target s.section.start s.section.size copied.0
      let undone = (do
        c ←
            on_pages_only (free_memory pool target.pagetable s.section.start s.section.size)
              added.0.0
        freed ← free_user_memory pool added.0.1 c
        some (freed, false))
      if added.1 then copy_sections source_pagetable sections added.0.1 added.0.0 else undone)
    if copied.1 then registered else failed

  -- What is done where the stack is not copied: for `count` pages of a section, and for the
  -- sections.
  unfoldable pub drop_pages : (count va pagetable : ℕ) → Machine → Option Machine
  drop_pages zero va pagetable s = some s
  drop_pages (suc count) va pagetable s = do
    page ← physical_address pool pagetable va s
    t ← deallocate pool page 0 s
    unmapped ← unmap_page pool pagetable va t
    drop_pages count (va + page_size) pagetable unmapped.0

  unfoldable pub drop_sections : List Section → (pagetable : ℕ) → Machine → Option Machine
  drop_sections [] pagetable s = some s
  drop_sections (section ∷ sections) pagetable s = do
    t ← drop_pages ((section.section.size + 4095) / page_size) section.section.start pagetable s
    drop_sections sections pagetable t

  unfoldable pub copy_all_memory_with_pagetable :
      (source target : Space) → Blocks → Option ((Blocks × Space) × Bool)
  copy_all_memory_with_pagetable source target b = do
    sections ← copy_sections source.pagetable source.mem_sections target b
    let stack = (do
      copied ←
          on_pages
            (copy_memory_with_pagetable pool source.pagetable sections.0.1.pagetable
              source.stack.start source.stack.size)
            sections.0.0
      let dropped = (do
        c ← on_pages_only (drop_sections sections.0.1.mem_sections sections.0.1.pagetable) copied.0
        some ((c, record (sections.0.1) { stack = source.stack }), true))
      if copied.1
          then some ((copied.0, record (sections.0.1) { stack = source.stack }), true)
          else dropped)
    if sections.1 then stack else some sections

  -- The state, the space of `task`, and the child's, `none` where the result is -1. The child's
  -- frame is written to the page it had, which is free again where the copy has failed.
  unfoldable pub fork_process :
      (stale : Space)
      → (trampoline kernel_pagetable : ℕ) → Space
      → Blocks
      → Option (Blocks × Space × Option Space)
  fork_process stale trampoline kernel_pagetable task b = do
    made ← new_task stale trampoline kernel_pagetable task.name b
    elim made.1 [
      | none ↦ some (made.0, task, none)
      | some child ↦ do
        copied ← copy_all_memory_with_pagetable task child made.0
        let frame = set epc ((task.frame epc + 4) % 2 ^ 64) (set a0 0 task.frame)
        let machine = copied.0.0.machine
        let mem = store_fields fields copied.0.1.trap_frame frame machine.mem
        let stored : Blocks = record (copied.0.0) { machine = record machine { mem = mem } }
        let freed = (do
          gone ← free_user_memory pool task stored
          c ← kfree pool task.address gone.0
          some (c, gone.1, none))
        if copied.1
            then some (stored, task, some (record (copied.0.1) { frame = frame }))
            else freed
    ]

-- The child in the tables of tasks: a RUNNABLE task at the end of both lists.
unfoldable pub start_child : (task child pid : ℕ) → Kernel → Kernel
start_child task child pid k = record k {
  tasks = set_task k.tasks child (record (k.tasks child) {
    state = runnable;
    pid = pid;
    parent = task;
    a0 = 0;
    a1 = (k.tasks task).a1;
    a7 = (k.tasks task).a7;
    epc = ((k.tasks task).epc + 4) % 2 ^ 64;
  });
  runnable_tasks = k.runnable_tasks ++ (child ∷ []);
  all_tasks = k.all_tasks ++ (child ∷ []);
}
