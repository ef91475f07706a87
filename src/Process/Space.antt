-- ===== src/Process/Space.antt =====
-- The memory of a task in kernel/process.c: how it is set up, added to, cleared and given back,
-- over the object allocator and the page tables. `none` is a panic. The words of a section's struct
-- are its record, with the addresses of that struct and of its list node; the trap frame is its
-- record of words.
use toy_riscv_kernel.Prelude.{
  ◌>>=◌, ℕ, ◌-◌, Bool, true, false, ◌||◌, Option, some, List, [], ◌∷◌, ◌++◌, ◌==◌, if◌then◌else◌,
}
use toy_riscv_kernel.Machine.{null, Machine}
use toy_riscv_kernel.Buddy.{deallocate}
use toy_riscv_kernel.SmallBlocks.{Blocks, kmalloc, kfree}
use toy_riscv_kernel.VirtualMemory.{page_size, max_va, map_page, free_memory}
use toy_riscv_kernel.VirtualMemory.WholeTables.{free_pagetable}
use toy_riscv_kernel.Trap.Frame.{sp, TrapFrame, set}
use toy_riscv_kernel.Process.Stack.{MemorySection, allocate_for_user, shared_memory}

pub record Section : Type 0 where
  pub node : ℕ
  pub address : ℕ
  pub section : MemorySection

-- What a `task_struct` has of the memory of its task.
pub record Space : Type 0 where
  pub address : ℕ
  pub kernel_stack : ℕ
  pub mem_sections : List Section
  pub stack_permission : ℕ
  pub stack : MemorySection
  pub pagetable : ℕ
  pub trap_frame : ℕ
  pub frame : TrapFrame
  pub shared : ℕ
  pub name : List ℕ

abbrev pub task_size : ℕ
task_size = 264

-- TRAPFRAME and TRAMPOLINE
abbrev pub trapframe_va : ℕ
trapframe_va = max_va - page_size - page_size

abbrev pub trampoline_va : ℕ
trampoline_va = max_va - page_size

-- A call on pages, in a state that has the object allocator too.
abbrev pub on_pages {ℓ} :
    {A : Type ℓ} → (Machine → Option (Machine × A)) → Blocks → Option (Blocks × A)
on_pages call b = do result ← call b.machine; some (record b { machine = result.0 }, result.1)

abbrev pub on_pages_only : (Machine → Option Machine) → Blocks → Option Blocks
on_pages_only call b = do machine ← call b.machine; some (record b { machine = machine })

module _ (pool : ℕ) where
  -- `true` is the result 0, `false` the result -1.
  unfoldable pub register_memory_section :
      Space → (va size : ℕ) → Blocks → Option ((Blocks × Space) × Bool)
  register_memory_section task va size b = do
    tmp_data ← kmalloc pool 16 b
    tmp ← kmalloc pool 16 tmp_data.0
    let failed = (do
      c ← kfree pool tmp_data.1 tmp.0
      d ← kfree pool tmp.1 c
      some ((d, task), false))
    let new : Section = record {
      node = tmp.1;
      address = tmp_data.1;
      section = record { start = va; size = size };
    }
    let registered = record task { mem_sections = task.mem_sections ++ (new ∷ []) }
    if (tmp.1 == null) || (tmp_data.1 == null) then failed else some ((tmp.0, registered), true)

  unfoldable pub set_stack : Space → Blocks → Option ((Blocks × Space) × Bool)
  set_stack task b = do
    stack ← on_pages (allocate_for_user pool task.pagetable task.stack_permission) b
    let placed = record task {
      stack = record { start = shared_memory - page_size; size = page_size };
      frame = set sp shared_memory task.frame;
    }
    let mapped = (do
      result ←
          on_pages
            (map_page pool task.pagetable (shared_memory - page_size) stack.1 task.stack_permission)
            stack.0
      let undone = (do
        c ← on_pages_only (deallocate pool stack.1 0) result.0
        some ((c, placed), false))
      if result.1 == 0 then some ((result.0, placed), true) else undone)
    if stack.1 == null then some ((stack.0, task), false) else mapped

  -- The loop of `clear_user_memory_space`
  unfoldable pub clear_sections : ℕ → List Section → Blocks → Option Blocks
  clear_sections pagetable [] b = some b
  clear_sections pagetable (s ∷ sections) b = do
    c ← on_pages_only (free_memory pool pagetable s.section.start s.section.size) b
    d ← kfree pool s.address c
    clear_sections pagetable sections d

  -- The loop of `clear_single_linked_list`
  unfoldable pub free_nodes : List Section → Blocks → Option Blocks
  free_nodes [] b = some b
  free_nodes (s ∷ sections) b = do c ← kfree pool s.node b; free_nodes sections c

  unfoldable pub clear_user_memory_space : Space → Blocks → Option (Blocks × Space)
  clear_user_memory_space task b = do
    c ←
        clear_sections task.pagetable task.mem_sections
          (record b { stack_to_remove_next = task.kernel_stack })
    d ← on_pages_only (free_memory pool task.pagetable task.stack.start task.stack.size) c
    e ← free_nodes task.mem_sections d
    some (e, record task { mem_sections = [] })

  unfoldable pub free_user_memory : Space → Blocks → Option (Blocks × Space)
  free_user_memory task b = do
    c ← on_pages_only (deallocate pool task.trap_frame 0) b
    d ← on_pages_only (deallocate pool task.shared 0) c
    cleared ← clear_user_memory_space task d
    e ← on_pages_only (free_pagetable pool task.pagetable) cleared.0
    some (e, cleared.1)
