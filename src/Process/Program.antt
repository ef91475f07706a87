-- ===== src/Process/Program.antt =====
-- `elf_file`, the memory work of `exec_process`, and `init_scheduler` of kernel/process.c. The
-- contents of the page of vectors are those of Exec. `none` is a panic, and fuel run out in the
-- comparison of names.
pub mod Pages
use toy_riscv_kernel.Prelude.{
  ◌>>=◌, ℕ, ◌+◌, ◌*◌, ◌%◌, ◌^◌, Bool, false, Option, none, some, [], ◌∷◌, ◌==◌, if◌then◌else◌,
}
use toy_riscv_kernel.Machine.{null, Machine}
use toy_riscv_kernel.Buddy.{allocate}
use toy_riscv_kernel.SmallBlocks.{Blocks}
use toy_riscv_kernel.VirtualMemory.{page_size, clear_page, map_page}
use toy_riscv_kernel.Strings.{strcmp}
use toy_riscv_kernel.Trap.Frame.{a0, a1, a2, TrapFrame, set}
use toy_riscv_kernel.Process.Stack.{MemorySection, available_from}
use toy_riscv_kernel.Process.Exec.{exec_registers}
use toy_riscv_kernel.Process.Space.{
  Section, Space, on_pages, on_pages_only, register_memory_section, set_stack,
  clear_user_memory_space,
}
use toy_riscv_kernel.Process.Fork.{urw_permission, new_task}
use toy_riscv_kernel.Process.Fork.Areas.{areas}
use toy_riscv_kernel.Elf.{Elf, load_elf}

-- Where the names of the programs and the programs stand.
pub record Programs : Type 0 where
  pub init_name : ℕ
  pub sh_name : ℕ
  pub echo_name : ℕ
  pub init_program : ℕ
  pub sh : ℕ
  pub echo : ℕ

unfoldable pub elf_file : (fuel : ℕ) → Programs → (ℕ → ℕ) → ℕ → Option ℕ
elf_file fuel at m name = do
  is_init ← strcmp fuel m name at.init_name
  let not_init = (do
    is_sh ← strcmp fuel m name at.sh_name
    let not_sh = (do
      is_echo ← strcmp fuel m name at.echo_name
      some (if is_echo == 0 then at.echo else null))
    if is_sh == 0 then some at.sh else not_sh)
  if is_init == 0 then some at.init_program else not_init

-- How `exec_process` ends after the file is found: it calls `exit_process` with -1, or goes to the
-- program.
pub data Executed : Type 0 where
  exits : Blocks → Space → Executed
  runs : Blocks → Space → (va : ℕ) → Executed

module _ (pool : ℕ) where
  -- `allocate_for_user(1)`
  unfoldable pub allocate_two_for_user : Machine → Option (Machine × ℕ)
  allocate_two_for_user s = do
    allocated ← allocate pool 1 s
    let cleared = record (allocated.0) {
      mem = clear_page (clear_page (allocated.0).mem allocated.1) (allocated.1 + page_size);
    }
    if allocated.1 == null then some allocated else some (cleared, allocated.1)

  -- The registers, the registration and the mapping of the page of vectors; the flag is false where
  -- something is refused.
  unfoldable pub map_vectors :
      (page va : ℕ) → (registers : ℕ × ℕ × ℕ) → Space → Blocks → Option ((Blocks × Space) × Bool)
  map_vectors page va registers task b = do
    let frame = set a2 registers.2 (set a1 registers.1 (set a0 registers.0 task.frame))
    registered ← register_memory_section pool (record task { frame = frame }) va (page_size * 2) b
    let mapped = (do
      first ← on_pages (map_page pool task.pagetable va page urw_permission) registered.0.0
      let second = (do
        other ←
            on_pages
              (map_page pool task.pagetable ((va + page_size) % 2 ^ 64) (page + page_size)
                urw_permission)
              first.0
        some ((other.0, registered.0.1), other.1 == 0))
      if first.1 == 0 then second else some ((first.0, registered.0.1), false))
    if registered.1 then mapped else some registered

  unfoldable pub exec_process : Elf → (argv_size : ℕ) → Space → Blocks → Option Executed
  exec_process elf argv_size task b = do
    cleared ← clear_user_memory_space pool task b
    loaded ← load_elf pool elf (record (cleared.1) { frame = λ field. 0 }) cleared.0
    let stacked = (do
      stack ← set_stack pool loaded.0.1 loaded.0.0
      let paged = (do
        page ← on_pages allocate_two_for_user stack.0.0
        let va = available_from (areas (stack.0.1).mem_sections) 0
        let vectors = (do
          mapped ← map_vectors page.1 va (exec_registers argv_size va) stack.0.1 page.0
          if mapped.1
              then some (runs mapped.0.0 mapped.0.1 va)
              else some (exits mapped.0.0 mapped.0.1))
        if page.1 == null then some (exits page.0 stack.0.1) else vectors)
      if stack.1 then paged else some (exits stack.0.0 stack.0.1))
    if loaded.1 then stacked else some (exits loaded.0.0 loaded.0.1)

  -- The first task, whose program is loaded without a look at the result.
  unfoldable pub init_scheduler :
      (stale : Space) → (trampoline kernel_pagetable : ℕ) → Elf → Blocks → Option (Blocks × Space)
  init_scheduler stale trampoline kernel_pagetable init_program b = do
    made ← new_task pool stale trampoline kernel_pagetable (b'i' ∷ b'n' ∷ b'i' ∷ b't' ∷ []) b
    init_task ← made.1
    loaded ← load_elf pool init_program init_task made.0
    stack ← set_stack pool loaded.0.1 loaded.0.0
    let paged = (do
      page ← on_pages allocate_two_for_user stack.0.0
      let va = available_from (areas (stack.0.1).mem_sections) 0
      let registers : ℕ × ℕ × ℕ =
          (1, (va + page_size) % 2 ^ 64, (va + (page_size + 2 * 8)) % 2 ^ 64)
      let vectors = (do
        mapped ← map_vectors page.1 va registers stack.0.1 page.0
        if mapped.1 then some mapped.0 else none)
      if page.1 == null then none else vectors)
    if stack.1 then paged else none
