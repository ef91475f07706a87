-- ===== src/Elf.antt =====
-- kernel/elf.c with `map_section_for_user` of kernel/virtual_memory.c: the loading of a program.
-- The headers are read through the types of the system's elf.h, as records. `none` is a panic.
pub mod Touched
pub mod Loaded
use toy_riscv_kernel.Prelude.{
  ◌>>=◌, ℕ, zero, suc, ◌+◌, ◌-◌, ◌/◌, ◌%◌, ◌^◌, min, max, Bool, true, false, not, ◌&&◌, Option,
  some, List, [], ◌∷◌, ltb, ◌==◌, if◌then◌else◌,
}
use Prim.Native.Nat.{bit_or}
use toy_riscv_kernel.Machine.{null, Machine}
use toy_riscv_kernel.SmallBlocks.{Blocks}
use toy_riscv_kernel.VirtualMemory.{page_size, page_round_down, free_memory}
use toy_riscv_kernel.VirtualMemory.Sections.{map_page_for_user}
use toy_riscv_kernel.Trap.Frame.{epc, set}
use toy_riscv_kernel.Process.Space.{Space, on_pages, on_pages_only, register_memory_section}

-- `Elf64_Phdr`
pub record ProgramHeader : Type 0 where
  pub p_type : ℕ
  pub p_flags : ℕ
  pub p_offset : ℕ
  pub p_vaddr : ℕ
  pub p_filesz : ℕ
  pub p_memsz : ℕ

-- The file at `address`: its first four bytes, the entry point, and the program headers.
pub record Elf : Type 0 where
  pub address : ℕ
  pub magic : ℕ → ℕ
  pub e_entry : ℕ
  pub headers : List ProgramHeader

abbrev pub pt_load : ℕ
pt_load = 1

abbrev pub pt_gnu_stack : ℕ
pt_gnu_stack = 1685382481

-- `true` is the result 0, `false` the result -1.
unfoldable pub check_elf_magic : Elf → Bool
check_elf_magic elf =
    (elf.magic 0 == 127) && (elf.magic 1 == b'E') && (elf.magic 2 == b'L') && (elf.magic 3 == b'F')

-- PGROUNDUP, in 64 bits
abbrev pub page_round_up : ℕ → ℕ
page_round_up sz = page_round_down ((sz + (page_size - 1)) % 2 ^ 64)

module _ (pool : ℕ) where
  module _ (pagetable va_start src_end page_start permission : ℕ) where
    -- The loop of `map_section_for_user`, for `count` pages from `page_addr` on.
    unfoldable pub map_section_from :
        (count page_addr src_addr : ℕ) → Machine → Option (Machine × Bool)
    map_section_from zero page_addr src_addr s = some (s, true)
    map_section_from (suc count) page_addr src_addr s = do
      let dest_start = max va_start page_addr
      let dest_end = min src_end (page_addr + page_size)
      let copy_size = if ltb dest_start dest_end then dest_end - dest_start else 0
      mapped ← map_page_for_user pool pagetable dest_start src_addr copy_size permission s
      let failed = (do
        t ← free_memory pool pagetable page_start (page_addr - page_start) mapped.0
        some (t, false))
      let rest =
          map_section_from count (page_addr + page_size)
            ((src_addr + (2 ^ 64 + dest_end - dest_start)) % 2 ^ 64) mapped.0
      if mapped.1 then rest else failed

  unfoldable pub map_section_for_user :
      (pagetable va_start src src_size size permission : ℕ) → Machine → Option (Machine × Bool)
  map_section_for_user pagetable va_start src src_size size permission =
      let va_end = (va_start + size) % 2 ^ 64 in
      let src_end = (va_start + src_size) % 2 ^ 64 in
      let page_start = page_round_down va_start in
      map_section_from pagetable va_start src_end page_start permission
        ((va_end - page_start + (page_size - 1)) / page_size) page_start src

  abbrev pub flag : (flags bit permission : ℕ) → ℕ
  flag flags bit permission = if flags / bit % 2 == 0 then 0 else permission

  -- PF_R, PF_W and PF_X are 4, 2 and 1.
  abbrev pub permission_of : ℕ → ℕ
  permission_of flags =
      bit_or (bit_or (bit_or 16 (flag flags 4 2)) (flag flags 2 4)) (flag flags 1 8)

  abbrev pub section_start : ProgramHeader → ℕ
  section_start p = page_round_down p.p_vaddr

  abbrev pub section_size : ProgramHeader → ℕ
  section_size p =
      (page_round_up ((p.p_vaddr + p.p_memsz) % 2 ^ 64) + 2 ^ 64 - section_start p) % 2 ^ 64

  -- The body of the loop of `load_elf` for a header of type PT_LOAD.
  unfoldable pub load_section :
      (elf : ℕ) → ProgramHeader → Space → Blocks → Option ((Blocks × Space) × Bool)
  load_section elf p task b = do
    mapped ←
        on_pages
          (map_section_for_user task.pagetable p.p_vaddr ((elf + p.p_offset) % 2 ^ 64) p.p_filesz
            p.p_memsz (permission_of p.p_flags))
          b
    let registered = (do
      added ← register_memory_section pool task (section_start p) (section_size p) mapped.0
      let undone = (do
        c ← on_pages_only (free_memory pool task.pagetable p.p_vaddr (section_size p)) added.0.0
        some ((c, added.0.1), false))
      if added.1 then some added else undone)
    if mapped.1 then registered else some ((mapped.0, task), false)

  abbrev pub executable_stack : ProgramHeader → Space → Space
  executable_stack p task =
      if p.p_type == pt_gnu_stack
      then record task { stack_permission = bit_or (task.stack_permission) 8 }
      else task

  unfoldable pub load_sections :
      (elf : ℕ) → List ProgramHeader → Space → Blocks → Option ((Blocks × Space) × Bool)
  load_sections elf [] task b = some ((b, task), true)
  load_sections elf (p ∷ headers) task b =
      let task1 = executable_stack p task in
      let skipped = load_sections elf headers task1 b in
      let loaded = (do
        result ← load_section elf p task1 b
        if result.1 then load_sections elf headers result.0.1 result.0.0 else some result) in
      if not (p.p_type == pt_load) then skipped else loaded

  unfoldable pub load_elf : Elf → Space → Blocks → Option ((Blocks × Space) × Bool)
  load_elf elf task b =
      let loaded = (do
        result ← load_sections elf.address elf.headers task b
        let entered = record (result.0.1) { frame = set epc elf.e_entry (result.0.1).frame }
        if result.1 then some ((result.0.0, entered), true) else some result) in
      if check_elf_magic elf then loaded else some ((b, task), false)
