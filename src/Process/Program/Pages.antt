-- ===== src/Process/Program/Pages.antt =====
-- Where `exec_process` of kernel/process.c puts the page of vectors.
use toy_riscv_kernel.Prelude.{
  ◌>>=◌, ℕ, ◌+◌, ◌*◌, ◌%◌, ◌^◌, ◌≤◌, ◌≡◌, true, Option, none, some, List, [], ◌∷◌, ◌++◌, arith,
  ◌==◌, StopsIn, false,
}
use toy_riscv_kernel.Machine.{null}
use toy_riscv_kernel.SmallBlocks.{Blocks}
use toy_riscv_kernel.VirtualMemory.{page_size}
use toy_riscv_kernel.Process.Stack.{MemorySection, available_from}
use toy_riscv_kernel.Process.Exec.{exec_registers}
use toy_riscv_kernel.Process.Space.{Space, on_pages, set_stack, clear_user_memory_space}
use toy_riscv_kernel.Process.Fork.Areas.{areas}
use toy_riscv_kernel.Elf.{Elf, load_elf}
use toy_riscv_kernel.Elf.Touched.{load_areas}
use toy_riscv_kernel.Process.Program.{Executed, exits, runs, allocate_two_for_user, map_vectors}

abbrev pub end_of : MemorySection → ℕ
end_of s = (s.start + s.size) % 2 ^ 64

-- All areas end at `va` or below.
abbrev pub AllBelow : ℕ → List MemorySection → Type 0
AllBelow va [] = Unit
AllBelow va (s ∷ ss) = (end_of s ≤ va) × AllBelow va ss

AllBelow-mono : (va va' : ℕ) (ss : List MemorySection) → va ≤ va' → AllBelow va ss → AllBelow va' ss
AllBelow-mono va va' [] le h = h
AllBelow-mono va va' (s ∷ ss) le (first, h) =
    (omega (arith, le, first), AllBelow-mono va va' ss le h)

module _ (pool : ℕ) where
  -- The page of vectors stands above the areas of the program loaded, and is registered behind
  -- them.
  abbrev pub IsPlaced : Elf → Option Executed → Type 0
  IsPlaced elf none = Unit
  IsPlaced elf (some (exits b task)) = Unit
  IsPlaced elf (some (runs b task va)) =
      (areas task.mem_sections
        ≡ load_areas pool elf.headers ++ (record { start = va; size = page_size * 2 } ∷ []))
      × AllBelow va (load_areas pool elf.headers)

  -- The steps in which `exec_process` can panic, each with the ones before it gone through.
  abbrev pub ExecPanics : Elf → (argv_size : ℕ) → Space → Blocks → Type 0
  ExecPanics elf argv_size task b = StopsIn (clear_user_memory_space pool task b) (λ cleared.
      StopsIn (load_elf pool elf (record (cleared.1) { frame = λ field. 0 }) cleared.0) (λ loaded.
        (loaded.1 ≡ true)
        × StopsIn (set_stack pool loaded.0.1 loaded.0.0) (λ stack.
          (stack.1 ≡ true)
          × StopsIn (on_pages (allocate_two_for_user pool) stack.0.0) (λ page.
            let va = available_from (areas (stack.0.1).mem_sections) 0 in
            ((page.1 == null) ≡ false)
            × (map_vectors pool page.1 va (exec_registers argv_size va) stack.0.1 page.0 ≡ none)))))
