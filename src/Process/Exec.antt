-- ===== src/Process/Exec.antt =====
-- What `exec_process` of kernel/process.c makes of the page shared with the task: the vectors for
-- the new program, which are words of the memory, and the name of the task. A loop that looks for a
-- byte runs on fuel, and `none` is fuel run out, or a store outside the two pages of the vectors.
pub mod Vectors
pub mod RoundTrip
pub mod Name
use toy_riscv_kernel.Prelude.{
  ◌>>=◌, ℕ, zero, suc, ◌+◌, ◌-◌, ◌*◌, ◌%◌, ◌^◌, not, Option, none, some, List, [], ◌∷◌, leb, ◌==◌,
  if◌then◌else◌,
}
use toy_riscv_kernel.Machine.{Mem, write}

-- `while (*ptr != '\0') ptr++`
unfoldable pub past_string : ℕ → (ℕ → ℕ) → ℕ → Option ℕ
past_string zero m ptr = none
past_string (suc fuel) m ptr =
    let rest = past_string fuel m (ptr + 1) in if m ptr == 0 then some ptr else rest

-- `while (*ptr == '\0') ptr++`
unfoldable pub past_nuls : ℕ → (ℕ → ℕ) → ℕ → Option ℕ
past_nuls zero m ptr = none
past_nuls (suc fuel) m ptr =
    let rest = past_nuls fuel m (ptr + 1) in if m ptr == 0 then rest else some ptr

-- A word is stored at `ptr`; a store behind the two pages, which end at `end`, ends the run.
unfoldable pub store : (end ptr value : ℕ) → Mem → Option Mem
store end ptr value w = if leb (ptr + 8) end then some (write w ptr value) else none

module _ (fuel : ℕ) (m : ℕ → ℕ) (shared_memory : ℕ) where
  -- `argv`, where `ptr` stands behind the name.
  unfoldable pub find_argv : Option ℕ
  find_argv = do end ← past_string fuel m shared_memory; past_nuls fuel m end

  -- One of the two loops that fill a vector at `ptr`, for the strings from `arg` on, and the NULL
  -- behind it.
  unfoldable pub fill_vector : (end count va arg ptr : ℕ) → Mem → Option Mem
  fill_vector end zero va arg ptr w = store end ptr 0 w
  fill_vector end (suc count) va arg ptr w = do
    stored ← store end ptr ((va + (arg - shared_memory)) % 2 ^ 64) w
    past ← past_string fuel m arg
    fill_vector end count va (past + 1) (ptr + 8) stored

  -- The words at `argv_ptr` and at `envp_ptr`, behind the copy of the shared page at `page`, which
  -- is mapped at `va`.
  unfoldable pub exec_vectors : (page argv_size envp_size va : ℕ) → Mem → Option Mem
  exec_vectors page argv_size envp_size va w = do
    argv ← find_argv
    first ← fill_vector (page + 8192) argv_size va argv (page + 4096) w
    fill_vector (page + 8192) envp_size va (argv + argv_size) (page + 4096 + 8 * (argv_size + 1))
        first

  -- The loop that changes the name, with `count` rounds to go: the characters written.
  unfoldable pub rename : (count arguments arguments_count argv_size : ℕ) → Option (List ℕ)
  rename zero arguments arguments_count argv_size = some []
  rename (suc count) arguments arguments_count argv_size =
      let on = (do
        cs ← rename count (arguments + 1) arguments_count argv_size
        some (m arguments ∷ cs)) in
      let next = (do
        argument ← past_nuls fuel m arguments
        cs ← rename count argument (arguments_count + 1) argv_size
        some (b' ' ∷ cs)) in
      if not (m arguments == 0)
      then on
      else if leb argv_size (arguments_count + 1)
      then some []
      else next

-- The three words of the trap frame that the new program starts with.
unfoldable pub exec_registers : (argv_size va : ℕ) → ℕ × ℕ × ℕ
exec_registers argv_size va =
    (argv_size, (va + 4096) % 2 ^ 64, (va + (4096 + 8 * (argv_size + 1))) % 2 ^ 64)
