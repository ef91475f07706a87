-- ===== src/System.antt =====
-- user/system.c: `exec` of the user library, which lays its strings out in the page that the task
-- shares with the kernel. The page starts at `shared_memory` in a memory of bytes; a string
-- argument is given without its NUL, and a vector without its NULL.

pub mod Marshalled
pub mod Exec
pub mod Ends
pub mod Requests
use toy_riscv_kernel.Prelude.{ℕ, zero, suc, ◌+◌, List, [], ◌∷◌, ltb, ◌==◌, if◌then◌else◌, drop}
use toy_riscv_kernel.Machine.{write}

-- `s[i]`, the NUL included.
abbrev pub char_at : List ℕ → ℕ → ℕ
char_at s i = elim (drop i s) [ [] ↦ 0 | c ∷ _ ↦ c ]

-- The variables of `exec`, with the memory that it writes.
pub record Marshal : Type 0 where
  pub state : ℕ
  pub count1 : ℕ
  pub count2 : ℕ
  pub argv_size : ℕ
  pub envp_size : ℕ
  pub i : ℕ
  pub mem : ℕ → ℕ

module _ (shared_memory : ℕ) where
  -- One character of the string that `count1` and `count2` stand at.
  unfoldable pub copy_char : List ℕ → Marshal → Marshal
  copy_char s m =
      let c = char_at s m.count2 in
      let ends = c == 0 in
      record m {
        mem = write m.mem (shared_memory + m.i) c;
        count1 = if ends then m.count1 + 1 else m.count1;
        count2 = if ends then 0 else m.count2 + 1;
        i = m.i + 1;
      }

  unfoldable pub name_step : List ℕ → Marshal → Marshal
  name_step name m =
      let c = char_at name m.i in
      record m {
        mem = write m.mem (shared_memory + m.i) c;
        state = if c == 0 then 1 else m.state;
        i = m.i + 1;
      }

  unfoldable pub argv_step : List (List ℕ) → Marshal → Marshal
  argv_step argv m = elim (drop m.count1 argv) [
    | [] ↦ record m { state = 2; argv_size = m.count1; count1 = 0; count2 = 0 }
    | s ∷ _ ↦ copy_char s m
  ]

  unfoldable pub envp_step : List (List ℕ) → Marshal → Marshal
  envp_step envp m = elim (drop m.count1 envp) [
    | [] ↦ record m { mem = write m.mem (shared_memory + m.i) 0; envp_size = m.count1; i = m.i + 1 }
    | s ∷ _ ↦ copy_char s m
  ]

  -- One round of the loop, with its `++i`.
  unfoldable pub exec_step : List ℕ → (argv envp : List (List ℕ)) → Marshal → Marshal
  exec_step name argv envp m =
      if m.state == 0
      then name_step name m
      else if m.state == 1
      then argv_step argv m
      else if m.state == 2
      then envp_step envp m
      else record m { i = m.i + 1 }

  unfoldable pub exec_loop : ℕ → List ℕ → (argv envp : List (List ℕ)) → Marshal → Marshal
  exec_loop zero name argv envp m = m
  exec_loop (suc fuel) name argv envp m =
      let rest = exec_loop fuel name argv envp (exec_step name argv envp m) in
      if ltb m.i 4096 then rest else m

  -- The memory at the system call, and its arguments `argv_size` and `envp_size`. The loop has a
  -- round for each byte and the one that goes on to `envp`.
  unfoldable pub exec : List ℕ → (argv envp : List (List ℕ)) → (ℕ → ℕ) → (ℕ → ℕ) × ℕ × ℕ
  exec name argv envp mem =
      let m = exec_loop 4097 name argv envp (record {
        state = 0;
        count1 = 0;
        count2 = 0;
        argv_size = 0;
        envp_size = 0;
        i = 0;
        mem = mem;
      }) in
      (write m.mem (shared_memory + 4095) 0, m.argv_size, m.envp_size)
