-- ===== src/Process/Syscalls/Dispatch.antt =====
-- `syscall` of kernel/process.c with its table of the system calls. What the unknown call prints is
-- left out.
pub mod Returns
use toy_riscv_kernel.Prelude.{
  ℕ, ◌+◌, ◌%◌, ◌^◌, Bool, ◌&&◌, Option, none, some, ltb, ◌==◌, if◌then◌else◌,
}
use toy_riscv_kernel.Machine.{null}
use toy_riscv_kernel.Process.{Kernel, Outcome, set_task}
use toy_riscv_kernel.Process.Fork.{start_child}
use toy_riscv_kernel.Process.Characters.{sys_put_char}
use toy_riscv_kernel.Process.Syscalls.{
  minus_one, Call, result, waiting, sys_exit, sys_wait, sys_wait_pid, sys_send_signal, sys_yield,
  sys_power_off,
}

-- `id > 0 && id < sizeof(syscalls) / sizeof(syscalls[0])`, for an `int`
abbrev pub is_known : ℕ → Bool
is_known a7 = let id = a7 % 2 ^ 32 in ltb 0 id && ltb id (2 ^ 31) && ltb id 11

-- What `syscall` does with the value of a call that has come back.
unfoldable pub finish_call : Kernel → ℕ → ℕ → Kernel
finish_call k task value = record k {
  tasks =
      set_task k.tasks task
        (record (k.tasks task) { a0 = value; epc = ((k.tasks task).epc + 4) % 2 ^ 64 });
}

-- What the parts of the calls give that work on other memory: the child that `fork_process` makes,
-- with its pid; how a program goes on that `exec_process` starts; the character that `sys_get_char`
-- reads, and the kernel as it is then. `none` is no child, no such program, and no end of the wait.
-- `fuel` is for the line of parents.
pub record Replies : Type 0 where
  pub child : Option (ℕ × ℕ)
  pub program : Option Outcome
  pub character : Option (Kernel × ℕ)
  pub fuel : ℕ

module _ (replies : Replies) where
  unfoldable pub sys_fork : Kernel → ℕ → Call
  sys_fork k task = elim (replies.child) [
    | none ↦ result k minus_one
    | some (child, pid) ↦ result (start_child task child pid k) pid
  ]

  unfoldable pub sys_exec : Kernel → ℕ → Call
  sys_exec k task = elim (replies.program) [
    | none ↦ result k minus_one
    | some outcome ↦ waiting outcome
  ]

  -- The table, for the numbers that `is_known` admits. `none` is a read through NULL, or a wait
  -- that does not end.
  unfoldable pub syscalls : (id : ℕ) → Kernel → ℕ → Option Call
  syscalls id k task =
      let read : Option Call = elim (replies.character) [
        | none ↦ none
        | some (t, c) ↦ some (result t c)
      ] in
      if id == 1
      then some (sys_fork k task)
      else if id == 2
      then some (sys_exec k task)
      else if id == 3
      then some (sys_exit k task)
      else if id == 4
      then some (sys_wait k task)
      else if id == 5
      then some (sys_wait_pid k task)
      else if id == 6
      then sys_send_signal replies.fuel k task
      else if id == 7
      then some (sys_yield k)
      else if id == 8
      then some (sys_power_off k task)
      else if id == 9
      then some (result k (sys_put_char (k.tasks task)).1)
      else read

  -- A call that waits comes back later, and then ends with `finish_call`. `none` is a panic, or the
  -- read through a NULL running task.
  unfoldable pub syscall : Kernel → Option Call
  syscall k =
      let current = k.running_task in
      let a7 = (k.tasks current).a7 in
      let known : Option Call = elim (syscalls (a7 % 2 ^ 32) k current) [
        | none ↦ none
        | some (result t value) ↦ some (result (finish_call t current value) value)
        | some (waiting outcome) ↦ some (waiting outcome)
      ] in
      let unknown =
        result
          (record k {
            tasks = set_task k.tasks current (record (k.tasks current) { a0 = minus_one });
          })
          minus_one in
      if current == null then none else if is_known a7 then known else some unknown
