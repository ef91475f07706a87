-- ===== src/Process/Syscalls/Dispatch/Returns.antt =====
-- How the system calls of kernel/process.c come back to the user program.
use toy_riscv_kernel.Prelude.{ℕ, ◌≡◌, ◌≢◌, Option, none, some}
use toy_riscv_kernel.Process.{Kernel}
use toy_riscv_kernel.Process.Syscalls.{Call, result, waiting}
use toy_riscv_kernel.Process.Syscalls.Dispatch.{Replies}

-- A call that comes back leaves the `epc` of the task as it was.
unfoldable Keeps : Kernel → ℕ → Call → Type 0
Keeps k task (result t value) = (t.tasks task).epc ≡ (k.tasks task).epc
Keeps k task (waiting outcome) = Unit

-- The child that `fork_process` makes is another task, and `sys_get_char` comes back to a kernel
-- with the `epc` of the task unchanged.
abbrev OtherTask : ℕ → Option (ℕ × ℕ) → Type 0
OtherTask task none = Unit
OtherTask task (some (child, pid)) = child ≢ task

abbrev SameEpc : Kernel → ℕ → Option (Kernel × ℕ) → Type 0
SameEpc k task none = Unit
SameEpc k task (some (t, c)) = (t.tasks task).epc ≡ (k.tasks task).epc

abbrev pub IsReply : Kernel → ℕ → Replies → Type 0
IsReply k task replies = OtherTask task replies.child × SameEpc k task replies.character

unfoldable KeepsAny : Kernel → ℕ → Option Call → Type 0
KeepsAny k task none = Unit
KeepsAny k task (some c) = Keeps k task c
