-- ===== src/System/Requests.antt =====
-- The system calls of user/system.c: their numbers and arguments, and what is done with the result
-- of the waits. The entry `syscall` itself is assembly.
use toy_riscv_kernel.Prelude.{Option, none, some, ℕ, ◌≡◌, refl, true, ◌==◌, if◌then◌else◌}
use toy_riscv_kernel.Process.{Kernel}
use toy_riscv_kernel.Process.Syscalls.{
  Call, result, sys_exit, sys_wait, sys_wait_pid, sys_send_signal, sys_yield, sys_power_off,
}
use toy_riscv_kernel.Process.Syscalls.Dispatch.{is_known, Replies, sys_fork}

pub data Request : Type 0 where
  fork : Request
  exit : (status : ℕ) → Request
  wait : (status : ℕ) → Request
  wait_pid : (pid status : ℕ) → Request
  send_signal : (pid sig : ℕ) → Request
  yield : Request
  power_off : Request
  put_char : (character : ℕ) → Request
  get_char : Request

unfoldable pub number : Request → ℕ
number fork = 1
number (exit status) = 3
number (wait status) = 4
number (wait_pid pid status) = 5
number (send_signal pid sig) = 6
number yield = 7
number power_off = 8
number (put_char character) = 9
number get_char = 10

-- The first two arguments; the others are 0.
unfoldable pub arguments : Request → ℕ × ℕ
arguments fork = (0, 0)
arguments (exit status) = (status, 0)
arguments (wait status) = (status, 0)
arguments (wait_pid pid status) = (pid, status)
arguments (send_signal pid sig) = (pid, sig)
arguments yield = (0, 0)
arguments power_off = (0, 0)
arguments (put_char character) = (character, 0)
arguments get_char = (0, 0)

-- The new `*status`, for a word of the shared page.
unfoldable pub stored_status : (return_val shared status : ℕ) → ℕ
stored_status return_val shared status = if return_val == 0 then status else shared

-- The kernel knows the number of every request.
pub request_known : (r : Request) → is_known (number r) ≡ true
unfolding number is_known
request_known fork = refl
request_known (exit status) = refl
request_known (wait status) = refl
request_known (wait_pid pid status) = refl
request_known (send_signal pid sig) = refl
request_known yield = refl
request_known power_off = refl
request_known (put_char character) = refl
request_known get_char = refl

-- The function of kernel/process.c that serves a request.
abbrev pub handler : Replies → Request → Kernel → ℕ → Option Call
handler replies fork k task = some (sys_fork replies k task)
handler replies (exit status) k task = some (sys_exit k task)
handler replies (wait status) k task = some (sys_wait k task)
handler replies (wait_pid pid status) k task = some (sys_wait_pid k task)
handler replies (send_signal pid sig) k task = sys_send_signal replies.fuel k task
handler replies yield k task = some (sys_yield k)
handler replies power_off k task = some (sys_power_off k task)
handler replies (put_char character) k task = some (result k 0)
handler replies get_char k task = elim (replies.character) [
  | none ↦ none
  | some (t, c) ↦ some (result t c)
]
