-- ===== src/Process/Syscalls.antt =====
-- The system calls of kernel/process.c that change tasks, up to a switch: `exit_process`, `sleep`,
-- the waits, `sys_send_signal`, `sys_yield` and `sys_power_off`.
pub mod Waits
pub mod Exit
pub mod Dispatch
use toy_riscv_kernel.Prelude.{
  ℕ, ◌+◌, ◌-◌, ◌%◌, ◌^◌, true, not, ◌&&◌, ◌||◌, Option, none, some, List, [], ◌∷◌, ◌++◌, leb, ◌==◌,
  if◌then◌else◌,
}
use toy_riscv_kernel.Machine.{null}
use toy_riscv_kernel.Process.{
  ProcessState, sleeping, runnable, running, zombie, dead, is_state, Task, Tasks, Kernel, set_task,
  set_state, Outcome, returned, switched, panicked, faulted, yield, reparent_all, is_alive,
  has_alive_child_in, get_one_zombie_child_in, find_task_in, child_with_pid, is_ancestor,
}

-- -1 as a uint64
abbrev pub minus_one : ℕ
minus_one = 2 ^ 64 - 1

-- An `int`, as a uint64.
unfoldable pub sign_extend : ℕ → ℕ
sign_extend n = let low = n % 2 ^ 32 in if leb (2 ^ 31) low then low + (2 ^ 64 - 2 ^ 32) else low

-- How a system call ends: with its result, or in the `yield` of a task that waits.
pub data Call : Type 0 where
  result : Kernel → ℕ → Call
  waiting : Outcome → Call

abbrev pub free_user_memory : Kernel → ℕ → Kernel
free_user_memory k task = record k {
  freed_memory = task ∷ k.freed_memory;
  stack_to_remove_next = (k.tasks task).kernel_stack;
}

-- `removeAt` of a task: the node at the head is passed over.
abbrev pub remove_first : ℕ → List ℕ → List ℕ
remove_first t [] = []
remove_first t (u ∷ us) = if u == t then us else u ∷ remove_first t us

abbrev pub remove_at : ℕ → List ℕ → List ℕ
remove_at t [] = []
remove_at t (u ∷ us) = u ∷ remove_first t us

-- The wake-up of the parent in `exit_process`.
unfoldable pub wake_parent : Kernel → ℕ → Kernel
wake_parent k task =
    let parent = (k.tasks task).parent in
    let waiter = k.tasks parent in
    let ended = set_state k.tasks task dead in
    if is_state waiter.state sleeping && ((waiter.channel == parent) || (waiter.channel == task))
    then record k {
      tasks = set_task ended parent (record (ended parent) {
        state = runnable;
        a0 = (k.tasks task).pid;
        a1 = sign_extend (k.tasks task).exit_status;
      });
      runnable_tasks = k.runnable_tasks ++ (parent ∷ []);
    }
    else k

-- `exit_process` up to its `yield`.
unfoldable pub exit_before_yield : Kernel → ℕ → ℕ → Kernel
exit_before_yield k task status =
    let freed = free_user_memory k task in
    let ended =
      set_task freed.tasks task
        (record (freed.tasks task) { state = zombie; exit_status = status }) in
    wake_parent (record freed { tasks = reparent_all freed.init freed.all_tasks ended }) task

-- A `yield` that returns runs into the panic at the end.
unfoldable pub exit_process : Kernel → ℕ → ℕ → Outcome
exit_process k task status =
    if task == null
    then panicked
    else if (k.tasks task).parent == null
    then panicked
    else elim (yield (exit_before_yield k task status)) [
      | returned _ ↦ panicked
      | switched k' from to ↦ switched k' from to
      | panicked ↦ panicked
      | faulted ↦ faulted
    ]

abbrev pub sys_exit : Kernel → ℕ → Call
sys_exit k task = waiting (exit_process k task ((k.tasks task).a0 % 2 ^ 32))

unfoldable pub sleep : Kernel → ℕ → ℕ → Outcome
sleep k task channel = yield (record k {
  tasks = set_task k.tasks task (record (k.tasks task) { state = sleeping; channel = channel });
  runnable_tasks = remove_at task k.runnable_tasks;
})

-- `*status = value` at the start of the shared memory, where the user asked for it.
abbrev pub store_status : Kernel → ℕ → ℕ → ℕ → Kernel
store_status k task status_ptr value = if status_ptr == 0 then k else record k {
  tasks = set_task k.tasks task (record (k.tasks task) { shared = value % 2 ^ 32 });
}

-- The end of the two waits for a child that is a zombie.
unfoldable pub reap : Kernel → ℕ → ℕ → ℕ → Call
reap k task status_ptr child =
    let stored = store_status k task status_ptr (k.tasks child).exit_status in
    result (record stored { tasks = set_state stored.tasks child dead }) (k.tasks child).pid

unfoldable pub sys_wait : Kernel → ℕ → Call
sys_wait k task =
    let child = get_one_zombie_child_in k.tasks task k.all_tasks in
    if not (child == null)
    then reap k task (k.tasks task).a0 child
    else if not (has_alive_child_in k.tasks task k.all_tasks)
    then result k minus_one
    else waiting (sleep k task task)

unfoldable pub sys_wait_pid : Kernel → ℕ → Call
sys_wait_pid k task =
    let pid = (k.tasks task).a0 in
    let status_ptr = (k.tasks task).a1 in
    let any = get_one_zombie_child_in k.tasks task k.all_tasks in
    let child = child_with_pid k task pid in
    if pid == minus_one
    then if not (any == null)
      then reap k task status_ptr any
      else if not (has_alive_child_in k.tasks task k.all_tasks)
      then result k minus_one
      else waiting (sleep k task task)
    else if child == null
    then result k minus_one
    else if is_state (k.tasks child).state zombie
    then reap k task status_ptr child
    else waiting (sleep k task child)

-- What the two waits do once their task runs again.
unfoldable pub resume_wait : Kernel → ℕ → ℕ → Call
resume_wait k task status_ptr =
    let stored = store_status k task status_ptr (k.tasks task).a1 in
    result stored (stored.tasks task).a0

unfoldable pub sys_send_signal : ℕ → Kernel → ℕ → Option Call
sys_send_signal fuel k task =
    let target = find_task_in k.tasks (k.tasks task).a0 k.all_tasks in
    let signal = sign_extend (k.tasks task).a1 in
    elim (is_ancestor fuel k.tasks task target) [
      | none ↦ none
      | some related ↦ some (
          if not related || is_alive k.tasks target
          then result k minus_one
          else if signal == 2
          then waiting (exit_process k target 2)
          else if signal == 9
          then waiting (exit_process k target 9)
          else result k signal)
    ]

abbrev pub sys_yield : Kernel → Call
sys_yield k = waiting (yield k)

unfoldable pub sys_power_off : Kernel → ℕ → Call
sys_power_off k task =
    if not ((k.tasks task).pid == 1)
    then result k minus_one
    else result (record k { powered_off = true }) 0
