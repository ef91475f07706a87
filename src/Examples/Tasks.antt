-- ===== src/Examples/Tasks.antt =====
-- The init task at 1, the task 2 that runs, its child 3, and the task 4 that waits for its child 2.
use toy_riscv_kernel.Prelude.{
  none, ◌⊎◌, ◌%◌, ◌^◌, ℕ, ◌+◌, ◌-◌, ◌≤◌, ◌<◌, min, ◌≡◌, refl, sym, subst, inl, true, false, some,
  List, [], ◌∷◌, arith, ◌==◌, if◌then◌else◌,
}
use toy_riscv_kernel.Machine.{Machine}
use toy_riscv_kernel.Process.{
  ProcessState, sleeping, runnable, running, zombie, dead, is_state, Task, Tasks, Kernel, switched,
  yield, find_task_in,
}
use toy_riscv_kernel.Process.Family.{IsChildIn, Lineage}
use toy_riscv_kernel.Process.Reparent.{has_zombie_parent}
use toy_riscv_kernel.Process.Schedule.{IsReady, yield-round_robin}
use toy_riscv_kernel.Process.Syscalls.{
  minus_one, result, sign_extend, sys_wait, sys_wait_pid, sys_send_signal, exit_before_yield,
}
use toy_riscv_kernel.Process.Syscalls.Waits.{
  sys_send_signal-refused, sys_wait_pid-zombie, sys_wait-zombie,
}
use toy_riscv_kernel.Process.Syscalls.Exit.{exit-leaves_no_orphan, exit-wakes_parent}
use toy_riscv_kernel.Process.Syscalls.Dispatch.{Replies}
use toy_riscv_kernel.Process.Stack.{
  MemorySection, min_stack_addr, shared_memory, within_stack_range, try_enlarge_stack,
  try_enlarge_stack-covers,
}
use toy_riscv_kernel.VirtualMemory.{page_round_down}

abbrev task : ProcessState → ℕ → ℕ → ℕ → Task
task state pid parent a0 = record {
  state = state;
  channel = parent;
  pid = pid;
  parent = parent;
  kernel_stack = 0;
  exit_status = 5;
  a0 = a0;
  a1 = 9;
  a7 = 0;
  epc = 0;
  shared = 0;
}

-- The task 2 asks for the child with pid 3, which has the given state.
abbrev tasks : ProcessState → Tasks
tasks child t =
    if t == 1
    then task runnable 1 0 0
    else if t == 2
    then task running 2 4 3
    else if t == 3
    then task child 3 2 0
    else if t == 4
    then record (task sleeping 4 1 0) { channel = 4 }
    else task dead 0 0 0

abbrev kernel : ProcessState → List ℕ → Kernel
kernel child queue = record {
  tasks = tasks child;
  all_tasks = 1 ∷ 4 ∷ 2 ∷ 3 ∷ [];
  runnable_tasks = queue;
  running_task = 2;
  init = 1;
  stack_to_remove = 0;
  stack_to_remove_next = 0;
  sie = true;
  released = [];
  freed_memory = [];
  powered_off = false;
}

ready : IsReady (kernel dead (1 ∷ [])).tasks (1 ∷ [])
ready = (omega arith, refl, refl, record {})

yield-round_robin_example :
    (k' : Kernel) × (yield (kernel dead (1 ∷ [])) ≡ switched k' 2 1)
    × (k'.running_task ≡ 1)
    × ((k'.tasks 1).state ≡ running)
    × (k'.runnable_tasks ≡ 2 ∷ [])
    × IsReady k'.tasks k'.runnable_tasks
    × (k'.sie ≡ true)
yield-round_robin_example = yield-round_robin (kernel dead (1 ∷ [])) 1 [] (omega arith) refl ready

child_found : find_task_in (tasks zombie) 3 (1 ∷ 4 ∷ 2 ∷ 3 ∷ []) ≡ 3
unfolding find_task_in
child_found = refl

lineage :
    Lineage
      (tasks zombie)
      ((tasks zombie) (find_task_in (tasks zombie) 3 (1 ∷ 4 ∷ 2 ∷ 3 ∷ []))).parent
      (2 ∷ 4 ∷ 1 ∷ [])
lineage =
    subst (λ t. Lineage (tasks zombie) (tasks zombie t).parent (2 ∷ 4 ∷ 1 ∷ [])) (sym child_found)
      (refl, omega arith, (refl, omega arith, (refl, omega arith, refl)))

sys_send_signal-refused_example :
    sys_send_signal 4 (kernel zombie []) 2 ≡ some (result (kernel zombie []) minus_one)
sys_send_signal-refused_example =
    sys_send_signal-refused 4 (kernel zombie []) 2 (2 ∷ 4 ∷ 1 ∷ []) (omega arith) (λ _. lineage)
      (omega arith)

child_zombie :
    is_state (tasks zombie (find_task_in (tasks zombie) 3 (1 ∷ 4 ∷ 2 ∷ 3 ∷ []))).state zombie ≡ true
child_zombie = subst (λ t. is_state (tasks zombie t).state zombie ≡ true) (sym child_found) refl

sys_wait_pid-zombie_example :
    sys_wait_pid (kernel zombie []) 2 ≡ result (kernel zombie []) minus_one
sys_wait_pid-zombie_example = sys_wait_pid-zombie (kernel zombie []) 2 (omega arith) child_zombie

sys_wait-zombie_example :
    let k = kernel zombie [] in
    (child : ℕ) × IsChildIn (tasks zombie) 2 (1 ∷ 4 ∷ 2 ∷ 3 ∷ []) child
    × (is_state (tasks zombie child).state zombie ≡ true)
    × (u : Kernel) × (sys_wait k 2 ≡ result u (tasks zombie child).pid)
    × ((u.tasks child).state ≡ dead)
    × ((t : ℕ) → (t ≡ child) ⊎ ((u.tasks t).state ≡ (tasks zombie t).state))
    × (u.all_tasks ≡ 1 ∷ 4 ∷ 2 ∷ 3 ∷ [])
    × (u.runnable_tasks ≡ [])
    × (((k.tasks 2).a0 ≡ 0) ⊎ ((u.tasks 2).shared ≡ (tasks zombie child).exit_status % 2 ^ 32))
sys_wait-zombie_example = sys_wait-zombie (kernel zombie []) 2 3 refl (refl, refl, omega arith) refl

childless : (t : ℕ) → IsChildIn (tasks dead) 3 (1 ∷ 4 ∷ 2 ∷ 3 ∷ []) t → ⊥
childless t (there, child, real) = ground (arith, there, child)

exit-leaves_no_orphan_example :
    has_zombie_parent (exit_before_yield (kernel runnable []) 2 0).tasks 3 ≡ false
exit-leaves_no_orphan_example =
    exit-leaves_no_orphan (kernel runnable []) 2 0 3 (omega arith) refl refl

exit-wakes_parent_example :
    let k' = exit_before_yield (kernel runnable []) 2 7 in
    let parent = k'.tasks 4 in
    ((k'.tasks 2).state ≡ dead)
    × (parent.state ≡ runnable)
    × (parent.a0 ≡ 2)
    × (parent.a1 ≡ sign_extend 7)
    × (k'.runnable_tasks ≡ 4 ∷ [])
exit-wakes_parent_example = exit-wakes_parent (kernel runnable []) 2 7 (omega arith) refl (inl refl)

abbrev stack : MemorySection
stack = record { start = shared_memory - 4096; size = 4096 }

abbrev machine : Machine
machine = record { mem = λ _. 0; sie = true }

on_stack :
    try_enlarge_stack 0 0 0 (shared_memory - 100) machine stack ≡ some ((machine, stack), true)
unfolding try_enlarge_stack within_stack_range page_round_down
on_stack = refl

aligned : page_round_down stack.start ≡ stack.start
unfolding page_round_down
aligned = refl

try_enlarge_stack-covers_example :
    (stack.start + stack.size ≡ stack.start + stack.size)
    × (true ≡ true
        → (min_stack_addr ≤ shared_memory - 100)
          × (shared_memory - 100 < shared_memory)
          × (stack.start ≡ min stack.start (page_round_down (shared_memory - 100))))
try_enlarge_stack-covers_example =
    try_enlarge_stack-covers 0 0 0 (shared_memory - 100) machine machine stack stack true aligned
      (omega arith) on_stack

-- The task 2 makes the call `power_off`, which the kernel refuses to all but init.
abbrev calling : Kernel
calling = record (kernel dead []) { tasks = λ t. record (tasks dead t) { a7 = 8; epc = 4096 } }

abbrev replies : Replies
replies = record { child = none; program = none; character = none; fuel = 4 }
