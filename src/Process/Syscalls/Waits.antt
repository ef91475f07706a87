-- ===== src/Process/Syscalls/Waits.antt =====
-- What the two waits and `sys_send_signal` give.
use toy_riscv_kernel.Prelude.{
  ℕ, ◌<◌, ◌≡◌, ◌∙◌, ◌≢◌, inl, inr, ◌⊎◌, ◌%◌, ◌^◌, true, false, some, List, arith, ◌==◌, Bool-cases,
  length,
}
use Prim.{absurd}
use toy_riscv_kernel.Machine.{null}
use toy_riscv_kernel.LinkedList.Represents.{has}
use toy_riscv_kernel.Process.{
  zombie, dead, set_state, set_task, is_state, Tasks, Kernel, is_alive, has_alive_child_in,
  get_one_zombie_child_in, find_task_in, child_with_pid, is_ancestor,
}
use toy_riscv_kernel.Process.Family.{
  IsChildIn, is_alive-any, has_alive_child-found, get_one_zombie_child-found,
  get_one_zombie_child-none, Lineage, is_ancestor-has,
}
use toy_riscv_kernel.Process.Syscalls.{
  minus_one, result, store_status, reap, sys_wait, sys_wait_pid, sys_send_signal,
}

is_ancestor-null :
    (fuel : ℕ) (tasks : Tasks) (a t : ℕ)
    → (t == null) ≡ true
    → is_ancestor fuel tasks a t ≡ some false
unfolding is_ancestor
is_ancestor-null fuel tasks a t none_found = ground (arith, none_found)

-- Whatever the pid and the signal, for a task that is not NULL, `sys_send_signal` gives -1 and
-- changes nothing, where the target, if there is one, has a line of parents shorter than the fuel.
pub sys_send_signal-refused :
    (fuel : ℕ) (k : Kernel) (task : ℕ) (ts : List ℕ)
    → task ≢ null
    → (find_task_in k.tasks (k.tasks task).a0 k.all_tasks ≢ null
        → Lineage k.tasks (k.tasks (find_task_in k.tasks (k.tasks task).a0 k.all_tasks)).parent ts)
    → length ts < fuel
    → sys_send_signal fuel k task ≡ some (result k minus_one)
unfolding sys_send_signal
sys_send_signal-refused fuel k task ts real line lt =
    let target = find_task_in k.tasks (k.tasks task).a0 k.all_tasks in
    elim (Bool-cases (target == null)) [
      | inl none_found ↦ ground (arith, is_ancestor-null fuel k.tasks task target none_found)
      | inr found ↦
          let walk =
            is_ancestor-has fuel k.tasks task target ts real (ground (arith, found))
              (line (ground (arith, found))) lt in
          let alive : is_alive k.tasks target ≡ true =
            is_alive-any k.tasks target ∙ ground (arith, found) in
          ground (arith, walk, alive)
    ]

-- A zombie child is never reaped by its pid: for a pid that is not -1 and that the first task of
-- the list with it has as a ZOMBIE, `sys_wait_pid` gives -1 and changes nothing.
pub sys_wait_pid-zombie :
    (k : Kernel) (task : ℕ)
    → (k.tasks task).a0 ≢ minus_one
    → is_state (k.tasks (find_task_in k.tasks (k.tasks task).a0 k.all_tasks)).state zombie ≡ true
    → sys_wait_pid k task ≡ result k minus_one
unfolding sys_wait_pid child_with_pid
sys_wait_pid-zombie k task other ended = ground (arith, ended)

module _ (k : Kernel) (task : ℕ) where
  -- Where a task of the list that is not NULL is a ZOMBIE child, `sys_wait` reaps such a child: its
  -- pid is the result, it becomes DEAD, every other task keeps its state, and the lists of tasks
  -- are as before; where the user asked for the status, that of the child, as 32 bits, is in the
  -- memory shared with the waiting task.
  pub sys_wait-zombie :
      (t : ℕ)
      → has null k.all_tasks ≡ false
      → IsChildIn k.tasks task k.all_tasks t
      → is_state (k.tasks t).state zombie ≡ true
      → (child : ℕ) × IsChildIn k.tasks task k.all_tasks child
        × (is_state (k.tasks child).state zombie ≡ true)
        × (u : Kernel) × (sys_wait k task ≡ result u (k.tasks child).pid)
        × ((u.tasks child).state ≡ dead)
        × ((t : ℕ) → (t ≡ child) ⊎ ((u.tasks t).state ≡ (k.tasks t).state))
        × (u.all_tasks ≡ k.all_tasks)
        × (u.runnable_tasks ≡ k.runnable_tasks)
        × (((k.tasks task).a0 ≡ null)
            ⊎ ((u.tasks task).shared ≡ (k.tasks child).exit_status % 2 ^ 32))
  unfolding sys_wait reap set_task
  sys_wait-zombie t real is_child ended =
      let child = get_one_zombie_child_in k.tasks task k.all_tasks in
      let found : child ≢ null = λ e.
        absurd (cc (get_one_zombie_child-none k.tasks task t k.all_tasks real e is_child, ended)) in
      let (family, is_zombie) = get_one_zombie_child-found k.tasks task k.all_tasks found in
      let stored = store_status k task (k.tasks task).a0 (k.tasks child).exit_status in
      let u : Kernel = record stored { tasks = set_state stored.tasks child dead } in
      (
        child,
        family,
        is_zombie,
        u,
        ground (arith, found),
        ground (arith),
        λ t. elim (Bool-cases (t == child)) [
          | inl same ↦ inl (ground (arith, same))
          | inr other ↦ inr (ground (arith, other))
        ],
        ground (arith),
        ground (arith),
        elim (Bool-cases ((k.tasks task).a0 == null)) [
          | inl unasked ↦ inl (ground (arith, unasked))
          | inr asked ↦ inr (ground (arith, asked))
        ],
      )

  -- Where no task of the list is a child, `sys_wait` gives -1 and changes nothing.
  pub sys_wait-childless :
      ((t : ℕ) → IsChildIn k.tasks task k.all_tasks t → ⊥) → sys_wait k task ≡ result k minus_one
  unfolding sys_wait
  sys_wait-childless alone =
      elim (Bool-cases (get_one_zombie_child_in k.tasks task k.all_tasks == null)) [
        | inl no_zombie ↦ elim (Bool-cases (has_alive_child_in k.tasks task k.all_tasks)) [
          | inl some_child ↦
              let (t, child) = has_alive_child-found k.tasks task k.all_tasks some_child in
              absurd (alone t child)
          | inr no_child ↦ ground (arith, no_zombie, no_child)
        ]
        | inr zombie_child ↦ absurd (
            alone (get_one_zombie_child_in k.tasks task k.all_tasks)
              (get_one_zombie_child-found k.tasks task k.all_tasks
                (ground (arith, zombie_child))).0)
      ]
