-- ===== src/Process.antt =====
-- Tasks and the scheduler of kernel/process.c. A task is known by the address of its `task_struct`,
-- and a list of tasks by the sequence of its nodes' data (the operations on sequences are those
-- that LinkedList shows the lists to be); the node of the running task is known by its task, 0
-- where it is NULL. `switch_context` ends a step: `switched` names the contexts saved and loaded, 0
-- for `now_context`. The pages given back by `free_user_memory` and in `yield` are recorded.
pub mod Update
pub mod Reparent
pub mod Family
pub mod Schedule
pub mod Turns
pub mod Syscalls
pub mod Stack
pub mod Exec
pub mod Space
pub mod Fork
pub mod Program
pub mod Characters
use toy_riscv_kernel.Prelude.{
  ℕ, zero, suc, ◌+◌, Bool, true, false, not, ◌&&◌, ◌||◌, Option, none, some, List, [], ◌∷◌, ◌++◌,
  ◌==◌, if◌then◌else◌,
}
use toy_riscv_kernel.Machine.{null}

pub data ProcessState : Type 0 where
  sleeping : ProcessState
  runnable : ProcessState
  running : ProcessState
  zombie : ProcessState
  dead : ProcessState

abbrev pub is_state : ProcessState → ProcessState → Bool
is_state sleeping sleeping = true
is_state runnable runnable = true
is_state running running = true
is_state zombie zombie = true
is_state dead dead = true
is_state _ _ = false

-- What is read and written here of a `task_struct`, with the registers of its trap frame and the
-- word at the start of its shared memory.
pub record Task : Type 0 where
  pub state : ProcessState
  pub channel : ℕ
  pub pid : ℕ
  pub parent : ℕ
  pub kernel_stack : ℕ
  pub exit_status : ℕ
  pub a0 : ℕ
  pub a1 : ℕ
  pub a7 : ℕ
  pub epc : ℕ
  pub shared : ℕ

abbrev pub Tasks : Type 0
Tasks = ℕ → Task

pub record Kernel : Type 0 where
  pub tasks : Tasks
  pub all_tasks : List ℕ
  pub runnable_tasks : List ℕ
  pub running_task : ℕ
  pub init : ℕ
  pub stack_to_remove : ℕ
  pub stack_to_remove_next : ℕ
  pub sie : Bool
  pub released : List ℕ
  pub freed_memory : List ℕ
  pub powered_off : Bool

unfoldable pub set_task : Tasks → ℕ → Task → Tasks
set_task tasks t new u = if u == t then new else tasks u

abbrev pub set_state : Tasks → ℕ → ProcessState → Tasks
set_state tasks t state = set_task tasks t (record (tasks t) { state = state })

-- How a call ends: it returns, the context `to` is loaded with the current one saved in `from`, it
-- panics, or it reads through a null pointer.
pub data Outcome : Type 0 where
  returned : Kernel → Outcome
  switched : Kernel → (from to : ℕ) → Outcome
  panicked : Outcome
  faulted : Outcome

-- The loop of `next_task_to_run`, which takes what is not RUNNABLE off the front; `none` is a read
-- through the head of an empty list.
unfoldable pub runnable_from : Tasks → List ℕ → Option (List ℕ)
runnable_from tasks [] = none
runnable_from tasks (t ∷ ts) =
    let rest = runnable_from tasks ts in
    if t == null
    then some (t ∷ ts)
    else if is_state (tasks t).state runnable
    then some (t ∷ ts)
    else rest

-- The list from the node that is given on, empty where that is NULL.
unfoldable pub next_task_to_run : Tasks → List ℕ → Option (List ℕ)
next_task_to_run tasks [] = some []
next_task_to_run tasks (t ∷ ts) = runnable_from tasks (t ∷ ts)

-- The end of `yield`, with the context `from` to be saved.
unfoldable pub run_next : Kernel → ℕ → Outcome
run_next k from = elim (next_task_to_run k.tasks k.runnable_tasks) [
  | none ↦ faulted
  | some [] ↦ panicked
  | some (t ∷ ts) ↦
      if t == null
      then faulted
      else switched
          (record k {
            tasks = set_state k.tasks t running;
            running_task = t;
            runnable_tasks = ts;
            sie = true;
          })
          from t
]

abbrev pub yield_stacks : Kernel → Kernel
yield_stacks k = record k {
  sie = false;
  released = k.stack_to_remove ∷ k.released;
  stack_to_remove = k.stack_to_remove_next;
  stack_to_remove_next = null;
}

unfoldable pub yield : Kernel → Outcome
yield k =
    let stacks = yield_stacks k in
    let task = k.running_task in
    let run = run_next stacks null in
    let run_later =
      run_next
        (record stacks {
          tasks = set_state k.tasks task runnable;
          runnable_tasks = k.runnable_tasks ++ (task ∷ []);
        })
        task in
    if task == null then faulted else elim k.runnable_tasks [
      | [] ↦ returned stacks
      | _ ∷ _ ↦ if is_state (k.tasks task).state running then run_later else run
    ]

-- One round of `scheduler`, up to its switch where there is a task to run.
unfoldable pub scheduler : Kernel → Outcome
scheduler k = if not (k.running_task == null) then panicked else elim k.runnable_tasks [
  | [] ↦ returned (record k { sie = true })
  | t ∷ ts ↦
      if t == null
      then faulted
      else switched
          (record k {
            tasks = set_state k.tasks t running;
            running_task = t;
            runnable_tasks = ts;
            sie = false;
          })
          null t
]

-- `reparent`
unfoldable pub reparent : ℕ → ℕ → Tasks → Tasks
reparent init t tasks =
    let parent = (tasks t).parent in
    if not (parent == null) && is_state (tasks parent).state zombie
    then set_task tasks t (record (tasks t) { parent = init })
    else tasks

abbrev pub reparent_all : ℕ → List ℕ → Tasks → Tasks
reparent_all init [] tasks = tasks
reparent_all init (t ∷ ts) tasks = reparent_all init ts (reparent init t tasks)

-- `is_alive`, as it is written: a state differs from one of two.
unfoldable pub is_alive : Tasks → ℕ → Bool
is_alive tasks t =
    not (t == null)
    && (not (is_state (tasks t).state zombie) || not (is_state (tasks t).state dead))

unfoldable pub has_alive_child_in : Tasks → ℕ → List ℕ → Bool
has_alive_child_in tasks task [] = false
has_alive_child_in tasks task (t ∷ ts) =
    (((tasks t).parent == task) && is_alive tasks t) || has_alive_child_in tasks task ts

-- The three searches give 0 where there is no such task.
unfoldable pub get_one_zombie_child_in : Tasks → ℕ → List ℕ → ℕ
get_one_zombie_child_in tasks task [] = null
get_one_zombie_child_in tasks task (t ∷ ts) =
    if ((tasks t).parent == task) && is_state (tasks t).state zombie
    then t
    else get_one_zombie_child_in tasks task ts

unfoldable pub find_task_in : Tasks → ℕ → List ℕ → ℕ
find_task_in tasks pid [] = null
find_task_in tasks pid (t ∷ ts) = if (tasks t).pid == pid then t else find_task_in tasks pid ts

unfoldable pub child_with_pid : Kernel → ℕ → ℕ → ℕ
child_with_pid k task pid =
    let child = find_task_in k.tasks pid k.all_tasks in
    if not (child == null)
      && ((k.tasks child).parent == task)
      && not (is_state (k.tasks child).state zombie)
    then child
    else null

-- The loop of `is_ancestor` from `tmp` up; `none` is fuel run out.
unfoldable pub ancestor_from : ℕ → Tasks → ℕ → ℕ → Option Bool
ancestor_from zero tasks ancestor tmp = none
ancestor_from (suc fuel) tasks ancestor tmp =
    let rest = ancestor_from fuel tasks ancestor (tasks tmp).parent in
    if tmp == null then some false else if tmp == ancestor then some true else rest

unfoldable pub is_ancestor : ℕ → Tasks → ℕ → ℕ → Option Bool
is_ancestor fuel tasks ancestor task =
    if (task == null) || (ancestor == null)
    then some false
    else ancestor_from fuel tasks ancestor (tasks task).parent
