-- ===== src/Process/Fork/Ready.antt =====
-- A task that `fork_process` of kernel/process.c starts, in the queue.
use toy_riscv_kernel.Prelude.{ℕ, ◌%◌, ◌^◌, ◌+◌, ◌≡◌, refl, ap, ◌≢◌, false, [], ◌∷◌}
use toy_riscv_kernel.Machine.{null}
use toy_riscv_kernel.LinkedList.Represents.{has}
use toy_riscv_kernel.Process.{Task, Kernel, runnable, set_task}
use toy_riscv_kernel.Process.Update.{set-same}
use toy_riscv_kernel.Process.Schedule.{IsReady, IsReady-frame, IsReady-append}
use toy_riscv_kernel.Process.Turns.{Acts}
use toy_riscv_kernel.Process.Fork.{start_child}

-- To start a child that is not in the queue is something that a task may do between turns.
pub start_child-Acts :
    (k : Kernel) (task child pid : ℕ)
    → child ≢ null
    → has child k.runnable_tasks ≡ false
    → IsReady k.tasks k.runnable_tasks
    → Acts k (start_child task child pid k)
unfolding start_child
start_child-Acts k task child pid real out ready =
    let new : Task = record (k.tasks child) {
      state = runnable;
      pid = pid;
      parent = task;
      a0 = 0;
      a1 = (k.tasks task).a1;
      a7 = (k.tasks task).a7;
      epc = ((k.tasks task).epc + 4) % 2 ^ 64;
    } in
    record {
      same = refl;
      extra = child ∷ [];
      added = refl;
      ready =
          IsReady-append (set_task k.tasks child new) child k.runnable_tasks
            (IsReady-frame k.tasks child new k.runnable_tasks out ready) real
            (ap (λ t. t.state) (set-same k.tasks child new)) out;
    }
