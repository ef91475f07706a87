-- ===== src/Process/Schedule.antt =====
-- The queue of runnable tasks: what `yield` and `sleep` make of it.
use toy_riscv_kernel.Prelude.{
  ℕ, ◌≡◌, refl, sym, ap, ◌∙◌, ◌≢◌, inl, inr, true, false, some, List, [], ◌∷◌, ◌++◌, arith, ◌==◌,
  if◌then◌else◌, Bool-cases, append_nil,
}
use Prim.{absurd}
use toy_riscv_kernel.Machine.{null}
use toy_riscv_kernel.LinkedList.Represents.{has, has-append}
use toy_riscv_kernel.Process.{
  ProcessState, sleeping, runnable, running, zombie, dead, is_state, Task, Tasks, Kernel, set_task,
  set_state, returned, switched, runnable_from, next_task_to_run, run_next, yield_stacks, yield,
}
use toy_riscv_kernel.Process.Update.{set-same, set_task-elim}

-- The tasks of the queue are there, RUNNABLE, and each only once.
abbrev pub IsReady : Tasks → List ℕ → Type 0
IsReady tasks [] = Unit
IsReady tasks (t ∷ ts) =
    (t ≢ null) × ((tasks t).state ≡ runnable) × (has t ts ≡ false) × IsReady tasks ts

pub IsReady-frame :
    (tasks : Tasks) (t : ℕ) (new : Task) (ts : List ℕ)
    → has t ts ≡ false
    → IsReady tasks ts
    → IsReady (set_task tasks t new) ts
IsReady-frame tasks t new [] out r = r
IsReady-frame tasks t new (u ∷ ts) out (real, ready, once, r) = (
  real,
  set_task-elim (λ v. v.state ≡ runnable) tasks t u new (λ e. absurd (ground (arith, out, e)))
      (λ _. ready),
  once,
  IsReady-frame tasks t new ts (ground (arith, out)) r,
)

eq_of_test : (t u : ℕ) → (t == u) ≡ true → t ≡ u
eq_of_test t u same = ground (arith, same)

-- A RUNNING task is not in the queue.
ready-has :
    (tasks : Tasks) (t : ℕ) (ts : List ℕ)
    → IsReady tasks ts
    → (tasks t).state ≡ running
    → has t ts ≡ false
ready-has tasks t [] r other = refl
ready-has tasks t (u ∷ ts) (real, ready, once, r) other = elim (Bool-cases (t == u)) [
  | inl same ↦ absurd (cc (ready, other, eq_of_test t u same))
  | inr apart ↦ ground (arith, apart, ready-has tasks t ts r other)
]

pub IsReady-append :
    (tasks : Tasks) (t : ℕ) (ts : List ℕ)
    → IsReady tasks ts
    → t ≢ null
    → (tasks t).state ≡ runnable
    → has t ts ≡ false
    → IsReady tasks (ts ++ (t ∷ []))
IsReady-append tasks t [] r real ready out = (real, ready, refl, r)
IsReady-append tasks t (u ∷ ts) (real', ready', once, r) real ready out = (
  real',
  ready',
  has-append u t ts once (ground (arith, out)),
  IsReady-append tasks t ts r real ready (ground (arith, out)),
)

-- `run_next` takes the first of a ready queue.
run_next-first :
    (k : Kernel) (from t : ℕ) (ts : List ℕ)
    → k.runnable_tasks ≡ t ∷ ts
    → IsReady k.tasks (t ∷ ts)
    → (k' : Kernel) × (run_next k from ≡ switched k' from t)
      × (k'.running_task ≡ t)
      × ((k'.tasks t).state ≡ running)
      × (k'.runnable_tasks ≡ ts)
      × IsReady k'.tasks k'.runnable_tasks
      × (k'.sie ≡ true)
unfolding run_next next_task_to_run runnable_from
run_next-first k from t ts queue (real, ready, once, r) =
    let front : next_task_to_run k.tasks k.runnable_tasks ≡ some (t ∷ ts) =
      ap (next_task_to_run k.tasks) queue ∙ ground (arith, real, ready) in
    let k' : Kernel = record k {
      tasks = set_state k.tasks t running;
      running_task = t;
      runnable_tasks = ts;
      sie = true;
    } in
    (
      k',
      rw (run_next, front) (ground (arith, real)),
      refl,
      ap (λ v. v.state) (set-same k.tasks t (record (k.tasks t) { state = running })),
      refl,
      IsReady-frame k.tasks t (record (k.tasks t) { state = running }) ts once r,
      refl,
    )

-- What `yield` appends to the queue, and the context that it saves.
abbrev pub put_back : Kernel → List ℕ
put_back k = if is_state (k.tasks k.running_task).state running then k.running_task ∷ [] else []

abbrev pub saved_context : Kernel → ℕ
saved_context k = if is_state (k.tasks k.running_task).state running then k.running_task else null

running_of : (state : ProcessState) → is_state state running ≡ true → state ≡ running
running_of sleeping is = absurd (cc)
running_of runnable is = absurd (cc)
running_of running is = refl
running_of zombie is = absurd (cc)
running_of dead is = absurd (cc)

-- The kernel in which a RUNNING task is put back.
abbrev queued : Kernel → Kernel
queued k = record (yield_stacks k) {
  tasks = set_state k.tasks k.running_task runnable;
  runnable_tasks = k.runnable_tasks ++ (k.running_task ∷ []);
}

yield-running :
    (k : Kernel) (t : ℕ) (ts : List ℕ)
    → k.running_task ≢ null
    → k.runnable_tasks ≡ t ∷ ts
    → is_state (k.tasks k.running_task).state running ≡ true
    → yield k ≡ run_next (queued k) k.running_task
unfolding yield
yield-running k t ts real queue was_running = ground (arith, real, queue, was_running)

yield-other :
    (k : Kernel) (t : ℕ) (ts : List ℕ)
    → k.running_task ≢ null
    → k.runnable_tasks ≡ t ∷ ts
    → is_state (k.tasks k.running_task).state running ≡ false
    → yield k ≡ run_next (yield_stacks k) null
unfolding yield
yield-other k t ts real queue other = ground (arith, real, queue, other)

yield-empty :
    (k : Kernel)
    → k.running_task ≢ null
    → k.runnable_tasks ≡ []
    → yield k ≡ returned (yield_stacks k)
unfolding yield
yield-empty k real empty = ground (arith, real, empty)

-- With a running task that is there and a queue that is ready and not empty, `yield` switches to
-- the first of the queue, which is then RUNNING and off the queue; a running task that was RUNNING
-- is RUNNABLE at the queue's end with its context saved; the queue is ready and interrupts are on.
pub yield-round_robin :
    (k : Kernel) (t : ℕ) (ts : List ℕ)
    → k.running_task ≢ null
    → k.runnable_tasks ≡ t ∷ ts
    → IsReady k.tasks (t ∷ ts)
    → (k' : Kernel) × (yield k ≡ switched k' (saved_context k) t)
      × (k'.running_task ≡ t)
      × ((k'.tasks t).state ≡ running)
      × (k'.runnable_tasks ≡ ts ++ put_back k)
      × IsReady k'.tasks k'.runnable_tasks
      × (k'.sie ≡ true)
unfolding yield
yield-round_robin k t ts real queue ready =
    let r = k.running_task in
    elim (Bool-cases (is_state (k.tasks r).state running)) [
      | inl was_running ↦
          let at_end : put_back k ≡ r ∷ [] = ap (λ b. if b then (r ∷ []) else []) was_running in
          let saved : saved_context k ≡ r = ap (λ b. if b then r else null) was_running in
          let new : Task = record (k.tasks r) { state = runnable } in
          let out = ready-has k.tasks r (t ∷ ts) ready (running_of (k.tasks r).state was_running) in
          let still = IsReady-frame k.tasks r new (t ∷ ts) out ready in
          let more =
            IsReady-append (queued k).tasks r (t ∷ ts) still real
              (ap (λ v. v.state) (set-same k.tasks r new)) out in
          let (k', run, at, now, rest, ready', on) =
            run_next-first (queued k) r t (ts ++ (r ∷ [])) (ap (λ q. q ++ (r ∷ [])) queue) more in
          (
            k',
            yield-running k t ts real queue was_running
                ∙ run
                ∙ ap (λ c. switched k' c t) (sym saved),
            at,
            now,
            rest ∙ ap (λ q. ts ++ q) (sym at_end),
            ready',
            on,
          )
      | inr other ↦
          let at_end : put_back k ≡ [] = ap (λ b. if b then (r ∷ []) else []) other in
          let saved : saved_context k ≡ null = ap (λ b. if b then r else null) other in
          let (k', run, at, now, rest, ready', on) =
            run_next-first (yield_stacks k) null t ts queue ready in
          (
            k',
            yield-other k t ts real queue other ∙ run ∙ ap (λ c. switched k' c t) (sym saved),
            at,
            now,
            rest ∙ sym (append_nil ts) ∙ ap (λ q. ts ++ q) (sym at_end),
            ready',
            on,
          )
    ]
