-- ===== src/Process/Turns.antt =====
-- The turns that tasks take by `yield` of kernel/process.c, with what the running task does before
-- it.
use toy_riscv_kernel.Prelude.{
  ℕ, zero, suc, ◌+◌, ◌<◌, ◌≡◌, refl, sym, ap, ◌∙◌, subst, ◌≢◌, inl, inr, some, List, [], ◌∷◌, ◌++◌,
  arith, if◌then◌else◌, length, get_elem?, append_nil, length-append, List-cases,
}
use Prim.{absurd}
use mathlib.Core.List.{append_assoc}
use toy_riscv_kernel.Machine.{null}
use toy_riscv_kernel.Process.{running, is_state, Kernel, switched, yield}
use toy_riscv_kernel.Process.Schedule.{IsReady, put_back, saved_context, yield-round_robin}

-- What a task may do while it runs: it stays the running task, and adds tasks to the end of the
-- queue, which is ready.
pub record Acts (k k1 : Kernel) : Type 0 where
  pub same : k1.running_task ≡ k.running_task
  pub extra : List ℕ
  pub added : k1.runnable_tasks ≡ k.runnable_tasks ++ extra
  pub ready : IsReady k1.tasks k1.runnable_tasks

-- A turn: the running task acts and yields, and `yield` switches to `t`.
pub data Turn : Kernel → ℕ → Kernel → Type 0 where
  turn : (k k1 k' : Kernel) (from t : ℕ) → Acts k k1 → yield k1 ≡ switched k' from t → Turn k t k'

pub data Turns : Kernel → List ℕ → Kernel → Type 0 where
  stay : (k : Kernel) → Turns k [] k
  go : (k k1 k2 : Kernel) (t : ℕ) (ts : List ℕ) → Turn k t k1 → Turns k1 ts k2 → Turns k (t ∷ ts) k2

eq_of_switched :
    {k k' : Kernel} {from from' t t' : ℕ}
    → switched k from t ≡ switched k' from' t'
    → (k ≡ k') × (t ≡ t')
eq_of_switched e = (cc, cc)

-- A turn from a queue that is not empty goes to its first task, and leaves the rest at the front.
Turn-first :
    (k k' : Kernel) (u t : ℕ) (ts : List ℕ)
    → k.running_task ≢ null
    → k.runnable_tasks ≡ t ∷ ts
    → Turn k u k'
    → (u ≡ t)
      × (k'.running_task ≡ t)
      × (t ≢ null)
      × ((k'.tasks t).state ≡ running)
      × ((more : List ℕ) × (k'.runnable_tasks ≡ ts ++ more))
      × IsReady k'.tasks k'.runnable_tasks
Turn-first k k' u t ts real queue (turn _ k1 _ from _ acts run) =
    let q : k1.runnable_tasks ≡ t ∷ (ts ++ acts.extra) =
      acts.added ∙ ap (λ q. q ++ acts.extra) queue in
    let ready = subst (IsReady k1.tasks) q acts.ready in
    let (k2, run', at, now, rest, ready', _) =
      yield-round_robin k1 t (ts ++ acts.extra) (λ e. real (sym acts.same ∙ e)) q ready in
    let (same_kernel, same_task) = eq_of_switched (sym run ∙ run') in
    (
      same_task,
      ap (λ (k : Kernel). k.running_task) same_kernel ∙ at,
      ready.0,
      ap (λ (k : Kernel). (k.tasks t).state) same_kernel ∙ now,
      (
        acts.extra ++ put_back k1,
        ap (λ (k : Kernel). k.runnable_tasks) same_kernel
            ∙ rest
            ∙ append_assoc ts acts.extra (put_back k1),
      ),
      subst (λ (k : Kernel). IsReady k.tasks k.runnable_tasks) (sym same_kernel) ready',
    )

get_elem-length : (ts : List ℕ) (i t : ℕ) → get_elem? ts i ≡ some t → 0 < length ts
get_elem-length [] i t at = absurd (cc at)
get_elem-length (u ∷ ts) i t at = omega arith

Turns-queue :
    (k k' : Kernel) (queue more turns : List ℕ)
    → k.running_task ≢ null
    → k.runnable_tasks ≡ queue ++ more
    → Turns k turns k'
    → (i t : ℕ) → get_elem? queue i ≡ some t
    → i < length turns
    → get_elem? turns i ≡ some t
Turns-queue k k' [] more turns real e ts i t at lt = absurd (cc at)
Turns-queue k k' (u ∷ queue) more [] real e ts i t at lt = absurd (omega (arith, lt))
Turns-queue k k' (u ∷ queue) more (v ∷ turns) real e (go _ k1 _ _ _ first later) zero t at lt =
    let (same, _, _, _, _, _) = Turn-first k k1 v u (queue ++ more) real e first in
    ap some same ∙ at
Turns-queue k k' (u ∷ queue) more (v ∷ turns) real e (go _ k1 _ _ _ first later) (suc i) t at lt =
    let (_, is, there, _, (extra, rest), _) = Turn-first k k1 v u (queue ++ more) real e first in
    Turns-queue k1 k' queue (more ++ extra) turns (λ z. there (sym is ∙ z))
      (rest ∙ append_assoc queue more extra) later i t at (omega (arith, lt))

-- From a RUNNING task and a ready queue that is not empty there are turns of any number.
Turns-any :
    (n : ℕ) (k : Kernel)
    → k.running_task ≢ null
    → (k.tasks k.running_task).state ≡ running
    → 0 < length k.runnable_tasks
    → IsReady k.tasks k.runnable_tasks
    → (turns : List ℕ) × (k' : Kernel) × Turns k turns k' × (length turns ≡ n)
Turns-any zero k real was some_task ready = ([], k, stay k, refl)
Turns-any (suc n) k real was some_task ready = elim (List-cases k.runnable_tasks) [
  | inl empty ↦ absurd (omega (arith, some_task, ap length empty))
  | inr (t, ts, queue) ↦
      let acts : Acts k k = record {
        same = refl;
        extra = [];
        added = sym (append_nil k.runnable_tasks);
        ready = ready;
      } in
      let (k1, run, at, now, rest, ready', _) =
        yield-round_robin k t ts real queue (subst (IsReady k.tasks) queue ready) in
      let back : put_back k ≡ k.running_task ∷ [] =
        ap (λ s. if is_state s running then k.running_task ∷ [] else []) was in
      let left : length k1.runnable_tasks ≡ length ts + 1 =
        ap length (rest ∙ ap (λ q. ts ++ q) back) ∙ length-append ts (k.running_task ∷ []) in
      let there = (subst (IsReady k.tasks) queue ready).0 in
      let (turns, k', more, count) =
        Turns-any n k1 (λ z. there (sym at ∙ z)) (ap (λ t. (k1.tasks t).state) at ∙ now)
          (omega (arith, left)) ready' in
      (
        t ∷ turns,
        k',
        go k k1 k' t turns (turn k k k1 (saved_context k) t acts run) more,
        omega (arith, count),
      )
]

-- With a RUNNING task and a ready queue, where tasks only add ready tasks at the queue's end before
-- they yield: turns can be taken for ever, and whichever are taken, the task at
-- place `i` of the queue has the turn number `i`, so that each queued task runs.
pub queued_task-runs :
    (k : Kernel) (i t : ℕ)
    → k.running_task ≢ null
    → (k.tasks k.running_task).state ≡ running
    → IsReady k.tasks k.runnable_tasks
    → get_elem? k.runnable_tasks i ≡ some t
    → ((n : ℕ) → (turns : List ℕ) × (k' : Kernel) × Turns k turns k' × (length turns ≡ n))
      × ((turns : List ℕ) (k' : Kernel)
          → Turns k turns k'
          → i < length turns
          → get_elem? turns i ≡ some t)
queued_task-runs k i t real was ready at = (
  λ n. Turns-any n k real was (get_elem-length k.runnable_tasks i t at) ready,
  λ turns k' run lt.
      Turns-queue k k' k.runnable_tasks [] turns real (sym (append_nil k.runnable_tasks)) run i t at
        lt,
)
