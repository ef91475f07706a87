-- ===== src/Process/Syscalls/Exit.antt =====
-- What `exit_process` does to the other tasks before it yields.
use toy_riscv_kernel.Prelude.{
  ℕ, ◌≡◌, refl, sym, ap, ◌∙◌, ◌≢◌, ◌⊎◌, inl, inr, Bool, true, false, ◌&&◌, ◌||◌, [], ◌∷◌, ◌++◌,
  arith, ◌==◌, Bool-cases,
}
use toy_riscv_kernel.Machine.{null}
use toy_riscv_kernel.LinkedList.Represents.{has}
use toy_riscv_kernel.Process.{
  sleeping, runnable, zombie, dead, is_state, Task, Tasks, Kernel, set_task, set_state,
  reparent_all,
}
use toy_riscv_kernel.Process.Reparent.{
  has_zombie_parent, reparent_all-task, reparent_all-calm, reparent_all-settles,
}
use toy_riscv_kernel.Process.Update.{set-same, set-other, set_task-elim}
use toy_riscv_kernel.Process.Syscalls.{
  sign_extend, free_user_memory, wake_parent, exit_before_yield,
}

module _ (k : Kernel) (task : ℕ) where
  abbrev parent : ℕ
  parent = (k.tasks task).parent

  abbrev wakes : Bool
  wakes =
      is_state (k.tasks parent).state sleeping
      && (((k.tasks parent).channel == parent) || ((k.tasks parent).channel == task))

  abbrev ended : Tasks
  ended = set_state k.tasks task dead

  abbrev awake : Task
  awake = record (ended parent) {
    state = runnable;
    a0 = (k.tasks task).pid;
    a1 = sign_extend (k.tasks task).exit_status;
  }

  wake_parent-wakes :
      wakes ≡ true
      → wake_parent k task ≡ record k {
        tasks = set_task ended parent awake;
        runnable_tasks = k.runnable_tasks ++ (parent ∷ []);
      }
  unfolding wake_parent
  wake_parent-wakes awoken = rw (wake_parent, awoken) refl

  wake_parent-keeps : wakes ≡ false → wake_parent k task ≡ k
  unfolding wake_parent
  wake_parent-keeps kept = rw (wake_parent, kept) refl

  wake_parent-woken :
      (p : ℕ)
      → parent ≡ p
      → p ≢ task
      → (k.tasks p).state ≡ sleeping
      → ((k.tasks p).channel ≡ p) ⊎ ((k.tasks p).channel ≡ task)
      → (((wake_parent k task).tasks task).state ≡ dead)
        × (((wake_parent k task).tasks p).state ≡ runnable)
        × (((wake_parent k task).tasks p).a0 ≡ (k.tasks task).pid)
        × (((wake_parent k task).tasks p).a1 ≡ sign_extend (k.tasks task).exit_status)
        × ((wake_parent k task).runnable_tasks ≡ k.runnable_tasks ++ (p ∷ []))
  wake_parent-woken p at other asleep waits =
      let awoken : wakes ≡ true = ground (arith, at, asleep, waits) in
      let woken = wake_parent-wakes awoken in
      let at_parent : (wake_parent k task).tasks p ≡ awake =
        ap (λ f. f.tasks p) woken
        ∙ ap (set_task ended parent awake) (sym at)
        ∙ set-same ended parent awake in
      let at_task : (wake_parent k task).tasks task ≡ ended task =
        ap (λ f. f.tasks task) woken
        ∙ set-other ended parent task awake (λ e. other (sym (e ∙ at))) in
      (
        ap (λ v. v.state) at_task
            ∙ ap (λ v. v.state) (set-same k.tasks task (record (k.tasks task) { state = dead })),
        ap (λ v. v.state) at_parent,
        ap (λ v. v.a0) at_parent,
        ap (λ v. v.a1) at_parent,
        ap (λ f. f.runnable_tasks) woken ∙ ap (λ q. k.runnable_tasks ++ (q ∷ [])) at,
      )

  wake_parent-parent : (u : ℕ) → ((wake_parent k task).tasks u).parent ≡ (k.tasks u).parent
  wake_parent-parent u = elim (Bool-cases wakes) [
    | inl awoken ↦
        let ended-parent : (v : ℕ) → (ended v).parent ≡ (k.tasks v).parent = λ v.
          set_task-elim (λ w. w.parent ≡ (k.tasks v).parent) k.tasks task v
            (record (k.tasks task) { state = dead }) (λ e. ap (λ w. (k.tasks w).parent) (sym e))
            (λ _. refl) in
        ap (λ f. (f.tasks u).parent) (wake_parent-wakes awoken)
        ∙ set_task-elim (λ w. w.parent ≡ (k.tasks u).parent) ended parent u awake
            (λ e. ended-parent parent ∙ ap (λ w. (k.tasks w).parent) (sym e)) (λ _. ended-parent u)
    | inr kept ↦ ap (λ f. (f.tasks u).parent) (wake_parent-keeps kept)
  ]

  wake_parent-zombie :
      (u : ℕ)
      → is_state (k.tasks u).state zombie ≡ false
      → is_state ((wake_parent k task).tasks u).state zombie ≡ false
  wake_parent-zombie u alive = elim (Bool-cases wakes) [
    | inl awoken ↦
        ap (λ f. is_state (f.tasks u).state zombie) (wake_parent-wakes awoken)
        ∙ set_task-elim (λ w. is_state w.state zombie ≡ false) ended parent u awake (λ e. refl)
            (λ _.
              set_task-elim (λ w. is_state w.state zombie ≡ false) k.tasks task u
                (record (k.tasks task) { state = dead }) (λ _. refl) (λ _. alive))
    | inr kept ↦ ap (λ f. is_state (f.tasks u).state zombie) (wake_parent-keeps kept) ∙ alive
  ]

-- After the part of `exit_process` before its `yield`, no task of the list has a ZOMBIE for a
-- parent, where init is not the exiting task and is no ZOMBIE.
pub exit-leaves_no_orphan :
    (k : Kernel) (task status t : ℕ)
    → k.init ≢ task
    → is_state (k.tasks k.init).state zombie ≡ false
    → has t k.all_tasks ≡ true
    → has_zombie_parent (exit_before_yield k task status).tasks t ≡ false
unfolding exit_before_yield
exit-leaves_no_orphan k task status t other alive there =
    let ended : Tasks =
      set_task k.tasks task (record (k.tasks task) { state = zombie; exit_status = status }) in
    let k1 : Kernel = record (free_user_memory k task) {
      tasks = reparent_all k.init k.all_tasks ended;
    } in
    let alive' : is_state (ended k.init).state zombie ≡ false =
      ap (λ v. is_state v.state zombie)
        (set-other k.tasks task k.init
          (record (k.tasks task) { state = zombie; exit_status = status }) other)
      ∙ alive in
    let calm = reparent_all-settles k.init k.all_tasks ended t alive' (inl there) in
    elim (Bool-cases ((k1.tasks t).parent == null)) [
      | inl alone ↦ ground (arith, alone, wake_parent-parent k1 task t)
      | inr child ↦
          let parent_alive : is_state (k1.tasks (k1.tasks t).parent).state zombie ≡ false =
            ground (arith, calm, child) in
          ground (
            arith,
            wake_parent-parent k1 task t,
            wake_parent-zombie k1 task (k1.tasks t).parent parent_alive,
          )
    ]

-- A parent, other than the task itself, that sleeps on itself or on the exiting task is woken: it
-- is RUNNABLE at the end of the queue, with the pid and the status in a0 and a1, and the task is
-- DEAD.
pub exit-wakes_parent :
    (k : Kernel) (task status : ℕ)
    → (k.tasks task).parent ≢ task
    → (k.tasks (k.tasks task).parent).state ≡ sleeping
    → ((k.tasks (k.tasks task).parent).channel ≡ (k.tasks task).parent)
      ⊎ ((k.tasks (k.tasks task).parent).channel ≡ task)
    → let k' = exit_before_yield k task status in
      let parent = k'.tasks (k.tasks task).parent in
      ((k'.tasks task).state ≡ dead)
      × (parent.state ≡ runnable)
      × (parent.a0 ≡ (k.tasks task).pid)
      × (parent.a1 ≡ sign_extend status)
      × (k'.runnable_tasks ≡ k.runnable_tasks ++ ((k.tasks task).parent ∷ []))
unfolding exit_before_yield
exit-wakes_parent k task status other asleep waits =
    let new : Task = record (k.tasks task) { state = zombie; exit_status = status } in
    let ended : Tasks = set_task k.tasks task new in
    let p = (k.tasks task).parent in
    let k1 : Kernel = record (free_user_memory k task) {
      tasks = reparent_all k.init k.all_tasks ended;
    } in
    let at_task : ended task ≡ new = set-same k.tasks task new in
    let at_parent : ended p ≡ k.tasks p = set-other k.tasks task p new other in
    let calm : has_zombie_parent ended task ≡ false = ground (arith, at_task, at_parent, asleep) in
    let kept : k1.tasks task ≡ new =
      reparent_all-calm k.init k.all_tasks ended task calm ∙ at_task in
    let (q, moved) = reparent_all-task k.init k.all_tasks ended p in
    let asleep' : (k1.tasks p).state ≡ sleeping =
      ap (λ v. v.state) moved ∙ ap (λ v. v.state) at_parent ∙ asleep in
    let channel' : (k1.tasks p).channel ≡ (k.tasks p).channel =
      ap (λ v. v.channel) moved ∙ ap (λ v. v.channel) at_parent in
    let (is_dead, ready, a0, a1, queue) =
      wake_parent-woken k1 task p (ap (λ v. v.parent) kept) other asleep'
        (elim waits [ inl e ↦ inl (channel' ∙ e) | inr e ↦ inr (channel' ∙ e) ]) in
    (
      is_dead,
      ready,
      a0 ∙ ap (λ v. v.pid) kept,
      a1 ∙ ap (λ v. sign_extend v.exit_status) kept,
      queue,
    )
