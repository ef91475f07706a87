-- ===== src/Process/Update.antt =====
-- A change of one task and what it leaves.
use toy_riscv_kernel.Prelude.{ℕ, ◌≡◌, sym, subst, ◌≢◌, inl, inr, arith, ◌==◌, Bool-cases}
use toy_riscv_kernel.Process.{Task, Tasks, set_task}

pub set-same : (tasks : Tasks) (t : ℕ) (new : Task) → set_task tasks t new t ≡ new
unfolding set_task
set-same tasks t new = ground arith

pub set-other : (tasks : Tasks) (t u : ℕ) (new : Task) → u ≢ t → set_task tasks t new u ≡ tasks u
unfolding set_task
set-other tasks t u new ne = ground (arith, ne)

-- What holds of the new task at `t`, and of the others elsewhere, holds at each.
pub set_task-elim :
    (P : Task → Type 0) (tasks : Tasks) (t u : ℕ) (new : Task)
    → (u ≡ t → P new)
    → (u ≢ t → P (tasks u))
    → P (set_task tasks t new u)
set_task-elim P tasks t u new at away = elim (Bool-cases (u == t)) [
  | inl same ↦
      let e : u ≡ t = ground (arith, same) in
      subst (λ v. P (set_task tasks t new v)) (sym e) (subst P (sym (set-same tasks t new)) (at e))
  | inr other ↦
      let ne : u ≢ t = ground (arith, other) in subst P (sym (set-other tasks t u new ne)) (away ne)
]
