-- ===== src/Process/Reparent.antt =====
-- `reparent` over the list of tasks: what it keeps, and that it leaves no child of a ZOMBIE.
use toy_riscv_kernel.Prelude.{
  ℕ, ◌≡◌, refl, sym, ap, ◌∙◌, subst, ◌≢◌, ◌⊎◌, inl, inr, Bool, true, false, not, ◌&&◌, List, [],
  ◌∷◌, arith, ◌==◌, Bool-cases,
}
use Prim.{absurd}
use toy_riscv_kernel.LinkedList.Represents.{has}
use toy_riscv_kernel.Machine.{null}
use toy_riscv_kernel.Process.{zombie, is_state, Task, Tasks, set_task, reparent, reparent_all}
use toy_riscv_kernel.Process.Update.{set-same, set-other}

-- The task has a parent, which is a ZOMBIE.
abbrev pub has_zombie_parent : Tasks → ℕ → Bool
has_zombie_parent tasks t =
    not ((tasks t).parent == null) && is_state (tasks (tasks t).parent).state zombie

module _ (init t : ℕ) (tasks : Tasks) where
  abbrev pub adopted : Task
  adopted = record (tasks t) { parent = init }

  pub reparent-adopts :
      has_zombie_parent tasks t ≡ true → reparent init t tasks ≡ set_task tasks t adopted
  unfolding reparent
  reparent-adopts orphan = rw (reparent, orphan) refl

  pub reparent-keeps : has_zombie_parent tasks t ≡ false → reparent init t tasks ≡ tasks
  unfolding reparent
  reparent-keeps calm = rw (reparent, calm) refl

  -- All but the parent of a task is kept.
  pub reparent-task :
      (u : ℕ) → (p : ℕ) × (reparent init t tasks u ≡ record (tasks u) { parent = p })
  reparent-task u = elim (Bool-cases (has_zombie_parent tasks t)) [
    | inl orphan ↦ elim (Bool-cases (u == t)) [
      | inl same ↦
          let e : u ≡ t = ground (arith, same) in
          (
            init,
            ap (λ f. f u) (reparent-adopts orphan)
                ∙ ap (set_task tasks t adopted) e
                ∙ set-same tasks t adopted
                ∙ ap (λ v. record (tasks v) { parent = init }) (sym e),
          )
      | inr other ↦ (
        (tasks u).parent,
        ap (λ f. f u) (reparent-adopts orphan)
            ∙ set-other tasks t u adopted (ground (arith, other)),
      )
    ]
    | inr calm ↦ ((tasks u).parent, ap (λ f. f u) (reparent-keeps calm))
  ]

  pub reparent-other : (u : ℕ) → u ≢ t → reparent init t tasks u ≡ tasks u
  reparent-other u ne = elim (Bool-cases (has_zombie_parent tasks t)) [
    | inl orphan ↦ ap (λ f. f u) (reparent-adopts orphan) ∙ set-other tasks t u adopted ne
    | inr calm ↦ ap (λ f. f u) (reparent-keeps calm)
  ]

  pub reparent-state : (u : ℕ) → (reparent init t tasks u).state ≡ (tasks u).state
  reparent-state u = ap (λ v. v.state) (reparent-task u).1

  pub reparent-settles :
      is_state (tasks init).state zombie ≡ false
      → has_zombie_parent (reparent init t tasks) t ≡ false
  reparent-settles alive = elim (Bool-cases (has_zombie_parent tasks t)) [
    | inl orphan ↦
        let at : (reparent init t tasks t).parent ≡ init =
          ap (λ f. (f t).parent) (reparent-adopts orphan)
          ∙ ap (λ v. v.parent) (set-same tasks t adopted) in
        ground (arith, at, reparent-state init, alive)
    | inr calm ↦ ap (λ f. has_zombie_parent f t) (reparent-keeps calm) ∙ calm
  ]

  -- A task whose parent is no ZOMBIE is kept as it is.
  pub reparent-calm :
      (u : ℕ) → has_zombie_parent tasks u ≡ false → reparent init t tasks u ≡ tasks u
  reparent-calm u calm = elim (Bool-cases (u == t)) [
    | inl same ↦
        let e : u ≡ t = ground (arith, same) in
        ap (λ f. f u) (reparent-keeps (subst (λ v. has_zombie_parent tasks v ≡ false) e calm))
    | inr other ↦ reparent-other u (ground (arith, other))
  ]

  pub reparent-stays :
      (u : ℕ)
      → has_zombie_parent tasks u ≡ false
      → has_zombie_parent (reparent init t tasks) u ≡ false
  reparent-stays u calm =
      ground
        (arith, calm, ap (λ v. v.parent) (reparent-calm u calm), reparent-state (tasks u).parent)

module _ (init : ℕ) where
  pub reparent_all-task :
      (ts : List ℕ) (tasks : Tasks) (u : ℕ)
      → (p : ℕ) × (reparent_all init ts tasks u ≡ record (tasks u) { parent = p })
  reparent_all-task [] tasks u = ((tasks u).parent, refl)
  reparent_all-task (t ∷ ts) tasks u =
      let (p, rest) = reparent_all-task ts (reparent init t tasks) u in
      (p, rest ∙ ap {A = Task} (λ v. record v { parent = p }) (reparent-task init t tasks u).1)

  pub reparent_all-calm :
      (ts : List ℕ) (tasks : Tasks) (u : ℕ)
      → has_zombie_parent tasks u ≡ false
      → reparent_all init ts tasks u ≡ tasks u
  reparent_all-calm [] tasks u calm = refl
  reparent_all-calm (t ∷ ts) tasks u calm =
      reparent_all-calm ts (reparent init t tasks) u (reparent-stays init t tasks u calm)
      ∙ reparent-calm init t tasks u calm

  pub reparent_all-settles :
      (ts : List ℕ) (tasks : Tasks) (u : ℕ)
      → is_state (tasks init).state zombie ≡ false
      → (has u ts ≡ true) ⊎ (has_zombie_parent tasks u ≡ false)
      → has_zombie_parent (reparent_all init ts tasks) u ≡ false
  reparent_all-settles [] tasks u alive (inl there) = absurd (cc)
  reparent_all-settles [] tasks u alive (inr calm) = calm
  reparent_all-settles (t ∷ ts) tasks u alive (inr calm) =
      reparent_all-settles ts (reparent init t tasks) u
        (ap (λ v. is_state v zombie) (reparent-state init t tasks init) ∙ alive)
        (inr (reparent-stays init t tasks u calm))
  reparent_all-settles (t ∷ ts) tasks u alive (inl there) =
      let alive' = ap (λ v. is_state v zombie) (reparent-state init t tasks init) ∙ alive in
      elim (Bool-cases (u == t)) [
        | inl same ↦
            let e : t ≡ u = ground (arith, same) in
            reparent_all-settles ts (reparent init t tasks) u alive' (
              inr (
                subst (λ v. has_zombie_parent (reparent init t tasks) v ≡ false) e
                  (reparent-settles init t tasks alive)))
        | inr other ↦
            reparent_all-settles ts (reparent init t tasks) u alive'
              (inl (ground (arith, there, other)))
      ]
