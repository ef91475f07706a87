-- ===== src/Process/Family.antt =====
-- Searches of the task list and of the ancestors of a task.
use toy_riscv_kernel.Prelude.{
  ℕ, zero, suc, ◌<◌, ◌≡◌, refl, sym, subst, ◌≢◌, inl, inr, true, false, not, ◌&&◌, ◌||◌, some, List,
  [], ◌∷◌, arith, ◌==◌, Bool-cases, length,
}
use Prim.{absurd}
use toy_riscv_kernel.Machine.{null}
use toy_riscv_kernel.LinkedList.Represents.{has}
use toy_riscv_kernel.Process.{
  sleeping, runnable, running, zombie, dead, is_state, Tasks, is_alive, has_alive_child_in,
  get_one_zombie_child_in, ancestor_from, is_ancestor,
}

-- `t` is in the list and its parent is `task`.
abbrev pub IsChildIn : Tasks → ℕ → List ℕ → ℕ → Type 0
IsChildIn tasks task ts t = (has t ts ≡ true) × ((tasks t).parent ≡ task) × (t ≢ null)

-- `is_alive` is true of each task there is, the ZOMBIE and the DEAD ones too.
pub is_alive-any : (tasks : Tasks) (t : ℕ) → is_alive tasks t ≡ not (t == null)
unfolding is_alive
is_alive-any tasks t =
    elim (tasks t).state
      as (λ s.
        not (t == null) && (not (is_state s zombie) || not (is_state s dead)) ≡ not (t == null)) [
          | sleeping ↦ ground arith
          | runnable ↦ ground arith
          | running ↦ ground arith
          | zombie ↦ ground arith
          | dead ↦ ground arith
        ]

pub has_alive_child-found :
    (tasks : Tasks) (task : ℕ) (ts : List ℕ)
    → has_alive_child_in tasks task ts ≡ true
    → (t : ℕ) × IsChildIn tasks task ts t
unfolding has_alive_child_in
has_alive_child-found tasks task [] found = absurd (cc)
has_alive_child-found tasks task (t ∷ ts) found =
    elim (Bool-cases (((tasks t).parent == task) && is_alive tasks t)) [
      | inl here ↦
          (t, (ground arith, ground (arith, here), ground (arith, here, is_alive-any tasks t)))
      | inr miss ↦
          let (u, (there, child, nonnull)) =
            has_alive_child-found tasks task ts (ground (arith, found, miss)) in
          (u, (ground (arith, there), child, nonnull))
    ]

pub has_alive_child-of :
    (tasks : Tasks) (task t : ℕ) (ts : List ℕ)
    → IsChildIn tasks task ts t
    → has_alive_child_in tasks task ts ≡ true
unfolding has_alive_child_in
has_alive_child-of tasks task t [] (there, child, nonnull) = absurd (cc)
has_alive_child-of tasks task t (u ∷ ts) (there, child, nonnull) = elim (Bool-cases (t == u)) [
  | inl same ↦
      let e : u ≡ t = ground (arith, same) in
      let at_u : ((tasks u).parent ≡ task) × (u ≢ null) =
        subst (λ v. ((tasks v).parent ≡ task) × (v ≢ null)) (sym e) (child, nonnull) in
      ground (arith, at_u, is_alive-any tasks u)
  | inr other ↦
      ground
        (arith, has_alive_child-of tasks task t ts (ground (arith, there, other), child, nonnull))
]

-- What a search for a zombie child gives is one, and it gives NULL only where there is none.
pub get_one_zombie_child-found :
    (tasks : Tasks) (task : ℕ) (ts : List ℕ)
    → get_one_zombie_child_in tasks task ts ≢ null
    → IsChildIn tasks task ts (get_one_zombie_child_in tasks task ts)
      × (is_state (tasks (get_one_zombie_child_in tasks task ts)).state zombie ≡ true)
unfolding get_one_zombie_child_in
get_one_zombie_child-found tasks task [] found = absurd (found refl)
get_one_zombie_child-found tasks task (t ∷ ts) found =
    elim (Bool-cases (((tasks t).parent == task) && is_state (tasks t).state zombie))
      as (λ _.
        IsChildIn tasks task (t ∷ ts) (get_one_zombie_child_in tasks task (t ∷ ts))
        × (is_state (tasks (get_one_zombie_child_in tasks task (t ∷ ts))).state zombie ≡ true)) [
          | inl here ↦
              let e : get_one_zombie_child_in tasks task (t ∷ ts) ≡ t =
                rw (get_one_zombie_child_in, here) refl in
              subst
                (λ v. IsChildIn tasks task (t ∷ ts) v × (is_state (tasks v).state zombie ≡ true))
                (sym e)
                (
                  (ground arith, ground (arith, here), subst (λ v. v ≢ null) e found),
                  ground (arith, here),
                )
          | inr miss ↦
              let e : get_one_zombie_child_in tasks task (t ∷ ts)
                  ≡ get_one_zombie_child_in tasks task ts =
                rw (get_one_zombie_child_in, miss) refl in
              let ((there, child, nonnull), ended) =
                get_one_zombie_child-found tasks task ts (subst (λ v. v ≢ null) e found) in
              subst
                (λ v. IsChildIn tasks task (t ∷ ts) v × (is_state (tasks v).state zombie ≡ true))
                (sym e) ((ground (arith, there), child, nonnull), ended)
        ]

pub get_one_zombie_child-none :
    (tasks : Tasks) (task t : ℕ) (ts : List ℕ)
    → has null ts ≡ false
    → get_one_zombie_child_in tasks task ts ≡ null
    → IsChildIn tasks task ts t
    → is_state (tasks t).state zombie ≡ false
unfolding get_one_zombie_child_in
get_one_zombie_child-none tasks task t [] real miss (there, child, nonnull) = absurd (cc)
get_one_zombie_child-none tasks task t (u ∷ ts) real miss (there, child, nonnull) =
    elim (Bool-cases (t == u)) [
      | inl same ↦
          let e : u ≡ t = ground (arith, same) in
          let at_u : (tasks u).parent ≡ task = subst (λ v. (tasks v).parent ≡ task) (sym e) child in
          subst (λ v. is_state (tasks v).state zombie ≡ false) e (ground (arith, at_u, real, miss))
      | inr other ↦
          get_one_zombie_child-none tasks task t ts (ground (arith, real))
            (ground (arith, real, miss)) (ground (arith, there, other), child, nonnull)
    ]

-- The tasks `ts` are `p`, its parent, the parent of that one, up to a task without a parent.
abbrev pub Lineage : Tasks → ℕ → List ℕ → Type 0
Lineage tasks p [] = p ≡ null
Lineage tasks p (t ∷ ts) = (p ≡ t) × (t ≢ null) × Lineage tasks (tasks t).parent ts

ancestor_from-has :
    (fuel : ℕ) (tasks : Tasks) (a p : ℕ) (ts : List ℕ)
    → Lineage tasks p ts
    → length ts < fuel
    → ancestor_from fuel tasks a p ≡ some (has a ts)
unfolding ancestor_from
ancestor_from-has zero tasks a p ts line lt = absurd (omega arith)
ancestor_from-has (suc fuel) tasks a p [] line lt = ground (arith, line)
ancestor_from-has (suc fuel) tasks a p (t ∷ ts) (at, nonnull, line) lt =
    let rest = ancestor_from-has fuel tasks a (tasks t).parent ts line (omega arith) in
    rw (at, rest) (ground (arith, nonnull))

-- `is_ancestor` finds a task exactly where it stands in the line of parents above the other.
pub is_ancestor-has :
    (fuel : ℕ) (tasks : Tasks) (a t : ℕ) (ts : List ℕ)
    → a ≢ null
    → t ≢ null
    → Lineage tasks (tasks t).parent ts
    → length ts < fuel
    → is_ancestor fuel tasks a t ≡ some (has a ts)
unfolding is_ancestor
is_ancestor-has fuel tasks a t ts real real' line lt =
    rw (is_ancestor, ancestor_from-has fuel tasks a (tasks t).parent ts line lt)
      (ground (arith, real, real'))
