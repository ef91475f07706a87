-- ===== src/Process/Fork/Areas.antt =====
-- The areas of memory that a task has registered, and how kernel/process.c and
-- kernel/virtual_memory.c add to them.
use toy_riscv_kernel.Prelude.{
  false, ℕ, ◌≡◌, refl, sym, ap, ◌∙◌, inl, inr, Bool, true, ◌||◌, Option, some, List, [], ◌∷◌, ◌++◌,
  ◌==◌, Bool-cases, bind-case, eq_of_some,
}
use Prim.{absurd}
use toy_riscv_kernel.Machine.{null}
use toy_riscv_kernel.SmallBlocks.{Blocks, kmalloc, kfree}
use toy_riscv_kernel.Process.Stack.{MemorySection}
use toy_riscv_kernel.Process.Space.{Section, Space, register_memory_section}

abbrev pub areas : List Section → List MemorySection
areas [] = []
areas (s ∷ ss) = s.section ∷ areas ss

pub areas-append : (ss ts : List Section) → areas (ss ++ ts) ≡ areas ss ++ areas ts
areas-append [] ts = refl
areas-append (s ∷ ss) ts = ap (λ more. s.section ∷ more) (areas-append ss ts)

pub answer :
    {b b' : Blocks} {t t' : Space} {done done' : Bool}
    → ◌≡◌ {A = Option ((Blocks × Space) × Bool)} (some ((b, t), done)) (some ((b', t'), done'))
    → done ≡ done'
answer e = ap (λ r. r.1) (eq_of_some e)

module _ (pool : ℕ) where
  pub register-areas :
      (task task' : Space) (va size : ℕ) (b b' : Blocks)
      → register_memory_section pool task va size b ≡ some ((b', task'), true)
      → areas task'.mem_sections
        ≡ areas task.mem_sections ++ (record { start = va; size = size } ∷ [])
  unfolding register_memory_section
  register-areas task task' va size b b' run =
      bind-case (kmalloc pool 16 b) _ run (λ tmp_data _ run1.
        bind-case (kmalloc pool 16 tmp_data.0) _ run1 (λ tmp _ run2.
          elim (Bool-cases ((tmp.1 == null) || (tmp_data.1 == null))) [
            | inl failed ↦
                bind-case (kfree pool tmp_data.1 tmp.0) _ (rw failed at run2) (λ c _ run3.
                  bind-case (kfree pool tmp.1 c) _ run3 (λ d _ run4. absurd (cc (answer run4))))
            | inr done ↦
                let e = eq_of_some (rw done at run2) in
                ap (λ r. areas r.0.1.mem_sections) (sym e) ∙ areas-append task.mem_sections _
          ]))

  pub register-refused :
      (task task' : Space) (va size : ℕ) (b b' : Blocks)
      → register_memory_section pool task va size b ≡ some ((b', task'), false)
      → areas task'.mem_sections ≡ areas task.mem_sections
  unfolding register_memory_section
  register-refused task task' va size b b' run =
      bind-case (kmalloc pool 16 b) _ run (λ tmp_data _ run1.
        bind-case (kmalloc pool 16 tmp_data.0) _ run1 (λ tmp _ run2.
          elim (Bool-cases ((tmp.1 == null) || (tmp_data.1 == null))) [
            | inr done ↦ absurd (cc (answer (rw done at run2)))
            | inl failed ↦
                bind-case (kfree pool tmp_data.1 tmp.0) _ (rw failed at run2) (λ c _ run3.
                  bind-case (kfree pool tmp.1 c) _ run3
                    (λ d _ run4. ap (λ r. areas r.0.1.mem_sections) (sym (eq_of_some run4))))
          ]))
