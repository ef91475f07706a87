-- ===== src/Elf/Loaded.antt =====
-- What a program loaded by kernel/elf.c has registered.
use toy_riscv_kernel.Prelude.{
  ◌>>=◌, ℕ, ◌+◌, ◌%◌, ◌^◌, ◌≡◌, refl, sym, ap, ◌∙◌, inl, inr, subst, Bool, true, false, Option,
  none, some, List, [], ◌∷◌, ◌++◌, ◌==◌, if◌then◌else◌, Bool-cases, Option-cases, bind-case,
  StopsIn, ◌⊎◌, eq_of_some, append_nil,
}
use Prim.{absurd}
use mathlib.Core.List.{append_assoc}
use toy_riscv_kernel.SmallBlocks.{Blocks}
use toy_riscv_kernel.VirtualMemory.{free_memory}
use toy_riscv_kernel.Trap.Frame.{epc, set}
use toy_riscv_kernel.Process.Stack.{MemorySection}
use toy_riscv_kernel.Process.Space.{Space, on_pages, on_pages_only, register_memory_section}
use toy_riscv_kernel.Process.Fork.Areas.{areas, answer, register-areas, register-refused}
use toy_riscv_kernel.Elf.Touched.{load_areas, Cover}
use toy_riscv_kernel.Elf.{
  ProgramHeader, Elf, pt_load, pt_gnu_stack, check_elf_magic, map_section_for_user, permission_of,
  section_start, section_size, load_section, executable_stack, load_sections, load_elf,
}

module _ (pool : ℕ) where
  load_section-areas :
      (elf : ℕ) (p : ProgramHeader) (task task' : Space) (b b' : Blocks)
      → load_section pool elf p task b ≡ some ((b', task'), true)
      → areas task'.mem_sections
        ≡ areas task.mem_sections
          ++ (record { start = section_start pool p; size = section_size pool p } ∷ [])
  unfolding load_section
  load_section-areas elf p task task' b b' run =
      bind-case
        (on_pages
          (map_section_for_user pool task.pagetable p.p_vaddr ((elf + p.p_offset) % 2 ^ 64)
            p.p_filesz p.p_memsz (permission_of pool p.p_flags))
          b)
        _ run
        (λ mapped _ run1. elim (Bool-cases mapped.1) [
          | inr failed ↦ absurd (cc (answer (rw failed at run1)))
          | inl done ↦
              bind-case
                (register_memory_section pool task (section_start pool p) (section_size pool p)
                  mapped.0)
                _ (rw done at run1)
                (λ added ran run2. elim (Bool-cases added.1) [
                  | inr failed ↦
                      bind-case
                        (on_pages_only
                          (free_memory pool task.pagetable p.p_vaddr (section_size pool p))
                          added.0.0)
                        _ (rw failed at run2) (λ c _ run3. absurd (cc (answer run3)))
                  | inl ok ↦
                      let e = eq_of_some (rw ok at run2) in
                      register-areas pool task task' (section_start pool p) (section_size pool p)
                        mapped.0 b' (ran ∙ ap (λ ok'. some (added.0, ok')) ok ∙ ap some e)
                ])
        ])

  executable_stack-areas :
      (p : ProgramHeader) (task : Space)
      → areas (executable_stack pool p task).mem_sections ≡ areas task.mem_sections
  executable_stack-areas p task = elim (Bool-cases (p.p_type == pt_gnu_stack)) [
    | inl stack ↦ rw stack refl
    | inr other ↦ rw other refl
  ]

  load_areas-front :
      (p : ProgramHeader) (headers : List ProgramHeader)
      → load_areas pool (p ∷ []) ++ load_areas pool headers ≡ load_areas pool (p ∷ headers)
  load_areas-front p headers = elim (Bool-cases (p.p_type == pt_load)) [
    | inl load ↦ rw load refl
    | inr other ↦ rw other refl
  ]

  load_sections-areas :
      (elf : ℕ) (headers : List ProgramHeader) (task task' : Space) (b b' : Blocks)
      → load_sections pool elf headers task b ≡ some ((b', task'), true)
      → areas task'.mem_sections ≡ areas task.mem_sections ++ load_areas pool headers
  unfolding load_sections
  load_sections-areas elf [] task task' b b' run =
      ap (λ r. areas r.0.1.mem_sections) (sym (eq_of_some run))
      ∙ sym (append_nil (areas task.mem_sections))
  load_sections-areas elf (p ∷ headers) task task' b b' run =
      let task1 = executable_stack pool p task in
      let kept = executable_stack-areas p task in
      let new : List MemorySection =
        record { start = section_start pool p; size = section_size pool p } ∷ [] in
      elim (Bool-cases (p.p_type == pt_load)) [
        | inr other ↦ rw other (
            load_sections-areas elf headers task1 task' b b' (rw other at run)
            ∙ ap (λ front. front ++ load_areas pool headers) kept)
        | inl load ↦ rw load (
            bind-case (load_section pool elf p task1 b) _ (rw load at run) (λ result ran run1.
              elim (Bool-cases result.1) [
                | inr failed ↦ absurd (cc (answer (rw failed at run1)))
                | inl ok ↦
                    load_sections-areas elf headers result.0.1 task' result.0.0 b' (rw ok at run1)
                    ∙ ap (λ front. front ++ load_areas pool headers)
                        (load_section-areas elf p task1 result.0.1 b result.0.0
                            (ran ∙ ap (λ ok. some (result.0, ok)) ok)
                          ∙ ap (λ front. front ++ new) kept)
                    ∙ append_assoc (areas task.mem_sections) new (load_areas pool headers)
              ]))
      ]

  -- The loading ends at a header of type PT_LOAD, with the areas of those before it registered.
  abbrev Ends : List ProgramHeader → Space → Space → Type 0
  Ends headers task task' =
      (front : List ProgramHeader) × (p : ProgramHeader) × (rest : List ProgramHeader) × (headers
        ≡ front ++ (p ∷ rest))
      × ((p.p_type == pt_load) ≡ true)
      × (areas task'.mem_sections ≡ areas task.mem_sections ++ load_areas pool front)

  load_section-refused :
      (elf : ℕ) (p : ProgramHeader) (task task' : Space) (b b' : Blocks)
      → load_section pool elf p task b ≡ some ((b', task'), false)
      → areas task'.mem_sections ≡ areas task.mem_sections
  unfolding load_section
  load_section-refused elf p task task' b b' run =
      bind-case
        (on_pages
          (map_section_for_user pool task.pagetable p.p_vaddr ((elf + p.p_offset) % 2 ^ 64)
            p.p_filesz p.p_memsz (permission_of pool p.p_flags))
          b)
        _ run
        (λ mapped _ run1. elim (Bool-cases mapped.1) [
          | inr failed ↦ ap (λ r. areas r.0.1.mem_sections) (sym (eq_of_some (rw failed at run1)))
          | inl done ↦
              bind-case
                (register_memory_section pool task (section_start pool p) (section_size pool p)
                  mapped.0)
                _ (rw done at run1)
                (λ added ran run2. elim (Bool-cases added.1) [
                  | inl ok ↦ absurd (cc (ok, answer (rw ok at run2)))
                  | inr failed ↦
                      bind-case
                        (on_pages_only
                          (free_memory pool task.pagetable p.p_vaddr (section_size pool p))
                          added.0.0)
                        _ (rw failed at run2)
                        (λ c _ run3.
                          ap (λ r. areas r.0.1.mem_sections) (sym (eq_of_some run3))
                          ∙ register-refused pool task added.0.1 (section_start pool p)
                              (section_size pool p) mapped.0 added.0.0
                              (ran ∙ ap (λ ok. some (added.0, ok)) failed))
                ])
        ])

  Ends-skip :
      (p : ProgramHeader) (headers : List ProgramHeader) (task task1 task' : Space)
      → areas task1.mem_sections ≡ areas task.mem_sections ++ load_areas pool (p ∷ [])
      → Ends headers task1 task'
      → Ends (p ∷ headers) task task'
  Ends-skip p headers task task1 task' kept (front, q, rest, e, load, ended) = (
    p ∷ front,
    q,
    rest,
    ap (λ ps. p ∷ ps) e,
    load,
    ended
        ∙ ap (λ start. start ++ load_areas pool front) kept
        ∙ append_assoc (areas task.mem_sections) (load_areas pool (p ∷ [])) (load_areas pool front)
        ∙ ap (λ new. areas task.mem_sections ++ new) (load_areas-front p front),
  )

  load_sections-Ends :
      (elf : ℕ) (headers : List ProgramHeader) (task task' : Space) (b b' : Blocks)
      → load_sections pool elf headers task b ≡ some ((b', task'), false)
      → Ends headers task task'
  unfolding load_sections
  load_sections-Ends elf [] task task' b b' run = absurd (cc (answer run))
  load_sections-Ends elf (p ∷ headers) task task' b b' run =
      let task1 = executable_stack pool p task in
      let kept = executable_stack-areas p task in
      elim (Bool-cases (p.p_type == pt_load)) [
        | inr other ↦
            Ends-skip p headers task task1 task'
              (kept
                ∙ sym (append_nil (areas task.mem_sections))
                ∙ ap (λ new. areas task.mem_sections ++ new) (rw other refl))
              (load_sections-Ends elf headers task1 task' b b' (rw other at run))
        | inl load ↦
            bind-case (load_section pool elf p task1 b) _ (rw load at run) (λ result ran run1.
              elim (Bool-cases result.1) [
                | inl ok ↦
                    Ends-skip p headers task result.0.1 task'
                      (load_section-areas elf p task1 result.0.1 b result.0.0
                          (ran ∙ ap (λ ok. some (result.0, ok)) ok)
                        ∙ ap
                            (λ front.
                              front
                              ++ (record {
                                start = section_start pool p;
                                size = section_size pool p;
                              }
                                  ∷ []))
                            kept
                        ∙ ap (λ new. areas task.mem_sections ++ new) (rw load refl))
                      (load_sections-Ends elf headers result.0.1 task' result.0.0 b'
                        (rw ok at run1))
                | inr failed ↦ (
                  [],
                  p,
                  headers,
                  refl,
                  load,
                  ap (λ r. areas r.0.1.mem_sections) (sym (eq_of_some (rw failed at run1)))
                      ∙ load_section-refused elf p task1 result.0.1 b result.0.0
                          (ran ∙ ap (λ ok. some (result.0, ok)) failed)
                      ∙ kept
                      ∙ sym (append_nil (areas task.mem_sections)),
                )
              ])
      ]

  abbrev Loads : Elf → Space → Blocks → Option ((Blocks × Space) × Bool) → Type 0
  Loads elf task b none = Unit
  Loads elf task b (some ((b', task'), false)) =
      ((check_elf_magic elf ≡ true) × Ends elf.headers task task')
      ⊎ ((check_elf_magic elf ≡ false) × (b' ≡ b) × (task' ≡ task))
  Loads elf task b (some ((b', task'), true)) =
      (check_elf_magic elf ≡ true)
      × (task'.frame epc ≡ elf.e_entry)
      × (areas task'.mem_sections ≡ areas task.mem_sections ++ load_areas pool elf.headers)

  Loads-case :
      (elf : Elf) (task : Space) (b : Blocks)
      → check_elf_magic elf ≡ true
      → Loads elf task b (do
        result ← load_sections pool elf.address elf.headers task b
        let entered = record (result.0.1) { frame = set epc elf.e_entry (result.0.1).frame }
        if result.1 then some ((result.0.0, entered), true) else some result)
  Loads-case elf task b good =
      elim (Option-cases (load_sections pool elf.address elf.headers task b)) [
        | inl stops ↦ rw stops tt
        | inr (((c, task'), true), run) ↦
            rw run (good, refl, load_sections-areas elf.address elf.headers task task' b c run)
        | inr (((c, task'), false), run) ↦
            rw run (inl (good, load_sections-Ends elf.address elf.headers task task' b c run))
      ]

  Loads-result :
      (elf : Elf) (task : Space) (b : Blocks) → Loads elf task b (load_elf pool elf task b)
  unfolding load_elf
  Loads-result elf task b = elim (Bool-cases (check_elf_magic elf)) [
    | inr bad ↦ rw bad (inr (bad, refl, refl))
    | inl good ↦ rw good (Loads-case elf task b good)
  ]

  -- A section of the program whose loading panics, the ones before it loaded.
  abbrev pub LoadPanics : ℕ → List ProgramHeader → Space → Blocks → Type 0
  LoadPanics elf [] task b = ⊥
  LoadPanics elf (p ∷ headers) task b =
      let task1 = executable_stack pool p task in
      (((p.p_type == pt_load) ≡ false) × LoadPanics elf headers task1 b)
      ⊎ (((p.p_type == pt_load) ≡ true)
          × StopsIn (load_section pool elf p task1 b)
              (λ result. (result.1 ≡ true) × LoadPanics elf headers result.0.1 result.0.0))

  -- Where a file is loaded, and where it is refused.
  abbrev pub IsLoaded : Elf → Space → Blocks → Option ((Blocks × Space) × Bool) → Type 0
  IsLoaded elf task b none = Unit
  IsLoaded elf task b (some ((b', task'), false)) =
      ((check_elf_magic elf ≡ true)
        × (front : List ProgramHeader) × (p : ProgramHeader) × (rest : List ProgramHeader)
        × (new : List MemorySection) × (elf.headers ≡ front ++ (p ∷ rest))
        × ((p.p_type == pt_load) ≡ true)
        × (areas task'.mem_sections ≡ areas task.mem_sections ++ new)
        × Cover front new)
      ⊎ ((check_elf_magic elf ≡ false) × (b' ≡ b) × (task' ≡ task))
  IsLoaded elf task b (some ((b', task'), true)) =
      (check_elf_magic elf ≡ true)
      × (task'.frame epc ≡ elf.e_entry)
      × (new : List MemorySection) × (areas task'.mem_sections ≡ areas task.mem_sections ++ new)
      × Cover elf.headers new

  pub load_elf-areas :
      (elf : Elf) (task task' : Space) (b b' : Blocks)
      → load_elf pool elf task b ≡ some ((b', task'), true)
      → areas task'.mem_sections ≡ areas task.mem_sections ++ load_areas pool elf.headers
  load_elf-areas elf task task' b b' run =
      (subst (Loads elf task b) run (Loads-result elf task b)).2
