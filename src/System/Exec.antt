-- ===== src/System/Exec.antt =====
-- `exec` of user/system.c as a whole: the shared page at the system call.
use toy_riscv_kernel.Prelude.{
  ℕ, zero, suc, ◌+◌, ◌-◌, ◌<◌, ◌≡◌, refl, sym, ap, ◌∙◌, List, [], ◌∷◌, ◌++◌, arith, length, drop,
  drop-all,
}
use toy_riscv_kernel.Machine.{write, write-other}
use toy_riscv_kernel.Strings.Layout.{
  IsText, AllTexts, total, AllStrings, write_string, write_strings, AllStrings-copy,
  write_strings-AllStrings, write_strings-append, AllTexts-append, total-append,
}
use toy_riscv_kernel.System.{Marshal, copy_char, argv_step, envp_step, exec_step, exec_loop, exec}
use toy_riscv_kernel.System.Marshalled.{round, name_rounds, moved, string_rounds}

module _ (base : ℕ) (name : List ℕ) (argv envp : List (List ℕ)) where
  step-argv :
      (m : Marshal) (a : List ℕ) (rest : List (List ℕ))
      → m.state ≡ 1
      → drop m.count1 argv ≡ a ∷ rest
      → exec_step base name argv envp m ≡ copy_char base a m
  unfolding exec_step argv_step
  step-argv m a rest in_state at =
      ground (arith, in_state)
      ∙ ap
          (λ t. elim t [
            | [] ↦ record m { state = 2; argv_size = m.count1; count1 = 0; count2 = 0 }
            | s ∷ _ ↦ copy_char base s m
          ])
          at

  step-argv_end :
      (m : Marshal)
      → m.state ≡ 1
      → drop m.count1 argv ≡ []
      → exec_step base name argv envp m
        ≡ record m { state = 2; argv_size = m.count1; count1 = 0; count2 = 0 }
  unfolding exec_step argv_step
  step-argv_end m in_state at =
      ground (arith, in_state)
      ∙ ap
          (λ t. elim t [
            | [] ↦ record m { state = 2; argv_size = m.count1; count1 = 0; count2 = 0 }
            | s ∷ _ ↦ copy_char base s m
          ])
          at

  step-envp :
      (m : Marshal) (a : List ℕ) (rest : List (List ℕ))
      → m.state ≡ 2
      → drop m.count1 envp ≡ a ∷ rest
      → exec_step base name argv envp m ≡ copy_char base a m
  unfolding exec_step envp_step
  step-envp m a rest in_state at =
      ground (arith, in_state)
      ∙ ap
          (λ t. elim t [
            | [] ↦ record m { mem = write m.mem (base + m.i) 0; envp_size = m.count1; i = m.i + 1 }
            | s ∷ _ ↦ copy_char base s m
          ])
          at

  step-zero :
      (m : Marshal)
      → m.state ≡ 2
      → drop m.count1 envp ≡ []
      → exec_step base name argv envp m
        ≡ record m { mem = write m.mem (base + m.i) 0; envp_size = m.count1; i = m.i + 1 }
  unfolding exec_step envp_step
  step-zero m in_state at =
      ground (arith, in_state)
      ∙ ap
          (λ t. elim t [
            | [] ↦ record m { mem = write m.mem (base + m.i) 0; envp_size = m.count1; i = m.i + 1 }
            | s ∷ _ ↦ copy_char base s m
          ])
          at

  -- The rounds that fill up the page.
  zero_rounds :
      (count : ℕ) (m : Marshal)
      → m.state ≡ 2
      → drop m.count1 envp ≡ []
      → m.i + suc count ≡ 4096
      → (m' : Marshal) × (exec_loop base (suc count) name argv envp m ≡ m')
        × (m'.argv_size ≡ m.argv_size)
        × (m'.envp_size ≡ m.count1)
        × ((b : ℕ) → b < base + m.i → m'.mem b ≡ m.mem b)
  unfolding exec_loop
  zero_rounds zero m in_state ends fits =
      let m1 : Marshal = record m {
        mem = write m.mem (base + m.i) 0;
        envp_size = m.count1;
        i = m.i + 1;
      } in
      (
        m1,
        round base name argv envp zero m (omega (arith, fits)) ∙ step-zero m in_state ends,
        refl,
        refl,
        λ b lt. write-other m.mem (base + m.i) 0 b (omega arith),
      )
  zero_rounds (suc count) m in_state ends fits =
      let m1 : Marshal = record m {
        mem = write m.mem (base + m.i) 0;
        envp_size = m.count1;
        i = m.i + 1;
      } in
      let (m', run, argv_same, envp_same, below) =
        zero_rounds count m1 in_state ends (omega (arith, fits)) in
      (
        m',
        round base name argv envp (suc count) m (omega (arith, fits))
            ∙ ap (exec_loop base (suc count) name argv envp) (step-zero m in_state ends)
            ∙ run,
        argv_same,
        envp_same,
        λ b lt. below b (omega (arith, lt)) ∙ write-other m.mem (base + m.i) 0 b (omega arith),
      )

  abbrev start : (ℕ → ℕ) → Marshal
  start mem = record {
    state = 0;
    count1 = 0;
    count2 = 0;
    argv_size = 0;
    envp_size = 0;
    i = 0;
    mem = mem;
  }

  abbrev fills : (ℕ → ℕ) → ℕ → ℕ
  fills mem = write_strings mem base (name ∷ (argv ++ envp))

  -- All rounds of the loop.
  all_rounds :
      (mem : ℕ → ℕ) (count : ℕ)
      → IsText name
      → AllTexts argv
      → AllTexts envp
      → suc (length name) + (total argv + total envp) + suc count ≡ 4096
      → (m' : Marshal) × (exec_loop base 4097 name argv envp (start mem) ≡ m')
        × (m'.argv_size ≡ length argv)
        × (m'.envp_size ≡ length envp)
        × ((b : ℕ)
            → b < base + (suc (length name) + (total argv + total envp))
            → m'.mem b ≡ fills mem b)
  all_rounds mem count text texts texts' fits =
      let l = length name in
      let loop = λ (fuel : ℕ) (m : Marshal). exec_loop base fuel name argv envp m in
      let m0 = start mem in
      let m1 : Marshal = record m0 {
        state = 1;
        i = 0 + suc l;
        mem = write_string mem (base + 0) name;
      } in
      let mem2 = write_strings m1.mem (base + m1.i) argv in
      let m2 = moved m1 (0 + length argv) (m1.i + total argv) mem2 in
      let m3 : Marshal = record m2 { state = 2; argv_size = m2.count1; count1 = 0; count2 = 0 } in
      let mem4 = write_strings mem2 (base + m2.i) envp in
      let m4 = moved m3 (0 + length envp) (m2.i + total envp) mem4 in
      let no_more : (ss : List (List ℕ)) → drop (0 + length ss) ss ≡ [] =
        λ ss. ap (λ k. drop k ss) (omega arith) ∙ drop-all ss in
      let (m', run, argv_same, envp_same, below) =
        zero_rounds count m4 refl (no_more envp) (omega (arith, fits)) in
      let n3 = total envp + suc count in
      let n2 = total argv + suc n3 in
      let from0 : loop 4097 m0 ≡ loop (suc (l + n2)) m0 =
        ap (λ k. loop k m0) (omega (arith, fits)) in
      let to1 : loop (suc (l + n2)) m0 ≡ loop n2 m1 =
        name_rounds base name argv envp name n2 m0 refl refl text (omega (arith, fits)) in
      let to2 : loop n2 m1 ≡ loop (suc n3) m2 =
        string_rounds base name argv envp argv 1 (step-argv) argv (suc n3) m1 refl refl refl texts
          (omega (arith, fits)) in
      let to3 : loop (suc n3) m2 ≡ loop n3 m3 =
        round base name argv envp n3 m2 (omega (arith, fits))
        ∙ ap (loop n3) (step-argv_end m2 refl (no_more argv)) in
      let to4 : loop n3 m3 ≡ loop (suc count) m4 =
        string_rounds base name argv envp envp 2 (step-envp) envp (suc count) m3 refl refl refl
          texts' (omega (arith, fits)) in
      let filled : mem4 ≡ fills mem =
        ap (λ a. write_strings mem2 (base + a) envp) (omega arith)
        ∙ ap
            (λ a.
              write_strings (write_strings m1.mem (base + a) argv) (base + (suc l + total argv))
                envp)
            (omega arith)
        ∙ ap
            (λ a.
              write_strings (write_strings (write_string mem a name) (base + suc l) argv)
                (base + (suc l + total argv)) envp)
            (omega arith)
        ∙ ap
            (λ a.
              write_strings (write_strings (write_string mem base name) (base + suc l) argv) a envp)
            (omega arith)
        ∙ sym (write_strings-append (write_string mem base name) (base + suc l) argv envp) in
      (
        m',
        from0 ∙ to1 ∙ to2 ∙ to3 ∙ to4 ∙ run,
        argv_same ∙ (omega arith),
        envp_same ∙ (omega arith),
        λ b lt. below b (omega (arith, lt)) ∙ ap (λ f. f b) filled,
      )

-- For a name and arguments of bytes that are not NUL, which fit into 4095 bytes with their NULs,
-- the page holds at the system call the name, the arguments and the environment one behind the
-- other, and `argv_size` and `envp_size` count them.
pub exec-lays_out :
    (base : ℕ) (name : List ℕ) (argv envp : List (List ℕ)) (mem : ℕ → ℕ)
    → IsText name
    → AllTexts argv
    → AllTexts envp
    → suc (length name) + (total argv + total envp) < 4096
    → AllStrings (exec base name argv envp mem).0 base (name ∷ (argv ++ envp))
      × ((exec base name argv envp mem).1 ≡ length argv)
      × ((exec base name argv envp mem).2 ≡ length envp)
unfolding exec
exec-lays_out base name argv envp mem text texts texts' fits =
    let all = name ∷ (argv ++ envp) in
    let size = suc (length name) + (total argv + total envp) in
    let (m', run, argv_same, envp_same, below) =
      all_rounds base name argv envp mem (4095 - size) text texts texts' (omega (arith, fits)) in
    let texts_all : AllTexts all = (text, AllTexts-append argv envp texts texts') in
    let holds = write_strings-AllStrings mem base all texts_all in
    let m'' = write m'.mem (base + 4095) 0 in
    let r = exec_loop base 4097 name argv envp (start base name argv envp mem) in
    (
      AllStrings-copy (write_strings mem base all) (write r.mem (base + 4095) 0) base base all
          (λ j lt.
            ap (λ (m : Marshal). write m.mem (base + 4095) 0 (base + j)) run
            ∙ write-other m'.mem (base + 4095) 0 (base + j)
                (omega (arith, fits, lt, total-append argv envp))
            ∙ below (base + j) (omega (arith, lt, total-append argv envp)))
          holds,
      ap (λ (m : Marshal). m.argv_size) run ∙ argv_same,
      ap (λ (m : Marshal). m.envp_size) run ∙ envp_same,
    )
