-- ===== src/Process/Exec/RoundTrip.antt =====
-- `exec` of user/system.c and `exec_process` of kernel/process.c together: the page that the one
-- fills is the page that the other reads.
use toy_riscv_kernel.Prelude.{
  ◌*◌, ℕ, suc, ◌+◌, ◌-◌, ◌^◌, ◌≤◌, ◌<◌, ◌≡◌, ◌∙◌, subst, inl, inr, some, List, ◌∷◌, ◌++◌, arith,
  length, drop,
}
use Prim.{absurd}
use toy_riscv_kernel.Strings.{memcpy}
use toy_riscv_kernel.Strings.Texts.{IsString, Apart}
use toy_riscv_kernel.Strings.Layout.{
  IsText, AllTexts, total, AllStrings, AllStrings-copy, total-append,
}
use toy_riscv_kernel.System.{exec}
use toy_riscv_kernel.System.Exec.{exec-lays_out}
use toy_riscv_kernel.Process.Exec.{exec_vectors}
use toy_riscv_kernel.Machine.{Mem}
use toy_riscv_kernel.Process.Exec.Vectors.{
  Points, exec_vectors-argv, drop-IsString, copied-IsString, length-drop,
}

module _ (user m : ℕ → ℕ) (base shared : ℕ) (name : List ℕ) (c : ℕ) (s : List ℕ)
    (args envp : List (List ℕ)) where
  -- What the user library gives to the kernel: the page, and the sizes in `a3` and `a4`.
  abbrev pub call : (ℕ → ℕ) × ℕ × ℕ
  call = exec base name ((c ∷ s) ∷ args) envp user

  -- The kernel's view of the shared page.
  abbrev pub IsShared : Type 0
  IsShared = (j : ℕ) → j < 4096 → m (shared + j) ≡ call.0 (base + j)

  -- The strings, with their NULs, fit.
  abbrev pub Fits : Type 0
  Fits = suc (length name) + (total ((c ∷ s) ∷ args) + total envp) < 4096

  received :
      IsShared
      → Fits
      → IsText name
      → AllTexts ((c ∷ s) ∷ args)
      → AllTexts envp
      → AllStrings m shared (name ∷ (((c ∷ s) ∷ args) ++ envp))
  received same fits text texts texts' =
      let argv = (c ∷ s) ∷ args in
      let (laid_out, _, _) = exec-lays_out base name argv envp user text texts texts' fits in
      AllStrings-copy call.0 m base shared (name ∷ (argv ++ envp))
        (λ j lt. same j (omega (arith, fits, lt, total-append argv envp))) laid_out

  -- The two vectors fit into the page behind the strings.
  abbrev pub VectorsFit : Type 0
  VectorsFit = length args + length envp < 510

  -- Of a program run by `exec` with arguments of which the first is not empty, the words stored
  -- from `argv_ptr` on, in the second of the two pages, point, in the page mapped at `va`, to
  -- exactly the strings of `argv` in their order, with NULL behind them: all strings are of bytes
  -- that are not NUL and fit into 4095 bytes with their NULs, there are at most 510 of them, and
  -- the kernel reads the page that `exec` wrote.
  pub exec-argv :
      (fuel page va : ℕ) (w : Mem)
      → 4096 ≤ fuel
      → va + 4096 ≤ 2 ^ 64
      → Apart page shared 4096
      → IsShared
      → Fits
      → VectorsFit
      → IsText name
      → AllTexts ((c ∷ s) ∷ args)
      → AllTexts envp
      → (w' : Mem) × (exec_vectors fuel m shared page call.1 call.2 va w ≡ some w')
        × Points (memcpy m page shared 4096) w' page va (page + 4096) ((c ∷ s) ∷ args)
  exec-argv fuel page va w enough mapped apart same fits room text texts texts' =
      let argv = (c ∷ s) ∷ args in
      let (_, argc, envc) = exec-lays_out base name argv envp user text texts texts' fits in
      let (w', run, points, _) =
        exec_vectors-argv fuel m shared page va name c s args envp w enough mapped apart
          (received same fits text texts texts') (omega (arith, fits, total-append argv envp))
          room in
      (w', (λ i. exec_vectors fuel m shared page (argc i) (envc i) va w) ∙ run, points)

-- Of a program run by `exec` with an environment that is not empty, the first word stored at
-- `envp_ptr`, which lies in the second of the two pages, points not to the environment but, where
-- the first argument is not shorter than the number of arguments, into that argument, that many
-- bytes in: under the conditions of a page that the kernel reads, strings that fit, and at most 510
-- of them.
pub exec-envp_misplaced :
    (user m : ℕ → ℕ) (base shared : ℕ) (name : List ℕ) (c : ℕ) (s : List ℕ) (args : List (List ℕ))
    (e : List ℕ) (envp : List (List ℕ)) (fuel page va : ℕ) (w : Mem)
    → 4096 ≤ fuel
    → va + 4096 ≤ 2 ^ 64
    → Apart page shared 4096
    → IsShared user m base shared name c s args (e ∷ envp)
    → Fits user m base shared name c s args (e ∷ envp)
    → VectorsFit user m base shared name c s args (e ∷ envp)
    → IsText name
    → AllTexts ((c ∷ s) ∷ args)
    → AllTexts (e ∷ envp)
    → length args ≤ length s
    → let sent = call user m base shared name c s args (e ∷ envp) in
      let envp_ptr = page + 4096 + 8 * (suc (length args) + 1) in
      (w' : Mem) × (exec_vectors fuel m shared page sent.1 sent.2 va w ≡ some w')
      × (envp_ptr < page + 8192)
      × (va ≤ w' envp_ptr)
      × IsString (memcpy m page shared 4096) (page + (w' envp_ptr - va)) (drop (length args) s)
exec-envp_misplaced user m base shared name c s args e envp fuel page va w enough mapped apart same
      fits room text texts texts' short =
    let argv = (c ∷ s) ∷ args in
    let envp' = e ∷ envp in
    let n = suc (length name) in
    let held = received user m base shared name c s args envp' same fits text texts texts' in
    let (_, argc, envc) = exec-lays_out base name argv envp' user text texts texts' fits in
    let (w', run, _, first) =
      exec_vectors-argv fuel m shared page va name c s args envp' w enough mapped apart held
        (omega (arith, fits, total-append argv envp')) room in
    let d = n + length argv in
    let envp_ptr = page + 4096 + 8 * (length argv + 1) in
    let at : w' envp_ptr ≡ va + d = elim first [
      | inl none_left ↦ absurd (omega (arith, none_left))
      | inr there ↦ omega (arith, there, fits, mapped, short)
    ] in
    let back : d ≡ w' envp_ptr - va = omega (arith, at) in
    let sub = drop (length args) s in
    let held_first =
      drop-IsString m (shared + n) (length argv) (c ∷ s) held.1.0 (omega (arith, short)) in
    let copied =
      copied-IsString fuel m shared page va enough mapped apart d sub
        (subst (λ a. IsString m a sub) (omega arith) held_first)
        (omega (arith, fits, short, length-drop (length args) s short)) in
    (
      w',
      (λ i. exec_vectors fuel m shared page (argc i) (envc i) va w) ∙ run,
      omega (arith, room),
      omega (arith, at),
      subst (λ k. IsString (memcpy m page shared 4096) (page + k) sub) back copied,
    )
