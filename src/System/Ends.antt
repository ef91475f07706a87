-- ===== src/System/Ends.antt =====
-- The loop of `exec` in user/system.c ends for all strings, also those that do not fit into the
-- page.
use toy_riscv_kernel.Prelude.{
  ℕ, zero, suc, ◌+◌, ◌≤◌, ◌≡◌, ◌⊎◌, inl, inr, List, arith, ltb, if◌then◌else◌, drop, Bool-cases,
  List-cases,
}
use toy_riscv_kernel.System.{
  Marshal, copy_char, name_step, argv_step, envp_step, exec_step, exec_loop,
}

-- The rounds in which no byte is written that are still to come.
abbrev pub pending : ℕ → ℕ
pending state = if ltb state 2 then 1 else 0

abbrev Progress : Marshal → Marshal → Type 0
Progress m m' =
    ((m'.i ≡ m.i + 1) × (pending m'.state ≤ pending m.state))
    ⊎ ((m'.i ≡ m.i) × (pending m.state ≡ 1) × (pending m'.state ≡ 0))

module _ (base : ℕ) (name : List ℕ) (argv envp : List (List ℕ)) where
  step-Progress : (m : Marshal) → Progress m (exec_step base name argv envp m)
  unfolding exec_step name_step argv_step envp_step copy_char
  step-Progress m = elim (List-cases (drop m.count1 argv)) [
    | inl e ↦ elim (List-cases (drop m.count1 envp)) [
      | inl e' ↦ ground (arith, e, e')
      | inr (x, xs, e') ↦ ground (arith, e, e')
    ]
    | inr (y, ys, e) ↦ elim (List-cases (drop m.count1 envp)) [
      | inl e' ↦ ground (arith, e, e')
      | inr (x, xs, e') ↦ ground (arith, e, e')
    ]
  ]

  -- With a round for each byte left, and one for each pending, the loop of `exec` stops at the end
  -- of the page.
  pub exec_loop-ends :
      (fuel : ℕ) (m : Marshal)
      → m.i ≤ 4096
      → 4096 + pending m.state ≤ m.i + fuel
      → (exec_loop base fuel name argv envp m).i ≡ 4096
  unfolding exec_loop
  exec_loop-ends zero m le enough = omega (arith, le, enough)
  exec_loop-ends (suc fuel) m le enough = elim (Bool-cases (ltb m.i 4096)) [
    | inl more ↦
        let m' = exec_step base name argv envp m in
        elim (step-Progress m) [
          | inl (next, kept) ↦
              let ih =
                exec_loop-ends fuel m' (ground (arith, more, next))
                  (omega (arith, enough, next, kept)) in
              ground (arith, more, ih)
          | inr (same, was, now) ↦
              let ih =
                exec_loop-ends fuel m' (omega (arith, le, same))
                  (omega (arith, enough, same, was, now)) in
              ground (arith, more, ih)
        ]
    | inr done ↦ ground (arith, done, le)
  ]
