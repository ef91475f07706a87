-- ===== src/System/Marshalled.antt =====
-- What `exec` of user/system.c leaves in the shared page.
use toy_riscv_kernel.Prelude.{
  ℕ, suc, ◌+◌, ◌≤◌, ◌<◌, ◌≡◌, refl, ap, ◌∙◌, ◌≢◌, List, [], ◌∷◌, arith, length, drop, drop-next,
}
use toy_riscv_kernel.Machine.{write}
use toy_riscv_kernel.Strings.Layout.{IsText, AllTexts, total, write_string, write_strings}
use toy_riscv_kernel.System.{char_at, Marshal, copy_char, name_step, exec_step, exec_loop}

char_at_end : (s : List ℕ) (n : ℕ) → drop n s ≡ [] → char_at s n ≡ 0
char_at_end s n e = ap (λ t. elim t [ [] ↦ 0 | c ∷ _ ↦ c ]) e

char_at_next : (s : List ℕ) (n c : ℕ) (t : List ℕ) → drop n s ≡ c ∷ t → char_at s n ≡ c
char_at_next s n c t e = ap (λ t. elim t [ [] ↦ 0 | c ∷ _ ↦ c ]) e

module _ (base : ℕ) (name : List ℕ) (argv envp : List (List ℕ)) where
  pub round :
      (fuel : ℕ) (m : Marshal)
      → m.i < 4096
      → exec_loop base (suc fuel) name argv envp m
        ≡ exec_loop base fuel name argv envp (exec_step base name argv envp m)
  unfolding exec_loop
  round fuel m lt = ground (arith, lt)

  step-name : (m : Marshal) → m.state ≡ 0 → exec_step base name argv envp m ≡ name_step base name m
  unfolding exec_step
  step-name m at_name = ground (arith, at_name)

  name_step-end :
      (m : Marshal)
      → drop m.i name ≡ []
      → name_step base name m
        ≡ record m { mem = write m.mem (base + m.i) 0; state = 1; i = m.i + 1 }
  unfolding name_step
  name_step-end m ends = ground (arith, char_at_end name m.i ends)

  name_step-char :
      (m : Marshal) (c : ℕ) (s : List ℕ)
      → drop m.i name ≡ c ∷ s
      → c ≢ 0
      → name_step base name m ≡ record m { mem = write m.mem (base + m.i) c; i = m.i + 1 }
  unfolding name_step
  name_step-char m c s at real = ground (arith, real, char_at_next name m.i c s at)

  -- The rounds that copy the name.
  pub name_rounds :
      (s : List ℕ) (fuel : ℕ) (m : Marshal)
      → m.state ≡ 0
      → drop m.i name ≡ s
      → IsText s
      → m.i + length s < 4096
      → exec_loop base (suc (length s + fuel)) name argv envp m
        ≡ exec_loop base fuel name argv envp (record m {
          state = 1;
          i = m.i + suc (length s);
          mem = write_string m.mem (base + m.i) s;
        })
  name_rounds [] fuel m at_name rest text fits =
      ap (λ f. exec_loop base (suc f) name argv envp m) (omega arith)
      ∙ round fuel m (omega (arith, fits))
      ∙ ap (exec_loop base fuel name argv envp) (step-name m at_name ∙ name_step-end m rest)
  name_rounds (c ∷ s) fuel m at_name rest (real, byte, text) fits =
      let m1 : Marshal = record m { mem = write m.mem (base + m.i) c; i = m.i + 1 } in
      let ih =
        name_rounds s fuel m1 at_name (drop-next m.i name c s rest) text (omega (arith, fits)) in
      let e : base + (m.i + 1) ≡ base + m.i + 1 = omega arith in
      let n : m.i + 1 + suc (length s) ≡ m.i + suc (suc (length s)) = omega arith in
      ap (λ f. exec_loop base (suc f) name argv envp m) (omega arith)
      ∙ round (suc (length s + fuel)) m (omega (arith, fits))
      ∙ ap (exec_loop base (suc (length s + fuel)) name argv envp)
          (step-name m at_name ∙ name_step-char m c s rest real)
      ∙ ih
      ∙ ap
          (λ a.
            exec_loop base fuel name argv envp
              (record m { state = 1; i = m.i + 1 + suc (length s); mem = write_string m1.mem a s }))
          e
      ∙ ap
          (λ i.
            exec_loop base fuel name argv envp
              (record m { state = 1; i = i; mem = write_string m1.mem (base + m.i + 1) s }))
          n

abbrev pub moved : Marshal → ℕ → ℕ → (ℕ → ℕ) → Marshal
moved m count1 i mem = record m { count1 = count1; count2 = 0; i = i; mem = mem }

moved-same :
    (m : Marshal) {c d i j : ℕ} {f g : ℕ → ℕ}
    → c ≡ d
    → i ≡ j
    → f ≡ g
    → moved m c i f ≡ moved m d j g
moved-same m e e' e'' = λ k. moved m (e k) (e' k) (e'' k)

-- The rounds that copy the strings of a vector, for the state `st` in which they are copied.
module _ (base : ℕ) (name : List ℕ) (argv envp vector : List (List ℕ)) (st : ℕ)
    (copies : (m : Marshal) (a : List ℕ) (rest : List (List ℕ))
      → m.state ≡ st
      → drop m.count1 vector ≡ a ∷ rest
      → exec_step base name argv envp m ≡ copy_char base a m) where
  copy_char-end :
      (m : Marshal) (a : List ℕ)
      → drop m.count2 a ≡ []
      → copy_char base a m ≡ moved m (m.count1 + 1) (m.i + 1) (write m.mem (base + m.i) 0)
  unfolding copy_char
  copy_char-end m a ends = ground (arith, char_at_end a m.count2 ends)

  copy_char-next :
      (m : Marshal) (a : List ℕ) (c : ℕ) (s : List ℕ)
      → drop m.count2 a ≡ c ∷ s
      → c ≢ 0
      → copy_char base a m
        ≡ record m { mem = write m.mem (base + m.i) c; count2 = m.count2 + 1; i = m.i + 1 }
  unfolding copy_char
  copy_char-next m a c s at real = ground (arith, real, char_at_next a m.count2 c s at)

  char_rounds :
      (s a : List ℕ) (others : List (List ℕ)) (fuel : ℕ) (m : Marshal)
      → m.state ≡ st
      → drop m.count1 vector ≡ a ∷ others
      → drop m.count2 a ≡ s
      → IsText s
      → m.i + length s < 4096
      → exec_loop base (suc (length s) + fuel) name argv envp m
        ≡ exec_loop base fuel name argv envp
            (moved m (m.count1 + 1) (m.i + suc (length s)) (write_string m.mem (base + m.i) s))
  char_rounds [] a others fuel m in_state in_vector rest text fits =
      ap (λ f. exec_loop base f name argv envp m) (omega arith)
      ∙ round base name argv envp fuel m (omega (arith, fits))
      ∙ ap (exec_loop base fuel name argv envp)
          (copies m a others in_state in_vector ∙ copy_char-end m a rest)
  char_rounds (c ∷ s) a others fuel m in_state in_vector rest (real, byte, text) fits =
      let m1 : Marshal = record m {
        mem = write m.mem (base + m.i) c;
        count2 = m.count2 + 1;
        i = m.i + 1;
      } in
      let ih =
        char_rounds s a others fuel m1 in_state in_vector (drop-next m.count2 a c s rest) text
          (omega (arith, fits)) in
      let e : base + (m.i + 1) ≡ base + m.i + 1 = omega arith in
      let n : m.i + 1 + suc (length s) ≡ m.i + suc (suc (length s)) = omega arith in
      ap (λ f. exec_loop base f name argv envp m) (omega arith)
      ∙ round base name argv envp (suc (length s) + fuel) m (omega (arith, fits))
      ∙ ap (exec_loop base (suc (length s) + fuel) name argv envp)
          (copies m a others in_state in_vector ∙ copy_char-next m a c s rest real)
      ∙ ih
      ∙ ap (exec_loop base fuel name argv envp)
          (moved-same m refl n (ap (λ b. write_string m1.mem b s) e))

  pub string_rounds :
      (ss : List (List ℕ)) (fuel : ℕ) (m : Marshal)
      → m.state ≡ st
      → m.count2 ≡ 0
      → drop m.count1 vector ≡ ss
      → AllTexts ss
      → m.i + total ss ≤ 4096
      → exec_loop base (total ss + fuel) name argv envp m
        ≡ exec_loop base fuel name argv envp
            (moved m (m.count1 + length ss) (m.i + total ss) (write_strings m.mem (base + m.i) ss))
  string_rounds [] fuel m in_state at_start rest texts fits =
      ap (λ f. exec_loop base f name argv envp m) (omega arith)
      ∙ ap (λ n. exec_loop base fuel name argv envp (record m { count2 = n })) at_start
      ∙ ap (exec_loop base fuel name argv envp) (moved-same m (omega arith) (omega arith) refl)
  string_rounds (s ∷ ss) fuel m in_state at_start rest (text, texts) fits =
      let m1 = moved m (m.count1 + 1) (m.i + suc (length s)) (write_string m.mem (base + m.i) s) in
      ap (λ f. exec_loop base f name argv envp m) (omega arith)
      ∙ char_rounds s s ss (total ss + fuel) m in_state rest (ap (λ n. drop n s) at_start) text
          (omega (arith, fits))
      ∙ string_rounds ss fuel m1 in_state refl (drop-next m.count1 vector s ss rest) texts
          (omega (arith, fits))
      ∙ ap (exec_loop base fuel name argv envp) (
          moved-same m (omega arith) (omega arith)
            (ap (λ a. write_strings m1.mem a ss) (omega arith)))
