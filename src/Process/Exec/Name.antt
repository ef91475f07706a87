-- ===== src/Process/Exec/Name.antt =====
-- The name that `exec_process` gives to its task.
use toy_riscv_kernel.Prelude.{
  ℕ, zero, suc, ◌+◌, ◌≤◌, ◌<◌, ◌≡◌, refl, sym, ap, ◌∙◌, subst, ◌≢◌, some, List, [], ◌∷◌, ◌++◌,
  arith, length, take, length-append, append_nil,
}
use Prim.{absurd}
use toy_riscv_kernel.Strings.Texts.{IsString}
use toy_riscv_kernel.Strings.Layout.{AllStrings}
use toy_riscv_kernel.Process.Exec.{rename}
use toy_riscv_kernel.Process.Exec.Vectors.{past_nuls-next, string_end}

-- Strings with blanks between them.
abbrev pub title : List (List ℕ) → List ℕ
title [] = []
title (s ∷ []) = s
title (s ∷ t ∷ ss) = s ++ (b' ' ∷ title (t ∷ ss))

abbrev pub NonEmpty : List (List ℕ) → Type 0
NonEmpty [] = Unit
NonEmpty (s ∷ ss) = (0 < length s) × NonEmpty ss

module _ (fuel : ℕ) (m : ℕ → ℕ) (shared argv_size : ℕ) (enough : 2 ≤ fuel) where
  rename-string :
      (s tail : List ℕ) (count a arguments_count : ℕ)
      → IsString m a s
      → ((k : ℕ)
          → rename fuel m shared k (a + length s) arguments_count argv_size ≡ some (take k tail))
      → rename fuel m shared count a arguments_count argv_size ≡ some (take count (s ++ tail))
  unfolding rename
  rename-string s tail zero a ac h rest = refl
  rename-string [] tail (suc count) a ac h rest =
      ap (λ b. rename fuel m shared (suc count) b ac argv_size) (omega arith) ∙ rest (suc count)
  rename-string (c ∷ s) tail (suc count) a ac (at, real, byte, h) rest =
      let ih =
        rename-string s tail count (a + 1) ac h
          (λ k. ap (λ b. rename fuel m shared k b ac argv_size) (omega arith) ∙ rest k) in
      ground (arith, at, real, ih)

  rename-stop :
      (a arguments_count k : ℕ)
      → m a ≡ 0
      → argv_size ≤ arguments_count + 1
      → rename fuel m shared k a arguments_count argv_size ≡ some (take k [])
  unfolding rename
  rename-stop a ac zero nul last = refl
  rename-stop a ac (suc k) nul last = ground (arith, nul, last)

  rename-blank :
      (a c arguments_count k : ℕ) (tail : List ℕ)
      → m a ≡ 0
      → m (a + 1) ≡ c
      → c ≢ 0
      → arguments_count + 1 < argv_size
      → ((j : ℕ)
          → rename fuel m shared j (a + 1) (arguments_count + 1) argv_size ≡ some (take j tail))
      → rename fuel m shared k a arguments_count argv_size ≡ some (take k (b' ' ∷ tail))
  unfolding rename
  rename-blank a c ac zero tail nul at real more rest = refl
  rename-blank a c ac (suc k) tail nul at real more rest =
      ground
        (arith, nul, more, past_nuls-next fuel m a c nul at real (omega (arith, enough)), rest k)

  first_byte : (a : ℕ) (s : List ℕ) → IsString m a s → 0 < length s → m a ≢ 0
  first_byte a [] h some_byte = absurd (omega (arith, some_byte))
  first_byte a (c ∷ s) (at, real, _, _) some_byte = λ e. real (sym at ∙ e)

  rename-title :
      (s : List ℕ) (front back : List (List ℕ)) (count a arguments_count : ℕ)
      → AllStrings m a ((s ∷ front) ++ back)
      → NonEmpty (s ∷ front)
      → argv_size ≤ arguments_count + length (s ∷ front)
      → (0 < length front → arguments_count + length (s ∷ front) ≤ argv_size)
      → rename fuel m shared count a arguments_count argv_size
        ≡ some (take count (title (s ∷ front)))
  rename-title s [] back count a ac (h, _) (full, _) le exact =
      rename-string s [] count a ac h
        (λ k. rename-stop (a + length s) ac k (string_end m a s h) (omega (arith, le)))
      ∙ ap (λ cs. some (take count cs)) (append_nil s)
  rename-title s (t ∷ front) back count a ac (h, rest) (full, (full', fulls)) le exact =
      let b = a + length s in
      let next : a + suc (length s) ≡ b + 1 = omega arith in
      let held : AllStrings m (b + 1) ((t ∷ front) ++ back) =
        subst (λ c. AllStrings m c ((t ∷ front) ++ back)) next rest in
      let tail = title (t ∷ front) in
      rename-string s (b' ' ∷ tail) count a ac h (λ k.
        rename-blank b (m (b + 1)) ac k tail (string_end m a s h) refl
          (first_byte (b + 1) t held.0 full') (omega (arith, exact (omega arith)))
          (λ j.
            rename-title t front back j (b + 1) (ac + 1) held (full', fulls) (omega (arith, le))
              (λ _. omega (arith, exact (omega arith)))))

-- With two arguments or more, none of them empty and laid out one behind the other, the name that
-- `exec_process` writes is the first 31 characters of all the arguments but the last, with blanks
-- between them.
pub rename-all_but_last :
    (fuel : ℕ) (m : ℕ → ℕ) (shared argv : ℕ) (s : List ℕ) (front : List (List ℕ)) (last : List ℕ)
    → 2 ≤ fuel
    → AllStrings m argv ((s ∷ front) ++ (last ∷ []))
    → NonEmpty (s ∷ front)
    → rename fuel m shared 31 argv 1 (length ((s ∷ front) ++ (last ∷ [])))
      ≡ some (take 31 (title (s ∷ front)))
rename-all_but_last fuel m shared argv s front last enough h full =
    let argc : length ((s ∷ front) ++ (last ∷ [])) ≡ 1 + length (s ∷ front) =
      length-append (s ∷ front) (last ∷ []) ∙ omega arith in
    ap (rename fuel m shared 31 argv 1) argc
    ∙ rename-title fuel m shared (1 + length (s ∷ front)) enough s front (last ∷ []) 31 argv 1 h
        full (omega arith) (λ _. omega arith)
