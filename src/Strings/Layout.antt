-- ===== src/Strings/Layout.antt =====
-- Strings laid out one behind the other, each with its NUL: how memory comes to hold them, and that
-- a copy holds them too.
use toy_riscv_kernel.Prelude.{
  ℕ, suc, ◌+◌, ◌≤◌, ◌<◌, ◌≡◌, refl, ap, ◌∙◌, ◌≢◌, ◌⊎◌, inl, List, [], ◌∷◌, ◌++◌, arith, length,
}
use toy_riscv_kernel.Machine.{write, write-same, write-other}
use toy_riscv_kernel.Strings.Texts.{IsString}

-- Bytes that are not NUL.
abbrev pub IsText : List ℕ → Type 0
IsText [] = Unit
IsText (c ∷ s) = (c ≢ 0) × (c < 256) × IsText s

abbrev pub AllTexts : List (List ℕ) → Type 0
AllTexts [] = Unit
AllTexts (s ∷ ss) = IsText s × AllTexts ss

-- The bytes that the strings take.
abbrev pub total : List (List ℕ) → ℕ
total [] = 0
total (s ∷ ss) = suc (length s) + total ss

abbrev pub AllStrings : (ℕ → ℕ) → ℕ → List (List ℕ) → Type 0
AllStrings m a [] = Unit
AllStrings m a (s ∷ ss) = IsString m a s × AllStrings m (a + suc (length s)) ss

abbrev pub write_string : (ℕ → ℕ) → ℕ → List ℕ → ℕ → ℕ
write_string m a [] = write m a 0
write_string m a (c ∷ s) = write_string (write m a c) (a + 1) s

abbrev pub write_strings : (ℕ → ℕ) → ℕ → List (List ℕ) → ℕ → ℕ
write_strings m a [] = m
write_strings m a (s ∷ ss) = write_strings (write_string m a s) (a + suc (length s)) ss

pub write_string-outside :
    (m : ℕ → ℕ) (a : ℕ) (s : List ℕ) (b : ℕ)
    → (b < a) ⊎ (a + length s < b)
    → write_string m a s b ≡ m b
write_string-outside m a [] b out = write-other m a 0 b (ground (arith, out))
write_string-outside m a (c ∷ s) b out =
    write_string-outside (write m a c) (a + 1) s b (ground (arith, out))
    ∙ write-other m a c b (ground (arith, out))

pub write_strings-below :
    (m : ℕ → ℕ) (a : ℕ) (ss : List (List ℕ)) (b : ℕ) → b < a → write_strings m a ss b ≡ m b
write_strings-below m a [] b lt = refl
write_strings-below m a (s ∷ ss) b lt =
    write_strings-below (write_string m a s) (a + suc (length s)) ss b (omega arith)
    ∙ write_string-outside m a s b (inl lt)

pub write_string-IsString :
    (m : ℕ → ℕ) (a : ℕ) (s : List ℕ) → IsText s → IsString (write_string m a s) a s
write_string-IsString m a [] t = write-same m a 0
write_string-IsString m a (c ∷ s) (real, byte, t) = (
  write_string-outside (write m a c) (a + 1) s a (inl (omega arith)) ∙ write-same m a c,
  real,
  byte,
  write_string-IsString (write m a c) (a + 1) s t,
)

-- A memory that agrees byte by byte, at `b` with what the first has at `a`, holds the same string.
pub IsString-copy :
    (m m' : ℕ → ℕ) (a b : ℕ) (s : List ℕ)
    → ((j : ℕ) → j ≤ length s → m' (b + j) ≡ m (a + j))
    → IsString m a s
    → IsString m' b s
IsString-copy m m' a b [] copied h =
    ap m' (omega arith) ∙ copied 0 (omega arith) ∙ ap m (omega arith) ∙ h
IsString-copy m m' a b (c ∷ s) copied (at, real, byte, h) = (
  ap m' (omega arith) ∙ copied 0 (omega arith) ∙ ap m (omega arith) ∙ at,
  real,
  byte,
  IsString-copy m m' (a + 1) (b + 1) s
      (λ j le. ap m' (omega arith) ∙ copied (suc j) (omega arith) ∙ ap m (omega arith)) h,
)

pub AllStrings-copy :
    (m m' : ℕ → ℕ) (a b : ℕ) (ss : List (List ℕ))
    → ((j : ℕ) → j < total ss → m' (b + j) ≡ m (a + j))
    → AllStrings m a ss
    → AllStrings m' b ss
AllStrings-copy m m' a b [] copied h = h
AllStrings-copy m m' a b (s ∷ ss) copied (first, h) = (
  IsString-copy m m' a b s (λ j le. copied j (omega arith)) first,
  AllStrings-copy m m' (a + suc (length s)) (b + suc (length s)) ss
      (λ j lt. ap m' (omega arith) ∙ copied (suc (length s) + j) (omega arith) ∙ ap m (omega arith))
      h,
)

pub write_strings-AllStrings :
    (m : ℕ → ℕ) (a : ℕ) (ss : List (List ℕ)) → AllTexts ss → AllStrings (write_strings m a ss) a ss
write_strings-AllStrings m a [] t = t
write_strings-AllStrings m a (s ∷ ss) (t, ts) = (
  IsString-copy (write_string m a s) (write_strings (write_string m a s) (a + suc (length s)) ss) a
      a s
      (λ j le.
        write_strings-below (write_string m a s) (a + suc (length s)) ss (a + j) (omega arith))
      (write_string-IsString m a s t),
  write_strings-AllStrings (write_string m a s) (a + suc (length s)) ss ts,
)

pub total-append : (ss ts : List (List ℕ)) → total (ss ++ ts) ≡ total ss + total ts
total-append [] ts = omega arith
total-append (s ∷ ss) ts = omega (arith, total-append ss ts)

pub AllTexts-append : (ss ts : List (List ℕ)) → AllTexts ss → AllTexts ts → AllTexts (ss ++ ts)
AllTexts-append [] ts h h' = h'
AllTexts-append (s ∷ ss) ts (t, h) h' = (t, AllTexts-append ss ts h h')

pub write_strings-append :
    (m : ℕ → ℕ) (a : ℕ) (ss ts : List (List ℕ))
    → write_strings m a (ss ++ ts) ≡ write_strings (write_strings m a ss) (a + total ss) ts
write_strings-append m a [] ts = ap (λ b. write_strings m b ts) (omega arith)
write_strings-append m a (s ∷ ss) ts =
    let m' = write_strings (write_string m a s) (a + suc (length s)) ss in
    write_strings-append (write_string m a s) (a + suc (length s)) ss ts
    ∙ ap (λ b. write_strings m' b ts) (omega arith)

pub AllStrings-front :
    (m : ℕ → ℕ) (a : ℕ) (ss ts : List (List ℕ)) → AllStrings m a (ss ++ ts) → AllStrings m a ss
AllStrings-front m a [] ts h = tt
AllStrings-front m a (s ∷ ss) ts (first, h) =
    (first, AllStrings-front m (a + suc (length s)) ss ts h)

pub strings_count : (ss : List (List ℕ)) → length ss ≤ total ss
strings_count [] = omega arith
strings_count (s ∷ ss) = omega (arith, strings_count ss)
