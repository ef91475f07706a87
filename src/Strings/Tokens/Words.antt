-- ===== src/Strings/Tokens/Words.antt =====
-- The words of a string, and that `strtok` of user/ulib.h gives them one after the other.
use toy_riscv_kernel.Prelude.{
  ℕ, zero, suc, ◌+◌, ◌≤◌, ◌<◌, ◌≡◌, refl, sym, ap, ◌∙◌, subst, ◌≢◌, ◌⊎◌, inl, inr, false, Option,
  some, List, [], ◌∷◌, ◌++◌, arith, if◌then◌else◌, length, append_nil, Bool-cases,
}
use Prim.{absurd}
use mathlib.Core.List.{append_assoc}
use toy_riscv_kernel.Machine.{null, write, write-same, write-other}
use toy_riscv_kernel.LinkedList.Represents.{has}
use toy_riscv_kernel.Strings.{string_includes}
use toy_riscv_kernel.Strings.Texts.{IsString, string_includes-has}
use toy_riscv_kernel.Strings.Layout.{IsString-copy}
use toy_riscv_kernel.Strings.Tokens.{skip_delimiters, find_delimiter, strtok_from}

-- The longest runs of bytes that are no delimiters, where `word` has been read of one.
abbrev pub words_from : List ℕ → List ℕ → List ℕ → List (List ℕ)
words_from delimiters [] [] = []
words_from delimiters (b ∷ word) [] = (b ∷ word) ∷ []
words_from delimiters [] (c ∷ s) =
    if has c delimiters then words_from delimiters [] s else words_from delimiters (c ∷ []) s
words_from delimiters (b ∷ word) (c ∷ s) =
    if has c delimiters
    then (b ∷ word) ∷ words_from delimiters [] s
    else words_from delimiters ((b ∷ word) ++ (c ∷ [])) s

abbrev pub words : List ℕ → List ℕ → List (List ℕ)
words delimiters s = words_from delimiters [] s

-- A string that is empty or starts with a word.
abbrev StartsWord : List ℕ → List ℕ → Type 0
StartsWord delimiters [] = Unit
StartsWord delimiters (c ∷ s) = has c delimiters ≡ false

module _ (fuel delim : ℕ) (delimiters : List ℕ) (short : length delimiters < fuel) where
  includes :
      (m : ℕ → ℕ) (c : ℕ)
      → IsString m delim delimiters
      → string_includes fuel m delim c ≡ some (has c delimiters)
  includes m c h = string_includes-has fuel m delim c delimiters h short

  skip_delimiters-word :
      (count : ℕ) (m : ℕ → ℕ) (a : ℕ) (s : List ℕ)
      → IsString m delim delimiters
      → IsString m a s
      → length s < count
      → (r : ℕ) × (t : List ℕ) × (skip_delimiters fuel delim count m a ≡ some r)
        × IsString m r t
        × (words delimiters s ≡ words delimiters t)
        × (r + length t ≡ a + length s)
        × StartsWord delimiters t
        × (length t ≤ length s)
  unfolding skip_delimiters
  skip_delimiters-word zero m a s d h lt = absurd (omega (arith, lt))
  skip_delimiters-word (suc count) m a [] d h lt =
      (a, [], ground (arith, h), h, refl, refl, tt, omega arith)
  skip_delimiters-word (suc count) m a (c ∷ s) d (at, real, byte, h) lt =
      elim (Bool-cases (has c delimiters)) [
        | inl delimiter ↦
            let (r, t, run, held, same, end, starts, less) =
              skip_delimiters-word count m (a + 1) s d h (omega (arith, lt)) in
            (
              r,
              t,
              ground (arith, at, real, includes m (m a) d, delimiter, run),
              held,
              ground (arith, delimiter, same),
              omega (arith, end),
              starts,
              omega (arith, less),
            )
        | inr other ↦ (
          a,
          c ∷ s,
          ground (arith, at, real, includes m (m a) d, other),
          (at, real, byte, h),
          refl,
          refl,
          other,
          omega arith,
        )
      ]

  -- From within a word, where `word` is what has been read of it: the word goes on to the end of
  -- the string, or a delimiter ends it.
  abbrev WordEnds : (ℕ → ℕ) → ℕ → List ℕ → List ℕ → Option ((ℕ → ℕ) × ℕ) → Type 0
  WordEnds m r word t found =
      ((found ≡ some (m, null)) × (words_from delimiters word t ≡ (word ++ t) ∷ []))
      ⊎ ((w : List ℕ) × (rest : List ℕ) × (found
            ≡ some (write m (r + length w) 0, r + length w + 1))
          × (words_from delimiters word t ≡ (word ++ w) ∷ words delimiters rest)
          × IsString m (r + length w + 1) rest
          × (length t ≡ length w + suc (length rest))
          × IsString (write m (r + length w) 0) r w)

  find_delimiter-WordEnds :
      (count : ℕ) (m : ℕ → ℕ) (r b : ℕ) (word t : List ℕ)
      → IsString m delim delimiters
      → IsString m r t
      → length t < count
      → WordEnds m r (b ∷ word) t (find_delimiter fuel delim count m r)
  unfolding find_delimiter
  find_delimiter-WordEnds zero m r b word t d h lt = absurd (omega (arith, lt))
  find_delimiter-WordEnds (suc count) m r b word [] d h lt =
      inl (ground (arith, h), ap (λ w. w ∷ []) (sym (append_nil (b ∷ word))))
  find_delimiter-WordEnds (suc count) m r b word (c ∷ t) d (at, real, byte, h) lt =
      elim (Bool-cases (has c delimiters)) [
        | inl delimiter ↦
            let here : r + 0 ≡ r = omega arith in
            inr (
              [],
              t,
              ground (arith, at, real, includes m (m r) d, delimiter, here),
              ground (arith, delimiter, append_nil (b ∷ word)),
              subst (λ a. IsString m a t) (omega arith) h,
              omega arith,
              ap (write m (r + 0) 0) (sym here) ∙ write-same m (r + 0) 0,
            )
        | inr other ↦
            elim (find_delimiter-WordEnds count m (r + 1) b (word ++ (c ∷ [])) t d h
              (omega (arith, lt))) [
                | inl (run, same) ↦ inl (
                  ground (arith, at, real, includes m (m r) d, other, run),
                  ground (arith, other, same, append_assoc (b ∷ word) (c ∷ []) t),
                )
                | inr (w, rest, run, same, held, count', kept) ↦
                    let e : r + 1 + length w ≡ r + suc (length w) = omega arith in
                    inr (
                      c ∷ w,
                      rest,
                      ground (arith, at, real, includes m (m r) d, other)
                          ∙ run
                          ∙ ap (λ a. some (write m a 0, a + 1)) e,
                      ground (arith, other, same, append_assoc (b ∷ word) (c ∷ []) w),
                      subst (λ a. IsString m (a + 1) rest) e held,
                      omega (arith, count'),
                      (
                        write-other m (r + suc (length w)) 0 r (omega arith) ∙ at,
                        real,
                        byte,
                        subst (λ a. IsString (write m a 0) (r + 1) w) e kept,
                      ),
                    )
              ]
      ]

  find_delimiter-first :
      (count : ℕ) (m : ℕ → ℕ) (r c : ℕ) (t : List ℕ)
      → IsString m delim delimiters
      → IsString m r (c ∷ t)
      → has c delimiters ≡ false
      → suc (length t) < count
      → WordEnds m r [] (c ∷ t) (find_delimiter fuel delim count m r)
  unfolding find_delimiter
  find_delimiter-first zero m r c t d h other lt = absurd (omega (arith, lt))
  find_delimiter-first (suc count) m r c t d (at, real, byte, h) other lt =
      elim (find_delimiter-WordEnds count m (r + 1) c [] t d h (omega (arith, lt))) [
        | inl (run, same) ↦
            inl (
              ground (arith, at, real, includes m (m r) d, other, run),
              ground (arith, other, same),
            )
        | inr (w, rest, run, same, held, count', kept) ↦
            let e : r + 1 + length w ≡ r + suc (length w) = omega arith in
            inr (
              c ∷ w,
              rest,
              ground (arith, at, real, includes m (m r) d, other)
                  ∙ run
                  ∙ ap (λ a. some (write m a 0, a + 1)) e,
              ground (arith, other, same),
              subst (λ a. IsString m (a + 1) rest) e held,
              omega (arith, count'),
              (
                write-other m (r + suc (length w)) 0 r (omega arith) ∙ at,
                real,
                byte,
                subst (λ a. IsString (write m a 0) (r + 1) w) e kept,
              ),
            )
      ]

  -- What `strtok` has to give for the string `s` at `start`: NULL where `s` has no words, else its
  -- first word, with what is left for the next call.
  abbrev pub Left : (ℕ → ℕ) → (last from to : ℕ) → List (List ℕ) → Type 0
  Left m last from to ws =
      ((last ≡ null) × (ws ≡ []))
      ⊎ ((rest : List ℕ) × IsString m last rest
          × (words delimiters rest ≡ ws)
          × (from < last)
          × (last + length rest ≡ to))

  abbrev pub Token : (ℕ → ℕ) → ℕ → List ℕ → Option ((ℕ → ℕ) × ℕ × ℕ) → Type 0
  Token m start s result =
      ((result ≡ some (m, null, null)) × (words delimiters s ≡ []))
      ⊎ ((m' : ℕ → ℕ) × (last : ℕ) × (ret : ℕ) × (w : List ℕ) × (ws : List (List ℕ)) × (result
            ≡ some (m', last, ret))
          × (words delimiters s ≡ w ∷ ws)
          × (start ≤ ret)
          × (ret + length w ≤ start + length s)
          × IsString m' ret w
          × Left m' last (ret + length w) (start + length s) ws
          × ((b : ℕ) → (b < start) ⊎ (start + length s < b) → m' b ≡ m b))

  find_delimiter-end :
      (count : ℕ) (m : ℕ → ℕ) (r : ℕ)
      → m r ≡ 0
      → 0 < count
      → find_delimiter fuel delim count m r ≡ some (m, null)
  unfolding find_delimiter
  find_delimiter-end zero m r nul lt = absurd (omega (arith, lt))
  find_delimiter-end (suc count) m r nul lt = ground (arith, nul)

  strtok_from-found :
      (m m' : ℕ → ℕ) (start r last : ℕ)
      → start ≢ null
      → last ≢ null
      → skip_delimiters fuel delim fuel m start ≡ some r
      → find_delimiter fuel delim fuel m r ≡ some (m', last)
      → strtok_from fuel delim m start ≡ some (m', last, r)
  unfolding strtok_from
  strtok_from-found m m' start r last real more skipped run =
      rw (skipped, run) (ground (arith, real, more))

  strtok_from-word :
      (m : ℕ → ℕ) (start r : ℕ) (s t : List ℕ)
      → start ≢ null
      → IsString m delim delimiters
      → start ≤ r
      → length s < fuel
      → skip_delimiters fuel delim fuel m start ≡ some r
      → IsString m r t
      → words delimiters s ≡ words delimiters t
      → r + length t ≡ start + length s
      → StartsWord delimiters t
      → length t ≤ length s
      → Token m start s (strtok_from fuel delim m start)
  unfolding strtok_from
  strtok_from-word m start r s [] real d low lt skipped held same end starts less = inl (
    ground (arith, real, skipped, held, find_delimiter-end fuel m r held (omega (arith, lt))),
    same,
  )
  strtok_from-word m start r s (c ∷ t) real d low lt skipped held same end starts less =
      elim (find_delimiter-first fuel m r c t d held starts (omega (arith, lt, less))) [
        | inl (run, one) ↦ inr (
          m,
          null,
          r,
          c ∷ t,
          [],
          ground (arith, real, skipped, run, held.0, held.1),
          same ∙ one,
          low,
          omega (arith, end),
          held,
          inl (refl, refl),
          λ b out. refl,
        )
        | inr (w, rest, run, first, held', count, kept) ↦
            let at = r + length w in
            inr (
              write m at 0,
              at + 1,
              r,
              w,
              words delimiters rest,
              strtok_from-found m (write m at 0) start r (at + 1) real (omega arith) skipped run,
              same ∙ first,
              low,
              omega (arith, end, count),
              kept,
              inr (
                rest,
                IsString-copy m (write m at 0) (at + 1) (at + 1) rest
                    (λ j le. write-other m at 0 (at + 1 + j) (omega arith)) held',
                refl,
                omega arith,
                omega (arith, end, count),
              ),
              λ b out. write-other m at 0 b (ground (arith, out, low, end, count)),
            )
      ]

  -- For a string at `start` that is not NULL, and delimiters in memory, with fuel above both
  -- lengths: `strtok` gives NULL where the string has no word; otherwise it gives the first word as
  -- a string of its own, within the old string, keeps in `last` the part whose words are the
  -- others, or NULL, and changes no byte outside the string.
  pub strtok_from-Token :
      (m : ℕ → ℕ) (start : ℕ) (s : List ℕ)
      → start ≢ null
      → IsString m delim delimiters
      → IsString m start s
      → length s < fuel
      → Token m start s (strtok_from fuel delim m start)
  strtok_from-Token m start s real d h lt =
      let (r, t, skipped, held, same, end, starts, less) =
        skip_delimiters-word fuel m start s d h lt in
      strtok_from-word m start r s t real d (omega (arith, end, less)) lt skipped held same end
        starts less
