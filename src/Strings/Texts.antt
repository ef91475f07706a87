-- ===== src/Strings/Texts.antt =====
-- What the string functions give for the strings that memory holds.
use toy_riscv_kernel.Prelude.{
  ℕ, zero, suc, ◌+◌, ◌-◌, ◌%◌, ◌^◌, ◌≤◌, ◌<◌, ◌≡◌, refl, sym, ap, ◌∙◌, subst, ◌≢◌, ◌⊎◌, inl, inr,
  Bool, true, false, ◌&&◌, some, List, [], ◌∷◌, arith, ◌==◌, Bool-cases, length,
}
use Prim.{absurd}
use toy_riscv_kernel.Machine.{write, write-same, write-other}
use toy_riscv_kernel.LinkedList.Represents.{has}
use toy_riscv_kernel.Strings.{
  strlen_from, strlen, strcmp, copy_from, memcpy, strcpy, set_from, memset, string_includes,
}

-- The bytes at `a` are those of `s`, none of them NUL, and then a NUL.
abbrev pub IsString : (ℕ → ℕ) → ℕ → List ℕ → Type 0
IsString m a [] = m a ≡ 0
IsString m a (c ∷ s) = (m a ≡ c) × (c ≢ 0) × (c < 256) × IsString m (a + 1) s

abbrev pub same : List ℕ → List ℕ → Bool
same [] [] = true
same (c ∷ s) (d ∷ t) = (c == d) && same s t
same _ _ = false

strlen_from-length :
    (fuel : ℕ) (m : ℕ → ℕ) (a len : ℕ) (s : List ℕ)
    → IsString m (a + len) s
    → length s < fuel
    → strlen_from fuel m a len ≡ some (len + length s)
unfolding strlen_from
strlen_from-length zero m a len s h lt = absurd (omega arith)
strlen_from-length (suc fuel) m a len [] h lt = ground (arith, h)
strlen_from-length (suc fuel) m a len (c ∷ s) (at, real, byte, h) lt =
    let next : (a + len) + 1 ≡ a + (len + 1) = omega arith in
    let rest =
      strlen_from-length fuel m a (len + 1) s (subst (λ b. IsString m b s) next h) (omega arith) in
    ground (arith, at, real, rest)

-- `strlen` is the length of the string, with any fuel above it.
pub strlen-length :
    (fuel : ℕ) (m : ℕ → ℕ) (a : ℕ) (s : List ℕ)
    → IsString m a s
    → length s < fuel
    → strlen fuel m a ≡ some (length s)
unfolding strlen
strlen-length fuel m a s h lt =
    let start : a ≡ a + 0 = omega arith in
    let none_yet : 0 + length s ≡ length s = omega arith in
    strlen_from-length fuel m a 0 s (subst (λ b. IsString m b s) start h) lt ∙ ap some none_yet

-- `strcmp` ends for two strings, with any fuel above the length of the first, and gives 0 exactly
-- if they are the same.
pub strcmp-same :
    (fuel : ℕ) (m : ℕ → ℕ) (a b : ℕ) (s t : List ℕ)
    → IsString m a s
    → IsString m b t
    → length s < fuel
    → (r : ℕ) × (strcmp fuel m a b ≡ some r) × ((r == 0) ≡ same s t)
unfolding strcmp
strcmp-same zero m a b s t h h' lt = absurd (omega arith)
strcmp-same (suc fuel) m a b [] [] h h' lt = (0, ground (arith, h, h'), refl)
strcmp-same (suc fuel) m a b [] (d ∷ t) h (at', real', byte', h') lt =
    (2 ^ 32 - d, ground (arith, h, at', real', byte'), ground (arith, byte', real'))
strcmp-same (suc fuel) m a b (c ∷ s) [] (at, real, byte, h) h' lt =
    (c, ground (arith, at, real, byte, h'), ground (arith, real))
strcmp-same (suc fuel) m a b (c ∷ s) (d ∷ t) (at, real, byte, h) (at', real', byte', h') lt =
    elim (Bool-cases (c == d)) [
      | inl equal ↦
          let (r, run, zero_iff) = strcmp-same fuel m (a + 1) (b + 1) s t h h' (omega arith) in
          (r, ground (arith, at, at', real, equal, run), ground (arith, equal, zero_iff))
      | inr differ ↦ (
        (c + 2 ^ 32 - d) % 2 ^ 32,
        ground (arith, at, at', real, differ),
        ground (arith, differ, byte, byte'),
      )
    ]

-- `string_includes` ends for a string, with any fuel above its length, and finds a character that
-- is not NUL exactly if it is in the string.
pub string_includes-has :
    (fuel : ℕ) (m : ℕ → ℕ) (a c : ℕ) (s : List ℕ)
    → IsString m a s
    → length s < fuel
    → string_includes fuel m a c ≡ some (has c s)
unfolding string_includes
string_includes-has zero m a c s h lt = absurd (omega arith)
string_includes-has (suc fuel) m a c [] h lt = ground (arith, h)
string_includes-has (suc fuel) m a c (d ∷ s) (at, real, byte, h) lt =
    ground (arith, at, real, string_includes-has fuel m (a + 1) c s h (omega arith))

-- Two areas of `size` bytes without a byte in common.
abbrev pub Apart : ℕ → ℕ → ℕ → Type 0
Apart dest src size = (dest + size ≤ src) ⊎ (src + size ≤ dest)

copy_from-copied :
    (count i dest src : ℕ) (m : ℕ → ℕ)
    → Apart dest src (i + count)
    → ((j : ℕ) → i ≤ j → j < i + count → copy_from count i dest src m (dest + j) ≡ m (src + j))
      × ((b : ℕ) → (b < dest + i) ⊎ (dest + (i + count) ≤ b) → copy_from count i dest src m b ≡ m b)
unfolding copy_from
copy_from-copied zero i dest src m apart = (λ j low high. absurd (omega arith), λ b out. refl)
copy_from-copied (suc count) i dest src m apart =
    let m' = write m (dest + i) (m (src + i)) in
    let (inside, outside) = copy_from-copied count (i + 1) dest src m' (ground (arith, apart)) in
    (
      λ j low high. elim (Bool-cases (j == i)) [
        | inl first ↦
            let e : j ≡ i = ground (arith, first) in
            ap (λ k. copy_from count (i + 1) dest src m' (dest + k)) e
            ∙ outside (dest + i) (inl (omega arith))
            ∙ write-same m (dest + i) (m (src + i))
            ∙ ap (λ k. m (src + k)) (sym e)
        | inr later ↦
            let ne : j ≢ i = ground (arith, later) in
            inside j (omega arith) (omega arith)
            ∙ write-other m (dest + i) (m (src + i)) (src + j) (ground (arith, apart, low, high))
      ],
      λ b out.
          outside b (ground (arith, out))
          ∙ write-other m (dest + i) (m (src + i)) b (ground (arith, out)),
    )

-- `memcpy` between areas that do not overlap copies each byte and leaves all others.
pub memcpy-copied :
    (m : ℕ → ℕ) (dest src size : ℕ)
    → Apart dest src size
    → ((j : ℕ) → j < size → memcpy m dest src size (dest + j) ≡ m (src + j))
      × ((b : ℕ) → (b < dest) ⊎ (dest + size ≤ b) → memcpy m dest src size b ≡ m b)
unfolding memcpy
memcpy-copied m dest src size apart =
    let (inside, outside) = copy_from-copied size 0 dest src m (ground (arith, apart)) in
    (λ j lt. inside j (omega arith) (omega (arith, lt)), λ b out. outside b (ground (arith, out)))

pub set_from-filled :
    (count i dest c : ℕ) (m : ℕ → ℕ)
    → ((b : ℕ) → dest + i ≤ b → b < dest + (i + count) → set_from count i dest c m b ≡ c)
      × ((b : ℕ) → (b < dest + i) ⊎ (dest + (i + count) ≤ b) → set_from count i dest c m b ≡ m b)
unfolding set_from
set_from-filled zero i dest c m = (λ b low high. absurd (omega arith), λ b out. refl)
set_from-filled (suc count) i dest c m =
    let m' = write m (dest + i) c in
    let (inside, outside) = set_from-filled count (i + 1) dest c m' in
    (
      λ b low high. elim (Bool-cases (b == dest + i)) [
        | inl first ↦
            let e : b ≡ dest + i = ground (arith, first) in
            outside b (inl (omega (arith, e))) ∙ ap m' e ∙ write-same m (dest + i) c
        | inr later ↦
            let ne : b ≢ dest + i = ground (arith, later) in
            inside b (omega (arith, ne)) (omega arith)
      ],
      λ b out. outside b (ground (arith, out)) ∙ write-other m (dest + i) c b (ground (arith, out)),
    )

-- `strcpy` between areas that do not overlap, with room for the NUL, copies `size` bytes and puts a
-- NUL behind them.
pub strcpy-copied :
    (m : ℕ → ℕ) (dest src size : ℕ)
    → Apart dest src (size + 1)
    → ((j : ℕ) → j < size → strcpy m dest src size (dest + j) ≡ m (src + j))
      × (strcpy m dest src size (dest + size) ≡ 0)
      × ((b : ℕ) → (b < dest) ⊎ (dest + size < b) → strcpy m dest src size b ≡ m b)
unfolding strcpy
strcpy-copied m dest src size apart =
    let (inside, outside) = copy_from-copied size 0 dest src m (ground (arith, apart)) in
    let copied = copy_from size 0 dest src m in
    (
      λ j lt.
          write-other copied (dest + size) 0 (dest + j) (omega (arith, lt))
          ∙ inside j (omega arith) (omega (arith, lt)),
      write-same copied (dest + size) 0,
      λ b out.
          write-other copied (dest + size) 0 b (ground (arith, out))
          ∙ outside b (ground (arith, out)),
    )

-- `memset` fills the area with the low eight bits of `c` and leaves all other bytes.
pub memset-filled :
    (m : ℕ → ℕ) (dest c size : ℕ)
    → ((b : ℕ) → dest ≤ b → b < dest + size → memset m dest c size b ≡ c % 256)
      × ((b : ℕ) → (b < dest) ⊎ (dest + size ≤ b) → memset m dest c size b ≡ m b)
unfolding memset
memset-filled m dest c size =
    let (inside, outside) = set_from-filled size 0 dest (c % 256) m in
    (
      λ b low high. inside b (omega (arith, low)) (omega (arith, high)),
      λ b out. outside b (ground (arith, out)),
    )
