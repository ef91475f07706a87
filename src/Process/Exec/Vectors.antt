-- ===== src/Process/Exec/Vectors.antt =====
-- The vectors that `exec_process` fills, for strings laid out in the shared page.
use toy_riscv_kernel.Prelude.{
  ◌>>=◌, Option, leb, ◌*◌, ℕ, zero, suc, ◌+◌, ◌-◌, ◌%◌, ◌^◌, ◌≤◌, ◌<◌, ◌≡◌, refl, sym, ap, ◌∙◌,
  subst, ◌≢◌, inl, inr, ◌⊎◌, true, some, List, [], ◌∷◌, ◌++◌, arith, length, drop, length-append,
  Option-cases, eq_of_some, dec_le,
}
use Prim.{absurd}
use Prim.{yes, no}
use toy_riscv_kernel.Strings.{memcpy}
use toy_riscv_kernel.Strings.Texts.{IsString, Apart, memcpy-copied}
use toy_riscv_kernel.Strings.Layout.{
  total, AllStrings, IsString-copy, total-append, AllStrings-front, strings_count,
}
use toy_riscv_kernel.Process.Exec.{
  past_string, past_nuls, find_argv, store, fill_vector, exec_vectors,
}
use toy_riscv_kernel.Machine.{Mem, write, write-same, write-other}

pub past_string-end :
    (fuel : ℕ) (m : ℕ → ℕ) (a : ℕ) (s : List ℕ)
    → IsString m a s
    → length s < fuel
    → past_string fuel m a ≡ some (a + length s)
unfolding past_string
past_string-end zero m a s h lt = absurd (omega arith)
past_string-end (suc fuel) m a [] h lt = ground (arith, h)
past_string-end (suc fuel) m a (c ∷ s) (at, real, byte, h) lt =
    ground (arith, at, real, past_string-end fuel m (a + 1) s h (omega arith))

-- Behind a string comes the next one that is not empty.
pub past_nuls-next :
    (fuel : ℕ) (m : ℕ → ℕ) (a c : ℕ)
    → m a ≡ 0
    → m (a + 1) ≡ c
    → c ≢ 0
    → 1 < fuel
    → past_nuls fuel m a ≡ some (a + 1)
unfolding past_nuls
past_nuls-next zero m a c nul at real lt = absurd (omega arith)
past_nuls-next (suc zero) m a c nul at real lt = absurd (omega arith)
past_nuls-next (suc (suc fuel)) m a c nul at real lt = ground (arith, nul, at, real)

pub string_end : (m : ℕ → ℕ) (a : ℕ) (s : List ℕ) → IsString m a s → m (a + length s) ≡ 0
string_end m a [] h = ap m (omega arith) ∙ h
string_end m a (c ∷ s) (at, real, byte, h) = ap m (omega arith) ∙ string_end m (a + 1) s h

-- A string without its first bytes.
pub drop-IsString :
    (m : ℕ → ℕ) (a d : ℕ) (s : List ℕ)
    → IsString m a s
    → d ≤ length s
    → IsString m (a + d) (drop d s)
drop-IsString m a zero s h le = subst (λ b. IsString m b s) (omega arith) h
drop-IsString m a (suc d) [] h le = absurd (omega arith)
drop-IsString m a (suc d) (c ∷ s) (at, real, byte, h) le =
    subst (λ b. IsString m b (drop d s)) (omega arith)
      (drop-IsString m (a + 1) d s h (omega (arith, le)))

pub length-drop : (d : ℕ) (s : List ℕ) → d ≤ length s → d + length (drop d s) ≡ length s
length-drop zero s le = omega arith
length-drop (suc d) [] le = absurd (omega (arith, le))
length-drop (suc d) (c ∷ s) le = omega (arith, length-drop d s (omega (arith, le)))

-- The words of a vector, in their order.
vector_words : (fuel : ℕ) → (ℕ → ℕ) → (shared count va arg : ℕ) → Option (List ℕ)
vector_words fuel m shared zero va arg = some (0 ∷ [])
vector_words fuel m shared (suc count) va arg = do
  end ← past_string fuel m arg
  rest ← vector_words fuel m shared count va (end + 1)
  some ((va + (arg - shared)) % 2 ^ 64 ∷ rest)

write_words : Mem → ℕ → List ℕ → Mem
write_words w ptr [] = w
write_words w ptr (v ∷ vs) = write_words (write w ptr v) (ptr + 8) vs

write_words-before : (w : Mem) (ptr b : ℕ) (vs : List ℕ) → b < ptr → write_words w ptr vs b ≡ w b
unfolding write_words
write_words-before w ptr b [] lt = refl
write_words-before w ptr b (v ∷ vs) lt =
    write_words-before (write w ptr v) (ptr + 8) b vs (omega (arith, lt))
    ∙ write-other w ptr v b (omega (arith, lt))

write_words-first : (w : Mem) (ptr v : ℕ) (vs : List ℕ) → write_words w ptr (v ∷ vs) ptr ≡ v
unfolding write_words
write_words-first w ptr v vs =
    write_words-before (write w ptr v) (ptr + 8) ptr vs (omega arith) ∙ write-same w ptr v

-- The words of a vector are stored one behind the other, where there is room for them.
fill_vector-words :
    (fuel : ℕ) (m : ℕ → ℕ) (shared end count va arg ptr : ℕ) (w : Mem) (words : List ℕ)
    → vector_words fuel m shared count va arg ≡ some words
    → ptr + 8 * (count + 1) ≤ end
    → fill_vector fuel m shared end count va arg ptr w ≡ some (write_words w ptr words)
unfolding fill_vector store vector_words write_words
fill_vector-words fuel m shared end zero va arg ptr w words run room =
    ground (arith, room) ∙ ap (λ vs. some (write_words w ptr vs)) (eq_of_some run)
fill_vector-words fuel m shared end (suc count) va arg ptr w words run room =
    elim (Option-cases (past_string fuel m arg)) [
      | inl e ↦ absurd (cc (e, run))
      | inr (past, e) ↦ elim (Option-cases (vector_words fuel m shared count va (past + 1))) [
        | inl e' ↦ (let r = rw (e, e') at run in absurd (cc r))
        | inr (rest, e') ↦
            let v = (va + (arg - shared)) % 2 ^ 64 in
            let fits : leb (ptr + 8) end ≡ true = ground (arith, room) in
            rw (fits, e)
              (fill_vector-words fuel m shared end count va (past + 1) (ptr + 8) (write w ptr v)
                  rest e' (omega (arith, room))
                ∙ ap (λ vs. some (write_words w ptr vs)) (eq_of_some (rw (e, e') at run)))
      ]
    ]

-- Words at `ptr` for a page that is mapped at `va`: each points to its string, and NULL is last.
abbrev pub Points : (ℕ → ℕ) → Mem → (page va ptr : ℕ) → List (List ℕ) → Type 0
Points m w page va ptr [] = w ptr ≡ 0
Points m w page va ptr (s ∷ ss) =
    (va ≤ w ptr) × IsString m (page + (w ptr - va)) s × Points m w page va (ptr + 8) ss

abbrev PointWords : (ℕ → ℕ) → (page va : ℕ) → List ℕ → List (List ℕ) → Type 0
PointWords m page va words [] = words ≡ 0 ∷ []
PointWords m page va words (s ∷ ss) =
    (w : ℕ) × (rest : List ℕ) × (words ≡ w ∷ rest)
    × (va ≤ w)
    × IsString m (page + (w - va)) s
    × PointWords m page va rest ss

-- They stay where what is written later lies behind them.
Points-written :
    (m : ℕ → ℕ) (w w' : Mem) (page va ptr end : ℕ) (words : List ℕ) (ss : List (List ℕ))
    → PointWords m page va words ss
    → ptr + 8 * (length ss + 1) ≤ end
    → ((b : ℕ) → b < end → w' b ≡ write_words w ptr words b)
    → Points m w' page va ptr ss
unfolding write_words
Points-written m w w' page va ptr end words [] e room same =
    same ptr (omega (arith, room))
    ∙ ap (λ vs. write_words w ptr vs ptr) e
    ∙ write_words-first w ptr 0 []
Points-written m w w' page va ptr end words (s ∷ ss) (v, rest, e, le, held, points) room same =
    let same' : (b : ℕ) → b < end → w' b ≡ write_words w ptr (v ∷ rest) b =
      λ b lt. same b lt ∙ ap (λ vs. write_words w ptr vs b) e in
    let at : w' ptr ≡ v = same' ptr (omega (arith, room)) ∙ write_words-first w ptr v rest in
    (
      subst (λ n. va ≤ n) (sym at) le,
      subst (λ n. IsString m (page + (n - va)) s) (sym at) held,
      Points-written m (write w ptr v) w' page va (ptr + 8) end rest ss points (omega (arith, room))
          same',
    )

module _ (fuel : ℕ) (m : ℕ → ℕ) (shared page va : ℕ) (enough : 4096 ≤ fuel)
    (mapped : va + 4096 ≤ 2 ^ 64) (apart : Apart page shared 4096) where
  pub copied-IsString :
      (d : ℕ) (s : List ℕ)
      → IsString m (shared + d) s
      → d + length s < 4096
      → IsString (memcpy m page shared 4096) (page + d) s
  copied-IsString d s h fits =
      let (inside, outside) = memcpy-copied m page shared 4096 apart in
      IsString-copy m (memcpy m page shared 4096) (shared + d) (page + d) s
        (λ j le.
          ap (memcpy m page shared 4096) (omega arith)
          ∙ inside (d + j) (omega (arith, fits, le))
          ∙ ap m (omega arith))
        h

  -- The vector for strings that stand one behind the other.
  vector_words-Points :
      (count d : ℕ) (ss : List (List ℕ))
      → count ≡ length ss
      → AllStrings m (shared + d) ss
      → d + total ss ≤ 4096
      → (words : List ℕ) × (vector_words fuel m shared count va (shared + d) ≡ some words)
        × PointWords (memcpy m page shared 4096) page va words ss
  unfolding vector_words
  vector_words-Points zero d [] e h fits = (0 ∷ [], refl, refl)
  vector_words-Points zero d (s ∷ ss) e h fits = absurd (omega (arith, e))
  vector_words-Points (suc count) d [] e h fits = absurd (omega (arith, e))
  vector_words-Points (suc count) d (s ∷ ss) e (first, h) fits =
      let n = suc (length s) in
      let (words, run, points) =
        vector_words-Points count (d + n) ss (omega (arith, e))
          (subst (λ a. AllStrings m a ss) (omega arith) h) (omega (arith, fits)) in
      let end = past_string-end fuel m (shared + d) s first (omega (arith, fits, enough)) in
      let w = (va + (shared + d - shared)) % 2 ^ 64 in
      let at : w ≡ va + d = omega (arith, fits, mapped) in
      let next : shared + d + length s + 1 ≡ shared + (d + n) = omega arith in
      let back : d ≡ w - va = omega (arith, at) in
      (
        w ∷ words,
        rw (end, next, run) refl,
        (
          w,
          words,
          refl,
          omega (arith, at),
          subst (λ k. IsString (memcpy m page shared 4096) (page + k) s) back
              (copied-IsString d s first (omega (arith, fits))),
          points,
        ),
      )

  -- From within the strings of `front` on there are enough strings for `count` words.
  vector_words-start :
      (count a : ℕ) (ss : List (List ℕ))
      → count ≤ length ss
      → AllStrings m a ss
      → total ss ≤ 4096
      → (words : List ℕ) × (vector_words fuel m shared count va a ≡ some words)
  unfolding vector_words
  vector_words-start zero a ss le h fits = (0 ∷ [], refl)
  vector_words-start (suc count) a [] le h fits = absurd (omega (arith, le))
  vector_words-start (suc count) a (s ∷ ss) le (first, h) fits =
      let (words, run) =
        vector_words-start count (a + suc (length s)) ss (omega (arith, le)) h
          (omega (arith, fits)) in
      let end = past_string-end fuel m a s first (omega (arith, fits, enough)) in
      let next : a + length s + 1 ≡ a + suc (length s) = omega arith in
      ((va + (a - shared)) % 2 ^ 64 ∷ words, rw (end, next, run) refl)

  vector_words-within :
      (count a d : ℕ) (front back : List (List ℕ))
      → count ≤ length back
      → d ≤ total front
      → AllStrings m a (front ++ back)
      → total (front ++ back) ≤ 4096
      → (words : List ℕ) × (vector_words fuel m shared count va (a + d) ≡ some words)
  unfolding vector_words
  vector_words-within count a d [] back le within h fits =
      let (words, run) = vector_words-start count a back le h fits in
      (words, ap (vector_words fuel m shared count va) (omega (arith, within)) ∙ run)
  vector_words-within zero a d (s ∷ front) back le within h fits = (0 ∷ [], refl)
  vector_words-within (suc count) a d (s ∷ front) back le within (first, h) fits =
      elim (dec_le d (length s)) [
        | yes inside ↦
            let (words, run) =
              vector_words-start count (a + suc (length s)) (front ++ back)
                (omega (arith, le, length-append front back)) h (omega (arith, fits)) in
            let end =
              past_string-end fuel m (a + d) (drop d s) (drop-IsString m a d s first inside)
                (omega (arith, fits, enough, length-drop d s inside)) in
            let next : a + d + length (drop d s) + 1 ≡ a + suc (length s) =
              omega (arith, length-drop d s inside) in
            ((va + (a + d - shared)) % 2 ^ 64 ∷ words, rw (end, next, run) refl)
        | no beyond ↦
            let n = suc (length s) in
            let beyond' : length s < d = omega (arith, beyond) in
            let (words, run) =
              vector_words-within (suc count) (a + n) (d - n) front back le (omega (arith, within))
                h (omega (arith, fits)) in
            let e : a + d ≡ a + n + (d - n) = omega (arith, beyond') in
            (words, ap (vector_words fuel m shared (suc count) va) e ∙ run)
      ]

  pub find_argv-first :
      (name : List ℕ) (c : ℕ) (s : List ℕ) (ss : List (List ℕ))
      → AllStrings m shared (name ∷ ((c ∷ s) ∷ ss))
      → total (name ∷ ((c ∷ s) ∷ ss)) ≤ 4096
      → find_argv fuel m shared ≡ some (shared + suc (length name))
  unfolding find_argv
  find_argv-first name c s ss (named, ((at, real, _, _), _)) fits =
      let end = past_string-end fuel m shared name named (omega (arith, fits, enough)) in
      let at' : m (shared + length name + 1) ≡ c = ap m (omega arith) ∙ at in
      let next =
        past_nuls-next fuel m (shared + length name) c (string_end m shared name named) at' real
          (omega (arith, enough)) in
      let e : shared + length name + 1 ≡ shared + suc (length name) = omega arith in
      rw (end, next, e) refl

-- The first word of a vector is that of the string it starts from.
vector_words-first :
    (fuel : ℕ) (m : ℕ → ℕ) (shared count va arg : ℕ) (words : List ℕ)
    → vector_words fuel m shared (suc count) va arg ≡ some words
    → (rest : List ℕ) × (words ≡ (va + (arg - shared)) % 2 ^ 64 ∷ rest)
unfolding vector_words
vector_words-first fuel m shared count va arg words run =
    elim (Option-cases (past_string fuel m arg)) [
      | inl e ↦ absurd (cc (e, run))
      | inr (end, e) ↦ elim (Option-cases (vector_words fuel m shared count va (end + 1))) [
        | inl e' ↦ (let r = rw (e, e') at run in absurd (cc r))
        | inr (rest, e') ↦ (rest, sym (eq_of_some (rw (e, e') at run)))
      ]
    ]

starts_at :
    (fuel : ℕ) (m : ℕ → ℕ) (shared count va arg ptr : ℕ) (w : Mem) (words : List ℕ)
    → vector_words fuel m shared count va arg ≡ some words
    → (count ≡ 0) ⊎ (write_words w ptr words ptr ≡ (va + (arg - shared)) % 2 ^ 64)
starts_at fuel m shared zero va arg ptr w words run = inl refl
starts_at fuel m shared (suc count) va arg ptr w words run =
    let (rest, e) = vector_words-first fuel m shared count va arg words run in
    inr (ap (λ vs. write_words w ptr vs ptr) e ∙ write_words-first w ptr _ rest)

-- Where the shared page holds a name, arguments of which the first is not empty, and an
-- environment, one behind the other, and the two vectors fit into a page, they are filled; in the
-- copy of the page, mapped at `va`, the words of the first point to the arguments in their order,
-- with NULL behind them, and the second starts with the word of the byte `argc` places behind the
-- first argument.
pub exec_vectors-argv :
    (fuel : ℕ) (m : ℕ → ℕ) (shared page va : ℕ) (name : List ℕ) (c : ℕ) (s : List ℕ)
    (args envp : List (List ℕ)) (w : Mem)
    → 4096 ≤ fuel
    → va + 4096 ≤ 2 ^ 64
    → Apart page shared 4096
    → AllStrings m shared (name ∷ (((c ∷ s) ∷ args) ++ envp))
    → total (name ∷ (((c ∷ s) ∷ args) ++ envp)) ≤ 4096
    → length args + length envp < 510
    → let argc = suc (length args) in
      let start = (va + (shared + suc (length name) + argc - shared)) % 2 ^ 64 in
      (w' : Mem) × (exec_vectors fuel m shared page argc (length envp) va w ≡ some w')
      × Points (memcpy m page shared 4096) w' page va (page + 4096) ((c ∷ s) ∷ args)
      × ((length envp ≡ 0) ⊎ (w' (page + 4096 + 8 * (argc + 1)) ≡ start))
unfolding exec_vectors
exec_vectors-argv fuel m shared page va name c s args envp w enough mapped apart (named, h) fits
      room =
    let argv = (c ∷ s) ∷ args in
    let n = suc (length name) in
    let argc = length argv in
    let found =
      find_argv-first fuel m shared page va enough mapped apart name c s (args ++ envp) (named, h)
        fits in
    let (words, run, points) =
      vector_words-Points fuel m shared page va enough mapped apart argc n argv refl
        (AllStrings-front m (shared + n) argv envp h)
        (omega (arith, fits, total-append argv envp)) in
    let (words', run') =
      vector_words-within fuel m shared page va enough mapped apart (length envp) (shared + n) argc
        argv envp (omega arith) (strings_count argv) h (omega (arith, fits)) in
    let w1 = write_words w (page + 4096) words in
    let at = page + 4096 + 8 * (argc + 1) in
    let filled =
      fill_vector-words fuel m shared (page + 8192) argc va (shared + n) (page + 4096) w words run
        (omega (arith, room)) in
    let filled' =
      fill_vector-words fuel m shared (page + 8192) (length envp) va (shared + n + argc) at w1
        words' run' (omega (arith, room)) in
    (
      write_words w1 at words',
      rw (found, filled) filled',
      Points-written (memcpy m page shared 4096) w (write_words w1 at words') page va (page + 4096)
          at words argv points (omega arith) (λ b lt. write_words-before w1 at b words' lt),
      starts_at fuel m shared (length envp) va (shared + n + argc) at w1 words' run',
    )
