-- ===== src/Shell/Parse.antt =====
-- What the shell of user/sh.c makes of a command line.
use toy_riscv_kernel.Prelude.{
  ℕ, zero, suc, ◌+◌, ◌≤◌, ◌<◌, ◌≡◌, refl, sym, ap, ◌∙◌, subst, ◌≢◌, ◌⊎◌, inl, inr, Option, some,
  List, [], ◌∷◌, ◌++◌, arith, length, append_nil, Bool-cases, dec_le, ◌>>=◌,
}
use Prim.{absurd, yes, no}
use mathlib.Core.List.{append_assoc}
use toy_riscv_kernel.Machine.{null, write, write-same, write-other}
use toy_riscv_kernel.LinkedList.Represents.{has}
use toy_riscv_kernel.Strings.{strcpy}
use toy_riscv_kernel.Strings.Texts.{IsString, strlen-length, strcpy-copied}
use toy_riscv_kernel.Strings.Layout.{IsString-copy}
use toy_riscv_kernel.Strings.Tokens.{strtok, strtok_from}
use toy_riscv_kernel.Strings.Tokens.Words.{words_from, words, Left, strtok_from-Token}
use toy_riscv_kernel.Process.Exec.Vectors.{string_end}
use toy_riscv_kernel.Shell.{Builtin, non_builtin, Addresses, Parsed, take_name, parse_from, parse}
use toy_riscv_kernel.Shell.Builtins.{
  blanks, Constants, builtin_of, Constants-frame, program_type-builtin,
}

-- The pointers are to the strings, in their order.
abbrev pub Pointers : (ℕ → ℕ) → List ℕ → List (List ℕ) → Type 0
Pointers m [] [] = Unit
Pointers m (p ∷ ps) (w ∷ ws) = (p ≢ null) × IsString m p w × Pointers m ps ws
Pointers m _ _ = ⊥

module _ (fuel : ℕ) (at : Addresses) (short : 4 < fuel) where
  abbrev rest_of : ℕ → (ℕ → ℕ) → ℕ → List ℕ → Builtin → Option Parsed
  rest_of rounds m last argv builtin = do
    next ← strtok fuel at.parameter_delimiters m last null
    parse_from fuel at rounds next.0 next.1 next.2 argv builtin

  parse_from-step :
      (rounds : ℕ) (m m' : ℕ → ℕ) (last parameter : ℕ) (argv : List ℕ) (builtin kind : Builtin)
      → parameter ≢ null
      → take_name fuel at m parameter builtin ≡ some (m', kind)
      → parse_from fuel at (suc rounds) m last parameter argv builtin
        ≡ rest_of rounds m' last (argv ++ (parameter ∷ [])) kind
  unfolding parse_from
  parse_from-step rounds m m' last parameter argv builtin kind real named =
      rw named (ground (arith, real))

  take_name-named :
      (m : ℕ → ℕ) (parameter : ℕ) (builtin : Builtin)
      → m at.path ≢ 0
      → take_name fuel at m parameter builtin ≡ some (m, builtin)
  unfolding take_name
  take_name-named m parameter builtin named = ground (arith, named)

  strtok_from-null :
      (m : ℕ → ℕ) → strtok fuel at.parameter_delimiters m null null ≡ some (m, null, null)
  unfolding strtok strtok_from
  strtok_from-null m = refl

  rest_of-done :
      (rounds : ℕ) (m : ℕ → ℕ) (last : ℕ) (argv : List ℕ) (builtin : Builtin)
      → strtok fuel at.parameter_delimiters m last null ≡ some (m, null, null)
      → rest_of (suc rounds) m last argv builtin
        ≡ some (record { mem = m; argv = argv ++ []; builtin = builtin })
  unfolding parse_from
  rest_of-done rounds m last argv builtin run =
      rw run
        (ap (λ vs. some (record { mem = m; argv = vs; builtin = builtin })) (sym (append_nil argv)))

  rest_of-Pointers :
      (rounds : ℕ) (m : ℕ → ℕ) (last from to : ℕ) (ws : List (List ℕ)) (argv : List ℕ)
      (builtin : Builtin)
      → Constants at m
      → Left fuel at.parameter_delimiters blanks short m last from to ws
      → at.path < from
      → to < from + fuel
      → length ws < rounds
      → m at.path ≢ 0
      → (m' : ℕ → ℕ) × (ps : List ℕ) × (rest_of rounds m last argv builtin
          ≡ some (record { mem = m'; argv = argv ++ ps; builtin = builtin }))
        × Pointers m' ps ws
        × ((b : ℕ) → b ≤ from → m' b ≡ m b)
  unfolding strtok
  rest_of-Pointers zero m last from to ws argv builtin constants left above near enough named =
      absurd (omega (arith, enough))
  rest_of-Pointers (suc rounds) m last from to ws argv builtin constants (inl (ends, none_left))
        above near enough named =
      (
        m,
        [],
        rest_of-done rounds m last argv builtin
            (ap (λ l. strtok fuel at.parameter_delimiters m l null) ends ∙ strtok_from-null m),
        subst (Pointers m []) (sym none_left) tt,
        λ b le. refl,
      )
  rest_of-Pointers (suc rounds) m last from to ws argv builtin constants
        (inr (rest, held, same_words, low, end)) above near enough named =
      elim (strtok_from-Token fuel at.parameter_delimiters blanks short m last rest (omega arith)
        constants.3 held (omega (arith, low, end, near))) [
          | inl (run, none_left) ↦ (
            m,
            [],
            rest_of-done rounds m last argv builtin run,
            subst (Pointers m []) (sym none_left ∙ same_words) tt,
            λ b le. refl,
          )
          | inr (m1, last1, ret, w, ws1, run, first, ge, le, held1, left1, frame) ↦
              let here : w ∷ ws1 ≡ ws = sym first ∙ same_words in
              let kept : (b : ℕ) → b ≤ from → m1 b ≡ m b =
                λ b le'. frame b (inl (omega (arith, low))) in
              let (m', ps, run', points, kept') =
                rest_of-Pointers rounds m1 last1 (ret + length w) (last + length rest) ws1
                  (argv ++ (ret ∷ [])) builtin
                  (Constants-frame at m m1 (λ b lt. kept b (omega (arith, above))) constants) left1
                  (omega (arith, ge, low, above)) (omega (arith, ge, low, end, near))
                  (omega (arith, enough, ap length here))
                  (λ e. named (sym (kept at.path (omega (arith, above))) ∙ e)) in
              (
                m',
                ret ∷ ps,
                ap
                      (λ r. r >>= λ next.
                        parse_from fuel at (suc rounds) next.0 next.1 next.2 argv builtin)
                      run
                    ∙ parse_from-step rounds m1 m1 last1 ret argv builtin builtin
                        (omega (arith, ge, low))
                        (take_name-named m1 ret builtin
                          (λ e. named (sym (kept at.path (omega (arith, above))) ∙ e)))
                    ∙ run'
                    ∙ ap (λ vs. some (record { mem = m'; argv = vs; builtin = builtin }))
                        (append_assoc argv (ret ∷ []) ps),
                subst (Pointers m' (ret ∷ ps)) here (
                  omega (arith, ge, low),
                  IsString-copy m1 m' ret ret w (λ j le'. kept' (ret + j) (omega (arith, le')))
                      held1,
                  points,
                ),
                λ b le'. kept' b (omega (arith, le', ge, low)) ∙ kept b le',
              )
        ]

  Left-frame :
      (m m' : ℕ → ℕ) (last from to : ℕ) (ws : List (List ℕ))
      → ((b : ℕ) → from < b → m' b ≡ m b)
      → Left fuel at.parameter_delimiters blanks short m last from to ws
      → Left fuel at.parameter_delimiters blanks short m' last from to ws
  Left-frame m m' last from to ws kept (inl ends) = inl ends
  Left-frame m m' last from to ws kept (inr (rest, held, same_words, low, end)) = inr (
    rest,
    IsString-copy m m' last last rest (λ j le. kept (last + j) (omega (arith, low))) held,
    same_words,
    low,
    end,
  )

  -- The name of the program is put behind a slash in `path`.
  take_name-path :
      (m : ℕ → ℕ) (a : ℕ) (w : List ℕ) (builtin : Builtin)
      → Constants at m
      → m at.path ≡ 0
      → IsString m a w
      → length w < fuel
      → at.path + (length w + 2) ≤ a
      → (m' : ℕ → ℕ) × (take_name fuel at m a builtin ≡ some (m', builtin_of w))
        × IsString m' at.path (b'/' ∷ w)
        × ((b : ℕ) → (b < at.path) ⊎ (at.path + (length w + 1) < b) → m' b ≡ m b)
  unfolding take_name
  take_name-path m a w builtin constants empty held lt above =
      let m1 = write m at.path b'/' in
      let held1 =
        IsString-copy m m1 a a w (λ j le. write-other m at.path b'/' (a + j) (omega (arith, above)))
          held in
      let m2 = strcpy m1 (at.path + 1) a (length w) in
      let (inside, nul, outside) =
        strcpy-copied m1 (at.path + 1) a (length w) (inl (omega (arith, above))) in
      let all_same : (j : ℕ) → j ≤ length w → m2 (at.path + 1 + j) ≡ m1 (a + j) = λ j le.
        elim (dec_le (suc j) (length w)) [
          | yes lt' ↦ inside j lt'
          | no last' ↦
              let e : j ≡ length w = omega (arith, le, last') in
              ap (λ k. m2 (at.path + 1 + k)) e
              ∙ nul
              ∙ sym (ap (λ k. m1 (a + k)) e ∙ string_end m1 a w held1)
        ] in
      let kind = program_type-builtin fuel at m a w constants held lt in
      let size = strlen-length fuel m1 a w held1 lt in
      (
        m2,
        rw (kind, size) (ground (arith, empty)),
        (
          outside at.path (inl (omega arith)) ∙ write-same m at.path b'/',
          omega arith,
          omega arith,
          IsString-copy m1 m2 a (at.path + 1) w all_same held1,
        ),
        λ b out.
            outside b (ground (arith, out)) ∙ write-other m at.path b'/' b (ground (arith, out)),
      )

words_count :
    (delimiters s : List ℕ)
    → (length (words_from delimiters [] s) ≤ length s)
      × ((b : ℕ) (w : List ℕ) → length (words_from delimiters (b ∷ w) s) ≤ suc (length s))
words_count delimiters [] = (omega arith, λ b w. omega arith)
words_count delimiters (c ∷ s) =
    let (fresh, within) = words_count delimiters s in
    elim (Bool-cases (has c delimiters)) [
      | inl delimiter ↦ (ground (arith, delimiter, fresh), λ b w. ground (arith, delimiter, fresh))
      | inr other ↦ (
        ground (arith, other, within c []),
        λ b w. ground (arith, other, within b (w ++ (c ∷ []))),
      )
    ]

-- The kind of command and the contents of `path` for the words of a line.
abbrev pub kind_of : List (List ℕ) → Builtin
kind_of [] = non_builtin
kind_of (w ∷ ws) = builtin_of w

abbrev pub Named : (ℕ → ℕ) → ℕ → List (List ℕ) → Type 0
Named m path [] = m path ≡ 0
Named m path (w ∷ ws) = IsString m path (b'/' ∷ w)

parse_from-none :
    (fuel : ℕ) (at : Addresses) (rounds : ℕ) (m : ℕ → ℕ) (last : ℕ) (argv : List ℕ)
    → parse_from fuel at (suc rounds) m last null argv non_builtin
      ≡ some (record { mem = m; argv = argv; builtin = non_builtin })
unfolding parse_from
parse_from-none fuel at rounds m last argv = refl

strtok-start :
    (fuel : ℕ) (at : Addresses) (m : ℕ → ℕ) (last line : ℕ)
    → line ≢ null
    → strtok fuel at.parameter_delimiters m last line
      ≡ strtok_from fuel at.parameter_delimiters m line
unfolding strtok
strtok-start fuel at m last line real =
    ap (strtok_from fuel at.parameter_delimiters m) (ground (arith, real))

abbrev IsParsed : ℕ → Addresses → (ℕ → ℕ) → (last line : ℕ) → List (List ℕ) → Type 0
IsParsed fuel at m last line ws =
    (m' : ℕ → ℕ) × (argv : List ℕ) × (parse fuel at m last line
      ≡ some (record { mem = m'; argv = argv; builtin = kind_of ws }))
    × Pointers m' argv ws
    × Named m' at.path ws

-- For a line that stands above the array `path` and what is written there, with the shell's
-- constants below `path` and fuel above the line's length: `execute_line` finds exactly the words
-- of the line between blanks, tabs and line ends, as strings in the order of `argv`; `path` has the
-- first behind a slash, or is empty where there is none; and the kind of the command is that of the
-- first word.
pub parse-words :
    (fuel : ℕ) (at : Addresses) (m : ℕ → ℕ) (last line : ℕ) (s : List ℕ)
    → 4 < fuel
    → length s < fuel
    → Constants at m
    → at.path + (length s + 2) ≤ line
    → IsString m line s
    → (m' : ℕ → ℕ) × (argv : List ℕ) × (parse fuel at m last line
        ≡ some (record { mem = m'; argv = argv; builtin = kind_of (words blanks s) }))
      × Pointers m' argv (words blanks s)
      × Named m' at.path (words blanks s)
unfolding parse
parse-words zero at m last line s short lt constants above held = absurd (omega (arith, short))
parse-words (suc f) at m last line s short lt constants above held =
    let m0 = write m at.path 0 in
    let kept0 : (b : ℕ) → b ≢ at.path → m0 b ≡ m b = λ b ne. write-other m at.path 0 b ne in
    let constants0 = Constants-frame at m m0 (λ b lt'. kept0 b (omega (arith, lt'))) constants in
    let held0 =
      IsString-copy m m0 line line s (λ j le. kept0 (line + j) (omega (arith, above))) held in
    let start : strtok (suc f) at.parameter_delimiters m0 last line
        ≡ strtok_from (suc f) at.parameter_delimiters m0 line =
      strtok-start (suc f) at m0 last line (omega (arith, above)) in
    elim (strtok_from-Token (suc f) at.parameter_delimiters blanks short m0 line s
      (omega (arith, above)) constants0.3 held0 lt) [
        | inl (run, none_left) ↦ subst (IsParsed (suc f) at m last line) (sym none_left) (
          m0,
          [],
          rw (start, run) (parse_from-none (suc f) at f m0 null []),
          tt,
          write-same m at.path 0,
        )
        | inr (m1, last1, ret, w, ws1, run, first, ge, le, held1, left1, frame) ↦
            let kept1 : (b : ℕ) → b < line → m1 b ≡ m0 b = λ b lt'. frame b (inl lt') in
            let constants1 =
              Constants-frame at m0 m1 (λ b lt'. kept1 b (omega (arith, lt', above))) constants0 in
            let empty : m1 at.path ≡ 0 =
              kept1 at.path (omega (arith, above)) ∙ write-same m at.path 0 in
            let fits : length w ≤ length s = omega (arith, ge, le) in
            let (m2, took, named, kept2) =
              take_name-path (suc f) at short m1 ret w non_builtin constants1 empty held1
                (omega (arith, lt, fits)) (omega (arith, above, fits, ge)) in
            let held2 =
              IsString-copy m1 m2 ret ret w
                (λ j le'. kept2 (ret + j) (inr (omega (arith, above, fits, ge)))) held1 in
            let left2 =
              Left-frame (suc f) at short m1 m2 last1 (ret + length w) (line + length s) ws1
                (λ b lt'. kept2 b (inr (omega (arith, above, fits, ge, lt')))) left1 in
            let constants2 = Constants-frame at m1 m2 (λ b lt'. kept2 b (inl lt')) constants1 in
            let (m3, ps, run3, points, kept3) =
              rest_of-Pointers (suc f) at short f m2 last1 (ret + length w) (line + length s) ws1
                (ret ∷ []) (builtin_of w) constants2 left2 (omega (arith, above, ge))
                (omega (arith, ge, lt))
                (omega (arith, lt, (words_count blanks s).0, ap length first))
                (λ e. omega (arith, named.0, e)) in
            subst (IsParsed (suc f) at m last line) (sym first) (
              m3,
              ret ∷ ps,
              rw (start, run)
                  (parse_from-step (suc f) at short f m1 m2 last1 ret [] non_builtin (builtin_of w)
                      (omega (arith, above, ge)) took
                    ∙ run3),
              (
                omega (arith, above, ge),
                IsString-copy m2 m3 ret ret w (λ j le'. kept3 (ret + j) (omega (arith, le'))) held2,
                points,
              ),
              IsString-copy m2 m3 at.path at.path (b'/' ∷ w)
                  (λ j le'. kept3 (at.path + j) (omega (arith, le', above, fits, ge))) named,
            )
      ]
