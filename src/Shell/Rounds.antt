-- ===== src/Shell/Rounds.antt =====
-- The rounds of the shell of user/sh.c, from the keys to the calls.
use toy_riscv_kernel.Prelude.{
  false, if◌then◌else◌, ap, ◌-◌, ◌^◌, ℕ, ◌+◌, ◌≤◌, ◌<◌, ◌≡◌, refl, subst, inl, inr, ◌||◌, some,
  List, [], ◌∷◌, ◌++◌, arith, ltb, ◌==◌, length, length-append, append_nil, Bool-cases,
}
use Prim.{absurd}
use toy_riscv_kernel.Strings.Tokens.Words.{words}
use toy_riscv_kernel.Ulib.ReadUntil.{rubout, read_until}
use toy_riscv_kernel.Ulib.ReadUntil.Edits.{
  line, edit, but_last, visible, length-but_last, AllBytes, Agrees, read_until-Agrees,
}
use toy_riscv_kernel.Shell.{
  Addresses, Event, print_help, call_exit, call_power_off, call_fork, call_exec, print_failed,
  call_wait, run_command, execute_line, prompted, round_of, main_round,
}
use toy_riscv_kernel.Strings.Texts.{same}
use toy_riscv_kernel.Shell.Builtins.{
  help_text, exit_text, poweroff_text, blanks, Constants, Constants-frame,
}
use toy_riscv_kernel.Shell.Parse.{Pointers, Named, kind_of, parse-words}

text_of : {t t' rest rest' : List ℕ} → line t rest ≡ line t' rest' → t ≡ t'
text_of e = cc

visible_fits :
    (max_length c : ℕ) (text : List ℕ)
    → length text < max_length
    → length (text ++ (c ∷ [])) < max_length
    → length (text ++ visible c) < max_length
visible_fits max_length c text lt longer = elim (Bool-cases (c == 0)) [
  | inl nul ↦ rw (nul, append_nil text) lt
  | inr real ↦ rw real longer
]

-- A line that is complete fits into the buffer, with its NUL.
edit-fits :
    (max_length end : ℕ) (keys text t rest : List ℕ)
    → edit max_length end keys text ≡ line t rest
    → length text < max_length
    → length t < max_length
edit-fits max_length end [] text t rest e lt =
    elim (Bool-cases (ltb (length text + 1) max_length)) [
      | inl room ↦ absurd (cc (rw room at e))
      | inr none_left ↦ absurd (cc (rw none_left at e))
    ]
edit-fits max_length end (c ∷ keys) text t rest e lt =
    elim (Bool-cases (ltb (length text + 1) max_length)) [
      | inr none_left ↦ absurd (cc (rw none_left at e))
      | inl room ↦ elim (Bool-cases (c == rubout)) [
        | inl rub ↦
            edit-fits max_length end keys (but_last text) t rest (rw (room, rub) at e)
              (omega (arith, lt, length-but_last text))
        | inr plain ↦
            let longer : length (text ++ (c ∷ [])) < max_length =
              ground (arith, room, length-append text (c ∷ [])) in
            elim (Bool-cases ((c == end) || (c == 0))) [
              | inr more ↦
                  edit-fits max_length end keys (text ++ (c ∷ [])) t rest
                    (rw (room, plain, more) at e) longer
              | inl ends ↦
                  let same : text ++ visible c ≡ t = text_of (rw (room, plain, ends) at e) in
                  subst (λ u. length u < max_length) same (visible_fits max_length c text lt longer)
            ]
      ]
    ]

-- The calls for the words of a line, with the value that the prompt shows: the first word names one
-- of the three commands of the shell, or a program that is started in a child; `pid` is the result
-- of `fork`.
abbrev pub calls : (pid exit_code path : ℕ) → (argv : List ℕ) → List (List ℕ) → List Event × ℕ
calls pid exit_code path argv [] = ([], 0)
calls pid exit_code path argv (w ∷ ws) =
    if same w help_text
    then (print_help ∷ [], 0)
    else if same w exit_text
    then (call_exit 0 ∷ [], 0)
    else if same w poweroff_text
    then (call_power_off ∷ [], 0)
    else if pid == 0
    then (call_fork ∷ call_exec path argv ∷ print_failed ∷ call_exit (2 ^ 32 - 1) ∷ [], 0)
    else (call_fork ∷ call_wait ∷ [], exit_code)

run_command-calls :
    (fuel : ℕ) (at : Addresses) (pid exit_code : ℕ) (m : ℕ → ℕ) (argv : List ℕ) (ws : List (List ℕ))
    → Named m at.path ws
    → run_command fuel at pid exit_code (record { mem = m; argv = argv; builtin = kind_of ws })
      ≡ calls pid exit_code at.path argv ws
unfolding run_command
run_command-calls fuel at pid exit_code m argv [] named = ground (arith, named)
run_command-calls fuel at pid exit_code m argv (w ∷ ws) (slash, _, _, _) =
    let real : (m at.path == 0) ≡ false = ground (arith, slash) in
    elim (Bool-cases (same w help_text)) [
      | inl is_help ↦ rw is_help refl
      | inr not_help ↦ elim (Bool-cases (same w exit_text)) [
        | inl is_exit ↦ rw (not_help, is_exit) refl
        | inr not_exit ↦ elim (Bool-cases (same w poweroff_text)) [
          | inl is_poweroff ↦ rw (not_help, not_exit, is_poweroff) refl
          | inr program ↦ rw (not_help, not_exit, program, real) refl
        ]
      ]
    ]

-- From keys that complete a line to the calls: where the shell's constants stand below `path`, and
-- the line's buffer behind it with room, a round of `main` whose keys make up the line `t` in the
-- line editor makes the calls for the words of `t`, among them, where they name a program, `exec`
-- with pointers to exactly these words and with the name behind a slash at `path`; it leaves the
-- other keys unread.
pub main_round-runs :
    (fuel : ℕ) (at : Addresses) (buffer pid exit_code last : ℕ) (keys t rest : List ℕ) (m : ℕ → ℕ)
    → 4096 ≤ fuel
    → Constants at m
    → at.path + 4098 ≤ buffer
    → AllBytes keys
    → edit 4096 b'\r' keys [] ≡ line t rest
    → (m' : ℕ → ℕ) × (argv : List ℕ) × (let did =
          calls pid exit_code at.path argv (words blanks t) in
        main_round fuel at buffer pid exit_code last keys m ≡ some (prompted rest did.0 did.1))
      × Pointers m' argv (words blanks t)
      × Named m' at.path (words blanks t)
unfolding main_round round_of execute_line
main_round-runs fuel at buffer pid exit_code last keys t rest m enough constants above bytes
      complete =
    let (m1, echo, read, held, frame) =
      subst (Agrees buffer 4096 b'\r' m (read_until buffer 4096 b'\r' keys m)) complete
        (read_until-Agrees buffer 4096 b'\r' keys m (omega arith) bytes) in
    let fits = edit-fits 4096 b'\r' keys [] t rest complete (omega arith) in
    let constants1 =
      Constants-frame at m m1 (λ b lt. frame b (inl (omega (arith, lt, above)))) constants in
    let (m', argv, run, points, named) =
      parse-words fuel at m1 last buffer t (omega (arith, enough)) (omega (arith, enough, fits))
        constants1 (omega (arith, above, fits)) held in
    let did = run_command-calls fuel at pid exit_code m' argv (words blanks t) named in
    (m', argv, rw (read, run) (ap (λ d. some (prompted rest d.0 d.1)) did), points, named)
