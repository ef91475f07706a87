-- ===== src/Examples/Commands.antt =====
-- A command typed at the shell, and a program started with arguments.
use toy_riscv_kernel.Prelude.{ℕ, ◌+◌, ◌-◌, ◌<◌, ◌≡◌, refl, ap, inr, some, List, [], ◌∷◌, arith, ◌≤◌}
use toy_riscv_kernel.Machine.{Mem, write}
use toy_riscv_kernel.Strings.{memcpy}
use toy_riscv_kernel.Strings.Texts.{IsString}
use toy_riscv_kernel.Strings.Layout.{
  IsText, AllStrings, write_string, write_strings, write_string-IsString, write_strings-AllStrings,
}
use toy_riscv_kernel.Strings.Tokens.{strtok_from}
use toy_riscv_kernel.Strings.Tokens.Words.{Token, strtok_from-Token}
use toy_riscv_kernel.System.{exec, Marshal, exec_loop}
use toy_riscv_kernel.System.Ends.{exec_loop-ends}
use toy_riscv_kernel.Process.Exec.{exec_vectors, rename}
use toy_riscv_kernel.Process.Exec.Vectors.{Points}
use toy_riscv_kernel.Process.Exec.RoundTrip.{exec-argv, exec-envp_misplaced}
use toy_riscv_kernel.Process.Exec.Name.{rename-all_but_last}
use toy_riscv_kernel.Ulib.ReadUntil.{read_until}
use toy_riscv_kernel.Ulib.ReadUntil.Edits.{line, Agrees, read_until-Agrees}
use toy_riscv_kernel.Shell.{Addresses, main_round, prompted}
use toy_riscv_kernel.Shell.Builtins.{help_text, exit_text, poweroff_text, blanks, Constants}
use toy_riscv_kernel.Shell.Parse.{Pointers, Named}
use toy_riscv_kernel.Shell.Rounds.{calls, main_round-runs}

abbrev path : List ℕ
path = b'/' ∷ b'e' ∷ b'c' ∷ b'h' ∷ b'o' ∷ []

abbrev echo : List ℕ
echo = b'e' ∷ b'c' ∷ b'h' ∷ b'o' ∷ []

abbrev hi : List ℕ
hi = b'h' ∷ b'i' ∷ []

abbrev variable : List ℕ
variable = b'A' ∷ b'=' ∷ b'1' ∷ []

echo-IsText : IsText echo
echo-IsText = ground (arith)

-- The page at 0x1000 in the program, and at 0x5000 in the kernel.
abbrev sent : (ℕ → ℕ) × ℕ × ℕ
sent = exec 4096 path (echo ∷ hi ∷ []) (variable ∷ []) (λ _. 7)

abbrev seen : ℕ → ℕ
seen b = sent.0 (b - 20480 + 4096)

seen-IsShared : (j : ℕ) → j < 4096 → seen (20480 + j) ≡ sent.0 (4096 + j)
seen-IsShared j lt = ap sent.0 (omega arith)

exec-argv_example :
    (w' : Mem) × (exec_vectors 4096 seen 20480 32768 sent.1 sent.2 65536 (λ _. 9) ≡ some w')
    × Points (memcpy seen 32768 20480 4096) w' 32768 65536 36864 (echo ∷ hi ∷ [])
exec-argv_example =
    exec-argv (λ _. 7) seen 4096 20480 path b'e' (b'c' ∷ b'h' ∷ b'o' ∷ []) (hi ∷ []) (variable ∷ [])
      4096 32768 65536 (λ _. 9) (omega arith) (omega arith) (inr (omega arith)) seen-IsShared
      (omega arith) (omega arith) (ground (arith)) (ground (arith)) (ground (arith))

exec-envp_misplaced_example :
    (w' : Mem) × (exec_vectors 4096 seen 20480 32768 sent.1 sent.2 65536 (λ _. 9) ≡ some w')
    × (36888 < 40960)
    × (65536 ≤ w' 36888)
    × IsString (memcpy seen 32768 20480 4096) (32768 + (w' 36888 - 65536)) (b'h' ∷ b'o' ∷ [])
exec-envp_misplaced_example =
    exec-envp_misplaced (λ _. 7) seen 4096 20480 path b'e' (b'c' ∷ b'h' ∷ b'o' ∷ []) (hi ∷ [])
      variable [] 4096 32768 65536 (λ _. 9) (omega arith) (omega arith) (inr (omega arith))
      seen-IsShared (omega arith) (omega arith) (ground (arith)) (ground (arith)) (ground (arith))
      (omega arith)

abbrev three : List (List ℕ)
three = echo ∷ hi ∷ variable ∷ []

laid_out : AllStrings (write_strings (λ _. 0) 4096 three) 4096 three
laid_out = write_strings-AllStrings (λ _. 0) 4096 three (ground (arith))

rename-all_but_last_example :
    rename 2 (write_strings (λ _. 0) 4096 three) 4096 31 4096 1 3
    ≡ some (b'e' ∷ b'c' ∷ b'h' ∷ b'o' ∷ b' ' ∷ b'h' ∷ b'i' ∷ [])
rename-all_but_last_example =
    rename-all_but_last 2 (write_strings (λ _. 0) 4096 three) 4096 4096 echo (hi ∷ []) variable
      (omega arith) laid_out (ground (arith))

abbrev before : Marshal
before = record {
  state = 0;
  count1 = 0;
  count2 = 0;
  argv_size = 0;
  envp_size = 0;
  i = 0;
  mem = λ _. 7;
}

exec_loop-ends_example : (exec_loop 4096 4097 path (echo ∷ []) [] before).i ≡ 4096
exec_loop-ends_example =
    exec_loop-ends 4096 path (echo ∷ []) [] 4097 before (omega arith) (omega arith)

-- The shell's constants from 100 on, `path` at 200, the line at 8192.
abbrev addresses : Addresses
addresses = record {
  help_name = 100;
  exit_name = 110;
  poweroff_name = 120;
  parameter_delimiters = 130;
  path = 200;
}

abbrev shell_memory : ℕ → ℕ
shell_memory =
    write_string
      (write_string (write_string (write_string (λ _. 0) 100 help_text) 110 exit_text) 120
        poweroff_text)
      130 blanks

shell-Constants : Constants addresses shell_memory
unfolding write
shell-Constants = ground (arith)

-- "echp", a rubout, "o hi" and the end of the line.
abbrev keys : List ℕ
keys = b'e' ∷ b'c' ∷ b'h' ∷ b'p' ∷ 127 ∷ b'o' ∷ b' ' ∷ b'h' ∷ b'i' ∷ b'\r' ∷ b'x' ∷ []

abbrev typed : List ℕ
typed = b'e' ∷ b'c' ∷ b'h' ∷ b'o' ∷ b' ' ∷ b'h' ∷ b'i' ∷ b'\r' ∷ []

main_round-runs_example :
    (m' : ℕ → ℕ) × (argv : List ℕ) × (let did = calls 7 0 200 argv (echo ∷ hi ∷ []) in
      main_round 4096 addresses 8192 7 0 0 keys shell_memory
      ≡ some (prompted (b'x' ∷ []) did.0 did.1))
    × Pointers m' argv (echo ∷ hi ∷ [])
    × Named m' 200 (echo ∷ hi ∷ [])
main_round-runs_example =
    main_round-runs 4096 addresses 8192 7 0 0 keys typed (b'x' ∷ []) shell_memory (omega arith)
      shell-Constants (omega arith) (ground (arith)) refl

read_until-Agrees_example :
    Agrees 8192 4096 b'\r' shell_memory
      (read_until 8192 4096 b'\r' keys shell_memory)
      (line typed (b'x' ∷ []))
read_until-Agrees_example =
    read_until-Agrees 8192 4096 b'\r' keys shell_memory (omega arith) (ground (arith))

abbrev line_memory : ℕ → ℕ
line_memory = write_string (write_string (λ _. 0) 130 blanks) 8192 typed

delimiters_there : IsString line_memory 130 blanks
unfolding write
delimiters_there = ground (arith)

strtok_from-Token_example :
    Token 4096 130 blanks
      (omega arith)
      line_memory
      8192
      typed
      (strtok_from 4096 130 line_memory 8192)
strtok_from-Token_example =
    strtok_from-Token 4096 130 blanks (omega arith) line_memory 8192 typed (omega arith)
      delimiters_there
      (write_string-IsString (write_string (λ _. 0) 130 blanks) 8192 typed (ground (arith)))
      (omega arith)
