-- ===== src/Shell.antt =====
-- user/sh.c: the splitting of a command line into a program and its arguments, and what is done
-- with them. A loop that looks for a byte runs on fuel, and `none` is fuel run out. The calls of
-- the user library that enter the kernel are events; what they return is given.
pub mod Builtins
pub mod Parse
pub mod Rounds
use toy_riscv_kernel.Prelude.{
  ◌>>=◌, ℕ, zero, suc, ◌+◌, ◌-◌, ◌^◌, not, Option, none, some, List, [], ◌∷◌, ◌++◌, ◌==◌,
  if◌then◌else◌,
}
use toy_riscv_kernel.Machine.{null, write}
use toy_riscv_kernel.Strings.{strlen, strcmp, strcpy}
use toy_riscv_kernel.Strings.Tokens.{strtok}
use toy_riscv_kernel.Ulib.ReadUntil.{Reading, waiting, returned, read_until}

-- `enum builtin`
pub data Builtin : Type 0 where
  help : Builtin
  exit : Builtin
  poweroff : Builtin
  non_builtin : Builtin

-- Where the string constants of the shell and its array `path` stand.
pub record Addresses : Type 0 where
  pub help_name : ℕ
  pub exit_name : ℕ
  pub poweroff_name : ℕ
  pub parameter_delimiters : ℕ
  pub path : ℕ

pub record Parsed : Type 0 where
  pub mem : ℕ → ℕ
  pub argv : List ℕ
  pub builtin : Builtin

pub data Event : Type 0 where
  print_help : Event
  call_exit : ℕ → Event
  call_power_off : Event
  call_fork : Event
  call_exec : (path : ℕ) → (argv : List ℕ) → Event
  print_failed : Event
  call_wait : Event

module _ (fuel : ℕ) (at : Addresses) where
  unfoldable pub program_type : (ℕ → ℕ) → ℕ → Option Builtin
  program_type m program = do
    is_help ← strcmp fuel m program at.help_name
    let not_help = (do
      is_exit ← strcmp fuel m program at.exit_name
      let not_exit = (do
        is_poweroff ← strcmp fuel m program at.poweroff_name
        some (if is_poweroff == 0 then poweroff else non_builtin))
      if is_exit == 0 then some exit else not_exit)
    if is_help == 0 then some help else not_help

  -- What the body of the loop of `execute_line` does for the name of the program.
  unfoldable pub take_name : (ℕ → ℕ) → ℕ → Builtin → Option ((ℕ → ℕ) × Builtin)
  take_name m parameter builtin =
      let first = (do
        kind ← program_type m parameter
        let m1 = write m at.path b'/'
        size ← strlen fuel m1 parameter
        some (strcpy m1 (at.path + 1) parameter size, kind)) in
      if m at.path == 0 then first else some (m, builtin)

  -- The loop of `execute_line`, with `last` the variable of `strtok`.
  unfoldable pub parse_from : ℕ → (ℕ → ℕ) → (last parameter : ℕ) → List ℕ → Builtin → Option Parsed
  parse_from zero m last parameter argv builtin = none
  parse_from (suc rounds) m last parameter argv builtin =
      let go_on = (do
        named ← take_name m parameter builtin
        next ← strtok fuel at.parameter_delimiters named.0 last null
        parse_from rounds next.0 next.1 next.2 (argv ++ (parameter ∷ [])) named.1) in
      if parameter == null then some (record { mem = m; argv = argv; builtin = builtin }) else go_on

  unfoldable pub parse : (ℕ → ℕ) → (last line : ℕ) → Option Parsed
  parse m last line = do
    first ← strtok fuel at.parameter_delimiters (write m at.path 0) last line
    parse_from fuel first.0 first.1 first.2 [] non_builtin

  -- The switch of `execute_line`: the calls, where they return, and the value. `pid` is the result
  -- of `fork`, and `exit_code` what `wait` stores.
  unfoldable pub run_command : (pid exit_code : ℕ) → Parsed → List Event × ℕ
  run_command pid exit_code p = elim p.builtin [
    | help ↦ (print_help ∷ [], 0)
    | exit ↦ (call_exit 0 ∷ [], 0)
    | poweroff ↦ (call_power_off ∷ [], 0)
    | non_builtin ↦
        if p.mem at.path == 0
        then ([], 0)
        else if pid == 0
        then (call_fork ∷ call_exec at.path p.argv ∷ print_failed ∷ call_exit (2 ^ 32 - 1) ∷ [], 0)
        else (call_fork ∷ call_wait ∷ [], exit_code)
  ]

  unfoldable pub execute_line :
      (pid exit_code : ℕ) → (ℕ → ℕ) → (last line : ℕ) → Option (List Event × ℕ)
  execute_line pid exit_code m last line = do
    p ← parse m last line
    some (run_command pid exit_code p)

-- A round of the loop of `main`: it waits for keys, refuses a line that is too long, or carries out
-- a line; `prompted` has the exit code that the prompt shows.
pub data Round : Type 0 where
  waits : Round
  too_long : (mem : ℕ → ℕ) → (rest : List ℕ) → Round
  prompted : (rest : List ℕ) → List Event → (exit_code : ℕ) → Round

abbrev pub max_line_length : ℕ
max_line_length = 4096

module _ (fuel : ℕ) (at : Addresses) (line : ℕ) where
  unfoldable pub round_of : (pid exit_code last : ℕ) → Reading → Option Round
  round_of pid exit_code last waiting = some waits
  round_of pid exit_code last (returned m rest echo result) =
      let carried = (do
        done ← execute_line fuel at pid exit_code m last line
        some (prompted rest done.0 done.1)) in
      if not (result == 0) then some (too_long m rest) else carried

  unfoldable pub main_round : (pid exit_code last : ℕ) → (keys : List ℕ) → (ℕ → ℕ) → Option Round
  main_round pid exit_code last keys m =
      round_of pid exit_code last (read_until line max_line_length b'\r' keys m)
