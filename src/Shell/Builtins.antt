-- ===== src/Shell/Builtins.antt =====
-- The constants of user/sh.c in memory, and the built-in command that a name is.
use toy_riscv_kernel.Prelude.{
  ℕ, ◌+◌, ◌<◌, ◌≡◌, refl, Bool, true, false, some, List, [], ◌∷◌, arith, if◌then◌else◌, length,
}
use toy_riscv_kernel.Strings.Texts.{IsString, same, strcmp-same}
use toy_riscv_kernel.Strings.Layout.{IsString-copy}
use toy_riscv_kernel.Shell.{Builtin, help, exit, poweroff, non_builtin, Addresses, program_type}

abbrev pub help_text : List ℕ
help_text = b'h' ∷ b'e' ∷ b'l' ∷ b'p' ∷ []

abbrev pub exit_text : List ℕ
exit_text = b'e' ∷ b'x' ∷ b'i' ∷ b't' ∷ []

abbrev pub poweroff_text : List ℕ
poweroff_text = b'p' ∷ b'o' ∷ b'w' ∷ b'e' ∷ b'r' ∷ b'o' ∷ b'f' ∷ b'f' ∷ []

abbrev pub blanks : List ℕ
blanks = b' ' ∷ b'\t' ∷ b'\r' ∷ b'\n' ∷ []

-- The constants of the shell, which stand below its array `path`.
abbrev pub Constants : Addresses → (ℕ → ℕ) → Type 0
Constants at m =
    IsString m at.help_name help_text
    × IsString m at.exit_name exit_text
    × IsString m at.poweroff_name poweroff_text
    × IsString m at.parameter_delimiters blanks
    × (at.help_name + 4 < at.path)
    × (at.exit_name + 4 < at.path)
    × (at.poweroff_name + 8 < at.path)
    × (at.parameter_delimiters + 4 < at.path)

abbrev pub builtin_of : List ℕ → Builtin
builtin_of w =
    if same w help_text
    then help
    else if same w exit_text
    then exit
    else if same w poweroff_text
    then poweroff
    else non_builtin

pub Constants-frame :
    (at : Addresses) (m m' : ℕ → ℕ)
    → ((b : ℕ) → b < at.path → m' b ≡ m b)
    → Constants at m
    → Constants at m'
Constants-frame at m m' kept (h, e, p, d, h', e', p', d') = (
  IsString-copy m m' at.help_name at.help_name help_text
      (λ j le. kept (at.help_name + j) (omega (arith, h', le))) h,
  IsString-copy m m' at.exit_name at.exit_name exit_text
      (λ j le. kept (at.exit_name + j) (omega (arith, e', le))) e,
  IsString-copy m m' at.poweroff_name at.poweroff_name poweroff_text
      (λ j le. kept (at.poweroff_name + j) (omega (arith, p', le))) p,
  IsString-copy m m' at.parameter_delimiters at.parameter_delimiters blanks
      (λ j le. kept (at.parameter_delimiters + j) (omega (arith, d', le))) d,
  h',
  e',
  p',
  d',
)

pub choose :
    (b b' b'' : Bool)
    → (if b
        then some help
        else if b'
        then some exit
        else some (if b'' then poweroff else non_builtin))
      ≡ some (if b then help else if b' then exit else if b'' then poweroff else non_builtin)
choose true b' b'' = refl
choose false true b'' = refl
choose false false b'' = refl

pub program_type-builtin :
    (fuel : ℕ) (at : Addresses) (m : ℕ → ℕ) (a : ℕ) (w : List ℕ)
    → Constants at m
    → IsString m a w
    → length w < fuel
    → program_type fuel at m a ≡ some (builtin_of w)
unfolding program_type
program_type-builtin fuel at m a w (h, e, p, _, _, _, _, _) held lt =
    let (r, run, zero_iff) = strcmp-same fuel m a at.help_name w help_text held h lt in
    let (r', run', zero_iff') = strcmp-same fuel m a at.exit_name w exit_text held e lt in
    let (r'', run'', zero_iff'') =
      strcmp-same fuel m a at.poweroff_name w poweroff_text held p lt in
    rw (run, run', run'', zero_iff, zero_iff', zero_iff'')
      (choose (same w help_text) (same w exit_text) (same w poweroff_text))
