-- ===== src/Examples/Texts.antt =====
-- Numbers printed by the kernel and by the user library.
use toy_riscv_kernel.Prelude.{ℕ, ◌≡◌, List, [], ◌∷◌}
use toy_riscv_kernel.Print
use toy_riscv_kernel.Print.RoundTrip.{IsNumeral, print_int-read}
use toy_riscv_kernel.Ulib
use toy_riscv_kernel.Ulib.{Arg, word, text}

print_int-read_example :
    IsNumeral 10 1789 (Print.print_int 1789 10)
    × (s : List ℕ) × (Print.print_int 1789 16 ≡ b'0' ∷ b'x' ∷ s)
    × IsNumeral 16 1789 s
print_int-read_example = print_int-read 1789

-- "n=%s%c" with "ab" and '!'
abbrev format : List ℕ
format = b'n' ∷ b'=' ∷ b'%' ∷ b's' ∷ b'%' ∷ b'c' ∷ []

abbrev arguments : List Arg
arguments = text (b'a' ∷ b'b' ∷ []) ∷ word b'!' ∷ []
