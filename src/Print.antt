-- ===== src/Print.antt =====
-- kernel/print.c: the bytes that each printer hands to `uart_putc_sync`, in order.
-- The lock operations of kernel/spinlock.h are empty, and so leave no trace here.
pub mod RoundTrip
use toy_riscv_kernel.Prelude.{
  ℕ, ◌+◌, ◌-◌, ◌/◌, ◌%◌, ◌<◌, List, [], ◌∷◌, ◌++◌, arith, ltb, ◌==◌, if◌then◌else◌, Acc, lt_wf,
  dite, dec_le,
}

-- What has been sent to the transmit register, oldest first.
abbrev pub Output : Type 0
Output = List ℕ

-- A `char` holds the low eight bits.
unfoldable pub print_char : ℕ → Output
print_char c = (c % 256) ∷ []

-- `str` without its terminating NUL.
unfoldable pub print_string : List ℕ → Output
print_string [] = []
print_string (c ∷ s) = c ∷ print_string s

unfoldable pub print_int_dec_acc : (x : ℕ) → Acc ◌<◌ x → Output
print_int_dec_acc x (Acc.intro _ smaller) =
    if x == 0
    then b'0' ∷ []
    else dite (dec_le 10 x) (λ h. print_int_dec_acc (x / 10) (smaller (x / 10) (omega arith)))
        (λ _. [])
      ++ (b'0' + x % 10) ∷ []

unfoldable pub print_int_dec : ℕ → Output
unfolding print_int_dec_acc lt_wf dec_le
print_int_dec x = print_int_dec_acc x (lt_wf.apply x)

abbrev pub hex_digit : ℕ → ℕ
hex_digit digit = if ltb digit 10 then b'0' + digit else b'a' + digit - 10

unfoldable pub print_int_hex_acc : (x : ℕ) → Acc ◌<◌ x → Output
print_int_hex_acc x (Acc.intro _ smaller) =
    if x == 0
    then b'0' ∷ []
    else dite (dec_le 16 x) (λ h. print_int_hex_acc (x / 16) (smaller (x / 16) (omega arith)))
        (λ _. [])
      ++ hex_digit (x % 16) ∷ []

unfoldable pub print_int_hex_without_header : ℕ → Output
unfolding print_int_hex_acc lt_wf dec_le
print_int_hex_without_header x = print_int_hex_acc x (lt_wf.apply x)

abbrev pub unsupported_base : List ℕ
unsupported_base =
    b'p' ∷ b'r' ∷ b'i' ∷ b'n' ∷ b't' ∷ b'_' ∷ b'i' ∷ b'n' ∷ b't' ∷ b':' ∷ b' ' ∷ b'u' ∷ b'n' ∷ b's'
    ∷ b'u' ∷ b'p' ∷ b'p' ∷ b'o' ∷ b'r' ∷ b't' ∷ b'e' ∷ b'd' ∷ b' ' ∷ b'b' ∷ b'a' ∷ b's' ∷ b'e'
    ∷ b':' ∷ b' ' ∷ []

-- The call in the `default` case has base 10, and so takes the first case.
unfoldable pub print_int : ℕ → ℕ → Output
unfolding print_int_dec print_int_hex_without_header print_string
print_int x base =
    if base == 10
    then print_int_dec x
    else if base == 16
    then b'0' ∷ b'x' ∷ print_int_hex_without_header x
    else print_string unsupported_base ++ print_int_dec base
