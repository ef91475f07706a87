-- ===== src/Ulib/Numbers.antt =====
-- The number printers of user/ulib.c against those of kernel/print.c, and the lengths they return.
use toy_riscv_kernel.Prelude.{
  ℕ, ◌+◌, ◌-◌, ◌/◌, ◌%◌, ◌^◌, ◌<◌, ◌≡◌, ◌∙◌, inl, inr, Bool, true, false, some, List, [], ◌∷◌, ◌++◌,
  arith, leb, ◌==◌, if◌then◌else◌, Bool-cases, length, length-append, lt_wf, Acc,
}
use toy_riscv_kernel.Print
use toy_riscv_kernel.Print.RoundTrip.{read_from, read-print_dec_acc}
use toy_riscv_kernel.Print.{print_int_dec_acc, print_int_hex_acc}
use toy_riscv_kernel.Ulib.{
  print_unsigned_int_acc, print_unsigned_int, print_int_hex_acc as user_hex_acc, print_int_dec,
  print_int,
}

unsigned_acc-kernel :
    (n : ℕ) (w : Acc ◌<◌ n)
    → print_unsigned_int_acc n w ≡ (print_int_dec_acc n w, length (print_int_dec_acc n w))
unfolding print_unsigned_int_acc print_int_dec_acc
unsigned_acc-kernel n (Acc.intro _ smaller) = grind (
  arith,
  λ (p : n / 10 < n). unsigned_acc-kernel (n / 10) (smaller (n / 10) p),
  λ (p : n / 10 < n).
      length-append (print_int_dec_acc (n / 10) (smaller (n / 10) p)) ((48 + n % 10) ∷ []),
)

hex_acc-kernel :
    (n : ℕ) (w : Acc ◌<◌ n)
    → user_hex_acc n w ≡ (print_int_hex_acc n w, length (print_int_hex_acc n w))
unfolding user_hex_acc print_int_hex_acc
hex_acc-kernel n (Acc.intro _ smaller) = grind (
  arith,
  λ (p : n / 16 < n). hex_acc-kernel (n / 16) (smaller (n / 16) p),
  λ (p : n / 16 < n).
      length-append (print_int_hex_acc (n / 16) (smaller (n / 16) p))
        (Print.hex_digit (n % 16) ∷ []),
)

-- For unsigned numbers, and in base 16, the user library sends exactly the bytes that the kernel's
-- `print_int` sends, and returns how many they are.
pub print_int-kernel :
    (n : ℕ)
    → (print_int n false 10 ≡ some (Print.print_int n 10, length (Print.print_int n 10)))
      × ((sign : Bool)
          → print_int n sign 16 ≡ some (Print.print_int n 16, length (Print.print_int n 16)))
unfolding print_int Print.print_int Print.print_int_dec Print.print_int_hex_without_header
print_int-kernel n = (
  rw (unsigned_acc-kernel n (lt_wf.apply n)),
  λ sign. rw (hex_acc-kernel n (lt_wf.apply n)) (ground arith),
)

-- The value of a numeral that may begin with a minus sign, as a 64-bit pattern.
pub read_signed : List ℕ → ℕ
read_signed [] = 0
read_signed (c ∷ s) = if c == b'-' then 2 ^ 64 - read_from 10 0 s else read_from 10 0 (c ∷ s)

starts_digit : List ℕ → Bool
starts_digit [] = false
starts_digit (c ∷ s) = leb 48 c

starts_digit-append : (s t : List ℕ) → starts_digit s ≡ true → starts_digit (s ++ t) ≡ true
unfolding starts_digit
starts_digit-append [] t h = cc
starts_digit-append (c ∷ s) t h = h

dec_acc-starts_digit : (n : ℕ) (w : Acc ◌<◌ n) → starts_digit (print_int_dec_acc n w) ≡ true
unfolding print_int_dec_acc starts_digit
dec_acc-starts_digit n (Acc.intro _ smaller) = grind (
  arith,
  λ (p : n / 10 < n).
      starts_digit-append (print_int_dec_acc (n / 10) (smaller (n / 10) p)) ((48 + n % 10) ∷ [])
        (dec_acc-starts_digit (n / 10) (smaller (n / 10) p)),
)

read_signed-digit : (s : List ℕ) → starts_digit s ≡ true → read_signed s ≡ read_from 10 0 s
unfolding read_signed starts_digit
read_signed-digit [] h = cc
read_signed-digit (c ∷ s) h = ground arith

unsigned-read : (n : ℕ) → read_from 10 0 (print_unsigned_int n).0 ≡ n
unfolding print_unsigned_int
unsigned-read n = rw (unsigned_acc-kernel n (lt_wf.apply n)) (read-print_dec_acc n (lt_wf.apply n))

unsigned-starts_digit : (n : ℕ) → starts_digit (print_unsigned_int n).0 ≡ true
unfolding print_unsigned_int
unsigned-starts_digit n =
    rw (unsigned_acc-kernel n (lt_wf.apply n)) (dec_acc-starts_digit n (lt_wf.apply n))

-- A signed number is printed as a numeral of the same 64-bit pattern: what `%d` prints for a
-- negative number is a minus sign and the numeral of its magnitude.
pub print_int_dec-signed : (n : ℕ) → n < 2 ^ 64 → read_signed (print_int_dec n true).0 ≡ n
unfolding print_int_dec
print_int_dec-signed n h = elim (Bool-cases (leb (2 ^ 63) n)) [
  | inl negative ↦
      rw negative (unfold read_signed in ground (arith, unsigned-read ((2 ^ 64 - n) % 2 ^ 64)))
  | inr small ↦
      rw small
        (read_signed-digit (print_unsigned_int n).0 (unsigned-starts_digit n) ∙ unsigned-read n)
]
