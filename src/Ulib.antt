-- ===== src/Ulib.antt =====
-- user/ulib.c: the printers of the user library. Each gives the bytes that it hands to `put_char`,
-- oldest first, and the length that it returns; `vprintf` walks its format over a list of
-- arguments.
pub mod Numbers
pub mod Count
pub mod ReadUntil
use toy_riscv_kernel.Prelude.{
  ℕ, ◌+◌, ◌-◌, ◌/◌, ◌%◌, ◌^◌, ◌<◌, Bool, true, false, ◌&&◌, ◌||◌, Option, none, some, List, [], ◌∷◌,
  ◌++◌, arith, ltb, leb, ◌==◌, if◌then◌else◌, length, lt_wf, dite, Acc, dec_le,
}

-- The bytes sent and the `int` returned.
abbrev pub Printed : Type 0
Printed = List ℕ × ℕ

unfoldable pub print_char : ℕ → Printed
print_char c = ((c % 256) ∷ [], 1)

-- `s` without its terminating NUL; `i` is the counter of the loop.
unfoldable pub print_string_from : List ℕ → ℕ → Printed
print_string_from [] i = ([], i)
print_string_from (c ∷ s) i = let (sent, n) = print_string_from s (i + 1) in (c ∷ sent, n)

unfoldable pub print_string : List ℕ → Printed
unfolding print_string_from
print_string s = print_string_from s 0

unfoldable pub print_unsigned_int_acc : (n : ℕ) → Acc ◌<◌ n → Printed
print_unsigned_int_acc n (Acc.intro _ smaller) =
    if n == 0
    then (b'0' ∷ [], 1)
    else let front : Printed =
        dite (dec_le 10 n) (λ h. print_unsigned_int_acc (n / 10) (smaller (n / 10) (omega arith)))
          (λ _. ([], 0)) in
      (front.0 ++ (b'0' + n % 10) ∷ [], front.1 + 1)

unfoldable pub print_unsigned_int : ℕ → Printed
unfolding print_unsigned_int_acc lt_wf dec_le
print_unsigned_int n = print_unsigned_int_acc n (lt_wf.apply n)

-- An `int64` is its 64-bit pattern: the negative ones are those from 2 ^ 63 on.
abbrev pub is_negative : ℕ → Bool
is_negative n = leb (2 ^ 63) n

unfoldable pub print_int_dec : ℕ → Bool → Printed
print_int_dec n sign =
    if sign && is_negative n
    then (let (sent, length) = print_unsigned_int ((2 ^ 64 - n) % 2 ^ 64) in
        (b'-' ∷ sent, 1 + length))
    else print_unsigned_int n

abbrev pub hex_digit : ℕ → ℕ
hex_digit digit = if ltb digit 10 then b'0' + digit else b'a' + digit - 10

unfoldable pub print_int_hex_acc : (n : ℕ) → Acc ◌<◌ n → Printed
print_int_hex_acc n (Acc.intro _ smaller) =
    if n == 0
    then (b'0' ∷ [], 1)
    else let front : Printed =
        dite (dec_le 16 n) (λ h. print_int_hex_acc (n / 16) (smaller (n / 16) (omega arith)))
          (λ _. ([], 0)) in
      (front.0 ++ hex_digit (n % 16) ∷ [], front.1 + 1)

unfoldable pub print_int_hex_without_header : ℕ → Printed
unfolding print_int_hex_acc lt_wf dec_le
print_int_hex_without_header n = print_int_hex_acc n (lt_wf.apply n)

unfoldable pub print_int_hex : ℕ → Printed
unfolding print_int_hex_without_header
print_int_hex n =
    let (sent, length) = print_int_hex_without_header n in (b'0' ∷ b'x' ∷ sent, length + 2)

unfoldable pub print_int_oct_acc : (n : ℕ) → Acc ◌<◌ n → Printed
print_int_oct_acc n (Acc.intro _ smaller) =
    if n == 0
    then (b'0' ∷ [], 1)
    else let front : Printed =
        dite (dec_le 8 n) (λ h. print_int_oct_acc (n / 8) (smaller (n / 8) (omega arith)))
          (λ _. ([], 0)) in
      (front.0 ++ (b'0' + n % 8) ∷ [], front.1 + 1)

unfoldable pub print_int_oct_without_header : ℕ → Printed
unfolding print_int_oct_acc lt_wf dec_le
print_int_oct_without_header n = print_int_oct_acc n (lt_wf.apply n)

unfoldable pub print_int_oct : ℕ → Printed
unfolding print_int_oct_without_header
print_int_oct n =
    if n == 0
    then (b'0' ∷ [], 1)
    else let (sent, length) = print_int_oct_without_header n in (b'0' ∷ sent, length + 1)

-- `none` is the result -1, with nothing sent.
unfoldable pub print_int : ℕ → Bool → ℕ → Option Printed
unfolding print_int_hex print_int_dec print_int_oct print_unsigned_int
print_int n sign base =
    if base == 16
    then some (print_int_hex n)
    else if base == 10
    then some (print_int_dec n sign)
    else if base == 8
    then some (print_int_oct n)
    else none

-- What `va_arg` finds: a 64-bit register, or one that points to a string.
pub data Arg : Type 0 where
  word : ℕ → Arg
  text : List ℕ → Arg

-- What a conversion does: it prints and goes on with the arguments left, it makes `vprintf` return
-- -1, or it reads an argument that is missing or of another type, which C leaves undefined.
pub data Conversion : Type 0 where
  printed : Printed → List Arg → Conversion
  bad_conversion : Conversion
  bad_argument : Conversion

-- The low 32 bits as an `int`, extended to an `int64`.
abbrev pub sign_extend : ℕ → ℕ
sign_extend n = let low = n % 2 ^ 32 in if leb (2 ^ 31) low then low + (2 ^ 64 - 2 ^ 32) else low

abbrev pub with_word : (ℕ → Option Printed) → List Arg → Conversion
with_word f [] = bad_argument
with_word f (text s ∷ rest) = bad_argument
with_word f (word n ∷ rest) = elim (f n) [ none ↦ bad_conversion | some p ↦ printed p rest ]

abbrev pub with_text : (List ℕ → Printed) → List Arg → Conversion
with_text f [] = bad_argument
with_text f (word n ∷ rest) = bad_argument
with_text f (text s ∷ rest) = printed (f s) rest

-- The `switch` on the character after `%`. `'x'` goes through `print_int` with base 16.
unfoldable pub convert : ℕ → List Arg → Conversion
convert c args =
    if c == b'c'
    then with_word (λ ch. some (print_char ch)) args
    else if c == b'd' || c == b'i'
    then with_word (λ n. print_int (sign_extend n) true 10) args
    else if c == b'o'
    then with_word (λ n. some (print_int_oct n)) args
    else if c == b'p'
    then with_word (λ n. some (print_int_hex n)) args
    else if c == b's'
    then with_text print_string args
    else if c == b'u'
    then with_word (λ n. print_int n false 10) args
    else if c == b'x'
    then with_word (λ n. print_int n false 16) args
    else if c == b'%'
    then printed (print_char b'%') args
    else bad_conversion

pub data Outcome : Type 0 where
  returned : Printed → Outcome
  refused : List ℕ → Outcome  -- the result -1, after these bytes
  undefined : Outcome

-- The loop of `vprintf`, on the rest of the format; `sent` and `length` are what it has so far.
unfoldable pub vprintf_from : List ℕ → List Arg → List ℕ → ℕ → Outcome
vprintf_from [] args sent length = returned (sent, length)
vprintf_from (c ∷ []) args sent length =
    if c == b'%' then refused sent else returned (sent ++ c ∷ [], length + 1)
vprintf_from (c ∷ d ∷ format) args sent length = elim (c == b'%') [
  | false ↦ vprintf_from (d ∷ format) args (sent ++ c ∷ []) (length + 1)
  | true ↦ elim (convert d args) [
    | printed p rest ↦ vprintf_from format rest (sent ++ p.0) (length + p.1)
    | bad_conversion ↦ refused sent
    | bad_argument ↦ undefined
  ]
]

unfoldable pub vprintf : List ℕ → List Arg → Outcome
unfolding vprintf_from convert print_char print_int print_int_oct print_int_hex print_string
vprintf format args = vprintf_from format args [] 0
