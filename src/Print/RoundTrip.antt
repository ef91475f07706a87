-- ===== src/Print/RoundTrip.antt =====
-- The numbers printed by kernel/print.c read back as the numbers given.
use Prim.{absurd}
use toy_riscv_kernel.Prelude.{
  Bool, true, ◌&&◌, ◌||◌, leb, ◌⊎◌, inl, inr, ℕ, zero, suc, ◌+◌, ◌-◌, ◌*◌, ◌/◌, ◌%◌, ◌^◌, ◌≤◌, ◌<◌,
  ◌≡◌, refl, List, [], ◌∷◌, ◌++◌, arith, ltb, if◌then◌else◌, Acc, lt_wf, length, length-append,
}
use native.Mathlib.Nat.{pow-suc}
use toy_riscv_kernel.Print.{
  hex_digit, print_int_dec_acc, print_int_dec, print_int_hex_acc, print_int_hex_without_header,
  print_int,
}

-- The value of a digit character, and of a numeral read from the left.
pub digit_value : ℕ → ℕ
digit_value c = if ltb c 58 then c - 48 else c - 87

pub read_from : ℕ → ℕ → List ℕ → ℕ
read_from base acc [] = acc
read_from base acc (c ∷ s) = read_from base (acc * base + digit_value c) s

read_from-append :
    (base acc c : ℕ) (s : List ℕ)
    → read_from base acc (s ++ c ∷ []) ≡ read_from base acc s * base + digit_value c
unfolding read_from
read_from-append base acc c [] = refl
read_from-append base acc c (d ∷ s) = read_from-append base (acc * base + digit_value d) c s

digit_value-dec : (d : ℕ) → d < 10 → digit_value (48 + d) ≡ d
unfolding digit_value
digit_value-dec d h = ground arith

digit_value-hex : (d : ℕ) → d < 16 → digit_value (hex_digit d) ≡ d
unfolding digit_value
digit_value-hex d h = ground arith

pub read-print_dec_acc : (x : ℕ) (w : Acc ◌<◌ x) → read_from 10 0 (print_int_dec_acc x w) ≡ x
unfolding print_int_dec_acc read_from digit_value
read-print_dec_acc x (Acc.intro _ smaller) = grind (
  arith,
  λ (p : x / 10 < x). read-print_dec_acc (x / 10) (smaller (x / 10) p),
  read_from-append 10 0 (48 + x % 10),
  digit_value-dec (x % 10),
)

read-print_hex_acc : (x : ℕ) (w : Acc ◌<◌ x) → read_from 16 0 (print_int_hex_acc x w) ≡ x
unfolding print_int_hex_acc read_from digit_value
read-print_hex_acc x (Acc.intro _ smaller) = grind (
  arith,
  λ (p : x / 16 < x). read-print_hex_acc (x / 16) (smaller (x / 16) p),
  read_from-append 16 0 (hex_digit (x % 16)),
  digit_value-hex (x % 16),
)

-- The digits of a base up to 16: first '0' to '9', then 'a' to 'f'.
abbrev is_digit : ℕ → ℕ → Bool
is_digit base c =
    (leb b'0' c && ltb c 58 && ltb c (b'0' + base)) || (leb b'a' c && ltb (c + 10) (b'a' + base))

pub all_digits : ℕ → List ℕ → Bool
all_digits base [] = true
all_digits base (c ∷ s) = is_digit base c && all_digits base s

pub first : List ℕ → ℕ
first [] = 0
first (c ∷ s) = c

all_digits-append :
    (base c : ℕ) (s : List ℕ)
    → all_digits base (s ++ c ∷ []) ≡ (all_digits base s && is_digit base c)
unfolding all_digits
all_digits-append base c [] = ground (arith)
all_digits-append base c (d ∷ s) = ground (arith, all_digits-append base c s)

first-append : (c : ℕ) (s : List ℕ) → 0 < first s → first (s ++ c ∷ []) ≡ first s
unfolding first
first-append c [] lt = absurd (omega (arith, lt))
first-append c (d ∷ s) lt = refl

dec_acc-digits : (x : ℕ) (w : Acc ◌<◌ x) → all_digits 10 (print_int_dec_acc x w) ≡ true
unfolding print_int_dec_acc all_digits
dec_acc-digits x (Acc.intro _ smaller) = grind (
  arith,
  λ (p : x / 10 < x). dec_acc-digits (x / 10) (smaller (x / 10) p),
  all_digits-append 10 (48 + x % 10),
)

digit_dec : (d : ℕ) → d < 10 → is_digit 10 (48 + d) ≡ true
digit_dec d h = ground (arith, h)

digit_hex : (d : ℕ) → d < 16 → is_digit 16 (hex_digit d) ≡ true
digit_hex d h = ground (arith, h)

hex_acc-digits : (x : ℕ) (w : Acc ◌<◌ x) → all_digits 16 (print_int_hex_acc x w) ≡ true
unfolding print_int_hex_acc all_digits
hex_acc-digits x (Acc.intro _ smaller) = grind (
  arith,
  λ (p : x / 16 < x). hex_acc-digits (x / 16) (smaller (x / 16) p),
  all_digits-append 16 (hex_digit (x % 16)),
  digit_hex (x % 16),
)

dec_acc-first : (x : ℕ) (w : Acc ◌<◌ x) → 0 < x → 48 < first (print_int_dec_acc x w)
unfolding print_int_dec_acc first
dec_acc-first x (Acc.intro _ smaller) lt = grind (
  arith,
  λ (p : x / 10 < x). dec_acc-first (x / 10) (smaller (x / 10) p),
  first-append (48 + x % 10),
)

hex_acc-first : (x : ℕ) (w : Acc ◌<◌ x) → 0 < x → 48 < first (print_int_hex_acc x w)
unfolding print_int_hex_acc first
hex_acc-first x (Acc.intro _ smaller) lt = grind (
  arith,
  λ (p : x / 16 < x). hex_acc-first (x / 16) (smaller (x / 16) p),
  first-append (hex_digit (x % 16)),
)

-- The numeral of a number: digits of the base, of its value, without a leading zero but for 0
-- itself.
abbrev pub IsNumeral : (base x : ℕ) → List ℕ → Type 0
IsNumeral base x s =
    (all_digits base s ≡ true) × (read_from base 0 s ≡ x) × ((s ≡ b'0' ∷ []) ⊎ (b'0' < first s))

dec_acc-IsNumeral : (x : ℕ) (w : Acc ◌<◌ x) → IsNumeral 10 x (print_int_dec_acc x w)
unfolding print_int_dec_acc
dec_acc-IsNumeral zero (Acc.intro _ smaller) = (
  dec_acc-digits zero (Acc.intro _ smaller),
  read-print_dec_acc zero (Acc.intro _ smaller),
  inl refl,
)
dec_acc-IsNumeral (suc x) w = (
  dec_acc-digits (suc x) w,
  read-print_dec_acc (suc x) w,
  inr (dec_acc-first (suc x) w (omega arith)),
)

hex_acc-IsNumeral : (x : ℕ) (w : Acc ◌<◌ x) → IsNumeral 16 x (print_int_hex_acc x w)
unfolding print_int_hex_acc
hex_acc-IsNumeral zero (Acc.intro _ smaller) = (
  hex_acc-digits zero (Acc.intro _ smaller),
  read-print_hex_acc zero (Acc.intro _ smaller),
  inl refl,
)
hex_acc-IsNumeral (suc x) w = (
  hex_acc-digits (suc x) w,
  read-print_hex_acc (suc x) w,
  inr (hex_acc-first (suc x) w (omega arith)),
)

-- `print_int` in base 10 prints the numeral of `x`, and in base 16 prints `0x` and then the
-- numeral: only digits of the base, without leading zeros, that read as `x`.
pub print_int-read :
    (x : ℕ)
    → IsNumeral 10 x (print_int x 10)
      × (s : List ℕ) × (print_int x 16 ≡ b'0' ∷ b'x' ∷ s)
      × IsNumeral 16 x s
unfolding print_int print_int_dec print_int_hex_without_header
print_int-read x = (
  dec_acc-IsNumeral x (lt_wf.apply x),
  print_int_hex_without_header x,
  refl,
  hex_acc-IsNumeral x (lt_wf.apply x),
)

dec_acc-length :
    (k x : ℕ) (w : Acc ◌<◌ x) → x < 10 * 10 ^ k → length (print_int_dec_acc x w) ≤ suc k
unfolding print_int_dec_acc
dec_acc-length zero x (Acc.intro _ smaller) h = ground arith
dec_acc-length (suc k) x (Acc.intro _ smaller) h =
    let fewer : x / 10 < 10 * 10 ^ k = omega (arith, pow-suc 10 k) in
    grind (
      arith,
      λ (p : x / 10 < x). dec_acc-length k (x / 10) (smaller (x / 10) p) fewer,
      λ (p : x / 10 < x).
          length-append (print_int_dec_acc (x / 10) (smaller (x / 10) p)) ((48 + x % 10) ∷ []),
    )

hex_acc-length :
    (k x : ℕ) (w : Acc ◌<◌ x) → x < 16 * 16 ^ k → length (print_int_hex_acc x w) ≤ suc k
unfolding print_int_hex_acc
hex_acc-length zero x (Acc.intro _ smaller) h = ground arith
hex_acc-length (suc k) x (Acc.intro _ smaller) h =
    let fewer : x / 16 < 16 * 16 ^ k = omega (arith, pow-suc 16 k) in
    grind (
      arith,
      λ (p : x / 16 < x). hex_acc-length k (x / 16) (smaller (x / 16) p) fewer,
      λ (p : x / 16 < x).
          length-append (print_int_hex_acc (x / 16) (smaller (x / 16) p)) (hex_digit (x % 16) ∷ []),
    )

-- A `uint64` takes at most 20 characters in base 10, and at most 18, header included, in base 16.
pub length-print_int :
    (x : ℕ) → x < 2 ^ 64 → (length (print_int x 10) ≤ 20) × (length (print_int x 16) ≤ 18)
unfolding print_int print_int_dec print_int_hex_without_header
length-print_int x h = omega (
  arith,
  dec_acc-length 19 x (lt_wf.apply x) (omega arith),
  hex_acc-length 15 x (lt_wf.apply x) (omega arith),
)
