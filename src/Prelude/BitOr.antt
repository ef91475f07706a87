-- ===== src/Prelude/BitOr.antt =====
-- `|` on words: the equation for the lowest bit, and the two forms that page table entries use.
use Prim.Native.Nat.{
  ℕ, zero, suc, ◌+◌, ◌-◌, ◌*◌, ◌/◌, ◌%◌, ◌^◌, ◌≤◌, ◌<◌, max, bit_or, digits, bit_or-bitwise,
}
use mathlib.Core.Path.{◌≡◌, refl, ap, ◌∙◌}
use native.Mathlib.Nat.{pow-suc}
use native.Mathlib.Omega.{arith}

-- `|` by a count of bits to go, which any bound on the first number serves as.
abbrev or_bits : ℕ → ℕ → ℕ → ℕ
or_bits = digits (λ y. y) max

or_bits_any : (n a b : ℕ) → a ≤ n → (m : ℕ) → a ≤ m → or_bits n a b ≡ or_bits m a b
or_bits_any zero zero b h zero k = refl
or_bits_any zero zero b h (suc m) k = refl
or_bits_any zero (suc a) b h m k = absurd (omega arith)
or_bits_any (suc n) zero b h zero k = refl
or_bits_any (suc n) zero b h (suc m) k = refl
or_bits_any (suc n) (suc a) b h zero k = absurd (omega arith)
or_bits_any (suc n) (suc a) b h (suc m) k =
    let shorter : suc a / 2 ≤ n = omega arith in
    omega (arith, or_bits_any n (suc a / 2) (b / 2) shorter m (omega arith))

pub bit_or-lowest : (a b : ℕ) → bit_or a b ≡ bit_or (a / 2) (b / 2) * 2 + max (a % 2) (b % 2)
bit_or-lowest zero b = omega (arith, bit_or-bitwise 0 b, bit_or-bitwise 0 (b / 2))
bit_or-lowest (suc a) b =
    let shorter : suc a / 2 ≤ a = omega arith in
    omega (
      arith,
      bit_or-bitwise (suc a) b,
      bit_or-bitwise (suc a / 2) (b / 2),
      or_bits_any a (suc a / 2) (b / 2) shorter (suc a / 2) (omega arith),
    )

or_zero_below : (n a : ℕ) → a ≤ n → bit_or a 0 ≡ a
or_zero_below n zero h = refl
or_zero_below zero (suc a) h = absurd (omega arith)
or_zero_below (suc n) (suc a) h =
    omega (arith, bit_or-lowest (suc a) 0, or_zero_below n (suc a / 2) (omega arith))

pub bit_or-zero : (a : ℕ) → bit_or a 0 ≡ a
bit_or-zero a = or_zero_below a a (omega arith)

-- Setting the lowest bit.
pub bit_or-one : (a : ℕ) → bit_or a 1 ≡ a + 1 - a % 2
bit_or-one a = omega (arith, bit_or-lowest a 1, bit_or-zero (a / 2))

-- A number whose low `k` bits are 0, and one that has no others.
pub bit_or-apart : (k q r : ℕ) → r < 2 ^ k → bit_or (2 ^ k * q) r ≡ 2 ^ k * q + r
bit_or-apart zero q r h =
    let none_left : r ≡ 0 = omega arith in rw none_left (bit_or-zero (1 * q) ∙ omega arith)
bit_or-apart (suc k) q r h =
    let double = ap (λ (n : ℕ). n * q) (pow-suc 2 k) in
    let half : 2 ^ suc k * q / 2 ≡ 2 ^ k * q = omega arith in
    omega (
      arith,
      bit_or-lowest (2 ^ suc k * q) r,
      ap (λ (n : ℕ). bit_or n (r / 2)) half,
      bit_or-apart k q (r / 2) (omega (arith, pow-suc 2 k)),
    )
