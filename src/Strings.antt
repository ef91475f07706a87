-- ===== src/Strings.antt =====
-- The string functions of kernel/utility.h and user/ulib.h, over a memory of bytes. A loop that
-- looks for a NUL runs on fuel, and `none` is fuel run out. In user/ulib.h the loops of `strcmp`
-- and `strcpy` are the same, and those of `memset`, `memcpy` and `strlen` move the pointers instead
-- of an index.
pub mod Texts
pub mod Layout
pub mod Tokens
use toy_riscv_kernel.Prelude.{
  ℕ, zero, suc, ◌+◌, ◌-◌, ◌%◌, ◌^◌, Bool, true, false, not, ◌&&◌, Option, none, some, ◌==◌,
  if◌then◌else◌,
}
use toy_riscv_kernel.Machine.{write}

-- The loop of `strlen`
unfoldable pub strlen_from : ℕ → (ℕ → ℕ) → ℕ → ℕ → Option ℕ
strlen_from zero m str len = none
strlen_from (suc fuel) m str len =
    let rest = strlen_from fuel m str (len + 1) in if m (str + len) == 0 then some len else rest

unfoldable pub strlen : ℕ → (ℕ → ℕ) → ℕ → Option ℕ
strlen fuel m str = strlen_from fuel m str 0

-- The result as a 32-bit pattern
unfoldable pub strcmp : ℕ → (ℕ → ℕ) → ℕ → ℕ → Option ℕ
strcmp zero m s1 s2 = none
strcmp (suc fuel) m s1 s2 =
    let rest = strcmp fuel m (s1 + 1) (s2 + 1) in
    if not (m s1 == 0) && (m s1 == m s2) then rest else some ((m s1 + 2 ^ 32 - m s2) % 2 ^ 32)

-- The loops of `memcpy`, `strcpy` and `memset` from the index `i` on, for `count` bytes more.
unfoldable pub copy_from : ℕ → ℕ → ℕ → ℕ → (ℕ → ℕ) → ℕ → ℕ
copy_from zero i dest src m = m
copy_from (suc count) i dest src m =
    copy_from count (i + 1) dest src (write m (dest + i) (m (src + i)))

unfoldable pub memcpy : (ℕ → ℕ) → ℕ → ℕ → ℕ → ℕ → ℕ
memcpy m dest src size = copy_from size 0 dest src m

unfoldable pub strcpy : (ℕ → ℕ) → ℕ → ℕ → ℕ → ℕ → ℕ
strcpy m dest src size = write (copy_from size 0 dest src m) (dest + size) 0

unfoldable pub set_from : ℕ → ℕ → ℕ → ℕ → (ℕ → ℕ) → ℕ → ℕ
set_from zero i dest c m = m
set_from (suc count) i dest c m = set_from count (i + 1) dest c (write m (dest + i) c)

unfoldable pub memset : (ℕ → ℕ) → ℕ → ℕ → ℕ → ℕ → ℕ
memset m dest c size = set_from size 0 dest (c % 256) m

-- `string_includes` of user/ulib.h
unfoldable pub string_includes : ℕ → (ℕ → ℕ) → ℕ → ℕ → Option Bool
string_includes zero m s c = none
string_includes (suc fuel) m s c =
    let rest = string_includes fuel m (s + 1) c in
    if m s == 0 then some false else if m s == c then some true else rest
