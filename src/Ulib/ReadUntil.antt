-- ===== src/Ulib/ReadUntil.antt =====
-- `read_until` of user/ulib.h, which reads a line with rubouts into a buffer. The keys that
-- `get_char` will give are a list of bytes; where it is at an end, `get_char` does not return.
pub mod Edits
use toy_riscv_kernel.Prelude.{
  ℕ, ◌+◌, ◌-◌, ◌^◌, not, ◌||◌, List, [], ◌∷◌, ◌++◌, ltb, ◌==◌, if◌then◌else◌,
}
use Prim.{absurd}
use toy_riscv_kernel.Machine.{write, write-same, write-other}
use toy_riscv_kernel.Strings.Texts.{IsString}
use toy_riscv_kernel.Strings.Layout.{IsString-copy}

-- Where it returns: the memory, the keys not read, the bytes echoed, and the result, -1 as its
-- 32-bit pattern.
pub data Reading : Type 0 where
  waiting : Reading
  returned : (mem : ℕ → ℕ) → (rest echo : List ℕ) → ℕ → Reading

abbrev pub rubout : ℕ
rubout = 127

module _ (buffer max_length end : ℕ) where
  -- The loop, with the counter `i`.
  unfoldable pub read_from : List ℕ → ℕ → (ℕ → ℕ) → List ℕ → Reading
  read_from [] i m echo =
      if ltb (i + 1) max_length
      then waiting
      else returned (write m (buffer + i) 0) [] echo (2 ^ 32 - 1)
  read_from (c ∷ keys) i m echo =
      let back = read_from keys (i - 1) m (echo ++ (8 ∷ 32 ∷ 8 ∷ [])) in
      let ignored = read_from keys i m echo in
      let stored = write m (buffer + i) c in
      let on = read_from keys (i + 1) stored (echo ++ (c ∷ [])) in
      if not (ltb (i + 1) max_length)
      then returned (write m (buffer + i) 0) (c ∷ keys) echo (2 ^ 32 - 1)
      else if c == rubout
      then (if ltb 0 i then back else ignored)
      else if (c == end) || (c == 0)
      then returned (write stored (buffer + (i + 1)) 0) keys (echo ++ (c ∷ [])) 0
      else on

  unfoldable pub read_until : List ℕ → (ℕ → ℕ) → Reading
  read_until keys m = read_from keys 0 m []
