-- ===== src/Strings/Tokens.antt =====
-- `strtok` of user/ulib.h. `last` is its static variable; the loops run on fuel, and `none` is fuel
-- run out.
pub mod Words
use toy_riscv_kernel.Prelude.{
  ◌>>=◌, ℕ, zero, suc, ◌+◌, ◌&&◌, Option, none, some, ◌==◌, if◌then◌else◌,
}
use toy_riscv_kernel.Machine.{null, write}
use toy_riscv_kernel.Strings.{string_includes}

module _ (fuel : ℕ) (delim : ℕ) where
  -- The loop that skips delimiters
  unfoldable pub skip_delimiters : ℕ → (ℕ → ℕ) → ℕ → Option ℕ
  skip_delimiters zero m last = none
  skip_delimiters (suc count) m last =
      let rest = skip_delimiters count m (last + 1) in
      let go_on = (do
        included ← string_includes fuel m delim (m last)
        if included then rest else some last) in
      if m last == 0 then some last else go_on

  -- The loop that looks for the end of the word: the memory, and `last` behind the delimiter, or
  -- NULL at the end of the string.
  unfoldable pub find_delimiter : ℕ → (ℕ → ℕ) → ℕ → Option ((ℕ → ℕ) × ℕ)
  find_delimiter zero m last = none
  find_delimiter (suc count) m last =
      let rest = find_delimiter count m (last + 1) in
      let go_on = (do
        included ← string_includes fuel m delim (m last)
        if included then some (write m last 0, last + 1) else rest) in
      if m last == 0 then some (m, null) else go_on

  -- `strtok` from where `last` has its value: the memory, the new value of `last`, and the result.
  unfoldable pub strtok_from : (ℕ → ℕ) → ℕ → Option ((ℕ → ℕ) × ℕ × ℕ)
  strtok_from m last =
      let go_on = (do
        ret ← skip_delimiters fuel m last
        found ← find_delimiter fuel m ret
        some (found.0, found.1, if (found.1 == null) && (found.0 ret == 0) then null else ret)) in
      if last == null then some (m, null, null) else go_on

  unfoldable pub strtok : (ℕ → ℕ) → (last str : ℕ) → Option ((ℕ → ℕ) × ℕ × ℕ)
  strtok m last str = strtok_from m (if str == null then last else str)
