-- ===== src/Memory.antt =====
-- src/kernel/memory.c and src/kernel/shell/string.c, over the bytes of memory.
pub mod Blocks
pub mod Strings
mod Examples
use splongle_os.Base.{
  ℕ, zero, suc, ◌+◌, ◌%◌, ◌^◌, Bool, true, false, Option, none, some, ltb, ◌==◌, if◌then◌else◌, u8,
  update,
}

abbrev pub Bytes : Type 0
Bytes = ℕ → ℕ

-- The loop of `memcpy` at `i`, with `rounds` left.
pub memcpy_loop : ℕ → ℕ → ℕ → ℕ → Bytes → Bytes
memcpy_loop dst src zero i m = m
memcpy_loop dst src (suc rounds) i m =
    memcpy_loop dst src rounds (i + 1) (update m (dst + i) (m (src + i)))

pub memcpy : ℕ → ℕ → ℕ → Bytes → Bytes
memcpy dst src num m = memcpy_loop dst src num 0 m

pub memset_loop : ℕ → ℕ → ℕ → ℕ → Bytes → Bytes
memset_loop ptr value zero i m = m
memset_loop ptr value (suc rounds) i m =
    memset_loop ptr value rounds (i + 1) (update m (ptr + i) (u8 value))

pub memset : ℕ → ℕ → ℕ → Bytes → Bytes
memset ptr value num m = memset_loop ptr value num 0 m

-- 0 for equal, 1 for different
pub memcmp_loop : ℕ → ℕ → ℕ → ℕ → Bytes → ℕ
memcmp_loop ptr1 ptr2 zero i m = 0
memcmp_loop ptr1 ptr2 (suc rounds) i m =
    let rest = memcmp_loop ptr1 ptr2 rounds (i + 1) m in
    if m (ptr1 + i) == m (ptr2 + i) then rest else 1

pub memcmp : ℕ → ℕ → ℕ → Bytes → ℕ
memcmp ptr1 ptr2 num m = memcmp_loop ptr1 ptr2 num 0 m

-- A `const char*` is a function of the index. `strlen`: the loop takes fuel, and `none` means that
-- it ran out.
unfoldable pub strlen_loop : ℕ → Bytes → ℕ → Option ℕ
strlen_loop zero str len = none
strlen_loop (suc fuel) str len =
    let rest = strlen_loop fuel str (len + 1) in if str len == 0 then some len else rest

unfoldable pub strlen : ℕ → Bytes → Option ℕ
unfolding strlen_loop
strlen fuel str = strlen_loop fuel str 0

-- `strcmp` calls `strlen(str2)` before each round.
unfoldable pub strcmp_loop : ℕ → ℕ → Bytes → Bytes → ℕ → Option Bool
unfolding strlen
strcmp_loop fuel zero str1 str2 i = none
strcmp_loop fuel (suc rounds) str1 str2 i =
    let rest = strcmp_loop fuel rounds str1 str2 (i + 1) in
    elim (strlen fuel str2) [
      | none ↦ none
      | some len ↦ if ltb i len then if str1 i == str2 i then rest else some false else some true
    ]

unfoldable pub strcmp : ℕ → Bytes → Bytes → Option Bool
unfolding strcmp_loop
strcmp fuel str1 str2 = strcmp_loop fuel fuel str1 str2 0
