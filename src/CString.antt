-- ===== src/CString.antt =====
-- lib.c: `strlen`, `strncmp`, `strcpy` and `strncpy` on memory. A loop that scans for the
-- terminating zero takes fuel, and `none` says that it met none within the fuel.
pub mod Length
pub mod Compare
pub mod Duplicate
mod Tests
use judd_os.Prelude.{
  ℕ, zero, suc, ◌+◌, ◌-◌, ◌^◌, if◌then◌else◌, ◌==◌, ◌||◌, not, ltb, Option, none, some,
}
use judd_os.Prelude.Word.{sub32}
use judd_os.Prelude.Memory.{Memory, store}

strlen_from : ℕ → Memory → ℕ → ℕ → Option ℕ
strlen_from zero m s len = none
strlen_from (suc fuel) m s len =
    let rest = strlen_from fuel m s (len + 1) in if m (s + len) == 0 then some len else rest

unfoldable pub strlen : ℕ → Memory → ℕ → Option ℕ
unfolding strlen_from
strlen fuel m s = strlen_from fuel m s 0

-- A `char` promoted to `int`.
abbrev sign_extend : ℕ → ℕ
sign_extend c = if ltb c 128 then c else 2 ^ 32 - 256 + c

-- The loop of `strncmp` at index `i`, with `n - i` rounds left.
strncmp_from : ℕ → Memory → ℕ → ℕ → ℕ → ℕ
strncmp_from zero m s1 s2 i = 0
strncmp_from (suc left) m s1 s2 i =
    let rest = strncmp_from left m s1 s2 (i + 1) in
    if not (m (s1 + i) == m (s2 + i)) || (m (s1 + i) == 0)
    then sub32 (sign_extend (m (s1 + i))) (sign_extend (m (s2 + i)))
    else rest

unfoldable pub strncmp : Memory → ℕ → ℕ → ℕ → ℕ
unfolding strncmp_from
strncmp m s1 s2 n = strncmp_from n m s1 s2 0

strcpy_from : ℕ → Memory → ℕ → ℕ → ℕ → Option Memory
strcpy_from zero m dest src i = none
strcpy_from (suc fuel) m dest src i =
    let rest = strcpy_from fuel (store m (dest + i) (m (src + i))) dest src (i + 1) in
    if m (src + i) == 0 then some (store m (dest + i) 0) else rest

unfoldable pub strcpy : ℕ → Memory → ℕ → ℕ → Option Memory
unfolding strcpy_from
strcpy fuel m dest src = strcpy_from fuel m dest src 0

-- The second loop of `strncpy`.
strncpy_pad : ℕ → Memory → ℕ → ℕ → Memory
strncpy_pad zero m dest i = m
strncpy_pad (suc left) m dest i = strncpy_pad left (store m (dest + i) 0) dest (i + 1)

-- The first loop, with `n - i` rounds left.
strncpy_from : ℕ → Memory → ℕ → ℕ → ℕ → Memory
strncpy_from zero m dest src i = m
strncpy_from (suc left) m dest src i =
    let rest = strncpy_from left (store m (dest + i) (m (src + i))) dest src (i + 1) in
    if not (m (src + i) == 0) then rest else strncpy_pad (suc left) m dest i

pub strncpy : Memory → ℕ → ℕ → ℕ → Memory
strncpy m dest src n = strncpy_from n m dest src 0
