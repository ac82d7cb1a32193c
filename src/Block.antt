-- ===== src/Block.antt =====
-- lib.c: `memset` and `memcpy`, whose assembly moves single bytes up to an aligned destination, then
-- whole dwords, then the bytes left over.
pub mod Reference
pub mod Fill
pub mod Copy
mod Move
mod Tests
use judd_os.Prelude.{ℕ, zero, suc, ◌+◌, ◌*◌, ◌/◌, ◌%◌, ◌^◌, if◌then◌else◌, ◌==◌, leb, ◌-◌}
use judd_os.Prelude.Memory.{Memory, store, store32}

-- `.memset_bottom`: `n` bytes of the low byte of `eax`.
fill_bytes : ℕ → Memory → ℕ → ℕ → Memory
fill_bytes zero m edi c = m
fill_bytes (suc n) m edi c = fill_bytes n (store m edi c) (edi + 1) c

-- `rep stosl`
fill_dwords : ℕ → Memory → ℕ → ℕ → Memory
fill_dwords zero m edi eax = m
fill_dwords (suc n) m edi eax = fill_dwords n (store32 m edi eax) (edi + 4) eax

-- `.memset_aligned` with `ecx` bytes left.
fill_aligned : ℕ → Memory → ℕ → ℕ → Memory
fill_aligned ecx m edi c =
    fill_bytes (ecx % 4) (fill_dwords (ecx / 4) m edi (c * 2 ^ 24 + c * 2 ^ 16 + c * 2 ^ 8 + c))
      (edi + 4 * (ecx / 4)) c

-- `.memset_top`
fill_top : ℕ → Memory → ℕ → ℕ → Memory
fill_top zero m edi c = m
fill_top (suc ecx) m edi c =
    let byte = fill_top ecx (store m edi c) (edi + 1) c in
    if edi % 4 == 0 then fill_aligned (suc ecx) m edi c else byte

unfoldable pub memset : Memory → ℕ → ℕ → ℕ → Memory
unfolding fill_top fill_aligned fill_dwords fill_bytes
memset m s c n = fill_top n m s (c % 256)

copy_bytes : ℕ → Memory → ℕ → ℕ → Memory
copy_bytes zero m edi esi = m
copy_bytes (suc n) m edi esi = copy_bytes n (store m edi (m esi)) (edi + 1) (esi + 1)

-- `movsl` reads four bytes and then writes them.
copy_dword : Memory → ℕ → ℕ → Memory
copy_dword m edi esi =
    store (store (store (store m edi (m esi)) (edi + 1) (m (esi + 1))) (edi + 2) (m (esi + 2)))
      (edi + 3) (m (esi + 3))

-- `rep movsl`
copy_dwords : ℕ → Memory → ℕ → ℕ → Memory
copy_dwords zero m edi esi = m
copy_dwords (suc n) m edi esi = copy_dwords n (copy_dword m edi esi) (edi + 4) (esi + 4)

copy_aligned : ℕ → Memory → ℕ → ℕ → Memory
copy_aligned ecx m edi esi =
    copy_bytes (ecx % 4) (copy_dwords (ecx / 4) m edi esi) (edi + 4 * (ecx / 4))
      (esi + 4 * (ecx / 4))

-- `.memcpy_top`
copy_top : ℕ → Memory → ℕ → ℕ → Memory
copy_top zero m edi esi = m
copy_top (suc ecx) m edi esi =
    let byte = copy_top ecx (store m edi (m esi)) (edi + 1) (esi + 1) in
    if edi % 4 == 0 then copy_aligned (suc ecx) m edi esi else byte

unfoldable pub memcpy : Memory → ℕ → ℕ → ℕ → Memory
unfolding copy_top copy_aligned copy_dwords copy_dword copy_bytes
memcpy m dest src n = copy_top n m dest src

-- `rep stosw`
fill_words : ℕ → Memory → ℕ → ℕ → Memory
fill_words zero m edi ax = m
fill_words (suc n) m edi ax =
    fill_words n (store (store m edi (ax % 256)) (edi + 1) (ax / 256 % 256)) (edi + 2) ax

-- `n` counts words, and so it counts dwords in the next function.
memset_word : Memory → ℕ → ℕ → ℕ → Memory
memset_word m s c n = fill_words n m s c

memset_dword : Memory → ℕ → ℕ → ℕ → Memory
memset_dword m s c n = fill_dwords n m s c

-- `rep movsb` with the direction flag set.
copy_down : ℕ → Memory → ℕ → ℕ → Memory
copy_down zero m edi esi = m
copy_down (suc n) m edi esi = copy_down n (store m edi (m esi)) (edi - 1) (esi - 1)

pub memmove : Memory → ℕ → ℕ → ℕ → Memory
memmove m dest src n =
    if leb dest src then copy_bytes n m dest src else copy_down n m (dest + n - 1) (src + n - 1)
