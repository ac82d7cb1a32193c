-- ===== src/Boot/Multiboot.antt =====
-- kernel.c: the first part of `entry`, which prints the information of the boot loader and finds the module with the file
-- system. multiboot.h gives the offsets.
pub mod Shown
pub mod Loops
pub mod Info
pub mod Ends
use judd_os.Prelude.{
  ℕ, zero, suc, ◌+◌, ◌-◌, ◌*◌, ◌^◌, List, [], ◌∷◌, get_or, Bool, ◌&&◌, ◌==◌, not, ltb,
  if◌then◌else◌, Option, none, some, ◌>>=◌,
}
use judd_os.Prelude.Word.{u32, bit}
use judd_os.Prelude.Text.{codes}
use judd_os.Prelude.Memory.{Memory, load32}
use judd_os.Interrupts.{place}
use judd_os.Print.{printf}
use judd_os.Terminal.{Console, clear, putc}

-- The characters that `printf` gives to `putc`.
pub put_all : List ℕ → Console → Console
unfolding putc
put_all [] c = c
put_all (ch ∷ rest) c = put_all rest (putc ch c)

-- The word number `i` of the structure at `a`.
abbrev pub word : Memory → ℕ → ℕ → ℕ
word m a i = load32 m (a + 4 * i)

-- `CHECK_FLAG`
abbrev pub check_flag : ℕ → ℕ → Bool
check_flag flags i = bit i flags == 1

-- A `char` that is passed to `printf`.
abbrev pub promoted : ℕ → ℕ
promoted c = u32 (if ltb c 128 then c else 2 ^ 32 - 256 + c)

abbrev pub when : Bool → (Console → Option Console) → Console → Option Console
when b f c = if b then f c else some c

-- How the part ends: `entry` returns, or goes on. The number is `FILESYSTEM_ADDR`.
pub data Check : Type 0 where
  stopped passed : ℕ → Console → Check

-- `lit` is where the linker puts a literal, `conv` the address of the buffers of `printf`.
module _ (fuel conv : ℕ) (lit : List ℕ → ℕ) where
  pub say : List ℕ → List ℕ → Console → Option Console
  unfolding put_all
  say format args c = do
    (out, size) ←
        printf fuel (place c.mem (lit format) format) conv (lit format) (λ i. get_or args i 0)
    some (put_all out c)

  -- The loop over the first bytes of a module, with so many rounds left; `mod` is the address of its entry.
  pub show_bytes : ℕ → ℕ → ℕ → Console → Option Console
  unfolding say
  show_bytes zero i at c = some c
  show_bytes (suc left) i at c = do
    c' ← say (codes "0x%x ") (promoted (c.mem (word c.mem at 0 + i)) ∷ []) c
    show_bytes left (i + 1) at c'

  -- The body of the loop over the modules.
  pub show_module : ℕ → ℕ → Console → Option Console
  unfolding show_bytes
  show_module at mod_count c = do
    c1 ← say (codes "Module %d loaded at address: 0x%#x\n") (mod_count ∷ word c.mem at 0 ∷ []) c
    c2 ← say (codes "Module %d ends at address: 0x%#x\n") (mod_count ∷ word c1.mem at 1 ∷ []) c1
    c3 ← say (codes "First few bytes of module:\n") [] c2
    c4 ← show_bytes 16 0 at c3
    say (codes "\n") [] c4

  -- The loop, with the variables that it changes: `mod`, `mod_count` and `FILESYSTEM_ADDR`.
  pub show_modules : ℕ → ℕ → ℕ → ℕ → ℕ → Console → Option (ℕ × Console)
  unfolding show_module
  show_modules zero mbi at mod_count filesystem_addr c = none
  show_modules (suc rounds) mbi at mod_count filesystem_addr c =
      let body : Option (ℕ × Console) = (do
        c' ← show_module at mod_count c
        show_modules rounds mbi (at + 16) (mod_count + 1) (word c.mem at 0) c') in
      if ltb mod_count (word c.mem mbi 5) then body else some (filesystem_addr, c)

  -- The loop over the memory map.
  pub show_map : ℕ → ℕ → ℕ → Console → Option Console
  show_map zero mbi mmap c = none
  show_map (suc rounds) mbi mmap c =
      let args =
        word c.mem mmap 0
        ∷ word c.mem mmap 2
        ∷ word c.mem mmap 1
        ∷ word c.mem mmap 5
        ∷ word c.mem mmap 4
        ∷ word c.mem mmap 3
        ∷ [] in
      let body : Option Console = (do
        c' ←
            say
              (codes
                "    size = 0x%x, base_addr = 0x%#x%#x\n    type = 0x%x,  length    = 0x%#x%#x\n")
              args c
        show_map rounds mbi (u32 (mmap + word c'.mem mmap 0 + 4)) c') in
      if ltb mmap (u32 (word c.mem mbi 12 + word c.mem mbi 11)) then body else some c

  pub show_memory_map : ℕ → ℕ → Console → Option Console
  unfolding show_map
  show_memory_map rounds mbi c = do
    c' ←
        say (codes "mmap_addr = 0x%#x, mmap_length = 0x%x\n")
          (word c.mem mbi 12 ∷ word c.mem mbi 11 ∷ []) c
    show_map rounds mbi (word c'.mem mbi 12) c'

  -- From the test of the bits 4 and 5 on.
  pub show_rest : ℕ → ℕ → ℕ → Console → Option Check
  unfolding show_memory_map
  show_rest rounds mbi filesystem_addr c =
      let flags = word c.mem mbi 0 in
      let elf = word c.mem mbi 7 ∷ word c.mem mbi 8 ∷ word c.mem mbi 9 ∷ word c.mem mbi 10 ∷ [] in
      let both : Option Check = (do
        c' ← say (codes "Both bits 4 and 5 are set.\n") [] c
        some (stopped filesystem_addr c')) in
      let one : Option Check = (do
        c1 ←
            when (check_flag flags 5)
              (say (codes "elf_sec: num = %u, size = 0x%#x, addr = 0x%#x, shndx = 0x%#x\n") elf) c
        c2 ← when (check_flag (word c1.mem mbi 0) 6) (show_memory_map rounds mbi) c1
        some (passed filesystem_addr c2)) in
      if check_flag flags 4 && check_flag flags 5 then both else one

  pub show_info : ℕ → ℕ → ℕ → Console → Option Check
  unfolding show_rest
  show_info rounds mbi filesystem_addr c = do
    c1 ← say (codes "flags = 0x%#x\n") (word c.mem mbi 0 ∷ []) c
    c2 ←
        when (check_flag (word c1.mem mbi 0) 0)
          (say (codes "mem_lower = %uKB, mem_upper = %uKB\n")
            (word c1.mem mbi 1 ∷ word c1.mem mbi 2 ∷ []))
          c1
    c3 ←
        when (check_flag (word c2.mem mbi 0) 1)
          (say (codes "boot_device = 0x%#x\n") (word c2.mem mbi 3 ∷ [])) c2
    c4 ←
        when (check_flag (word c3.mem mbi 0) 2)
          (say (codes "cmdline = %s\n") (word c3.mem mbi 4 ∷ [])) c3
    (filesystem_addr', c5) ←
        if check_flag (word c4.mem mbi 0) 3
        then show_modules rounds mbi (word c4.mem mbi 6) 0 filesystem_addr c4
        else some (filesystem_addr, c4)
    show_rest rounds mbi filesystem_addr' c5

  -- `entry` up to the descriptors. `rounds` bounds the loops over the modules and the memory map.
  pub check_boot : ℕ → ℕ → ℕ → ℕ → Console → Option Check
  unfolding show_info
  check_boot rounds magic addr filesystem_addr c =
      let cleared = clear c in
      let invalid : Option Check = (do
        c' ← say (codes "Invalid magic number: 0x%#x\n") (magic ∷ []) cleared
        some (stopped filesystem_addr c')) in
      if not (magic == 0x2BADB002) then invalid else show_info rounds addr filesystem_addr cleared
