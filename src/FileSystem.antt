-- ===== src/FileSystem.antt =====
-- filesystem.c: the read-only file system over its image in memory. Functions that return -1 give
-- `fail`; `none` says that a string has no zero within `scan` bytes, or a loop too little fuel.
pub mod Entry
pub mod Lookup
pub mod Data
pub mod DataLoop
pub mod Total
pub mod Frame
pub mod OpenStep
mod Tests
pub mod Sample
use judd_os.Prelude.{ℕ, zero, suc, ◌+◌, ◌-◌, ◌*◌, ◌/◌, ◌%◌, Bool, true, false, if◌then◌else◌}
use judd_os.Prelude.{◌==◌, ltb, leb, ◌||◌, Option, none, some}
use judd_os.Prelude.Word.{u32, sub32, fail, is_negative}
use judd_os.Prelude.Memory.{Memory, store, load32, store32}
use judd_os.Block.{memcpy}
use judd_os.CString.{strlen, strncmp, strcpy}

abbrev filename_size : ℕ
filename_size = 32

abbrev reserved_size : ℕ
reserved_size = 24

abbrev dentry_size : ℕ
dentry_size = 64

abbrev bootblock_size : ℕ
bootblock_size = 4096

abbrev inode_size : ℕ
inode_size = 4096

abbrev datablock_size : ℕ
datablock_size = 4096

-- The globals. `opened_file` and `reserved` are the addresses of that dentry and of
-- `bootblock.reserved`. A dentry has its type at offset 32, its inode at 36, `reserved` at 40.
pub record Fs : Type 0 where
  pub mem : Memory
  pub filesystem_addr : ℕ
  pub num_dentries : ℕ
  pub num_inodes : ℕ
  pub num_datablocks : ℕ
  pub file_index : ℕ
  pub opened_file : ℕ
  pub reserved : ℕ

-- A loop of `clear_dentry` over `n` bytes.
clear_bytes : ℕ → Memory → ℕ → Memory
clear_bytes zero m a = m
clear_bytes (suc n) m a = clear_bytes n (store m a 0) (a + 1)

unfoldable pub clear_dentry : Memory → ℕ → Memory
unfolding clear_bytes
clear_dentry m dentry =
    clear_bytes reserved_size
      (store32 (store32 (clear_bytes filename_size m dentry) (dentry + 32) 0) (dentry + 36) 0)
      (dentry + 40)

unfoldable pub filesystem_init : Fs → Fs
filesystem_init fs =
    let ptr = fs.filesystem_addr in
    let m = memcpy fs.mem fs.reserved (ptr + 12) 52 in
    record fs {
      num_dentries = load32 fs.mem ptr;
      num_inodes = load32 fs.mem (ptr + 4);
      num_datablocks = load32 fs.mem (ptr + 8);
      mem = clear_dentry m fs.opened_file;
      file_index = 0;
    }

-- The copy of the entry at `found` into `dentry`, in both functions below.
unfoldable pub copy_dentry : ℕ → Memory → ℕ → ℕ → Option Memory
copy_dentry scan m dentry found = elim (strcpy scan m dentry found) [
  | none ↦ none
  | some m1 ↦
      let m2 = store32 m1 (dentry + 32) (load32 m1 (found + 32)) in
      let m3 = store32 m2 (dentry + 36) (load32 m2 (found + 36)) in
      some (memcpy m3 (dentry + 40) (found + 40) reserved_size)
]

abbrev pub cap_name : ℕ → ℕ
cap_name len = if ltb filename_size len then filename_size else len

-- The test of the loop: whether the entry at `ptr` has the name at `fname`.
unfoldable pub same_name : ℕ → Memory → ℕ → ℕ → Option Bool
same_name scan m fname ptr = elim (strlen scan m ptr) [
  | none ↦ none
  | some len ↦
      if strncmp m fname ptr (cap_name len) == 0
      then (elim (strlen scan m fname) [ none ↦ none | some n ↦ some (cap_name len == n) ])
      else some false
]

-- The loop of `read_dentry_by_name` with `num_dentries + 1 - i` rounds left: the final `i`.
unfoldable pub find_dentry : ℕ → ℕ → Memory → ℕ → ℕ → ℕ → Option ℕ
find_dentry zero scan m fname ptr i = some i
find_dentry (suc left) scan m fname ptr i =
    let rest = find_dentry left scan m fname (ptr + dentry_size) (i + 1) in
    elim (same_name scan m fname ptr) [ none ↦ none | some true ↦ some i | some false ↦ rest ]

unfoldable pub read_dentry_by_name : ℕ → Fs → ℕ → ℕ → Option (ℕ × Fs)
read_dentry_by_name scan fs fname dentry =
    let m = clear_dentry fs.mem dentry in
    let start = fs.filesystem_addr + dentry_size in
    if dentry == 0
    then some (fail, fs)
    else (elim (find_dentry (fs.num_dentries + 1) scan m fname start 0) [
      | none ↦ none
      | some i ↦
          if leb fs.num_dentries i
          then some (fail, record fs { mem = m })
          else (elim (copy_dentry scan m dentry (start + dentry_size * i)) [
            | none ↦ none
            | some m' ↦ some (0, record fs { mem = m' })
          ])
    ])

pub read_dentry_by_index : ℕ → Fs → ℕ → ℕ → Option (ℕ × Fs)
read_dentry_by_index scan fs index dentry =
    let m = clear_dentry fs.mem dentry in
    let start = fs.filesystem_addr + dentry_size in
    if (dentry == 0) || leb fs.num_dentries index
    then some (fail, fs)
    else (elim (copy_dentry scan m dentry (start + dentry_size * index)) [
      | none ↦ none
      | some m' ↦ some (0, record fs { mem = m' })
    ])

-- The loop of `read_data`, with the variables that it changes: `bytes_copied`, `datablock_ptr`
-- and `datablock_num_ptr`. It gives the bytes copied and the memory.
unfoldable pub read_loop : ℕ → Memory → ℕ → ℕ → ℕ → ℕ → ℕ → ℕ → Option (ℕ × Memory)
read_loop zero m base buf data_length bytes_copied ptr num_ptr = none
read_loop (suc fuel) m base buf data_length bytes_copied ptr num_ptr =
    let left = data_length - bytes_copied in
    let n = if leb datablock_size left then datablock_size else left in
    let m' = memcpy m (buf + bytes_copied) ptr n in
    let next = base + u32 (load32 m' (num_ptr + 4) * datablock_size) in
    let rest = read_loop fuel m' base buf data_length (bytes_copied + n) next (num_ptr + 4) in
    if ltb bytes_copied data_length then rest else some (bytes_copied, m)

abbrev pub inode_at : Fs → ℕ → ℕ
inode_at fs inode = fs.filesystem_addr + bootblock_size + u32 (inode * inode_size)

abbrev pub datablock_base : Fs → ℕ
datablock_base fs = fs.filesystem_addr + bootblock_size + u32 (fs.num_inodes * inode_size)

-- The number of bytes that `read_data` decides to copy from a file of `size` bytes.
abbrev pub read_size : ℕ → ℕ → ℕ → ℕ
read_size size offset length =
    let data_length = if ltb size (u32 (offset + length)) then size - offset else size in
    if ltb data_length length then data_length else length

unfoldable pub read_data : ℕ → Fs → ℕ → ℕ → ℕ → ℕ → Option (ℕ × Fs)
read_data fuel fs inode offset buf length =
    let m = fs.mem in
    let inode_ptr = inode_at fs inode in
    let size = load32 m inode_ptr in
    let num_ptr = inode_ptr + 4 * (offset / datablock_size + 1) in
    let base = datablock_base fs in
    let ptr = base + u32 (load32 m num_ptr * datablock_size) + offset % datablock_size in
    if ltb (sub32 fs.num_inodes 1) inode || (buf == 0)
    then some (fail, fs)
    else if leb size offset
    then some (fail, fs)
    else (elim (read_loop fuel m base buf (read_size size offset length) 0 ptr num_ptr) [
      | none ↦ none
      | some (n, m') ↦ some (n, record fs { mem = m' })
    ])

-- The size of the file, which stays in `opened_file`.
unfoldable pub file_open : ℕ → Fs → ℕ → Option (ℕ × Fs)
file_open scan fs filename = elim (read_dentry_by_name scan fs filename fs.opened_file) [
  | none ↦ none
  | some (ret, fs') ↦
      if ret == 0
      then some (load32 fs'.mem (inode_at fs' (load32 fs'.mem (fs'.opened_file + 36))), fs')
      else some (fail, fs')
]

pub file_close : Fs → ℕ → ℕ × Fs
file_close fs fd = (0, record fs { mem = clear_dentry fs.mem fs.opened_file })

pub file_write : ℕ → ℕ → ℕ → ℕ
file_write fd buf nbytes = fail

pub dir_open : ℕ → ℕ
dir_open filename = 0

pub dir_close : ℕ → ℕ
dir_close fd = 0

pub dir_write : ℕ → ℕ → ℕ → ℕ
dir_write fd buf nbytes = fail

-- `read_file` is the address of the local dentry.
pub dir_read : ℕ → Fs → ℕ → ℕ → ℕ → ℕ → Option (ℕ × Fs)
dir_read scan fs read_file fd buf nbytes =
    if fs.file_index == fs.num_dentries
    then some (0, record fs { file_index = 0 })
    else (elim (read_dentry_by_index scan fs fs.file_index read_file) [
      | none ↦ none
      | some (ret, fs') ↦
          if ret == 0
          then (elim (strlen scan fs'.mem read_file) [
            | none ↦ none
            | some len ↦ some (
              if is_negative nbytes || ltb nbytes len then nbytes else len,
              record fs' {
                mem = memcpy fs'.mem buf read_file filename_size;
                file_index = u32 (fs'.file_index + 1);
              },
            )
          ])
          else some (fail, fs')
    ])
