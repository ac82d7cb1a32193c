-- ===== src/Task.antt =====
-- syscalls.c: the system calls of a running process on its file descriptors, `getargs`, `vidmap`, and
-- `file_read` of filesystem.c, which goes through the descriptor.
pub mod Table
pub mod Open
pub mod Found
pub mod Calls
mod Tests
use judd_os.Prelude.{
  ℕ, zero, suc, ◌+◌, ◌-◌, Bool, true, false, if◌then◌else◌, ◌==◌, ltb, leb, not, ◌||◌, ◌&&◌,
}
use judd_os.Prelude.{List, [], ◌∷◌, Option, none, some, get_or, set}
use judd_os.Prelude.Word.{u32, fail, is_negative, PortWrite}
use judd_os.Prelude.Memory.{Memory, load32, store32}
use judd_os.Block.{memset}
use judd_os.CString.{strncmp, strncpy}
use judd_os.FileSystem.{Fs, read_dentry_by_name, read_data}
use judd_os.Rtc.{Rtc, rtc_open}

-- The jump tables, a null pointer to one, and a pointer to anywhere.
pub data Ftable : Type 0 where
  null wild file_ftable dir_ftable rtc_ftable stdin_ftable stdout_ftable : Ftable

pub record Fd : Type 0 where
  pub fxn_tbl_ptr : Ftable
  pub inode : ℕ
  pub file_pos : ℕ
  pub flags : ℕ

abbrev pub free_fd : Fd
free_fd = record { fxn_tbl_ptr = null; inode = 0; file_pos = 0; flags = 0 }

abbrev pub fd_array_size : ℕ
fd_array_size = 8

abbrev pub first_available_fd : ℕ
first_available_fd = 2

-- The file system, the clock, and what the calls use of the current process control block. `args` is the
-- address of its field.
pub record Task : Type 0 where
  pub fs : Fs
  pub rtc : Rtc
  pub fds : List Fd
  pub args : ℕ
  pub args_size : ℕ

-- What is read for a descriptor behind or before the array: it counts as open, and its table may lead anywhere.
abbrev pub outside_fd : Fd
outside_fd = record { fxn_tbl_ptr = wild; inode = 0; file_pos = 0; flags = 1 }

abbrev pub fd_at : List Fd → ℕ → Fd
fd_at fds fd = get_or fds fd outside_fd

-- The descriptors that `execute_fillpcb` gives to a new process; its loop has so many rounds left.
pub fill_free : ℕ → ℕ → List Fd → List Fd
fill_free zero i fds = fds
fill_free (suc left) i fds = fill_free left (i + 1) (set fds i free_fd)

pub execute_fillpcb : List Fd → List Fd
execute_fillpcb fds =
    let fds0 =
      set fds 0 (record { fxn_tbl_ptr = stdin_ftable; inode = 0; file_pos = 0; flags = 1 }) in
    let fds1 =
      set fds0 1 (record { fxn_tbl_ptr = stdout_ftable; inode = 0; file_pos = 0; flags = 1 }) in
    fill_free (fd_array_size - first_available_fd) first_available_fd fds1

-- The search of `open` for a free descriptor, with `8 - i` rounds left.
pub find_free : ℕ → List Fd → ℕ → ℕ
find_free zero fds i = i
find_free (suc left) fds i =
    let rest = find_free left fds (i + 1) in if (fd_at fds i).flags == 0 then i else rest

-- The length of a name, counted up to a bound: the two loops of `open`.
pub name_size : ℕ → Memory → ℕ → ℕ → ℕ
name_size zero m a size = size
name_size (suc left) m a size =
    let rest = name_size left m a (size + 1) in if m (a + size) == 0 then size else rest

pub open_as : Ftable → ℕ → ℕ → Task → ℕ × Task
open_as table inode i t = (
  i,
  record t {
    fds = set t.fds i (record { fxn_tbl_ptr = table; inode = inode; file_pos = 0; flags = 1 });
  },
)

-- The branches of `open` on the type of the file, at the free descriptor `i`.
pub open_type : (List PortWrite → ℕ → ℕ) → ℕ → ℕ → ℕ → Task → ℕ × Task
open_type inb filename dentry i t =
    let m = t.fs.mem in
    let filetype = load32 m (dentry + 32) in
    let size = name_size 33 m filename 0 in
    if filetype == 0
    then (let (ret, t') = open_as rtc_ftable 0 i t in
        (ret, record t' { rtc = (rtc_open inb t'.rtc).1 }))
    else if filetype == 1
    then open_as dir_ftable 0 i t
    else if filetype == 2
    then (if not (size == name_size 32 m dentry 0)
        then (fail, t)
        else if not (strncmp m dentry filename size == 0)
        then (fail, t)
        else open_as file_ftable (load32 m (dentry + 36)) i t)
    else (fail, t)

-- `dentry` is the address of the local dentry. The comparison of `filename` with the address of an empty
-- literal adds nothing to the test for a first byte 0.
pub sys_open : ℕ → (List PortWrite → ℕ → ℕ) → ℕ → ℕ → Task → Option (ℕ × Task)
sys_open scan inb dentry filename t =
    if (filename == 0) || ((t.fs.mem filename == 0) || (t.fs.mem filename == 32))
    then some (fail, t)
    else (elim (read_dentry_by_name scan t.fs filename dentry) [
      | none ↦ none
      | some (ret, fs') ↦
          let t' = record t { fs = fs' } in
          let i = find_free (fd_array_size - first_available_fd) t.fds first_available_fd in
          if ret == fail
          then some (fail, t')
          else if i == fd_array_size
          then some (fail, t')
          else some (open_type inb filename dentry i t')
    ])

pub sys_close : ℕ → Task → ℕ × Task
sys_close fd t =
    if is_negative fd || (ltb fd 2 || leb fd_array_size fd)
    then (fail, t)
    else if (fd_at t.fds fd).flags == 0
    then (fail, t)
    else (0, record t { fds = set t.fds fd (record (fd_at t.fds fd) { flags = 0 }) })

-- The functions behind the jump tables. `none` is a null entry, or one that is not an entry at all.
pub data Handler : Type 0 where
  file dir rtc terminal : Handler

pub read_entry : Ftable → Option Handler
read_entry null = none
read_entry wild = none
read_entry file_ftable = some file
read_entry dir_ftable = some dir
read_entry rtc_ftable = some rtc
read_entry stdin_ftable = some terminal
read_entry stdout_ftable = none

pub write_entry : Ftable → Option Handler
write_entry null = none
write_entry wild = none
write_entry file_ftable = some file
write_entry dir_ftable = some dir
write_entry rtc_ftable = some rtc
write_entry stdin_ftable = none
write_entry stdout_ftable = some terminal

-- `read` and `write` over the functions of the tables, which are `call`; `none` is a jump through a null
-- entry or to anywhere, or a function that does not return.
module _ {S : Type 0} (call : Handler → ℕ → ℕ → ℕ → S → Option (ℕ × S)) where
  pub sys_read : List Fd → ℕ → ℕ → ℕ → S → Option (ℕ × S)
  sys_read fds fd buf nbytes s =
      if is_negative fd || (leb fd_array_size fd || ((fd == 1) || ((fd_at fds fd).flags == 0)))
      then some (fail, s)
      else (elim (read_entry (fd_at fds fd).fxn_tbl_ptr) [
        | none ↦ none
        | some h ↦ call h fd buf nbytes s
      ])

  pub sys_write : List Fd → ℕ → ℕ → ℕ → S → Option (ℕ × S)
  sys_write fds fd buf nbytes s =
      if is_negative fd || (leb fd_array_size fd || ((fd == 0) || ((fd_at fds fd).flags == 0)))
      then some (fail, s)
      else (elim (write_entry (fd_at fds fd).fxn_tbl_ptr) [
        | none ↦ none
        | some h ↦ call h fd buf nbytes s
      ])

-- filesystem.c: `file_read`.
pub file_read : ℕ → ℕ → ℕ → ℕ → Task → Option (ℕ × Task)
file_read fuel fd buf nbytes t =
    let entry = fd_at t.fds fd in
    let fs0 = record t.fs { mem = memset t.fs.mem buf 0 nbytes } in
    elim (read_data fuel fs0 entry.inode entry.file_pos buf nbytes) [
      | none ↦ none
      | some (read_bytes, fs') ↦
          if not (read_bytes == fail)
          then some (
            read_bytes,
            record t {
              fs = fs';
              fds = set t.fds fd (record entry { file_pos = u32 (entry.file_pos + read_bytes) });
            },
          )
          else some (0, record t { fs = fs' })
    ]

pub getargs : ℕ → ℕ → Task → ℕ × Task
getargs buf nbytes t =
    if (t.args_size == 0) || (is_negative nbytes || ltb nbytes t.args_size)
    then (fail, t)
    else (0, record t { fs = record t.fs { mem = strncpy t.fs.mem buf t.args nbytes } })

-- `vidmem_addr` is that of the terminal of the process.
pub vidmap : ℕ → ℕ → Task → ℕ × Task
vidmap vidmem_addr screen_start t =
    if is_negative screen_start
      || (ltb screen_start 0x08048000 || leb (0x08048000 + 0x00400000) screen_start)
    then (fail, t)
    else (
      vidmem_addr,
      record t { fs = record t.fs { mem = store32 t.fs.mem screen_start vidmem_addr } },
    )

pub set_handler : ℕ → ℕ → ℕ
set_handler signum handler_address = fail

pub sigreturn : ℕ
sigreturn = fail
