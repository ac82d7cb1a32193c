-- ===== src/Process/Launch.antt =====
-- A call of `execute` for a program that the file system has, with a process number to spare.
pub mod Program
pub mod Load
pub mod Run
pub mod Tick
pub mod Sample
use judd_os.Prelude.{ℕ, ◌+◌, ◌*◌, ◌^◌, ◌<◌, ◌≤◌, ◌≡◌, ◌≢◌, ◌⊎◌}
use judd_os.Prelude.Memory.{Memory, IsBytes, load32}
use judd_os.FileSystem.{Fs}
use judd_os.FileSystem.Lookup.{IsDirectory, SameName, entry_at}
use judd_os.FileSystem.Data.{IsImage, IsFile, size_of, file_byte}
use judd_os.Process.{Locals, pcb_at}
use judd_os.Process.Arguments.{Apart}
use judd_os.Process.Buffers.{IsCall}

-- Where a program is loaded, in the user page from 0x08000000 to 0x08400000, and how much of a file `execute` asks for.
abbrev pub page : ℕ
page = 0x08048000

abbrev pub page_size : ℕ
page_size = 0x00400000

-- The inode of entry `j`.
abbrev pub inode_of : Fs → ℕ → ℕ
inode_of fs j = load32 fs.mem (entry_at fs j + 36)

-- The word of the program at offset 24, where it starts.
abbrev pub start_word : Fs → ℕ → ℕ
start_word fs inode =
    fs.mem (file_byte fs inode 24)
    + 2 ^ 8 * fs.mem (file_byte fs inode (24 + 1))
    + 2 ^ 16 * fs.mem (file_byte fs inode (24 + 2))
    + 2 ^ 24 * fs.mem (file_byte fs inode (24 + 3))

-- A file that starts with the four magic bytes, is long enough for the word at offset 24, and ends within the user page when it is loaded.
pub record IsProgram (fs : Fs) (inode : ℕ) : Type 0 where
  pub file : IsFile fs inode
  pub long : 28 ≤ size_of fs inode
  pub in_page : page + size_of fs inode ≤ 0x08400000
  pub magic0 : fs.mem (file_byte fs inode 0) ≡ 0x7f
  pub magic1 : fs.mem (file_byte fs inode 1) ≡ 0x45
  pub magic2 : fs.mem (file_byte fs inode 2) ≡ 0x4c
  pub magic3 : fs.mem (file_byte fs inode 3) ≡ 0x46

-- `n` bytes at `a` do not meet the image.
abbrev pub Outside : Fs → ℕ → ℕ → ℕ → Type 0
Outside fs hi a n = (hi ≤ a) ⊎ (a + n ≤ fs.filesystem_addr)

-- The buffers of `execute`, `opened_file`, the user page and the control block of process `p` are apart from the image and
-- from one another, as far as one of them is written while another is still to be read.
pub record IsLayout (fs : Fs) (hi len p : ℕ) (loc : Locals) : Type 0 where
  pub name_image : Outside fs hi loc.fname (len + 1)
  pub args_image : Outside fs hi loc.args (len + 1)
  pub opened_image : Outside fs hi fs.opened_file 64
  pub check_image : Outside fs hi loc.exe_check 4
  pub page_image : Outside fs hi page page_size
  pub pcb_image : Outside fs hi (pcb_at p) 284
  pub opened_name : Apart loc.fname (len + 1) fs.opened_file 64
  pub opened_args : Apart loc.args (len + 1) fs.opened_file 64
  pub check_args : Apart loc.args (len + 1) loc.exe_check 4
  pub check_opened : Apart fs.opened_file 64 loc.exe_check 4
  pub page_args : Apart loc.args (len + 1) page page_size
  pub page_opened : Apart fs.opened_file 64 page page_size
  pub pcb_args : Apart loc.args (len + 1) (pcb_at p) 284
  pub pcb_opened : Apart fs.opened_file 64 (pcb_at p) 284
  pub pcb_page : Apart page page_size (pcb_at p) 284
  pub opened_not_null : fs.opened_file ≢ 0
  pub check_not_null : loc.exe_check ≢ 0

-- The command names entry `j`, a program, and `p` is the first process number not in use. The command has `len`
-- characters, the first `n` of them the name, and `rest` of them arguments.
pub record IsLaunch (scan hi command len n rest j p : ℕ) (loc : Locals) (fs : Fs) (bits : ℕ → ℕ)
    : Type 0 where
  pub call : IsCall fs.mem command len n rest loc
  pub command_not_null : command ≢ 0
  pub enough : len < scan
  pub args_fit : rest < 128
  pub bytes : IsBytes fs.mem
  pub image : IsImage fs hi
  pub dir : IsDirectory scan fs.mem (fs.filesystem_addr + 64) fs.num_dentries
  pub few : fs.num_dentries ≤ 62
  pub low : j < fs.num_dentries
  pub named : SameName fs.mem command n (entry_at fs j) (dir.lens j)
  pub first_named : (i : ℕ) → i < j → SameName fs.mem command n (entry_at fs i) (dir.lens i) → ⊥
  pub program : IsProgram fs (inode_of fs j)
  pub layout : IsLayout fs hi len p loc
  pub free_low : p < 6
  pub free : bits p ≢ 1
  pub taken : (i : ℕ) → i < p → bits i ≡ 1
