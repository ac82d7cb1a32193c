-- ===== src/Process.antt =====
-- syscalls.c: `execute`, its helpers and `halt`; pit.c: `pit_handler`, which passes the processor to the next terminal.
mod Arguments
pub mod Parse
pub mod Command
pub mod Buffers
pub mod Setup
pub mod Returns
pub mod Stack
pub mod Consistent
mod Grow
mod Shrink
pub mod Launch
pub mod Start
pub mod Switch
pub mod Tick
pub mod RoundRobin
pub mod Steps
pub mod Sample
mod Tests
use judd_os.Prelude.{
  ℕ, zero, suc, ◌+◌, ◌-◌, ◌*◌, ◌%◌, Bool, true, false, if◌then◌else◌, ◌==◌, leb, ltb, not, ◌||◌,
  ◌&&◌, Option, none, some, List, set, ◌>>=◌, bit_or,
}
use judd_os.Prelude.Word.{fail}
use judd_os.Prelude.Memory.{Memory, store, load32}
use judd_os.Block.{memset}
use judd_os.CString.{strlen, strcpy}
use judd_os.Pic.{Pic, send_eoi}
use judd_os.Paging.{Tables, put, set_process_memory, free_process_memory}
use judd_os.FileSystem.{Fs, file_open, read_data}
use judd_os.Task.{Fd, free_fd}
use judd_os.Task

-- `pcb_t`, without `args`. `parent` is an address, 0 for none.
pub record Pcb : Type 0 where
  pub parent : ℕ
  pub pid : ℕ
  pub tid : ℕ
  pub esp0 : ℕ
  pub ebp : ℕ
  pub eip : ℕ
  pub esp : ℕ
  pub fds : List Fd
  pub args_size : ℕ

-- The fields of `terminal_t` that the scheduler uses.
pub record Slot : Type 0 where
  pub active : ℕ
  pub most_recent_pcb : ℕ
  pub ebp : ℕ
  pub esp0 : ℕ

-- The globals. `pcbs` is the process control block at an address; `tss_esp0` is the stack that the processor takes on
-- an entry from user mode. `fs.mem` is the memory as a program sees it.
pub record Kernel : Type 0 where
  pub fs : Fs
  pub pic : Pic
  pub tables : Tables
  pub pid_bits : ℕ → ℕ
  pub pcbs : ℕ → Pcb
  pub terminals : ℕ → Slot
  pub terminal_num : ℕ
  pub tss_esp0 : ℕ
  pub available_pid : ℕ
  pub size_of_args : ℕ

-- The registers in a function.
pub record Cpu : Type 0 where
  pub esp : ℕ
  pub ebp : ℕ
  pub eflags : ℕ

-- The addresses of local arrays of `execute` and `execute_setup`.
pub record Locals : Type 0 where
  pub fname : ℕ
  pub args : ℕ
  pub exe_check : ℕ

-- What `iret` takes from the stack.
pub record Iret : Type 0 where
  pub eip : ℕ
  pub cs : ℕ
  pub eflags : ℕ
  pub esp : ℕ
  pub ss : ℕ

-- How a function ends: it returns; it goes to user mode; it leaves the frame at `ebp`, which returns `eax` from the
-- `execute` of that frame; or it leaves the frame that another terminal has saved.
pub data Outcome : Type 0 where
  returned : ℕ → Outcome
  entered : Iret → Outcome
  resumed : ℕ → ℕ → Outcome
  switched : ℕ → Outcome

abbrev pub max_process_num : ℕ
max_process_num = 6

abbrev pub pcb_at : ℕ → ℕ
pcb_at pid = 0x800000 - 0x2000 * (pid + 1)

abbrev pub stack_top : ℕ → ℕ
stack_top pid = 0x800000 - 0x2000 * pid - 4

-- The mask 0xFFFFE000 clears the low 13 bits.
pub get_curr_pcb : ℕ → ℕ
get_curr_pcb esp = esp - esp % 0x2000

-- What the two loops of `execute_setup` leave; `ok` is false when they return -1.
pub record Parsed : Type 0 where
  pub mem : Memory
  pub ok : Bool
  pub size_of_args : ℕ

abbrev pub stops : ℕ → Bool
stops c = (c == 0) || ((c == 10) || (c == 13))

-- The inner loop, with `command_len - i` rounds left.
pub parse_args : ℕ → Memory → ℕ → Locals → ℕ → ℕ → Parsed
parse_args zero m command loc i size = record { mem = m; ok = true; size_of_args = size }
parse_args (suc left) m command loc i size =
    let c = m (command + i) in
    let rest = parse_args left (store m (loc.args + size) c) command loc (i + 1) (size + 1) in
    if stops c then (record { mem = m; ok = true; size_of_args = size }) else rest

-- The outer loop, with `command_len - i` rounds left.
pub parse_name : ℕ → Memory → ℕ → Locals → ℕ → Parsed
parse_name zero m command loc i = record { mem = m; ok = true; size_of_args = 0 }
parse_name (suc left) m command loc i =
    let c = m (command + i) in
    let rest = parse_name left (store m (loc.fname + i) c) command loc (i + 1) in
    if stops c
    then (record { mem = m; ok = true; size_of_args = 0 })
    else if c == 32
    then (if leb 32 i
        then (record { mem = m; ok = false; size_of_args = 0 })
        else parse_args left m command loc (i + 1) 0)
    else rest

-- The search for a free process number, with `6 - i` rounds left.
pub find_pid : ℕ → ℕ → (ℕ → ℕ) → ℕ
find_pid zero i bits = i
find_pid (suc left) i bits =
    let rest = find_pid left (i + 1) bits in if bits i == 1 then rest else i

pub claim_pid : Kernel → ℕ × Kernel
claim_pid k =
    let pid = find_pid max_process_num 0 k.pid_bits in
    if pid == max_process_num then (fail, k) else (
      0,
      record k {
        available_pid = pid;
        pid_bits = put pid 1 k.pid_bits;
        tables = set_process_memory pid k.tables;
      },
    )

abbrev pub opened_inode : Fs → ℕ
opened_inode fs = load32 fs.mem (fs.opened_file + 36)

abbrev pub has_magic : Memory → ℕ → Bool
has_magic m a =
    (m a == 0x7f) && ((m (a + 1) == 0x45) && ((m (a + 2) == 0x4c) && (m (a + 3) == 0x46)))

-- The end of `execute_setup`, after the four bytes have been read.
pub check_magic : Locals → ℕ → Kernel → ℕ × Kernel
check_magic loc ret k =
    if ret == fail
    then (fail, k)
    else if not (has_magic k.fs.mem loc.exe_check)
    then (fail, k)
    else claim_pid k

-- From `file_open` on, whose result is not used.
pub open_program : ℕ → ℕ → Locals → Kernel → Option (ℕ × Kernel)
open_program scan fuel loc k = do
  (size, fs1) ← file_open scan k.fs loc.fname
  (ret, fs2) ← read_data fuel fs1 (opened_inode fs1) 0 loc.exe_check 4
  some (check_magic loc ret (record k { fs = fs2 }))

pub execute_setup : ℕ → ℕ → Locals → ℕ → ℕ → Kernel → Option (ℕ × Kernel)
execute_setup scan fuel loc command len k =
    let m = k.fs.mem in
    let parsed = parse_name len m command loc 0 in
    let k' = record k {
      fs = record k.fs { mem = parsed.mem };
      size_of_args = parsed.size_of_args;
    } in
    if (command == 0) || ((m command == 0) || (m command == 32))
    then some (fail, k)
    else if not parsed.ok
    then some (fail, k')
    else open_program scan fuel loc k'

-- `execute_fillpcb`; the descriptors are those of the function of this name in Task.
pub fill_pcb : ℕ → ℕ → Pcb → Pcb
fill_pcb esp available_pid pcb = record pcb {
  parent = if available_pid == 0 then 0 else get_curr_pcb esp;
  pid = available_pid;
  fds = Task.execute_fillpcb pcb.fds;
}

-- The parent and the terminal that `execute` gives to the new process.
pub adopt : ℕ → Kernel → Pcb → Pcb
adopt esp k pcb =
    let parent = get_curr_pcb esp in
    if (k.terminals k.terminal_num).active == 0
    then (record pcb { parent = 0; tid = k.terminal_num })
    else (record pcb { parent = parent; tid = (k.pcbs parent).tid })

-- `execute_cswitch`
pub execute_cswitch : ℕ → Pcb → Outcome
execute_cswitch eflags pcb =
    entered (record {
      eip = pcb.eip;
      cs = 0x0023;
      eflags = bit_or eflags 0x20;
      esp = pcb.esp;
      ss = 0x002B;
    })

-- Steps 5 and 6 of `execute`; `eip` is what is read from the file.
pub start_process : Cpu → ℕ → Kernel → Outcome × Kernel
start_process cpu eip k =
    let pcb_new = pcb_at k.available_pid in
    let filled = fill_pcb cpu.esp k.available_pid (k.pcbs pcb_new) in
    let pcb = record (adopt cpu.esp k filled) {
      args_size = k.size_of_args;
      ebp = cpu.ebp;
      esp0 = k.tss_esp0;
      esp = 0x08000000 + 0x00400000 - 4;
      eip = eip;
    } in
    let slot = record (k.terminals k.terminal_num) { active = 1; most_recent_pcb = pcb_new } in
    (
      execute_cswitch cpu.eflags pcb,
      record k {
        pcbs = put pcb_new pcb k.pcbs;
        terminals = put k.terminal_num slot k.terminals;
        tss_esp0 = stack_top k.available_pid;
      },
    )

-- `execute` after `execute_setup`: `args` has offset 152 in a process control block, `eip` 16. The program is read to 0x08048000; the user page
-- ends at 0x08400000, and a byte behind it is a page fault, after which `execute` does not go on: `none`.
pub load_process : ℕ → ℕ → Locals → Cpu → ℕ × Kernel → Option (Outcome × Kernel)
load_process scan fuel loc cpu (ret, k) =
    let pcb_new = pcb_at k.available_pid in
    let start : Fs → Option (Outcome × Kernel) = (λ fs. do
      m ← strcpy scan fs.mem (pcb_new + 152) loc.args
      let fs1 = record fs { mem = m }
      (four, fs2) ← read_data fuel fs1 (opened_inode fs1) 24 (pcb_new + 16) 4
      some (start_process cpu (load32 fs2.mem (pcb_new + 16)) (record k { fs = fs2 }))) in
    let load : Option (Outcome × Kernel) = (do
      (read, fs) ← read_data fuel k.fs (opened_inode k.fs) 0 0x08048000 0x00400000
      if read == fail
          then some (returned fail, record k { fs = fs })
          else if ltb 0x08400000 (0x08048000 + read)
          then none
          else start fs) in
    if ret == fail then some (returned fail, k) else load

pub execute : ℕ → ℕ → Locals → Cpu → ℕ → Kernel → Option (Outcome × Kernel)
execute scan fuel loc cpu command k = do
  len ← strlen scan k.fs.mem command
  let m = memset (memset k.fs.mem loc.fname 0 (len + 1)) loc.args 0 (len + 1)
  result ← execute_setup scan fuel loc command len (record k { fs = record k.fs { mem = m } })
  load_process scan fuel loc cpu result

-- The loop of `halt` over the descriptors, with so many rounds left.
pub clear_fds : ℕ → ℕ → List Fd → List Fd
clear_fds zero i fds = fds
clear_fds (suc left) i fds = clear_fds left (i + 1) (set fds i free_fd)

-- `halt` from step 2 on, for the block at `current`, which has a parent.
unfoldable pub leave_process : ℕ → ℕ → Kernel → Kernel
leave_process current pid k =
    let pcb = k.pcbs current in
    let slot = record (k.terminals k.terminal_num) { most_recent_pcb = pcb.parent } in
    record k {
      tss_esp0 = pcb.esp0;
      pid_bits = put pid 0 k.pid_bits;
      tables = set_process_memory (k.pcbs pcb.parent).pid (free_process_memory pid k.tables);
      terminals = put k.terminal_num slot k.terminals;
      pcbs = put current (record pcb { fds = clear_fds 8 0 pcb.fds }) k.pcbs;
    }

pub halt_process : Cpu → ℕ → ℕ → Kernel → Outcome × Kernel
unfolding leave_process
halt_process cpu status current k =
    let pcb = k.pcbs current in
    if pcb.parent == 0
    then (execute_cswitch cpu.eflags pcb, record k { tss_esp0 = stack_top pcb.pid })
    else (resumed pcb.ebp status, leave_process current pcb.pid k)

pub halt : Cpu → ℕ → Kernel → Outcome × Kernel
halt cpu status k = halt_process cpu status (get_curr_pcb cpu.esp) k

-- The end of `pit_handler`.
pub resume_terminal : Kernel → Outcome × Kernel
resume_terminal k =
    let next = k.terminals k.terminal_num in
    (
      switched next.ebp,
      record k {
        tables = set_process_memory (k.pcbs next.most_recent_pcb).pid k.tables;
        tss_esp0 = next.esp0;
      },
    )

-- What `pit_handler` does when its call of `execute` has come to an end.
pub after_shell : Outcome × Kernel → Outcome × Kernel
after_shell (returned v, k) = resume_terminal k
after_shell (entered f, k) = (entered f, k)
after_shell (resumed ebp eax, k) = (resumed ebp eax, k)
after_shell (switched ebp, k) = (switched ebp, k)

-- `pit_handler` before its test: the stack of this terminal is saved, and the number is that of the next one.
pub next_terminal : Cpu → Kernel → Kernel
next_terminal cpu k =
    let slot = record (k.terminals k.terminal_num) { ebp = cpu.ebp; esp0 = k.tss_esp0 } in
    record k {
      terminals = put k.terminal_num slot k.terminals;
      terminal_num = (k.terminal_num + 1) % 3;
    }

-- `pit_handler` from its test on. `inner` is the registers in the call of `execute`, `shell` the address of the literal.
pub pit_end : ℕ → ℕ → Locals → ℕ → Cpu → Kernel → Option (Outcome × Kernel)
pit_end scan fuel loc shell inner k =
    let started : Option (Outcome × Kernel) = (do
      result ← execute scan fuel loc inner shell k
      some (after_shell result)) in
    if (k.terminals k.terminal_num).active == 0 then started else some (resume_terminal k)

pub pit_handler : ℕ → ℕ → Locals → ℕ → Cpu → Cpu → Kernel → Option (Outcome × Kernel)
pit_handler scan fuel loc shell cpu inner k = do
  pic ← send_eoi 0 k.pic
  pit_end scan fuel loc shell inner (next_terminal cpu (record k { pic = pic }))
