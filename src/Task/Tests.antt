-- ===== src/Task/Tests.antt =====
-- Runs of the system calls.
use judd_os.Prelude.{
  ℕ, ◌≡◌, Option, refl, arith, some, List, [], replicate, set, if◌then◌else◌, ◌==◌,
}
use judd_os.Prelude.Word.{PortWrite}
use judd_os.Prelude.Memory.{Memory}
use judd_os.Task.{
  fill_free, find_free, Task, Fd, Handler, free_fd, execute_fillpcb, sys_open, sys_read, terminal,
  rtc_ftable,
}
use judd_os.Task.Table.{IsTable, execute_fillpcb-IsTable}
use judd_os.Task.Found.{sys_open_finds}
use judd_os.Rtc.{rtc_open}
use judd_os.Prelude.Memory.{load32}
use judd_os.FileSystem.Sample.{image, small_fs, small-IsQuery, small-IsDirectory}
use judd_os.FileSystem.Entry.{loaded}
use judd_os.Task.Calls.{sys_read-safe}

abbrev blank : List Fd
blank = replicate 8 free_fd

-- The argument "ab" is at 100.
abbrev arguments : Memory
arguments x = if x == 100 then 97 else if x == 101 then 98 else 0

abbrev process : Task
process = record {
  fs = record {
    mem = arguments;
    filesystem_addr = 65536;
    num_dentries = 0;
    num_inodes = 1;
    num_datablocks = 0;
    file_index = 0;
    opened_file = 1000;
    reserved = 2000;
  };
  rtc = record { rtc_signal = 0; pic = record { master_mask = 0; slave_mask = 0; writes = [] } };
  fds = execute_fillpcb blank;
  args = 100;
  args_size = 2;
}

process-IsTable : IsTable process.fds
process-IsTable = execute_fillpcb-IsTable blank refl

abbrev answer : Handler → ℕ → ℕ → ℕ → ℕ → Option (ℕ × ℕ)
answer h fd buf nbytes s = some (nbytes, s)

sys_read-safe_example : sys_read answer process.fds 0 64 5 7 ≡ answer terminal 0 64 5 7
sys_read-safe_example = (sys_read-safe answer process.fds 0 64 5 7 process-IsTable).2 refl

abbrev registers : List PortWrite → ℕ → ℕ
registers ws port = 0x26

abbrev sampled : Task
sampled = record process { fs = small_fs }

-- The entry has type 0, so the clock opens.
sys_open_finds_example :
    sys_open 64 registers 3000 100 sampled
    ≡ some (
      2,
      record sampled {
        fs = record small_fs { mem = loaded image 3000 65600 1 };
        fds =
            set sampled.fds 2
              (record { fxn_tbl_ptr = rtc_ftable; inode = 0; file_pos = 0; flags = 1 });
        rtc = (rtc_open registers sampled.rtc).1;
      },
    )
unfolding find_free execute_fillpcb fill_free small-IsQuery small-IsDirectory load32
sys_open_finds_example =
    (sys_open_finds 64 registers 3000 100 1 sampled small-IsQuery (λ e. omega (arith, e))
        (omega arith) (λ e. omega (arith, e)) 0 (omega arith)
        (record { size = refl; bytes = λ i h. ground arith }) (λ j h. absurd (omega (arith, h)))).2
      (omega arith) refl
