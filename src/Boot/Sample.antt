-- ===== src/Boot/Sample.antt =====
-- A machine as the boot loader leaves it: a command line, one module at 5 MB, and a memory map of one entry.
use judd_os.Prelude.{[], ◌+◌, ◌≤◌, arith, refl, if◌then◌else◌, ◌==◌}
use judd_os.Prelude.Memory.{Memory, IsBytes, load32}
use judd_os.Boot.{SegDesc, Segments}
use judd_os.Boot.Multiboot.Loops.{ended, entry}
use judd_os.Boot.Multiboot.Info.{IsInfo}
use judd_os.Boot.Multiboot.Shown.{IsHigh}
use judd_os.Boot.Entry.{Board, Machine}
use judd_os.Boot.Entry.Up.{IsLinked, IsFresh}
use judd_os.Interrupts.Gates.{IdtDesc}
use judd_os.Terminal.Sample.{three}
use judd_os.Process.Sample.{boot}

-- What a local descriptor may hold.
abbrev pub noise : SegDesc
noise = record {
  seg_lim_15_00 = 1;
  base_15_00 = 2;
  base_23_16 = 3;
  type = 4;
  sys = 1;
  dpl = 3;
  present = 0;
  seg_lim_19_16 = 5;
  avail = 1;
  reserved = 1;
  opsize = 0;
  granularity = 1;
  base_31_24 = 6;
}

abbrev pub before : Segments
before = record {
  ldt_desc_ptr = noise;
  tss_desc_ptr = noise;
  tss = record { ldt_segment_selector = 0; ss0 = 0; esp0 = 0 };
  ldtr = 0;
  tr = 0;
}

-- The structure is at 65536, with the flags 2, 3 and 6; the module's entry at 69632, the map at 73728.
abbrev pub loader : Memory
loader x =
    if x == 65536
    then 76
    else if x == 65556
    then 1
    else if x == 65561
    then 16
    else if x == 65562
    then 1
    else if x == 65580
    then 24
    else if x == 65585
    then 32
    else if x == 65586
    then 1
    else if x == 69634
    then 80
    else if x == 73728
    then 20
    else 0

loader-IsBytes : IsBytes loader
loader-IsBytes x = ground arith

pub loader-IsInfo : IsInfo 3 12 loader 65536
unfolding load32
loader-IsInfo = record {
  bytes = loader-IsBytes;
  low = omega arith;
  cmdline = λ on. (
    0,
    record { ends = refl; before = λ i h. absurd (omega (arith, h)) },
    omega arith,
    omega arith,
  );
  modules = λ on. (omega arith, omega arith);
  map = λ on. entry 2 73728 (omega arith) (omega arith) (ended 1 73752 (omega arith));
}

abbrev no_gate : IdtDesc
no_gate = record {
  offset_15_00 = 0;
  seg_selector = 0;
  reserved4 = 0;
  reserved3 = 0;
  reserved2 = 0;
  reserved1 = 0;
  size = 0;
  reserved0 = 0;
  dpl = 0;
  present = 0;
  offset_31_16 = 0;
}

abbrev pub pc : Machine
pc = record {
  console = record three { mem = loader };
  kernel = record boot { pic = record { master_mask = 0xFF; slave_mask = 0xFF; writes = [] } };
  rtc_signal = 0;
  segments = before;
  idt = λ v. no_gate;
}

abbrev pub board : Board
board = record {
  page_table_at = 0x410000;
  video_table_at = 0x411000;
  ldt = 0x409000;
  ldt_size = 32;
  tss = 0x40A000;
  tss_size = 104;
  address = λ l. 0x402000;
  lit = λ text. 0x406000;
  conv = 0x7FF000;
  inb = λ writes p. 0xFF;
  ldt_desc = noise;
  tss_desc = noise;
  user = loader;
}

pub board-IsLinked : IsLinked board
board-IsLinked = record {
  aligned = omega arith;
  fits = omega arith;
  apart = λ e. omega (arith, e);
  ldt = omega arith;
  ldt_size = omega arith;
  tss = omega arith;
  tss_size = omega arith;
  wrappers = λ l. omega arith;
}

pub pc-IsFresh : IsFresh pc
pc-IsFresh = record { unused = λ p h. refl; master = refl; slave = refl }

pub big : 12 ≤ 12
big = omega arith

pub enough : 128 + 12 ≤ 140
enough = omega arith

pub high : IsHigh board.lit
high text = omega arith
