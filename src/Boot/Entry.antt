-- ===== src/Boot/Entry.antt =====
-- kernel.c: `entry` as a whole, from the boot loader to the first shell.
pub mod Up
pub mod Shell
use judd_os.Prelude.{
  ℕ, ◌+◌, List, [], ◌∷◌, ◌&&◌, leb, ltb, if◌then◌else◌, Option, none, some, Bool, false, ◌==◌,
  ◌>>=◌,
}
use judd_os.Prelude.Word.{PortWrite}
use judd_os.Prelude.Text.{codes}
use judd_os.Prelude.Memory.{Memory}
use judd_os.Pic.{i8259_init}
use judd_os.Rtc.{Rtc, rtc_init}
use judd_os.Paging.{Tables, init_paging}
use judd_os.Paging.Walk.{walk}
use judd_os.FileSystem.{Fs, filesystem_init}
use judd_os.Terminal.{Console, clear}
use judd_os.Keyboard.{keyboard_init}
use judd_os.Timer.{terminal_init, pit_init}
use judd_os.Interrupts.{Label}
use judd_os.Interrupts.Gates.{IdtDesc, init_idt}
use judd_os.Process.{Kernel, Slot, Locals, Cpu, Outcome, execute}
use judd_os.Boot.{SegDesc, Segments, set_up_ldt, set_up_tss}
use judd_os.Boot.Multiboot.{say, Check, stopped, passed, check_boot}

-- What the linker, the hardware and the compiler give: where the page tables, the descriptor table, the task state, the wrappers,
-- the literals and the buffers of `printf` are; what a port holds after some writes; and what the locals and the user page hold
-- before they are set.
pub record Board : Type 0 where
  pub page_table_at : ℕ
  pub video_table_at : ℕ
  pub ldt : ℕ
  pub ldt_size : ℕ
  pub tss : ℕ
  pub tss_size : ℕ
  pub address : Label → ℕ
  pub lit : List ℕ → ℕ
  pub conv : ℕ
  pub inb : List PortWrite → ℕ → ℕ
  pub ldt_desc : SegDesc
  pub tss_desc : SegDesc
  pub user : Memory

-- All the state. Until a program runs, memory and page tables are those of `console`.
pub record Machine : Type 0 where
  pub console : Console
  pub kernel : Kernel
  pub rtc_signal : ℕ
  pub segments : Segments
  pub idt : ℕ → IdtDesc

-- How `entry` ends: it returns, or the first call of `execute` has ended so.
pub data Entry : Type 0 where
  halted : Console → Entry
  started : Console → Outcome → Kernel → Entry

-- The loop of `terminal_init` on the member that Timer.Terminal does not keep.
abbrev inactive : (ℕ → Slot) → ℕ → Slot
inactive slots t = if ltb t 3 then record (slots t) { active = 0 } else slots t

-- With paging on, the kernel's 4 MB are in sight at their own addresses.
abbrev pub seen : Memory → Memory → Memory
seen user m x = if leb 0x400000 x && ltb x 0x800000 then m x else user x

-- The kernel reaches this address, through the tables, at itself.
abbrev pub in_sight : Board → Tables → ℕ → Bool
in_sight b tables a = elim (walk b.page_table_at b.video_table_at false tables a) [
  | none ↦ false
  | some pa ↦ pa == a
]

-- `entry` from the descriptors on, up to the second call of `clear`. Paging is on when `filesystem_init` reads the 64 bytes of the boot block, so
-- `none` is also a page fault there.
pub initialise : ℕ → Board → Machine → Option Machine
initialise fuel b m =
    let segments =
      set_up_tss b.tss_desc b.tss b.tss_size (set_up_ldt b.ldt_desc b.ldt b.ldt_size m.segments) in
    let idt = init_idt b.address m.idt in
    let pic = i8259_init (b.inb m.kernel.pic.writes) m.kernel.pic in
    let keyboard = keyboard_init pic m.console in
    let rtc = rtc_init b.inb (record { rtc_signal = m.rtc_signal; pic = keyboard.0 }) in
    let paged = record keyboard.1 {
      tables = init_paging b.page_table_at b.video_table_at keyboard.1.tables;
    } in
    let fs = filesystem_init (record m.kernel.fs { mem = paged.mem }) in
    let console = terminal_init b.page_table_at b.video_table_at (record paged { mem = fs.mem }) in
    let timer = pit_init rtc.pic in
    let shown =
      say fuel b.conv b.lit (codes "Enabling Interrupts\n") []
        (record console { terminal_num = timer.0 }) in
    let up : Option Machine =
      (shown >>= λ (c : Console).
      (let cleared = clear c in
        some (record {
          console = cleared;
          kernel = record m.kernel {
            fs = record fs { mem = seen b.user cleared.mem };
            pic = timer.1;
            tables = cleared.tables;
            terminals = inactive m.kernel.terminals;
            terminal_num = timer.0;
            tss_esp0 = segments.tss.esp0;
          };
          rtc_signal = rtc.rtc_signal;
          segments = segments;
          idt = idt;
        }))) in
    if in_sight b paged.tables fs.filesystem_addr
      && in_sight b paged.tables (fs.filesystem_addr + 63)
    then up
    else none

-- What follows the first part. `shell` is the address of the literal, `cpu` the registers in `execute`.
pub go_on : ℕ → ℕ → Locals → Cpu → ℕ → Board → Machine → Check → Option Entry
unfolding initialise
go_on scan fuel loc cpu shell b m (stopped filesystem_addr c) = some (halted c)
go_on scan fuel loc cpu shell b m (passed filesystem_addr c) =
    let kernel = record m.kernel {
      fs = record m.kernel.fs { filesystem_addr = filesystem_addr };
    } in
    initialise fuel b (record m { console = c; kernel = kernel }) >>= λ (m' : Machine).
    (execute scan fuel loc cpu shell m'.kernel >>= λ (r : Outcome × Kernel).
    some (started m'.console r.0 r.1))

pub entry : ℕ → ℕ → ℕ → Locals → Cpu → ℕ → Board → ℕ → ℕ → Machine → Option Entry
unfolding go_on
entry rounds scan fuel loc cpu shell b magic addr m =
    check_boot fuel b.conv b.lit rounds magic addr m.kernel.fs.filesystem_addr m.console
    >>= λ (check : Check). go_on scan fuel loc cpu shell b m check
