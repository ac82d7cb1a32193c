-- ===== src/Boot/Entry/Up.antt =====
-- The initialisations of `entry` taken together.
use judd_os.Prelude.{
  ℕ, ◌+◌, ◌%◌, ◌/◌, ◌^◌, ◌<◌, ◌≤◌, ◌≡◌, ◌≢◌, ◌∙◌, sym, ap, subst, arith, refl, [], ◌&&◌, ◌||◌, leb,
  ltb, ◌==◌, if◌then◌else◌, if_true, Option, some, none, >>=-some, bit_and, false, true,
}
use judd_os.Prelude.Text.{codes}
use judd_os.Prelude.Memory.{load32}
use judd_os.Pic.{i8259_init}
use judd_os.Pic.Masks.{i8259_init-masks, enable_irq-timer, enable_irq-keyboard}
use judd_os.Rtc.{Rtc, rtc_init}
use judd_os.Rtc.Masks.{rtc_init-masks}
use judd_os.Paging.Boot.{init_paging_lem}
use judd_os.Paging.{Tables, init_paging, set_up_virtual_to_video}
use judd_os.Paging.Up.{walk_up}
use judd_os.Paging.Walk.{walk}
use judd_os.Paging.Video.{Framed, terminal_page}
use judd_os.FileSystem.{filesystem_init}
use judd_os.Terminal.{Console, clear, video_mem}
use judd_os.Terminal.Scroll.{clear_lem}
use judd_os.Keyboard.{keyboard_init}
use judd_os.Keyboard.Start.{keyboard_init_lem}
use judd_os.Timer.{terminal_init, pit_init}
use judd_os.Timer.Start.{terminal_init-tables, pit_init_lem}
use judd_os.Interrupts.{Label}
use judd_os.Interrupts.Gates.{init_idt_lem, IsGate, vector, gate_kind, gate_dpl}
use judd_os.Process.{Slot}
use judd_os.Process.Steps.{IsBooted}
use judd_os.Boot.{set_up_ldt, set_up_tss}
use judd_os.Boot.Descriptors.{IsSystem, descriptors_lem}
use judd_os.Boot.Multiboot.Shown.{say_lem, say-tables}
use judd_os.Boot.Entry.{in_sight, Board, Machine, initialise}

-- What the linker keeps to: the tables on different page boundaries of the 32-bit space, and the rest in that space.
pub record IsLinked (b : Board) : Type 0 where
  pub aligned : b.page_table_at % 0x1000 ≡ 0
  pub fits : b.page_table_at < 0x100000000
  pub apart : b.page_table_at ≢ b.video_table_at
  pub ldt : b.ldt < 2 ^ 32
  pub ldt_size : b.ldt_size < 2 ^ 20
  pub tss : b.tss < 2 ^ 32
  pub tss_size : b.tss_size < 2 ^ 20
  pub wrappers : (l : Label) → b.address l < 2 ^ 32

-- The variables as the C program starts: no process number in use, all lines masked.
pub record IsFresh (m : Machine) : Type 0 where
  pub unused : (p : ℕ) → p < 6 → m.kernel.pid_bits p ≡ 0
  pub master : m.kernel.pic.master_mask ≡ 0xFF
  pub slave : m.kernel.pic.slave_mask ≡ 0xFF

-- The machine is up, with the file system at `fs`.
pub record IsUp (b : Board) (m m' : Machine) : Type 0 where
  pub booted : IsBooted m'.kernel
  pub terminal : m'.kernel.terminal_num ≡ 0
  pub task : IsSystem m'.segments.tss_desc_ptr 9 b.tss b.tss_size
  pub local : IsSystem m'.segments.ldt_desc_ptr 2 b.ldt b.ldt_size
  pub stack : m'.kernel.tss_esp0 ≡ 0x800000
  pub gates : (l : Label) → IsGate (m'.idt (vector l)) (b.address l) (gate_kind l) (gate_dpl l)
  pub lines : (m'.kernel.pic.master_mask ≡ 0xF8) × (m'.kernel.pic.slave_mask ≡ 0xFF)
  pub mapped :
      (va : ℕ)
      → va < 0x100000000
      → va / 2 ^ 22 ≢ 33
      → (walk b.page_table_at b.video_table_at false m'.kernel.tables va ≡ (
          if (leb 0xB8000 va && ltb va 0xB9000) || (leb 0x400000 va && ltb va 0x800000)
          then some va
          else none))
        × (walk b.page_table_at b.video_table_at true m'.kernel.tables va ≡ none)
  pub pages : Framed b.video_table_at 0 m'.kernel.tables
  pub files :
      (m'.kernel.fs.filesystem_addr ≡ m.kernel.fs.filesystem_addr)
      × (m'.kernel.fs.num_dentries ≡ load32 m.console.mem m.kernel.fs.filesystem_addr)
      × (m'.kernel.fs.num_inodes ≡ load32 m.console.mem (m.kernel.fs.filesystem_addr + 4))
      × (m'.kernel.fs.num_datablocks ≡ load32 m.console.mem (m.kernel.fs.filesystem_addr + 8))
  pub blank : (x : ℕ) → x < 4000 → m'.console.mem (video_mem + x) ≡ (if x % 2 == 0 then 0x20 else 7)

-- The boot block of the file system is in the kernel's own 4 MB.
abbrev pub IsReachable : ℕ → Type 0
IsReachable a = (0x400000 ≤ a) × (a + 64 ≤ 0x800000)

in_sight-up :
    (b : Board) (t : Tables) (a : ℕ)
    → IsLinked b
    → 0x400000 ≤ a
    → a < 0x800000
    → in_sight b (init_paging b.page_table_at b.video_table_at t) a ≡ true
in_sight-up b t a linked low high =
    let (kernel, program) =
      init_paging_lem b.page_table_at b.video_table_at t a linked.aligned linked.fits linked.apart
        (omega (arith, high)) in
    let here : walk b.page_table_at b.video_table_at false
          (init_paging b.page_table_at b.video_table_at t) a
        ≡ some a =
      kernel
      ∙ if_true {b = (leb 0xB8000 a && ltb a 0xB9000) || (leb 0x400000 a && ltb a 0x800000)} _ _
          (ground (arith, low, high)) in
    ap (λ (o : Option ℕ). elim o [ none ↦ false | some pa ↦ pa == a ]) here ∙ (ground arith)

module _ (limit fuel : ℕ) (b : Board) (m : Machine) (linked : IsLinked b) (fresh : IsFresh m)
    (there : IsReachable m.kernel.fs.filesystem_addr) (big : 12 ≤ limit)
    (enough : 128 + limit ≤ fuel) where
  -- The masks after the four initialisations that change them.
  lines_up :
      (inb : ℕ → ℕ) (c : Console) (signal : ℕ)
      → (let rtc = rtc_init b.inb (record {
        rtc_signal = signal;
        pic = (keyboard_init (i8259_init inb m.kernel.pic) c).0;
      }) in
          ((pit_init rtc.pic).1.master_mask ≡ 0xF8) × ((pit_init rtc.pic).1.slave_mask ≡ 0xFF))
  lines_up inb c signal =
      let pic = i8259_init inb m.kernel.pic in
      let key = (keyboard_init pic c).0 in
      let start : Rtc = record { rtc_signal = signal; pic = key } in
      let rtc = rtc_init b.inb start in
      let (master0, slave0) = i8259_init-masks inb m.kernel.pic in
      let unmasked = (keyboard_init_lem pic c).0 in
      let (master1, slave1) = enable_irq-keyboard pic in
      let (master2, slave2) = rtc_init-masks b.inb start in
      let (num, master3, slave3) = pit_init_lem rtc.pic in
      let (master4, slave4) = enable_irq-timer rtc.pic in
      (
        master3
            ∙ master4
            ∙ ap (λ w. bit_and w 0xFE)
                (master2
                  ∙ ap (λ p. p.master_mask) unmasked
                  ∙ master1
                  ∙ ap (λ w. bit_and w 0xFD) (master0 ∙ ap (λ w. bit_and w 0xFB) fresh.master)),
        slave3 ∙ slave4 ∙ slave2 ∙ ap (λ p. p.slave_mask) unmasked ∙ slave1 ∙ slave0 ∙ fresh.slave,
      )

  -- The initialisations end, and the machine is up.
  pub initialise_lem : (m' : Machine) × (initialise fuel b m ≡ some m') × IsUp b m m'
  unfolding initialise filesystem_init clear
  initialise_lem =
      let s0 = set_up_ldt b.ldt_desc b.ldt b.ldt_size m.segments in
      let segments = set_up_tss b.tss_desc b.tss b.tss_size s0 in
      let pic = i8259_init (b.inb m.kernel.pic.writes) m.kernel.pic in
      let keyboard = keyboard_init pic m.console in
      let paged = record keyboard.1 {
        tables = init_paging b.page_table_at b.video_table_at keyboard.1.tables;
      } in
      let fs = filesystem_init (record m.kernel.fs { mem = paged.mem }) in
      let console =
        terminal_init b.page_table_at b.video_table_at (record paged { mem = fs.mem }) in
      let rtc = rtc_init b.inb (record { rtc_signal = m.rtc_signal; pic = keyboard.0 }) in
      let timer = pit_init rtc.pic in
      let (key, same, tables) = keyboard_init_lem pic m.console in
      let (c, shown, low) =
        say_lem limit fuel b.conv b.lit (codes "Enabling Interrupts\n") []
          (record console { terminal_num = timer.0 }) big (omega (arith, enough)) tt in
      let up : c.tables
          ≡ set_up_virtual_to_video b.page_table_at b.video_table_at terminal_page 0
              (init_paging b.page_table_at b.video_table_at keyboard.1.tables) =
        say-tables fuel b.conv b.lit (codes "Enabling Interrupts\n") []
          (record console { terminal_num = timer.0 }) c shown
        ∙ terminal_init-tables b.page_table_at b.video_table_at (record paged { mem = fs.mem }) in
      let (local, task, ldtr, tr, selector, ss0, esp0) =
        descriptors_lem b.ldt_desc b.tss_desc b.ldt b.ldt_size b.tss b.tss_size m.segments
          linked.ldt linked.ldt_size linked.tss linked.tss_size in
      (
        _,
        if_true
              {b = in_sight b paged.tables m.kernel.fs.filesystem_addr
                && in_sight b paged.tables (m.kernel.fs.filesystem_addr + 63)}
              _ _
              (ground (
                arith,
                in_sight-up b keyboard.1.tables m.kernel.fs.filesystem_addr linked there.0
                    (omega (arith, there.1)),
                in_sight-up b keyboard.1.tables (m.kernel.fs.filesystem_addr + 63) linked
                    (omega (arith, there.0)) (omega (arith, there.1)),
              ))
            ∙ >>=-some _ shown,
        record {
          booted = record {
            terminal = omega (arith, (pit_init_lem rtc.pic).0);
            unused = fresh.unused;
            inactive =
                λ t h. ap (λ (s : Slot). s.active) (if_true {b = ltb t 3} _ _ (ground (arith, h)));
          };
          terminal = (pit_init_lem rtc.pic).0;
          task = task;
          local = local;
          stack = esp0;
          gates = (init_idt_lem b.address m.idt linked.wrappers).0;
          lines = lines_up (b.inb m.kernel.pic.writes) m.console m.rtc_signal;
          mapped = λ va high other.
              (let (framed, kernel, program) =
                  walk_up b.page_table_at b.video_table_at 0 keyboard.1.tables va (omega arith)
                    linked.aligned linked.fits linked.apart high other in
                (
                  ap (λ t. walk b.page_table_at b.video_table_at false t va) up ∙ kernel,
                  ap (λ t. walk b.page_table_at b.video_table_at true t va) up ∙ program,
                ));
          pages =
              subst (Framed b.video_table_at 0) (sym up)
                (walk_up b.page_table_at b.video_table_at 0 keyboard.1.tables 0 (omega arith)
                  linked.aligned linked.fits linked.apart (omega arith) (λ e. omega (arith, e))).0;
          files = (
            refl,
            ap (λ w. load32 w m.kernel.fs.filesystem_addr) same,
            ap (λ w. load32 w (m.kernel.fs.filesystem_addr + 4)) same,
            ap (λ w. load32 w (m.kernel.fs.filesystem_addr + 8)) same,
          );
          blank = λ x h. clear_lem c (video_mem + x) ∙ ground (arith, h);
        },
      )
