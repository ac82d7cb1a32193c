-- ===== src/Boot/Entry/Shell.antt =====
-- `entry` from the boot loader to the first program.
use judd_os.Prelude.{
  ℕ, ◌^◌, ◌+◌, ◌*◌, ◌<◌, ◌≤◌, ◌≡◌, ◌≢◌, ◌⊎◌, ◌∙◌, ap, subst, refl, inl, inr, some, >>=-some,
  if_true, if_false, ◌==◌, true, Bool, Bool-cases, ==_iff,
}
use judd_os.Terminal.{Console}
use judd_os.Process.{Kernel, Locals, Cpu, Iret, entered}
use judd_os.Process.Steps.{Reached, first, booted-IsScheduled}
use judd_os.Process.Launch.{IsLaunch, inode_of, page_size, start_word}
use judd_os.Process.Launch.Run.{Launched, execute_runs}
use judd_os.Boot.Multiboot.{passed, check_boot}
use judd_os.Boot.Multiboot.Shown.{IsHigh}
use judd_os.Boot.Multiboot.Info.{IsInfo}
use judd_os.Boot.Multiboot.Ends.{conflict, module_start, check_boot_lem}
use judd_os.Boot.Entry.{Board, Machine, halted, started, initialise, go_on, entry}
use judd_os.Boot.Entry.Up.{IsUp}

module _ (rounds limit scan fuel addr : ℕ) (b : Board) (m : Machine)
    (info : IsInfo rounds limit m.console.mem addr) (big : 12 ≤ limit) (enough : 128 + limit ≤ fuel)
    (high : IsHigh b.lit) where
  -- Both of the bits 4 and 5 are set in the flags.
  abbrev pub both_bits : Bool
  both_bits = conflict rounds limit fuel b.conv b.lit m.console.mem addr info big enough high

  -- The start of the last module, if there is one.
  abbrev pub found_at : ℕ
  found_at =
      module_start rounds limit fuel b.conv b.lit m.console.mem addr info big enough high
        m.kernel.fs.filesystem_addr

  -- The machine after the first part of `entry`, which has printed to the screen and found the file system.
  abbrev pub with_files : Console → Machine
  with_files c = record m {
    console = c;
    kernel = record m.kernel { fs = record m.kernel.fs { filesystem_addr = found_at } };
  }

  -- For the information of the boot loader below the screen: with another magic number than the boot loader's, or with both of the bits 4 and 5, `entry`
  -- returns and starts nothing.
  pub entry_halts :
      (magic shell : ℕ) (loc : Locals) (cpu : Cpu)
      → magic < 2 ^ 32
      → (magic ≢ 0x2BADB002) ⊎ (both_bits ≡ true)
      → (c : Console) × (entry rounds scan fuel loc cpu shell b magic addr m ≡ some (halted c))
  unfolding entry go_on
  entry_halts magic shell loc cpu fits bad =
      let (c, e, below) =
        check_boot_lem rounds limit fuel b.conv b.lit m.console.mem addr info big enough high magic
          m.kernel.fs.filesystem_addr m.console refl fits in
      elim (Bool-cases (magic == 0x2BADB002)) [
        | inr wrong ↦ (
          c,
          >>=-some (go_on scan fuel loc cpu shell b m)
              (e ∙ ap some (if_false {b = magic == 0x2BADB002} _ _ wrong)),
        )
        | inl right ↦ (elim bad [
          | inl other ↦ absurd (other ((==_iff magic 0x2BADB002).0 right))
          | inr both ↦ (
            c,
            >>=-some (go_on scan fuel loc cpu shell b m) (
                e
                ∙ ap some (if_true {b = magic == 0x2BADB002} _ _ right)
                ∙ ap some (if_true {b = both_bits} _ _ both)),
          )
        ])
      ]

  -- When on the machine that is up `shell` names a program of the file system, `entry` enters the program at its entry point, the program runs as process 0 on
  -- terminal 0, and this is a state from which the kernel goes on.
  pub entry_runs :
      (shell hi len n rest j : ℕ) (loc : Locals) (cpu : Cpu) (c : Console) (m' : Machine)
      → IsUp b (with_files c) m'
      → page_size + 4096 ≤ 4096 * fuel
      → check_boot fuel b.conv b.lit rounds 0x2BADB002 addr m.kernel.fs.filesystem_addr m.console
        ≡ some (passed found_at c)
      → initialise fuel b (with_files c) ≡ some m'
      → IsLaunch scan hi shell len n rest j 0 loc m'.kernel.fs m'.kernel.pid_bits
      → (f : Iret) × (k : Kernel) × (entry rounds scan fuel loc cpu shell b 0x2BADB002 addr m
          ≡ some (started m'.console (entered f) k))
        × (f.eip ≡ start_word m'.kernel.fs (inode_of m'.kernel.fs j))
        × Launched m'.kernel.fs k 0 shell n rest j 0
        × Reached k
  unfolding entry go_on
  entry_runs shell hi len n rest j loc cpu c m' is_up enough_pages checks up l =
      let off : (m'.kernel.terminals m'.kernel.terminal_num).active ≡ 0 =
        is_up.booted.inactive m'.kernel.terminal_num is_up.booted.terminal in
      let (f, k, runs, entry_point, stack, launched) =
        execute_runs scan fuel hi shell len n rest j 0 loc cpu m'.kernel l enough_pages
          (booted-IsScheduled m'.kernel is_up.booted) (λ on. absurd (on off)) in
      (
        f,
        k,
        >>=-some (go_on scan fuel loc cpu shell b m) checks ∙ >>=-some _ up ∙ >>=-some _ runs,
        entry_point,
        subst (λ t. Launched m'.kernel.fs k t shell n rest j 0) is_up.terminal launched,
        first m'.kernel k scan fuel loc cpu shell f is_up.booted runs,
      )
