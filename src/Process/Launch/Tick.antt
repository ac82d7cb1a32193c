-- ===== src/Process/Launch/Tick.antt =====
-- The timer starts the shell on a terminal that has no process yet.
use judd_os.Prelude.{
  ℕ, ◌+◌, ◌*◌, ◌%◌, ◌≤◌, ◌≡◌, ◌∙◌, ap, arith, some, if_true, ◌==◌, >>=-some, bit_or, ◌++◌, ◌∷◌, [],
}
use judd_os.Prelude.Word.{outb}
use judd_os.Pic.{Pic}
use judd_os.Pic.Eoi.{send_eoi_master}
use judd_os.Process.{
  Kernel, Locals, Cpu, entered, Iret, next_terminal, pit_end, pit_handler, after_shell,
}
use judd_os.Process.Consistent.{IsScheduled, Runs, put_ne}
use judd_os.Process.Tick.{next_terminal_lem}
use judd_os.Process.Launch.{IsLaunch, inode_of, page_size, start_word}
use judd_os.Process.Launch.Run.{Launched, execute_runs}

-- When the next terminal has no process, and `shell` is a command that `execute` can start with the first free process number, for a program that ends within the user page, 1025 rounds or more given, the
-- timer interrupt of the process that runs does not fail: it enters that program at its entry point, loaded with its arguments, as a process that runs
-- on the next terminal, with all that the scheduler needs.
pub pit_handler_starts :
    (scan fuel hi shell len n rest j p q : ℕ) (loc : Locals) (cpu inner : Cpu) (k : Kernel)
    → IsLaunch scan hi shell len n rest j p loc k.fs k.pid_bits
    → page_size + 4096 ≤ 4096 * fuel
    → IsScheduled k
    → Runs q k
    → (k.terminals ((k.terminal_num + 1) % 3)).active ≡ 0
    → (f : Iret) × (k' : Kernel) × (pit_handler scan fuel loc shell cpu inner k
        ≡ some (entered f, k'))
      × (f.eip ≡ start_word k.fs (inode_of k.fs j))
      × Launched k.fs k' ((k.terminal_num + 1) % 3) shell n rest j p
unfolding pit_handler pit_end next_terminal after_shell
pit_handler_starts scan fuel hi shell len n rest j p q loc cpu inner k l enough scheduled runs off =
    let pic : Pic = record k.pic { writes = k.pic.writes ++ (outb (bit_or 0x60 0) 0x20 ∷ []) } in
    let k0 = record k { pic = pic } in
    let k1 = next_terminal cpu k0 in
    let scheduled0 : IsScheduled k0 = record {
      terminal = scheduled.terminal;
      consistent = scheduled.consistent;
      saved = scheduled.saved;
    } in
    let runs0 : Runs q k0 = record {
      used = runs.used;
      active = runs.active;
      recent = runs.recent;
      mapped = runs.mapped;
      stack = runs.stack;
    } in
    let slot = record (k.terminals k.terminal_num) { ebp = cpu.ebp; esp0 = k.tss_esp0 } in
    let off1 : (k1.terminals ((k.terminal_num + 1) % 3)).active ≡ 0 =
      ap (λ s. s.active)
        (put_ne k.terminal_num ((k.terminal_num + 1) % 3) slot k.terminals
          (ground (arith, scheduled.terminal)))
      ∙ off in
    let (f, k', starts, entry, stack, launched) =
      execute_runs scan fuel hi shell len n rest j p loc inner k1 l enough
        (next_terminal_lem cpu k0 q scheduled0 runs0).0 (λ on. absurd (on off1)) in
    (
      f,
      k',
      >>=-some _ (send_eoi_master 0 k.pic (omega arith))
          ∙ if_true {b = (k1.terminals ((k.terminal_num + 1) % 3)).active == 0} _ _
              (ground (arith, off1))
          ∙ >>=-some (λ r. some (after_shell r)) starts,
      entry,
      launched,
    )
