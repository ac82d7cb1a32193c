-- ===== src/Process/Launch/Run.antt =====
-- `execute` as a whole on a program that the file system has: it does not fail, and the program runs.
use judd_os.Prelude.{
  ℕ, suc, ◌+◌, ◌*◌, ◌-◌, ◌<◌, ◌≤◌, ◌≡◌, ◌∙◌, sym, ap, arith, inl, inr, some, refl, if_false, ◌==◌,
  ◌||◌, not, >>=-some,
}
use judd_os.Prelude.Memory.{Memory}
use judd_os.CString.Length.{strlen_lem, IsString}
use judd_os.FileSystem.{Fs}
use judd_os.FileSystem.Frame.{Agree, with_mem}
use judd_os.FileSystem.Data.{file_byte, count_of, size_of}
use judd_os.Process.{
  Kernel, Locals, Cpu, entered, Iret, execute, execute_setup, execute_cswitch, start_process,
  pcb_at, Parsed,
}
use judd_os.Process.Consistent.{IsScheduled, Runs, put_self}
use judd_os.Process.Start.{IsCaller, execute_lem}
use judd_os.Process.Buffers.{blanked, parsed, words, ready, blanked_first, Ready}
use judd_os.Process.Launch.{IsLaunch, inode_of, page, page_size, start_word}
use judd_os.Process.Launch.Program.{claimed_as, Found, open_program_runs, same_image}
use judd_os.Process.Launch.Load.{load_process_runs}

-- Process `p` of kernel `k` runs on terminal `t` the program of entry `j`, with the `rest` characters of `command` after
-- its name. `fs` is the file system before.
pub record Launched (fs : Fs) (k : Kernel) (t command n rest j p : ℕ) : Type 0 where
  pub program :
      (i : ℕ)
      → i < size_of fs (inode_of fs j)
      → k.fs.mem (page + i) ≡ fs.mem (file_byte fs (inode_of fs j) i)
  pub arguments : (i : ℕ) → i < rest → k.fs.mem (pcb_at p + 152 + i) ≡ fs.mem (command + n + 1 + i)
  pub ends : k.fs.mem (pcb_at p + 152 + rest) ≡ 0
  pub args_size : (k.pcbs (pcb_at p)).args_size ≡ rest
  pub terminal : k.terminal_num ≡ t
  pub scheduled : IsScheduled k
  pub runs : Runs p k

module _ (scan fuel hi command len n rest j p : ℕ) (loc : Locals) (cpu : Cpu) (k : Kernel)
    (l : IsLaunch scan hi command len n rest j p loc k.fs k.pid_bits)
    (enough : page_size + 4096 ≤ 4096 * fuel) where
  abbrev after_parse : Parsed
  after_parse = parsed k.fs.mem command len n rest loc l.call

  left : Ready k.fs.mem after_parse.mem command len n rest loc
  left = ready k.fs.mem command len n rest loc l.call

  -- `execute_setup` returns 0 and has claimed the number.
  execute_setup_runs :
      (m : Memory) × (execute_setup scan fuel loc command len
          (record k { fs = with_mem k.fs (blanked k.fs.mem len loc) })
        ≡ some (
          0,
          claimed_as p (record k { fs = with_mem k.fs m; size_of_args = after_parse.size_of_args }),
        ))
      × Found after_parse.mem m k.fs.opened_file loc.exe_check (inode_of k.fs j)
  unfolding execute_setup
  execute_setup_runs =
      let (not_end, not_space) = blanked_first k.fs.mem command len n rest loc l.call in
      let (m, opens, found) =
        open_program_runs scan fuel hi command len n rest j p loc k l after_parse.mem left
          (omega (arith, enough)) after_parse.size_of_args in
      let m0 = blanked k.fs.mem len loc in
      (
        m,
        if_false {b = (command == 0) || ((m0 command == 0) || (m0 command == 32))} _ _
              (ground (arith, not_end, not_space, l.command_not_null))
            ∙ if_false {b = not after_parse.ok} _ _
                (ap not (words k.fs.mem command len n rest loc l.call).ok)
            ∙ opens,
        found,
      )

  found_image :
      (m : Memory)
      → Found after_parse.mem m k.fs.opened_file loc.exe_check (inode_of k.fs j)
      → Agree k.fs.filesystem_addr hi k.fs.mem m
  found_image m found x low high =
      found.kept x (omega (arith, low, high, l.layout.opened_image))
        (omega (arith, low, high, l.layout.check_image))
      ∙ same_image scan fuel hi command len n rest j p loc k l after_parse.mem left
          (omega (arith, enough)) x low high

  Found-args :
      (m : Memory)
      → Found after_parse.mem m k.fs.opened_file loc.exe_check (inode_of k.fs j)
      → (i : ℕ) → i < suc rest
      → m (loc.args + i) ≡ after_parse.mem (loc.args + i)
  Found-args m found i h =
      found.kept (loc.args + i) (omega (arith, h, left.fits, l.layout.opened_args))
        (omega (arith, h, left.fits, l.layout.check_args))

  found_string :
      (m : Memory)
      → Found after_parse.mem m k.fs.opened_file loc.exe_check (inode_of k.fs j)
      → IsString m loc.args rest
  found_string m found = record {
    ends = Found-args m found rest (omega arith) ∙ left.args.ends;
    before = λ i h e. left.args.before i h (sym (Found-args m found i (omega (arith, h))) ∙ e);
  }

  -- The kernel in which the program starts, with the memory `m`.
  abbrev ready_kernel : Memory → Kernel
  ready_kernel m =
      claimed_as p (record k { fs = with_mem k.fs m; size_of_args = after_parse.size_of_args })

  execute_chain :
      (m : Memory) × (execute scan fuel loc cpu command k
        ≡ some (start_process cpu (start_word k.fs (inode_of k.fs j)) (ready_kernel m)))
      × ((i : ℕ)
          → i < count_of k.fs (inode_of k.fs j) 0 page_size
          → m (page + i) ≡ k.fs.mem (file_byte k.fs (inode_of k.fs j) i))
      × ((i : ℕ) → i < rest → m (pcb_at p + 152 + i) ≡ k.fs.mem (command + n + 1 + i))
      × (m (pcb_at p + 152 + rest) ≡ 0)
  unfolding execute
  execute_chain =
      let (m, setup, found) = execute_setup_runs in
      let (m', loads, loaded) =
        load_process_runs scan fuel hi command len n rest j p loc k l m left.fits
          (found_string m found) enough cpu (ready_kernel m) found.inode (found_image m found) in
      (
        m',
        >>=-some _ (strlen_lem scan k.fs.mem command len l.call.string l.enough)
            ∙ >>=-some _ setup
            ∙ loads,
        loaded.program,
        λ i h. loaded.arguments i h ∙ Found-args m found i (omega (arith, h)) ∙ left.args_bytes i h,
        loaded.ends,
      )

  -- When the first word of the command names an entry of the directory, and no earlier one, whose file is a program of 28 bytes or more that starts with the
  -- four magic bytes and ends within the user page, so that it has 0x3B8000 bytes or fewer, a process number is free, the buffers, the image, the user page and the new control block are apart as IsLayout says,
  -- the arguments have fewer than 128 characters, and 1025 rounds or more are given, `execute`, called in the kernel stack of the process that runs
  -- or for a terminal without one, does not fail. It enters user mode at the address that the file has at offset 24, with the stack at the end
  -- of the user page; the page holds the whole file from 0x08048000 on, and the control block of the first free process number the arguments with a zero
  -- behind them and their length; and that process runs on the same terminal, with all that the scheduler needs.
  pub execute_runs :
      IsScheduled k
      → IsCaller cpu.esp k
      → (f : Iret) × (k' : Kernel) × (execute scan fuel loc cpu command k ≡ some (entered f, k'))
        × (f.eip ≡ start_word k.fs (inode_of k.fs j))
        × (f.esp ≡ 0x08000000 + 0x00400000 - 4)
        × Launched k.fs k' k.terminal_num command n rest j p
  unfolding start_process execute_cswitch
  execute_runs scheduled caller =
      let (m, runs, program, arguments, ends) = execute_chain in
      let k' = (start_process cpu (start_word k.fs (inode_of k.fs j)) (ready_kernel m)).1 in
      elim (execute_lem scan fuel loc cpu command k _ scheduled caller runs) [
        | inl bad ↦ absurd (cc (bad))
        | inr (f, e, free, first, terminal, good, running) ↦ (
          _,
          k',
          runs,
          refl,
          refl,
          record {
            program = λ i h. program i (ground (arith, h, l.program.in_page));
            arguments = arguments;
            ends = ends;
            args_size =
                ap (λ b. b.args_size) (put_self (pcb_at p) _ k.pcbs)
                ∙ (words k.fs.mem command len n rest loc l.call).size_of_args;
            terminal = refl;
            scheduled = good;
            runs = running;
          },
        )
      ]
