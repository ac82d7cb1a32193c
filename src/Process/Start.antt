-- ===== src/Process/Start.antt =====
-- `execute` starts a process: it runs with its own memory and its own kernel stack.
use judd_os.Prelude.{
  ℕ, ◌+◌, ◌<◌, ◌≡◌, ◌≢◌, ◌⊎◌, ◌∙◌, sym, ap, subst, arith, refl, inl, inr, some, ◌==◌, ltb, ◌+◌,
  if_split, if_true, if_false, false, ==_iff, >>=-eq-some, some_injective, ◌-◌,
}
use judd_os.Prelude.Word.{fail}
use judd_os.Block.{memset}
use judd_os.CString.{strlen, strcpy}
use judd_os.Paging.{put}
use judd_os.FileSystem.{Fs, read_data}
use judd_os.Process.{
  Kernel, Locals, Cpu, Pcb, Slot, Outcome, returned, entered, Iret, pcb_at, stack_top, fill_pcb,
  adopt, execute_cswitch, start_process, load_process, execute, execute_setup, opened_inode,
}
use judd_os.Process.Stack.{InStack, get_curr_pcb_lem}
use judd_os.Process.Consistent.{
  IsUsed, IsConsistent, IsScheduled, Runs, HasSaved, IsMapped, set-IsMapped, put_self, put_ne,
}
use judd_os.Process.Grow.{grow-IsConsistent}
use judd_os.Process.Setup.{Claimed, SetupResult, SetupResult-fs, execute_setup_lem}

-- Where `execute` is called from: in the kernel stack of the process that runs, or for a terminal without a process.
abbrev pub IsCaller : ℕ → Kernel → Type 0
IsCaller esp k = (k.terminals k.terminal_num).active ≢ 0 → (q : ℕ) × Runs q k × InStack q esp

one_nonzero : ◌≢◌ {A = ℕ} 1 0
one_nonzero e = omega (arith, e)

-- The parent of the new process is the running one.
adopt_lem :
    (k0 : Kernel) (esp : ℕ) (k : Kernel) (pcb : Pcb)
    → Claimed k0 k
    → IsCaller esp k0
    → (adopt esp k pcb).parent ≢ 0
    → (q : ℕ) × IsUsed k0.pid_bits q
      × ((adopt esp k pcb).parent ≡ pcb_at q)
      × (k.tss_esp0 ≡ stack_top q)
      × ((k.terminals k.terminal_num).active ≢ 0)
      × ((k.terminals k.terminal_num).most_recent_pcb ≡ pcb_at q)
unfolding adopt
adopt_lem k0 esp k pcb claimed caller =
    let slot : k.terminals k.terminal_num ≡ k0.terminals k0.terminal_num =
      ap k.terminals claimed.terminal_num ∙ ap (λ f. f k0.terminal_num) claimed.terminals in
    if_split
      (λ (b : Pcb).
        b.parent ≢ 0
        → (q : ℕ) × IsUsed k0.pid_bits q
          × (b.parent ≡ pcb_at q)
          × (k.tss_esp0 ≡ stack_top q)
          × ((k.terminals k.terminal_num).active ≢ 0)
          × ((k.terminals k.terminal_num).most_recent_pcb ≡ pcb_at q))
      ((k.terminals k.terminal_num).active == 0) (λ off has. absurd (has refl))
      (λ off has.
        (let on : (k.terminals k.terminal_num).active ≢ 0 = ground (arith, off) in
          let (q, runs, within) = caller (λ z. on (ap (λ s. s.active) slot ∙ z)) in
          (
            q,
            runs.used,
            (get_curr_pcb_lem q esp runs.used.0 within).0,
            claimed.tss_esp0 ∙ runs.stack,
            on,
            ap (λ s. s.most_recent_pcb) slot ∙ runs.recent,
          )))

adopt_pid : (esp : ℕ) (k : Kernel) (pcb : Pcb) → (adopt esp k pcb).pid ≡ pcb.pid
unfolding adopt
adopt_pid esp k pcb =
    if_split (λ (b : Pcb). b.pid ≡ pcb.pid) ((k.terminals k.terminal_num).active == 0) (λ e. refl)
      (λ e. refl)

pub start_process_lem :
    (k0 : Kernel) (cpu : Cpu) (eip : ℕ) (k : Kernel)
    → IsScheduled k0
    → Claimed k0 k
    → IsCaller cpu.esp k0
    → IsScheduled (start_process cpu eip k).1 × Runs k.available_pid (start_process cpu eip k).1
unfolding start_process fill_pcb
start_process_lem k0 cpu eip k scheduled claimed caller =
    let pid = k.available_pid in
    let low : k.terminal_num < 3 =
      subst (λ t. t < 3) (sym claimed.terminal_num) scheduled.terminal in
    let before : IsConsistent k0.pid_bits k.pcbs k.terminals =
      subst (λ b. IsConsistent k0.pid_bits b k.terminals) (sym claimed.pcbs)
        (subst (IsConsistent k0.pid_bits k0.pcbs) (sym claimed.terminals) scheduled.consistent) in
    let filled = fill_pcb cpu.esp pid (k.pcbs (pcb_at pid)) in
    let pcb = record (adopt cpu.esp k filled) {
      args_size = k.size_of_args;
      ebp = cpu.ebp;
      esp0 = k.tss_esp0;
      esp = 0x08000000 + 0x00400000 - 4;
      eip = eip;
    } in
    let slot = record (k.terminals k.terminal_num) { active = 1; most_recent_pcb = pcb_at pid } in
    let terminals = put k.terminal_num slot k.terminals in
    let here : terminals k.terminal_num ≡ slot = put_self k.terminal_num slot k.terminals in
    let bits : k.pid_bits ≡ put pid 1 k0.pid_bits = claimed.pid_bits in
    let grown : IsConsistent k.pid_bits (put (pcb_at pid) pcb k.pcbs) terminals =
      subst (λ b. IsConsistent b (put (pcb_at pid) pcb k.pcbs) terminals) (sym bits)
        (grow-IsConsistent k0.pid_bits k.pcbs k.terminals before k.terminal_num pid pcb slot low
          claimed.small claimed.free (adopt_pid cpu.esp k filled) (λ e. omega (arith, e)) refl
          (adopt_lem k0 cpu.esp k filled claimed caller)) in
    let kept : (t : ℕ) → t < 3 → t ≢ k.terminal_num → HasSaved terminals t = (λ t t_low ne.
      subst
        (λ (s : Slot).
          (p : ℕ) → p < 6 → s.active ≢ 0 → s.most_recent_pcb ≡ pcb_at p → s.esp0 ≡ stack_top p)
        (sym (put_ne k.terminal_num t slot k.terminals ne ∙ ap (λ f. f t) claimed.terminals))
        (scheduled.saved t t_low (λ e. ne (e ∙ sym claimed.terminal_num)))) in
    (
      record { terminal = low; consistent = grown; saved = kept },
      record {
        used = (claimed.small, ap (λ f. f pid) bits ∙ put_self pid 1 k0.pid_bits);
        active = λ e. one_nonzero (sym (ap (λ s. s.active) here) ∙ e);
        recent = ap (λ s. s.most_recent_pcb) here;
        mapped =
            subst (IsMapped pid) (sym claimed.tables) (set-IsMapped pid k0.tables claimed.small);
        stack = refl;
      },
    )

-- What `execute` leaves: it returns -1, or the smallest free process number runs.
abbrev pub ExecuteResult : Kernel → Outcome × Kernel → Type 0
ExecuteResult k (o, k') =
    (o ≡ returned fail)
    ⊎ ((f : Iret) × (o ≡ entered f)
        × (k.pid_bits k'.available_pid ≢ 1)
        × ((j : ℕ) → j < k'.available_pid → k.pid_bits j ≡ 1)
        × (k'.terminal_num ≡ k.terminal_num)
        × IsScheduled k'
        × Runs k'.available_pid k')

-- A change of the file system before does not matter.
Claimed-fs : (k0 k : Kernel) (fs : Fs) → Claimed k0 k → Claimed k0 (record k { fs = fs })
Claimed-fs k0 k fs c = record {
  small = c.small;
  free = c.free;
  first = c.first;
  pid_bits = c.pid_bits;
  tables = c.tables;
  pcbs = c.pcbs;
  terminals = c.terminals;
  terminal_num = c.terminal_num;
  tss_esp0 = c.tss_esp0;
}

started :
    (k0 : Kernel) (cpu : Cpu) (eip : ℕ) (k : Kernel)
    → IsScheduled k0
    → Claimed k0 k
    → IsCaller cpu.esp k0
    → ExecuteResult k0 (start_process cpu eip k)
unfolding start_process execute_cswitch
started k0 cpu eip k scheduled claimed caller =
    let (good, runs) = start_process_lem k0 cpu eip k scheduled claimed caller in
    inr (_, refl, claimed.free, claimed.first, claimed.terminal_num, good, runs)

load_process_lem :
    (scan fuel : ℕ) (loc : Locals) (cpu : Cpu) (k0 : Kernel) (setup : ℕ × Kernel)
    (r : Outcome × Kernel)
    → SetupResult k0 setup
    → IsScheduled k0
    → IsCaller cpu.esp k0
    → load_process scan fuel loc cpu setup ≡ some r
    → ExecuteResult k0 r
unfolding load_process
load_process_lem scan fuel loc cpu k0 (ret, k) r (inl (bad, s)) scheduled caller e =
    subst (ExecuteResult k0) (some_injective (sym (if_true _ _ ((==_iff ret fail).1 bad)) ∙ e))
      (inl refl)
load_process_lem scan fuel loc cpu k0 (ret, k) r (inr (good, claimed)) scheduled caller e =
    let nonzero : (ret == fail) ≡ false = ground (arith, good) in
    let ((read, fs), e1, f1) =
      >>=-eq-some (read_data fuel k.fs (opened_inode k.fs) 0 0x08048000 0x00400000) _
        (sym (if_false _ _ nonzero) ∙ e) in
    if_split (λ o. o ≡ some r → ExecuteResult k0 r) (read == fail)
      (λ bad f. subst (ExecuteResult k0) (some_injective f) (inl refl))
      (λ fine f.
        if_split (λ o. o ≡ some r → ExecuteResult k0 r) (ltb 0x08400000 (0x08048000 + read))
          (λ beyond g. absurd (cc (g)))
          (λ within g.
            (let (m, e2, f2) =
                >>=-eq-some (strcpy scan fs.mem (pcb_at k.available_pid + 152) loc.args) _ g in
              let fs1 = record fs { mem = m } in
              let ((four, fs2), e3, f3) =
                >>=-eq-some
                  (read_data fuel fs1 (opened_inode fs1) 24 (pcb_at k.available_pid + 16) 4) _ f2 in
              subst (ExecuteResult k0) (some_injective f3) (
                started k0 cpu _ (record k { fs = fs2 }) scheduled (Claimed-fs k0 k fs2 claimed)
                  caller)))
          f)
      f1

-- When `execute` ends, called in the kernel stack of the process that runs or for a terminal without one, either
-- it returns -1, or it enters user mode: the smallest process number not in use is given to the new process, which runs on
-- the same terminal with its own 4 MB mapped and its own kernel stack in the task state, and the blocks and terminals
-- are as the scheduler needs.
pub execute_lem :
    (scan fuel : ℕ) (loc : Locals) (cpu : Cpu) (command : ℕ) (k : Kernel) (r : Outcome × Kernel)
    → IsScheduled k
    → IsCaller cpu.esp k
    → execute scan fuel loc cpu command k ≡ some r
    → ExecuteResult k r
unfolding execute
execute_lem scan fuel loc cpu command k r scheduled caller e =
    let (len, e1, f1) = >>=-eq-some (strlen scan k.fs.mem command) _ e in
    let m = memset (memset k.fs.mem loc.fname 0 (len + 1)) loc.args 0 (len + 1) in
    let fs = record k.fs { mem = m } in
    let k1 = record k { fs = fs } in
    let (setup, e2, f2) = >>=-eq-some (execute_setup scan fuel loc command len k1) _ f1 in
    load_process_lem scan fuel loc cpu k setup r
      (SetupResult-fs k fs k.size_of_args setup
        (execute_setup_lem scan fuel loc command len k1 setup e2))
      scheduled caller f2
