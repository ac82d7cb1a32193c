-- ===== src/Process/Switch.antt =====
-- `halt` goes back to the parent, and `pit_handler` to the process of the next terminal.
use judd_os.Prelude.{
  ℕ, ◌<◌, ◌≡◌, ◌≢◌, refl, bit_or, ◌⊎◌, ◌∙◌, sym, ap, subst, arith, inl, inr, ◌==◌, if_split, ==_iff,
}
use judd_os.Paging.{put, set_process_memory, free_process_memory}
use judd_os.Process.{
  Kernel, Cpu, Pcb, Slot, Outcome, entered, resumed, execute_cswitch, pcb_at, stack_top, halt,
  clear_fds, leave_process, halt_process,
}
use judd_os.Process.Stack.{InStack, get_curr_pcb_lem}
use judd_os.Process.Consistent.{IsUsed, IsScheduled, Runs, IsMapped, set-IsMapped, put_self, put_ne}
use judd_os.Process.Shrink.{shrink-IsConsistent}

-- The scheduler's part of `halt` for a process that has a parent.
halt_child :
    (k : Kernel) (p q : ℕ)
    → IsScheduled k
    → Runs p k
    → IsUsed k.pid_bits q
    → (k.pcbs (pcb_at p)).parent ≡ pcb_at q
    → (k.pcbs (pcb_at p)).esp0 ≡ stack_top q
    → IsScheduled (leave_process (pcb_at p) p k) × Runs q (leave_process (pcb_at p) p k)
unfolding leave_process
halt_child k p q scheduled runs used parent stack =
    let old = k.pcbs (pcb_at p) in
    let pcb = record old { fds = clear_fds 8 0 old.fds } in
    let slot = record (k.terminals k.terminal_num) {
      most_recent_pcb = (k.pcbs (pcb_at p)).parent;
    } in
    let terminals = put k.terminal_num slot k.terminals in
    let here : terminals k.terminal_num ≡ slot = put_self k.terminal_num slot k.terminals in
    let c = scheduled.consistent in
    let other : q ≢ p = (λ e.
      c.leaf k.terminal_num p scheduled.terminal runs.active runs.used
        (parent ∙ ap pcb_at e ∙ sym runs.recent)) in
    let pid : (k.pcbs (k.pcbs (pcb_at p)).parent).pid ≡ q =
      ap (λ a. (k.pcbs a).pid) parent ∙ c.named q used in
    let tables = free_process_memory p k.tables in
    (
      record {
        terminal = scheduled.terminal;
        consistent =
            shrink-IsConsistent k.pid_bits k.pcbs k.terminals c k.terminal_num p q pcb slot
              scheduled.terminal runs.used runs.active runs.recent used parent parent;
        saved = λ t low ne.
            subst
              (λ (s : Slot).
                (r : ℕ)
                → r < 6
                → s.active ≢ 0
                → s.most_recent_pcb ≡ pcb_at r
                → s.esp0 ≡ stack_top r)
              (sym (put_ne k.terminal_num t slot k.terminals ne)) (scheduled.saved t low ne);
      },
      record {
        used = (used.0, put_ne p q 0 k.pid_bits other ∙ used.1);
        active = λ e. runs.active (sym (ap (λ s. s.active) here) ∙ e);
        recent = ap (λ s. s.most_recent_pcb) here ∙ parent;
        mapped =
            subst (λ i. IsMapped q (set_process_memory i tables)) (sym pid)
              (set-IsMapped q tables used.0);
        stack = stack;
      },
    )

-- The start of a process that has no parent, at the entry point and the stack of its control block.
abbrev pub restart : Cpu → Pcb → Outcome
restart cpu pcb =
    entered (record {
      eip = pcb.eip;
      cs = 0x23;
      eflags = bit_or cpu.eflags 0x20;
      esp = pcb.esp;
      ss = 0x2B;
    })

-- What `halt` does with this status when process `p` runs.
abbrev pub HaltResult : ℕ → Cpu → ℕ → Kernel → Outcome × Kernel → Type 0
HaltResult p cpu status k (out, k') =
    let pcb = k.pcbs (pcb_at p) in
    IsScheduled k'
    × (((pcb.parent ≡ 0) × (out ≡ restart cpu pcb) × Runs p k')
        ⊎ ((q : ℕ) × (pcb.parent ≡ pcb_at q)
            × (out ≡ resumed pcb.ebp status)
            × (k'.pid_bits p ≡ 0)
            × Runs q k'))

-- `halt` on the block of the process that runs.
halt_process_lem :
    (cpu : Cpu) (status : ℕ) (k : Kernel) (p : ℕ)
    → IsScheduled k
    → Runs p k
    → HaltResult p cpu status k (halt_process cpu status (pcb_at p) k)
unfolding halt_process leave_process execute_cswitch
halt_process_lem cpu status k p scheduled runs =
    let c = scheduled.consistent in
    let pid = c.named p runs.used in
    if_split (λ (r : Outcome × Kernel). HaltResult p cpu status k r)
      ((k.pcbs (pcb_at p)).parent == 0)
      (λ root. (
        record { terminal = scheduled.terminal; consistent = c; saved = scheduled.saved },
        inl (
          (==_iff (k.pcbs (pcb_at p)).parent 0).0 root,
          refl,
          record {
            used = runs.used;
            active = runs.active;
            recent = runs.recent;
            mapped = runs.mapped;
            stack = ap stack_top pid;
          },
        ),
      ))
      (λ child.
        (let has : (k.pcbs (pcb_at p)).parent ≢ 0 = ground (arith, child) in
          let (q, used, at, stack) = c.parents p runs.used has in
          let (good, goes_on) = halt_child k p q scheduled runs used at stack in
          subst
            (λ i.
              HaltResult p cpu status k
                (resumed (k.pcbs (pcb_at p)).ebp status, leave_process (pcb_at p) i k))
            (sym pid) (good, inr (q, at, refl, put_self p 0 k.pid_bits, goes_on))))

-- `halt` by the process that runs. One without a parent starts anew: user mode is entered at the entry point and the stack of its control block, with
-- its memory and its kernel stack. Otherwise the `execute` that started it returns the status to its parent, from the frame that was saved; its number is free, and the parent
-- runs on this terminal with its own memory and kernel stack.
pub halt_lem :
    (cpu : Cpu) (status : ℕ) (k : Kernel) (p : ℕ)
    → IsScheduled k
    → Runs p k
    → InStack p cpu.esp
    → HaltResult p cpu status k (halt cpu status k)
unfolding halt halt_process
halt_lem cpu status k p scheduled runs within =
    subst (λ current. HaltResult p cpu status k (halt_process cpu status current k))
      (sym (get_curr_pcb_lem p cpu.esp runs.used.0 within).0)
      (halt_process_lem cpu status k p scheduled runs)
