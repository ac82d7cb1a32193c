-- ===== src/Process/Tick.antt =====
-- `pit_handler` passes the processor to the process of the next terminal.
use judd_os.Prelude.{
  ℕ, ◌+◌, ◌%◌, ◌<◌, ◌≡◌, ◌≢◌, ◌⊎◌, ◌∙◌, sym, ap, subst, arith, refl, inl, inr, some, ◌==◌, if_split,
  ==_iff, >>=-eq-some, some_injective,
}
use judd_os.Pic.{Pic, send_eoi}
use judd_os.Paging.{put, set_process_memory}
use judd_os.Process.{
  Kernel, Locals, Cpu, Slot, Outcome, returned, entered, switched, resumed, pcb_at, stack_top,
  next_terminal, resume_terminal, after_shell, pit_end, pit_handler, execute,
}
use judd_os.Process.Stack.{pcb_at_injective}
use judd_os.Process.Consistent.{
  IsConsistent, IsScheduled, Runs, HasSaved, IsMapped, set-IsMapped, put_self, put_ne, eq_or_ne,
}
use judd_os.Process.Start.{execute_lem, ExecuteResult}

-- The blocks and terminals agree when the fields that the chains use do.
saved-IsConsistent :
    (k : Kernel) (slot : Slot)
    → IsConsistent k.pid_bits k.pcbs k.terminals
    → slot.active ≡ (k.terminals k.terminal_num).active
    → slot.most_recent_pcb ≡ (k.terminals k.terminal_num).most_recent_pcb
    → IsConsistent k.pid_bits k.pcbs (put k.terminal_num slot k.terminals)
saved-IsConsistent k slot c same_active same_recent =
    let terminals = put k.terminal_num slot k.terminals in
    let here = put_self k.terminal_num slot k.terminals in
    let active : (t : ℕ) → (terminals t).active ≡ (k.terminals t).active = (λ t.
      (elim (eq_or_ne t k.terminal_num) [
        | inl e ↦
            ap (λ i. (terminals i).active) e
            ∙ ap (λ s. s.active) here
            ∙ same_active
            ∙ sym (ap (λ i. (k.terminals i).active) e)
        | inr ne ↦ ap (λ s. s.active) (put_ne k.terminal_num t slot k.terminals ne)
      ])) in
    let recent : (t : ℕ) → (terminals t).most_recent_pcb ≡ (k.terminals t).most_recent_pcb = (λ t.
      (elim (eq_or_ne t k.terminal_num) [
        | inl e ↦
            ap (λ i. (terminals i).most_recent_pcb) e
            ∙ ap (λ s. s.most_recent_pcb) here
            ∙ same_recent
            ∙ sym (ap (λ i. (k.terminals i).most_recent_pcb) e)
        | inr ne ↦ ap (λ s. s.most_recent_pcb) (put_ne k.terminal_num t slot k.terminals ne)
      ])) in
    record {
      named = c.named;
      parents = c.parents;
      apart = c.apart;
      shown = λ t low on.
          (let (p, u, at) = c.shown t low (λ z. on (active t ∙ z)) in (p, u, recent t ∙ at));
      leaf = λ t q low on u e. c.leaf t q low (λ z. on (active t ∙ z)) u (e ∙ recent t);
      distinct = λ t u tl ul ont onu e.
          c.distinct t u tl ul (λ z. ont (active t ∙ z)) (λ z. onu (active u ∙ z))
            (sym (recent t) ∙ e ∙ recent u);
    }

-- With the stack of the running process saved, every terminal has saved its stack.
pub next_terminal_lem :
    (cpu : Cpu) (k : Kernel) (p : ℕ)
    → IsScheduled k
    → Runs p k
    → IsScheduled (next_terminal cpu k)
      × ((t : ℕ) → t < 3 → HasSaved (next_terminal cpu k).terminals t)
unfolding next_terminal
next_terminal_lem cpu k p scheduled runs =
    let slot = record (k.terminals k.terminal_num) { ebp = cpu.ebp; esp0 = k.tss_esp0 } in
    let terminals = put k.terminal_num slot k.terminals in
    let here : terminals k.terminal_num ≡ slot = put_self k.terminal_num slot k.terminals in
    let all : (t : ℕ) → t < 3 → HasSaved terminals t = (λ t low. (elim (eq_or_ne t k.terminal_num) [
      | inl e ↦ λ r r_low on at.
          (let at_slot : terminals t ≡ slot = ap terminals e ∙ here in
            let same : r ≡ p =
              pcb_at_injective r p r_low runs.used.0
                (sym at ∙ ap (λ s. s.most_recent_pcb) at_slot ∙ runs.recent) in
            ap (λ s. s.esp0) at_slot ∙ runs.stack ∙ ap stack_top (sym same))
      | inr ne ↦
          subst
            (λ (s : Slot).
              (r : ℕ) → r < 6 → s.active ≢ 0 → s.most_recent_pcb ≡ pcb_at r → s.esp0 ≡ stack_top r)
            (sym (put_ne k.terminal_num t slot k.terminals ne)) (scheduled.saved t low ne)
    ])) in
    (
      record {
        terminal = ground arith;
        consistent = saved-IsConsistent k slot scheduled.consistent refl refl;
        saved = λ t low ne. all t low;
      },
      all,
    )

-- The process of the terminal goes on.
resume_terminal_lem :
    (k : Kernel)
    → IsScheduled k
    → HasSaved k.terminals k.terminal_num
    → (k.terminals k.terminal_num).active ≢ 0
    → IsScheduled (resume_terminal k).1
      × ((q : ℕ) × ((k.terminals k.terminal_num).most_recent_pcb ≡ pcb_at q)
          × Runs q (resume_terminal k).1)
unfolding resume_terminal
resume_terminal_lem k scheduled saved on =
    let c = scheduled.consistent in
    let (q, used, at) = c.shown k.terminal_num scheduled.terminal on in
    let pid : (k.pcbs (k.terminals k.terminal_num).most_recent_pcb).pid ≡ q =
      ap (λ a. (k.pcbs a).pid) at ∙ c.named q used in
    (
      record { terminal = scheduled.terminal; consistent = c; saved = scheduled.saved },
      (
        q,
        at,
        record {
          used = used;
          active = on;
          recent = at;
          mapped =
              subst (λ i. IsMapped q (set_process_memory i k.tables)) (sym pid)
                (set-IsMapped q k.tables used.0);
          stack = saved q used.0 on at;
        },
      ),
    )

-- What `pit_handler` leaves: the call of `execute` for a terminal without a process returned -1, or the next terminal runs.
-- The process that runs there is the one of that terminal, or the new one.
abbrev pub TickResult : Kernel → Outcome × Kernel → Type 0
TickResult k (o, k') =
    (((k.terminals ((k.terminal_num + 1) % 3)).active ≡ 0) × ((j : ℕ) × (o ≡ switched j)))
    ⊎ (IsScheduled k'
        × (k'.terminal_num ≡ (k.terminal_num + 1) % 3)
        × ((q : ℕ) × Runs q k'
            × (((k.terminals ((k.terminal_num + 1) % 3)).active ≢ 0)
                → (k.terminals ((k.terminal_num + 1) % 3)).most_recent_pcb ≡ pcb_at q)))

after_shell_lem :
    (k k1 : Kernel) (r : Outcome × Kernel)
    → k1.terminal_num ≡ (k.terminal_num + 1) % 3
    → (k.terminals ((k.terminal_num + 1) % 3)).active ≡ 0
    → ExecuteResult k1 r
    → TickResult k (after_shell r)
unfolding after_shell resume_terminal
after_shell_lem k k1 (returned v, k') num off (inl bad) = inl (off, (_, refl))
after_shell_lem k k1 (entered g, k') num off (inl bad) = inl (off, absurd (cc (bad)))
after_shell_lem k k1 (resumed b a, k') num off (inl bad) = inl (off, absurd (cc (bad)))
after_shell_lem k k1 (switched b, k') num off (inl bad) = inl (off, (b, refl))
after_shell_lem k k1 (o, k') num off (inr (f, e, free, first, same, good, runs)) =
    subst (λ o. TickResult k (after_shell (o, k'))) (sym e)
      (inr (good, same ∙ num, (k'.available_pid, runs, λ on. absurd (on off))))

pub tick_lem :
    (scan fuel : ℕ) (loc : Locals) (shell : ℕ) (cpu inner : Cpu) (k : Kernel) (pic : Pic) (p : ℕ)
    (r : Outcome × Kernel)
    → IsScheduled k
    → Runs p k
    → pit_end scan fuel loc shell inner (next_terminal cpu (record k { pic = pic })) ≡ some r
    → TickResult k r
unfolding pit_end next_terminal resume_terminal
tick_lem scan fuel loc shell cpu inner k pic p r scheduled runs e =
    let k0 = record k { pic = pic } in
    let k1 = next_terminal cpu k0 in
    let scheduled0 : IsScheduled k0 = record {
      terminal = scheduled.terminal;
      consistent = scheduled.consistent;
      saved = scheduled.saved;
    } in
    let runs0 : Runs p k0 = record {
      used = runs.used;
      active = runs.active;
      recent = runs.recent;
      mapped = runs.mapped;
      stack = runs.stack;
    } in
    let (scheduled1, saved) = next_terminal_lem cpu k0 p scheduled0 runs0 in
    let next = (k.terminal_num + 1) % 3 in
    let other : next ≢ k.terminal_num = ground (arith, scheduled.terminal) in
    let slot = record (k.terminals k.terminal_num) { ebp = cpu.ebp; esp0 = k.tss_esp0 } in
    let same : k1.terminals next ≡ k.terminals next =
      put_ne k.terminal_num next slot k.terminals other in
    if_split (λ o. o ≡ some r → TickResult k r) ((k1.terminals next).active == 0)
      (λ off f.
        (let off1 : (k1.terminals next).active ≡ 0 = (==_iff (k1.terminals next).active 0).0 off in
          let (result, e2, f2) = >>=-eq-some (execute scan fuel loc inner shell k1) _ f in
          subst (TickResult k) (some_injective f2) (
            after_shell_lem k k1 result refl (sym (ap (λ s. s.active) same) ∙ off1) (
              execute_lem scan fuel loc inner shell k1 result scheduled1 (λ on. absurd (on off1))
                e2))))
      (λ on f.
        (let on1 : (k1.terminals next).active ≢ 0 = ground (arith, on) in
          let (good, (q, at, goes)) =
            resume_terminal_lem k1 scheduled1 (saved next scheduled1.terminal) on1 in
          subst (TickResult k) (some_injective f)
            (inr (good, refl, (q, goes, λ on. sym (ap (λ s. s.most_recent_pcb) same) ∙ at)))))
      e

-- When `pit_handler` ends, called while process `p` runs: either the next terminal has no process and the start of its
-- shell failed, or the next terminal runs, with the process that it ran before, if any, whose 4 MB are mapped and
-- whose kernel stack is in the task state, and all that the scheduler needs holds again.
pub pit_handler_lem :
    (scan fuel : ℕ) (loc : Locals) (shell : ℕ) (cpu inner : Cpu) (k : Kernel) (p : ℕ)
    (r : Outcome × Kernel)
    → IsScheduled k
    → Runs p k
    → pit_handler scan fuel loc shell cpu inner k ≡ some r
    → TickResult k r
unfolding pit_handler
pit_handler_lem scan fuel loc shell cpu inner k p r scheduled runs e =
    let (pic, e1, f1) = >>=-eq-some (send_eoi 0 k.pic) _ e in
    tick_lem scan fuel loc shell cpu inner k pic p r scheduled runs f1
