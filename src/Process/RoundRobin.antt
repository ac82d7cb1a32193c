-- ===== src/Process/RoundRobin.antt =====
-- With a process on every terminal, three timer interrupts lead back to the one that was interrupted.
use judd_os.Prelude.{
  ℕ, ◌+◌, ◌%◌, ◌<◌, ◌≡◌, ◌≢◌, ◌∙◌, sym, ap, subst, arith, refl, inl, inr, false, some, ◌==◌,
  if_false, >>=-some, bit_or, [], ◌∷◌, ◌++◌,
}
use judd_os.Prelude.Word.{outb}
use judd_os.Pic.{send_eoi}
use judd_os.Pic.Eoi.{send_eoi_master}
use judd_os.Process.{
  Kernel, Locals, Cpu, switched, next_terminal, resume_terminal, pit_end, pit_handler,
}
use judd_os.Process.Stack.{pcb_at_injective}
use judd_os.Process.Consistent.{IsScheduled, Runs, put_self, put_ne, eq_or_ne}
use judd_os.Process.Tick.{pit_handler_lem}

abbrev next_num : Kernel → ℕ
next_num k = (k.terminal_num + 1) % 3

nonzero_test : (n : ℕ) → n ≢ 0 → (n == 0) ≡ false
nonzero_test n h = ground (arith, h)

-- One interrupt: the end, and the state.
record Ticks (scan fuel : ℕ) (loc : Locals) (shell : ℕ) (cpu inner : Cpu) (k k' : Kernel)
    : Type 0 where
  runs :
      pit_handler scan fuel loc shell cpu inner k
      ≡ some (switched (k.terminals (next_num k)).ebp, k')
  num : k'.terminal_num ≡ next_num k
  active : (t : ℕ) → (k'.terminals t).active ≡ (k.terminals t).active
  recent : (t : ℕ) → (k'.terminals t).most_recent_pcb ≡ (k.terminals t).most_recent_pcb
  other_ebp : (t : ℕ) → t ≢ k.terminal_num → (k'.terminals t).ebp ≡ (k.terminals t).ebp
  saved_ebp : (k'.terminals k.terminal_num).ebp ≡ cpu.ebp
  scheduled : IsScheduled k'
  next : (q : ℕ) × Runs q k'

-- A running process and a process on the next terminal are enough.
tick_total :
    (scan fuel : ℕ) (loc : Locals) (shell : ℕ) (cpu inner : Cpu) (k : Kernel) (p : ℕ)
    → IsScheduled k
    → Runs p k
    → (k.terminals (next_num k)).active ≢ 0
    → (k' : Kernel) × Ticks scan fuel loc shell cpu inner k k'
unfolding pit_handler pit_end next_terminal resume_terminal
tick_total scan fuel loc shell cpu inner k p scheduled runs on =
    let pic = record k.pic { writes = k.pic.writes ++ (outb (bit_or 0x60 0) 0x20 ∷ []) } in
    let sent : send_eoi 0 k.pic ≡ some pic = send_eoi_master 0 k.pic (omega arith) in
    let k1 = next_terminal cpu (record k { pic = pic }) in
    let slot = record (k.terminals k.terminal_num) { ebp = cpu.ebp; esp0 = k.tss_esp0 } in
    let num = k.terminal_num in
    let here : k1.terminals num ≡ slot = put_self num slot k.terminals in
    let there : (t : ℕ) → t ≢ num → k1.terminals t ≡ k.terminals t =
      (λ t ne. put_ne num t slot k.terminals ne) in
    let other : next_num k ≢ num = ground (arith, scheduled.terminal) in
    let go : ((k1.terminals (next_num k)).active == 0) ≡ false =
      nonzero_test (k1.terminals (next_num k)).active
        (λ z. on (sym (ap (λ s. s.active) (there (next_num k) other)) ∙ z)) in
    let ends : pit_handler scan fuel loc shell cpu inner k ≡ some (resume_terminal k1) =
      >>=-some _ sent ∙ if_false _ _ go in
    let result =
      pit_handler_lem scan fuel loc shell cpu inner k p (resume_terminal k1) scheduled runs ends in
    (
      (resume_terminal k1).1,
      record {
        runs =
            ends
            ∙ ap (λ b. some (switched b, (resume_terminal k1).1))
                (ap (λ s. s.ebp) (there (next_num k) other));
        num = refl;
        active = λ t. (elim (eq_or_ne t num) [
          | inl e ↦
              ap (λ i. (k1.terminals i).active) e
              ∙ ap (λ s. s.active) here
              ∙ sym (ap (λ i. (k.terminals i).active) e)
          | inr ne ↦ ap (λ s. s.active) (there t ne)
        ]);
        recent = λ t. (elim (eq_or_ne t num) [
          | inl e ↦
              ap (λ i. (k1.terminals i).most_recent_pcb) e
              ∙ ap (λ s. s.most_recent_pcb) here
              ∙ sym (ap (λ i. (k.terminals i).most_recent_pcb) e)
          | inr ne ↦ ap (λ s. s.most_recent_pcb) (there t ne)
        ]);
        other_ebp = λ t ne. ap (λ s. s.ebp) (there t ne);
        saved_ebp = ap (λ s. s.ebp) here;
        scheduled = (elim result [
          | inl (off, stuck) ↦ absurd (on off)
          | inr (good, num, (q, goes, old)) ↦ good
        ]);
        next = (elim result [
          | inl (off, stuck) ↦ absurd (on off)
          | inr (good, num, (q, goes, old)) ↦ (q, goes)
        ]);
      },
    )

-- The process that a terminal shows is one.
same_process :
    (p q : ℕ) (k k' : Kernel)
    → Runs p k
    → Runs q k'
    → k'.terminal_num ≡ k.terminal_num
    → (k'.terminals k.terminal_num).most_recent_pcb ≡ (k.terminals k.terminal_num).most_recent_pcb
    → q ≡ p
same_process p q k k' runs runs' num recent =
    pcb_at_injective q p runs'.used.0 runs.used.0
      (sym runs'.recent ∙ ap (λ t. (k'.terminals t).most_recent_pcb) num ∙ recent ∙ runs.recent)

module _ (scan fuel : ℕ) (loc : Locals) (shell : ℕ) (cpu cpu2 cpu3 inner : Cpu)
    (k k1 k2 k3 : Kernel) (low : k.terminal_num < 3) (t1 : Ticks scan fuel loc shell cpu inner k k1)
    (t2 : Ticks scan fuel loc shell cpu2 inner k1 k2)
    (t3 : Ticks scan fuel loc shell cpu3 inner k2 k3) where
  second_num : next_num k1 ≡ (k.terminal_num + 2) % 3
  second_num = omega (arith, t1.num)

  third_num : next_num k2 ≡ k.terminal_num
  third_num = omega (arith, t2.num, second_num, low)

  second_ebp : (k1.terminals (next_num k1)).ebp ≡ (k.terminals ((k.terminal_num + 2) % 3)).ebp
  second_ebp =
      ap (λ t. (k1.terminals t).ebp) second_num
      ∙ t1.other_ebp ((k.terminal_num + 2) % 3) (omega (arith, low))

  third_ebp : (k2.terminals (next_num k2)).ebp ≡ cpu.ebp
  third_ebp =
      ap (λ t. (k2.terminals t).ebp) third_num
      ∙ t2.other_ebp k.terminal_num (omega (arith, low, t1.num))
      ∙ t1.saved_ebp

  back_recent :
      (k3.terminals k.terminal_num).most_recent_pcb ≡ (k.terminals k.terminal_num).most_recent_pcb
  back_recent = t3.recent k.terminal_num ∙ t2.recent k.terminal_num ∙ t1.recent k.terminal_num

-- When process `p` runs and every terminal has a process, `pit_handler` switches to the next terminal, then to the one
-- after it, and the third time to the first again, at the frame where it was interrupted; there process `p` runs, with its
-- own memory and its own kernel stack.
pub round_robin :
    (scan fuel : ℕ) (loc : Locals) (shell : ℕ) (cpu cpu2 cpu3 inner : Cpu) (k : Kernel) (p : ℕ)
    → IsScheduled k
    → Runs p k
    → ((t : ℕ) → t < 3 → (k.terminals t).active ≢ 0)
    → (k1 : Kernel) × (k2 : Kernel) × (k3 : Kernel) × (pit_handler scan fuel loc shell cpu inner k
        ≡ some (switched (k.terminals ((k.terminal_num + 1) % 3)).ebp, k1))
      × (pit_handler scan fuel loc shell cpu2 inner k1
          ≡ some (switched (k.terminals ((k.terminal_num + 2) % 3)).ebp, k2))
      × (pit_handler scan fuel loc shell cpu3 inner k2 ≡ some (switched cpu.ebp, k3))
      × (k3.terminal_num ≡ k.terminal_num)
      × Runs p k3
round_robin scan fuel loc shell cpu cpu2 cpu3 inner k p scheduled runs all =
    let (k1, t1) =
      tick_total scan fuel loc shell cpu inner k p scheduled runs
        (all (next_num k) (omega arith)) in
    let (p1, r1) = t1.next in
    let (k2, t2) =
      tick_total scan fuel loc shell cpu2 inner k1 p1 t1.scheduled r1
        (λ z. all (next_num k1) (omega arith) (sym (t1.active (next_num k1)) ∙ z)) in
    let (p2, r2) = t2.next in
    let (k3, t3) = tick_total scan fuel loc shell cpu3 inner k2 p2 t2.scheduled r2 (λ z.
      all (next_num k2) (omega arith)
        (sym (t1.active (next_num k2)) ∙ sym (t2.active (next_num k2)) ∙ z)) in
    let (p3, r3) = t3.next in
    let low = scheduled.terminal in
    let back : k3.terminal_num ≡ k.terminal_num =
      t3.num ∙ third_num scan fuel loc shell cpu cpu2 cpu3 inner k k1 k2 k3 low t1 t2 t3 in
    let same : p3 ≡ p =
      same_process p p3 k k3 runs r3 back
        (back_recent scan fuel loc shell cpu cpu2 cpu3 inner k k1 k2 k3 low t1 t2 t3) in
    (
      k1,
      k2,
      k3,
      t1.runs,
      t2.runs
          ∙ ap (λ b. some (switched b, k2))
              (second_ebp scan fuel loc shell cpu cpu2 cpu3 inner k k1 k2 k3 low t1 t2 t3),
      t3.runs
          ∙ ap (λ b. some (switched b, k3))
              (third_ebp scan fuel loc shell cpu cpu2 cpu3 inner k k1 k2 k3 low t1 t2 t3),
      back,
      subst (λ i. Runs i k3) same r3,
    )
