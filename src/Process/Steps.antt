-- ===== src/Process/Steps.antt =====
-- The kernel as a relation: system calls and timer interrupts in any order, from the start of the first shell on.
use judd_os.Prelude.{ℕ, ◌<◌, ◌+◌, ◌%◌, ◌≡◌, ◌≢◌, ◌∙◌, sym, subst, arith, inl, inr, some}
use judd_os.Prelude.Word.{fail}
use judd_os.Process.{
  Kernel, Locals, Cpu, Outcome, entered, switched, Iret, execute, execute_setup, halt, pit_handler,
}
use judd_os.Process.Stack.{InStack}
use judd_os.Process.Consistent.{IsUsed, IsScheduled, Runs}
use judd_os.Process.Setup.{execute_setup_lem, SetupResult, SetupResult-fs}
use judd_os.Block.{memset}
use judd_os.Process.Start.{execute_lem, ExecuteResult}
use judd_os.Process.Switch.{halt_lem}
use judd_os.Process.Tick.{pit_handler_lem}

-- The kernel in `execute` after its two calls of `memset`.
abbrev pub cleared : Locals → ℕ → Kernel → Kernel
cleared loc len k = record k {
  fs = record k.fs { mem = memset (memset k.fs.mem loc.fname 0 (len + 1)) loc.args 0 (len + 1) };
}

-- One step of a running kernel. A failing `execute` is here by its `execute_setup`, which fails for a bad command, a
-- file that is no program, and with six processes.
pub data Step (k k' : Kernel) : Type 0 where
  executes :
      (scan fuel : ℕ) (loc : Locals) (cpu : Cpu) (command p : ℕ) (f : Iret)
      → Runs p k
      → InStack p cpu.esp
      → execute scan fuel loc cpu command k ≡ some (entered f, k')
      → Step k k'
  refuses :
      (scan fuel : ℕ) (loc : Locals) (command len : ℕ)
      → execute_setup scan fuel loc command len (cleared loc len k) ≡ some (fail, k')
      → Step k k'
  halts :
      (cpu : Cpu) (status p : ℕ)
      → Runs p k
      → InStack p cpu.esp
      → (halt cpu status k).1 ≡ k'
      → Step k k'
  ticks :
      (scan fuel : ℕ) (loc : Locals) (shell : ℕ) (cpu inner : Cpu) (o : Outcome)
      → ((j : ℕ) → o ≡ switched j → (k.terminals ((k.terminal_num + 1) % 3)).active ≢ 0)
      → pit_handler scan fuel loc shell cpu inner k ≡ some (o, k')
      → Step k k'

-- Before the first shell: no process, no active terminal.
pub record IsBooted (k : Kernel) : Type 0 where
  pub terminal : k.terminal_num < 3
  pub unused : (p : ℕ) → p < 6 → k.pid_bits p ≡ 0
  pub inactive : (t : ℕ) → t < 3 → (k.terminals t).active ≡ 0

-- What can be reached: the first shell is started, then steps follow.
pub data Reached : Kernel → Type 0 where
  first :
      (k0 k : Kernel) (scan fuel : ℕ) (loc : Locals) (cpu : Cpu) (command : ℕ) (f : Iret)
      → IsBooted k0
      → execute scan fuel loc cpu command k0 ≡ some (entered f, k)
      → Reached k
  after : (k0 k : Kernel) → Reached k0 → Step k0 k → Reached k

-- The process that runs has its memory and its stack, and the rest is as the scheduler needs.
pub IsIsolated : Kernel → Type 0
IsIsolated k = IsScheduled k × ((p : ℕ) × Runs p k)

pub booted-IsScheduled : (k : Kernel) → IsBooted k → IsScheduled k
booted-IsScheduled k b =
    let never : (p : ℕ) → IsUsed k.pid_bits p → ◌≡◌ {A = ℕ} 0 1 =
      (λ p u. sym (b.unused p u.0) ∙ u.1) in
    record {
      terminal = b.terminal;
      consistent = record {
        named = λ p u. absurd (omega (arith, never p u));
        parents = λ p u. absurd (omega (arith, never p u));
        apart = λ p q u. absurd (omega (arith, never p u));
        shown = λ t low on. absurd (on (b.inactive t low));
        leaf = λ t q low on. absurd (on (b.inactive t low));
        distinct = λ t u low low' on. absurd (on (b.inactive t low));
      };
      saved = λ t low ne p small on. absurd (on (b.inactive t low));
    }

entered_lem :
    (k : Kernel) (f : Iret) (k' : Kernel) → ExecuteResult k (entered f, k') → IsIsolated k'
unfolding IsIsolated
entered_lem k f k' (inl bad) = absurd (cc (bad))
entered_lem k f k' (inr (g, e, free, least, same, good, runs)) = (good, (k'.available_pid, runs))

refused_lem : (k k' : Kernel) → IsIsolated k → SetupResult k (fail, k') → IsIsolated k'
unfolding IsIsolated
refused_lem k k' (s, (p, r)) (inr (good, c)) = absurd (omega (arith, good))
refused_lem k k' (s, (p, r)) (inl (bad, same)) =
    let path : record k' {
      pid_bits = k.pid_bits;
      tables = k.tables;
      pcbs = k.pcbs;
      terminals = k.terminals;
      terminal_num = k.terminal_num;
      tss_esp0 = k.tss_esp0;
    }
        ≡ k' =
      sym (λ i. record k' {
        pid_bits = same.pid_bits i;
        tables = same.tables i;
        pcbs = same.pcbs i;
        terminals = same.terminals i;
        terminal_num = same.terminal_num i;
        tss_esp0 = same.tss_esp0 i;
      }) in
    subst IsIsolated path (
      record { terminal = s.terminal; consistent = s.consistent; saved = s.saved },
      (
        p,
        record {
          used = r.used;
          active = r.active;
          recent = r.recent;
          mapped = r.mapped;
          stack = r.stack;
        },
      ),
    )

Step-IsIsolated : (k k' : Kernel) → IsIsolated k → Step k k' → IsIsolated k'
unfolding IsIsolated
Step-IsIsolated k k' (s, (p0, r0)) (executes scan fuel loc cpu command p f runs within e) =
    entered_lem k f k'
      (execute_lem scan fuel loc cpu command k (entered f, k') s (λ on. (p, runs, within)) e)
Step-IsIsolated k k' inv (refuses scan fuel loc command len e) = refused_lem k k' inv (
    SetupResult-fs k (cleared loc len k).fs k.size_of_args (fail, k')
      (execute_setup_lem scan fuel loc command len (cleared loc len k) (fail, k') e))
Step-IsIsolated k k' (s, (p0, r0)) (halts cpu status p runs within e) = subst IsIsolated e (
    let (good, next) = halt_lem cpu status k p s runs within in
    elim next [
      | inl (root, out, goes) ↦ (good, (p, goes))
      | inr (q, at, out, free, goes) ↦ (good, (q, goes))
    ])
Step-IsIsolated k k' (s, (p, r)) (ticks scan fuel loc shell cpu inner o live e) =
    elim (pit_handler_lem scan fuel loc shell cpu inner k p (o, k') s r e) [
      | inl (off, (j, at)) ↦ absurd (live j at off)
      | inr (good, num, (q, goes, old)) ↦ (good, (q, goes))
    ]

-- In every state that can be reached, the control blocks and the terminals are as the scheduler needs, and
-- the terminal that runs shows a process whose own 4 MB are mapped and whose own kernel stack is in the task state.
pub Reached-IsIsolated : {k : Kernel} → Reached k → IsIsolated k
Reached-IsIsolated (first k0 k scan fuel loc cpu command f booted e) = entered_lem k0 f k (
    execute_lem scan fuel loc cpu command k0 (entered f, k) (booted-IsScheduled k0 booted)
      (λ on. absurd (on (booted.inactive k0.terminal_num booted.terminal))) e)
Reached-IsIsolated (after k0 k reached step) =
    Step-IsIsolated k0 k (Reached-IsIsolated reached) step
