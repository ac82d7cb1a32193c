-- ===== src/Process/Consistent.antt =====
-- What the scheduler relies on: the process control blocks form one chain for each terminal.
use judd_os.Prelude.{ℕ, ◌+◌, ◌*◌, ◌<◌, ◌≡◌, ◌≢◌, arith, true, some, ◌⊎◌}
use judd_os.Paging.{Tables, put, set_process_memory}
use judd_os.Paging.Walk.{walk}
use judd_os.Paging.Process.{set_process_memory_lem}
use judd_os.Process.{Pcb, Slot, Kernel, pcb_at, stack_top}

-- A number that is given to a process.
abbrev pub IsUsed : (ℕ → ℕ) → ℕ → Type 0
IsUsed bits p = (p < 6) × (bits p ≡ 1)

-- Every used number is that of the block at its address; a parent is again a used process, whose kernel stack the child has
-- saved; no two processes have the same parent; the process of an active terminal is used, has no child, and belongs
-- to no other terminal.
pub record IsConsistent (bits : ℕ → ℕ) (pcbs : ℕ → Pcb) (terminals : ℕ → Slot) : Type 0 where
  pub named : (p : ℕ) → IsUsed bits p → (pcbs (pcb_at p)).pid ≡ p
  pub parents :
      (p : ℕ)
      → IsUsed bits p
      → (pcbs (pcb_at p)).parent ≢ 0
      → (q : ℕ) × IsUsed bits q
        × ((pcbs (pcb_at p)).parent ≡ pcb_at q)
        × ((pcbs (pcb_at p)).esp0 ≡ stack_top q)
  pub apart :
      (p q : ℕ)
      → IsUsed bits p
      → IsUsed bits q
      → (pcbs (pcb_at p)).parent ≢ 0
      → (pcbs (pcb_at p)).parent ≡ (pcbs (pcb_at q)).parent
      → p ≡ q
  pub shown :
      (t : ℕ)
      → t < 3
      → (terminals t).active ≢ 0
      → (p : ℕ) × IsUsed bits p × ((terminals t).most_recent_pcb ≡ pcb_at p)
  pub leaf :
      (t q : ℕ)
      → t < 3
      → (terminals t).active ≢ 0
      → IsUsed bits q
      → (pcbs (pcb_at q)).parent ≢ (terminals t).most_recent_pcb
  pub distinct :
      (t u : ℕ)
      → t < 3
      → u < 3
      → (terminals t).active ≢ 0
      → (terminals u).active ≢ 0
      → (terminals t).most_recent_pcb ≡ (terminals u).most_recent_pcb
      → t ≡ u

-- A program that starts at 128 MB reaches the memory of process `p`.
abbrev pub IsMapped : ℕ → Tables → Type 0
IsMapped p t =
    (page_table_at video_table_at off : ℕ)
    → off < 0x400000
    → walk page_table_at video_table_at true t (0x08000000 + off)
      ≡ some (0x800000 + p * 0x400000 + off)

-- The terminal that runs shows process `p`, which has its memory mapped and its kernel stack in the task state.
pub record Runs (p : ℕ) (k : Kernel) : Type 0 where
  pub used : IsUsed k.pid_bits p
  pub active : (k.terminals k.terminal_num).active ≢ 0
  pub recent : (k.terminals k.terminal_num).most_recent_pcb ≡ pcb_at p
  pub mapped : IsMapped p k.tables
  pub stack : k.tss_esp0 ≡ stack_top p

-- An active terminal has saved the kernel stack of its process.
abbrev pub HasSaved : (ℕ → Slot) → ℕ → Type 0
HasSaved terminals t =
    (p : ℕ)
    → p < 6
    → (terminals t).active ≢ 0
    → (terminals t).most_recent_pcb ≡ pcb_at p
    → (terminals t).esp0 ≡ stack_top p

-- The control blocks are consistent, and every terminal but the running one has saved its stack.
pub record IsScheduled (k : Kernel) : Type 0 where
  pub terminal : k.terminal_num < 3
  pub consistent : IsConsistent k.pid_bits k.pcbs k.terminals
  pub saved : (t : ℕ) → t < 3 → t ≢ k.terminal_num → HasSaved k.terminals t

pub set-IsMapped : (p : ℕ) (t : Tables) → p < 6 → IsMapped p (set_process_memory p t)
set-IsMapped p t small pt vt off low = (set_process_memory_lem pt vt p off t small low).0

pub put_self {ℓ} : {A : Type ℓ} (i : ℕ) (v : A) (f : ℕ → A) → put i v f i ≡ v
unfolding put
put_self i v f = ground arith

pub put_ne {ℓ} : {A : Type ℓ} (i j : ℕ) (v : A) (f : ℕ → A) → j ≢ i → put i v f j ≡ f j
unfolding put
put_ne i j v f h = ground arith

pub eq_or_ne : (a b : ℕ) → (a ≡ b) ⊎ (a ≢ b)
eq_or_ne a b = ground arith
