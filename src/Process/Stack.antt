-- ===== src/Process/Stack.antt =====
-- The kernel stacks: each process has 8 KB, with its control block at the low end.
use judd_os.Prelude.{ℕ, ◌+◌, ◌<◌, ◌≤◌, ◌≡◌, ◌≢◌, arith}
use judd_os.Process.{pcb_at, stack_top, get_curr_pcb}

-- An address in the kernel stack of a process.
abbrev pub InStack : ℕ → ℕ → Type 0
InStack pid esp = (pcb_at pid ≤ esp) × (esp < pcb_at pid + 0x2000)

-- From any stack pointer in the kernel stack of one of the six processes, `get_curr_pcb` finds its control block; the
-- stack that the processor starts with on an entry lies in it, above the block; and the stacks of two processes do not meet.
pub get_curr_pcb_lem :
    (pid esp : ℕ)
    → pid < 6
    → InStack pid esp
    → (get_curr_pcb esp ≡ pcb_at pid)
      × (get_curr_pcb (stack_top pid) ≡ pcb_at pid)
      × (pcb_at pid + 284 < stack_top pid)
      × ((other : ℕ) → other < 6 → InStack other esp → other ≡ pid)
unfolding get_curr_pcb
get_curr_pcb_lem pid esp small (low, high) = (
  omega (arith, small, low, high),
  omega (arith, small),
  omega (arith, small),
  λ other h s. omega (arith, small, low, high, h, s.0, s.1),
)

pub pcb_at_injective : (p q : ℕ) → p < 6 → q < 6 → pcb_at p ≡ pcb_at q → p ≡ q
pcb_at_injective p q hp hq e = omega (arith, hp, hq, e)

pub pcb_at_nonzero : (p : ℕ) → p < 6 → pcb_at p ≢ 0
pcb_at_nonzero p h e = omega (arith, h, e)
