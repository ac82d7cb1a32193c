-- ===== src/Terminal/Bump.antt =====
-- `test_interrupts` of lib.c: the character of every cell of the screen goes up by one.
use judd_os.Prelude.{
  inl, inr, Bool-cases, ℕ, zero, suc, ◌+◌, ◌-◌, ◌*◌, ◌%◌, ◌≡◌, ◌∙◌, arith, if◌then◌else◌, ◌==◌, ltb,
  leb, ◌&&◌, fun_ext, ap,
}
use judd_os.Prelude.Memory.{Memory, store}
use judd_os.Terminal.{Console, video_mem}

-- The loop of `test_interrupts`, `n` cells from number `i` on. The byte wraps at 256.
bump_cells : ℕ → ℕ → ℕ → Memory → Memory
bump_cells zero i base m = m
bump_cells (suc n) i base m =
    bump_cells n (i + 1) base (store m (base + i * 2) ((m (base + i * 2) + 1) % 256))

test_interrupts : Console → Console
unfolding bump_cells
test_interrupts c = record c { mem = bump_cells 2000 0 video_mem c.mem }

abbrev bumped : ℕ → ℕ → ℕ → Memory → Memory
bumped n i base m x =
    if leb (base + i * 2) x && ltb x (base + (i + n) * 2)
    then (if (x - base) % 2 == 0 then (m x + 1) % 256 else m x)
    else m x

bumped_step :
    (n i base : ℕ) (m : Memory)
    → bumped n (i + 1) base (store m (base + i * 2) ((m (base + i * 2) + 1) % 256))
      ≡ bumped (suc n) i base m
unfolding store
bumped_step n i base m = fun_ext λ x. elim (Bool-cases (x == base + i * 2)) [
  | inl here ↦ (let same : base + i * 2 ≡ x = ground arith in ground (arith, ap m same))
  | inr elsewhere ↦ ground arith
]

bump_cells_lem : (n i base : ℕ) (m : Memory) → bump_cells n i base m ≡ bumped n i base m
unfolding bump_cells
bump_cells_lem zero i base m = fun_ext λ x. ground arith
bump_cells_lem (suc n) i base m =
    bump_cells_lem n (i + 1) base (store m (base + i * 2) ((m (base + i * 2) + 1) % 256))
    ∙ bumped_step n i base m

-- Every character of the screen goes up by one and wraps at 256; no attribute and no byte outside the 4000 of the screen changes.
test_interrupts_lem :
    (c : Console) (x : ℕ)
    → (test_interrupts c).mem x ≡ (
        if leb video_mem x && ltb x (video_mem + 4000)
        then (if (x - video_mem) % 2 == 0 then (c.mem x + 1) % 256 else c.mem x)
        else c.mem x)
unfolding test_interrupts
test_interrupts_lem c x = ap (λ m. m x) (bump_cells_lem 2000 0 video_mem c.mem)
