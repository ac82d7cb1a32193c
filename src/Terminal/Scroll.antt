-- ===== src/Terminal/Scroll.antt =====
-- `scroll_up`: every row takes the place of the row above it.
use judd_os.Prelude.{
  inl, inr, Bool-cases, ℕ, zero, suc, ◌+◌, ◌-◌, ◌*◌, ◌%◌, ◌<◌, ◌≤◌, ◌≡◌, ◌∙◌, ◌⊎◌, arith,
  if◌then◌else◌, ◌==◌, ltb, leb, ◌&&◌, fun_ext, ap,
}
use judd_os.Prelude.Memory.{Memory, store}
use judd_os.Terminal.{Console, put_cell, blank_cells, move_cells, scroll_screen, clear, video_mem}

abbrev blanked : ℕ → ℕ → ℕ → Memory → Memory
blanked n i base m x =
    if leb (base + i * 2) x && ltb x (base + (i + n) * 2)
    then (if (x - base) % 2 == 0 then 0x20 else 7)
    else m x

abbrev moved : ℕ → ℕ → ℕ → Memory → Memory
moved n i base m x =
    if leb (base + i * 2) x && ltb x (base + (i + n) * 2)
    then (if (x - base) % 2 == 0 then m (x + 160) else 7)
    else m x

blanked_step :
    (n i base : ℕ) (m : Memory)
    → blanked n (i + 1) base (put_cell base i 0x20 m) ≡ blanked (suc n) i base m
unfolding put_cell store
blanked_step n i base m = fun_ext λ x. ground arith

blank_cells_lem : (n i base : ℕ) (m : Memory) → blank_cells n i base m ≡ blanked n i base m
unfolding blank_cells
blank_cells_lem zero i base m = fun_ext λ x. ground arith
blank_cells_lem (suc n) i base m =
    blank_cells_lem n (i + 1) base (put_cell base i 0x20 m) ∙ blanked_step n i base m

moved_step :
    (n i base : ℕ) (m : Memory)
    → moved n (i + 1) base (put_cell base i (m (base + (i + 80) * 2)) m) ≡ moved (suc n) i base m
unfolding put_cell store
moved_step n i base m = fun_ext λ x. elim (Bool-cases (x == base + i * 2)) [
  | inl here ↦
      (let below : base + (i + 80) * 2 ≡ x + 160 = ground arith in ground (arith, ap m below))
  | inr elsewhere ↦ ground arith
]

move_cells_lem : (n i base : ℕ) (m : Memory) → move_cells n i base m ≡ moved n i base m
unfolding move_cells
move_cells_lem zero i base m = fun_ext λ x. ground arith
move_cells_lem (suc n) i base m =
    move_cells_lem n (i + 1) base (put_cell base i (m (base + (i + 80) * 2)) m)
    ∙ moved_step n i base m

scroll_both :
    (base : ℕ) (m : Memory) → scroll_screen base m ≡ blanked 80 1920 base (moved 1920 0 base m)
unfolding scroll_screen
scroll_both base m =
    blank_cells_lem 80 1920 base (move_cells 1920 0 base m)
    ∙ ap (blanked 80 1920 base) (move_cells_lem 1920 0 base m)

-- Scrolling gives each cell of the first 24 rows the character of the cell below it, and the last row blanks;
-- all attributes become grey, and no byte outside the 4000 of the screen changes.
pub scroll_screen_lem :
    (base : ℕ) (m : Memory)
    → ((row col : ℕ)
        → row < 24
        → col < 80
        → scroll_screen base m (base + (80 * row + col) * 2)
          ≡ m (base + (80 * (row + 1) + col) * 2))
      × ((col : ℕ) → col < 80 → scroll_screen base m (base + (80 * 24 + col) * 2) ≡ 0x20)
      × ((cell : ℕ) → cell < 2000 → scroll_screen base m (base + cell * 2 + 1) ≡ 7)
      × ((x : ℕ) → (x < base) ⊎ (base + 4000 ≤ x) → scroll_screen base m x ≡ m x)
scroll_screen_lem base m = (
  λ row col hr hc.
      ap (λ w. w (base + (80 * row + col) * 2)) (scroll_both base m)
      ∙ (let below : base + (80 * row + col) * 2 + 160 ≡ base + (80 * (row + 1) + col) * 2 =
            omega arith in
          ground (arith, ap m below)),
  λ col hc. ap (λ w. w (base + (80 * 24 + col) * 2)) (scroll_both base m) ∙ (ground arith),
  λ cell h. ap (λ w. w (base + cell * 2 + 1)) (scroll_both base m) ∙ (ground arith),
  λ x h. ap (λ w. w x) (scroll_both base m) ∙ (ground arith),
)

-- `clear` blanks the 25 rows in the video memory and changes no other byte.
pub clear_lem :
    (c : Console) (x : ℕ)
    → (clear c).mem x ≡ (
        if leb video_mem x && ltb x (video_mem + 4000)
        then (if (x - video_mem) % 2 == 0 then 0x20 else 7)
        else c.mem x)
unfolding clear
clear_lem c x = ap (λ m. m x) (blank_cells_lem 2000 0 video_mem c.mem)
