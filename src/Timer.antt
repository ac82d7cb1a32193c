-- ===== src/Timer.antt =====
-- pit.c: the timer chip, and the terminals at start-up.
mod Tests
pub mod Start
use judd_os.Prelude.{ℕ, zero, suc, ◌+◌, ◌*◌, ◌/◌, ◌%◌, ◌^◌, bit_and, if◌then◌else◌, ◌==◌}
use judd_os.Prelude.Memory.{Memory}
use judd_os.Pic.{Pic, out, enable_irq}
use judd_os.Paging.{put, set_up_virtual_to_video}
use judd_os.Terminal.{Console, Terminal, put_cell, screen_of, set_terminal}

-- The new terminal number and the writes of `pit_init`. The product overflows no 32-bit word; the divisor has 16 bits.
pub pit_init : Pic → ℕ × Pic
pit_init pic =
    let enabled = enable_irq 0 pic in
    let value = 1193182 * 50 / 1000 % 2 ^ 16 in
    let highbyte = value / 2 ^ 8 % 2 ^ 8 in
    let lowbyte = bit_and value 0x00FF in
    (0, out highbyte 0x40 (out lowbyte 0x40 (out 0x34 0x43 enabled)))

-- The loop of `fill_terminal_attribute` over the cells of one screen.
fill_cells : ℕ → ℕ → ℕ → Memory → Memory
fill_cells zero j base m = m
fill_cells (suc n) j base m = fill_cells n (j + 1) base (put_cell base j 0x20 m)

-- The terminals 1 and 2.
pub fill_terminal_attribute : Console → Console
unfolding fill_cells
fill_terminal_attribute c =
    let one = fill_cells 2000 0 (screen_of c.tables (c.terminal_arr 1)) c.mem in
    record c { mem = fill_cells 2000 0 (screen_of c.tables (c.terminal_arr 2)) one }

-- The loop of `terminal_init`. The member `active` is not kept.
init_terminals : ℕ → ℕ → Console → Console
init_terminals zero i c = c
init_terminals (suc n) i c = init_terminals n (i + 1) (record c {
  terminal_arr =
      put i (record (c.terminal_arr i) { vidmem_addr = 0x08500000 + i * 0x1000 }) c.terminal_arr;
})

pub terminal_init : ℕ → ℕ → Console → Console
unfolding init_terminals fill_terminal_attribute
terminal_init page_table_at video_table_at c =
    let started = init_terminals 3 0 (record c { terminal_num_display = 0 }) in
    let vidmem : ℕ → ℕ = (λ i. (started.terminal_arr i).vidmem_addr) in
    fill_terminal_attribute (record started {
      tables =
          set_up_virtual_to_video page_table_at video_table_at vidmem started.terminal_num_display
            started.tables;
    })
