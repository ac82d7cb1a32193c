-- ===== src/Terminal.antt =====
-- terminal.c, with the terminals' state of pit.h and keyboard.c, and `clear` and `putc` of lib.c: three text screens of
-- 80 by 25 cells, of two bytes each.
pub mod Scroll
mod Bump
pub mod Screen
pub mod Write
pub mod Read
pub mod Sample
mod Tests
use judd_os.Prelude.{
  ℕ, zero, suc, ◌+◌, ◌-◌, ◌*◌, ◌/◌, ◌%◌, ◌^◌, if◌then◌else◌, ◌==◌, ltb, leb, ◌&&◌, ◌||◌, List, ◌∷◌,
  [], ◌++◌, Bool, bit_and,
}
use judd_os.Prelude.Word.{u8, u32, fail, is_negative, PortWrite, outb}
use judd_os.Prelude.Memory.{Memory, store}
use judd_os.Paging.{Tables, put}

-- `terminal_t`, without the process that it runs and the saved stack pointers. The array is a function of the index.
pub record Terminal : Type 0 where
  pub cursor_x : ℕ
  pub cursor_y : ℕ
  pub screen_buf : ℕ → ℕ
  pub screen_buf_top : ℕ
  pub vidmem_addr : ℕ

-- The variables of keyboard.c that translate a key.
pub record Flags : Type 0 where
  pub ctrl_flag : ℕ
  pub alt_flag : ℕ
  pub shift_flag : ℕ
  pub caps_flag : ℕ
  pub buf_flag : ℕ
  pub back_flag : ℕ
  pub ctrl_flag_L : ℕ
  pub enter_flag : ℕ
  pub terminal_zero_flag : ℕ
  pub terminal_one_flag : ℕ
  pub terminal_two_flag : ℕ

-- `mem` is the physical memory, `screen_x` and `screen_y` are the cursor of lib.c, `writes` the bytes sent to the ports
-- of the display, oldest first.
pub record Console : Type 0 where
  pub mem : Memory
  pub tables : Tables
  pub terminal_arr : ℕ → Terminal
  pub terminal_num : ℕ
  pub terminal_num_display : ℕ
  pub flags : Flags
  pub screen_x : ℕ
  pub screen_y : ℕ
  pub writes : List PortWrite

abbrev pub video_mem : ℕ
video_mem = 0xB8000

abbrev pub attrib : ℕ
attrib = 0x7

-- The physical address of the page that a terminal's `vidmem_addr` leads to through the video table (see
-- Paging.Video). A screen lies within its page, so its bytes follow this address.
unfoldable pub screen_of : Tables → Terminal → ℕ
screen_of t term =
    (t.page_table_entry_for_video (term.vidmem_addr / 2 ^ 12 % 2 ^ 10)).page_addr * 2 ^ 12
    + term.vidmem_addr % 2 ^ 12

-- The character and the attribute of one cell of the screen at `base`.
unfoldable pub put_cell : ℕ → ℕ → ℕ → Memory → Memory
put_cell base cell ch m = store (store m (base + cell * 2) ch) (base + cell * 2 + 1) attrib

-- The loop that blanks so many cells from `i` on.
pub blank_cells : ℕ → ℕ → ℕ → Memory → Memory
unfolding put_cell
blank_cells zero i base m = m
blank_cells (suc n) i base m = blank_cells n (i + 1) base (put_cell base i 0x20 m)

-- The loop that moves so many cells up by a row, from `i` on.
pub move_cells : ℕ → ℕ → ℕ → Memory → Memory
unfolding put_cell
move_cells zero i base m = m
move_cells (suc n) i base m =
    move_cells n (i + 1) base (put_cell base i (m (base + (i + 80) * 2)) m)

unfoldable pub scroll_screen : ℕ → Memory → Memory
unfolding move_cells blank_cells
scroll_screen base m = blank_cells 80 1920 base (move_cells 1920 0 base m)

-- `terminal_arr[i]` becomes `term`.
unfoldable pub set_terminal : ℕ → Terminal → Console → Console
set_terminal i term c = record c { terminal_arr = put i term c.terminal_arr }

unfoldable pub scroll_up : Console → Console
unfolding scroll_screen screen_of set_terminal
scroll_up c =
    let term = c.terminal_arr c.terminal_num in
    set_terminal c.terminal_num (record term { cursor_x = 0; cursor_y = 24 })
      (record c { mem = scroll_screen (screen_of c.tables term) c.mem })

-- `x` and `y` are unsigned, `position` has 16 bits.
unfoldable pub update_cursor : ℕ → ℕ → Console → Console
unfolding scroll_up
update_cursor x y c =
    let wrapped = leb 80 x in
    let x = if wrapped then 0 else x in
    let y = if wrapped then u32 (y + 1) else y in
    let below = leb 25 y in
    let c = if below then scroll_up c else c in
    let y = if below then 24 else y in
    let position = (y * 80 + x) % 2 ^ 16 in
    record c {
      writes =
          c.writes
          ++ (outb 0x0F 0x3D4
              ∷ outb (bit_and position 0xFF) 0x3D5
              ∷ outb 0x0E 0x3D4
              ∷ outb (bit_and (position / 2 ^ 8) 0xFF) 0x3D5
              ∷ []);
    }

unfoldable pub clear : Console → Console
unfolding blank_cells
clear c = record c { mem = blank_cells 2000 0 video_mem c.mem }

-- lib.c, with its own cursor.
unfoldable pub putc : ℕ → Console → Console
unfolding put_cell
putc ch c =
    if (ch == 10) || (ch == 13)
    then record c { screen_y = c.screen_y + 1; screen_x = 0 }
    else (let x = (c.screen_x + 1) % 80 in
        record c {
          mem = put_cell video_mem (80 * c.screen_y + c.screen_x) ch c.mem;
          screen_x = x;
          screen_y = (c.screen_y + x / 80) % 25;
        })

pub terminal_open : Console → ℕ × Console
unfolding clear set_terminal
terminal_open c =
    let term = c.terminal_arr c.terminal_num in
    let emptied = record term {
      screen_buf = λ i. if ltb i 128 then 0 else term.screen_buf i;
      cursor_x = 0;
      cursor_y = 0;
    } in
    (0, clear (set_terminal c.terminal_num emptied c))

pub terminal_close : Console → ℕ × Console
unfolding clear set_terminal
terminal_close c =
    let term = c.terminal_arr c.terminal_num in
    let emptied = record term { screen_buf = λ i. if ltb i 128 then 0 else term.screen_buf i } in
    (0, clear (set_terminal c.terminal_num emptied c))

-- The first test of the loop of `terminal_write`: a full row.
wrap_row : Console → Console
unfolding scroll_up set_terminal
wrap_row c =
    let term = c.terminal_arr c.terminal_num in
    let y = u8 (term.cursor_y + 1) in
    let next = set_terminal c.terminal_num (record term { cursor_x = 0; cursor_y = y }) c in
    if term.cursor_x == 80 then (if y == 25 then scroll_up next else next) else c

-- The character itself, or the new row.
write_char : ℕ → Console → Console
unfolding scroll_up set_terminal put_cell screen_of
write_char ch c =
    let term = c.terminal_arr c.terminal_num in
    let y = u8 (term.cursor_y + 1) in
    let next = set_terminal c.terminal_num (record term { cursor_x = 0; cursor_y = y }) c in
    if (ch == 10) || (ch == 13)
    then (if y == 25 then scroll_up next else next)
    else set_terminal c.terminal_num (record term { cursor_x = u8 (term.cursor_x + 1) })
        (record c {
          mem = put_cell (screen_of c.tables term) (80 * term.cursor_y + term.cursor_x) ch c.mem;
        })

-- The two tests at the end of the loop.
clamp_cursor : Console → Console
unfolding set_terminal
clamp_cursor c =
    let term = c.terminal_arr c.terminal_num in
    let full = leb 80 term.cursor_x in
    let x = if full then 0 else term.cursor_x in
    let y = if full then u8 (term.cursor_y + 1) else term.cursor_y in
    set_terminal c.terminal_num
      (record term { cursor_x = x; cursor_y = if leb 25 y then 24 else y }) c

write_loop : ℕ → ℕ → ℕ → Console → Console
unfolding wrap_row write_char clamp_cursor
write_loop zero i buf c = c
write_loop (suc n) i buf c =
    write_loop n (i + 1) buf (clamp_cursor (write_char (c.mem (buf + i)) (wrap_row c)))

-- `buf` is a physical address, 0 for NULL.
pub terminal_write : ℕ → ℕ → Console → ℕ × Console
unfolding write_loop update_cursor
terminal_write buf nbytes c =
    let written = write_loop nbytes 0 buf c in
    let term = written.terminal_arr written.terminal_num in
    let shown =
      if written.terminal_num == written.terminal_num_display
      then update_cursor term.cursor_x term.cursor_y written
      else written in
    if (buf == 0) || is_negative nbytes then (fail, c) else (0, shown)

-- The loop of `terminal_read`: the count of the bytes copied, and the memory.
pub read_line : ℕ → ℕ → ℕ → (ℕ → ℕ) → Memory → ℕ × Memory
read_line zero i buf line m = (i, m)
read_line (suc n) i buf line m =
    let copied = store m (buf + i) (line i) in
    let rest = read_line n (i + 1) buf line copied in
    if (line i == 10) || (line i == 13) then (i + 1, copied) else rest

-- keyboard.c
unfoldable pub clearbuf : Console → Console
unfolding set_terminal
clearbuf c =
    let term = c.terminal_arr c.terminal_num_display in
    set_terminal c.terminal_num_display
      (record term {
        screen_buf = λ i. if ltb i 128 then 0 else term.screen_buf i;
        screen_buf_top = 0;
      })
      c

-- `wait` is what the interrupts make of the state until the loop in the middle ends, with `enter_flag` at 1 and the
-- terminal of the process on display.
pub terminal_read : (Console → Console) → ℕ → ℕ → Console → ℕ × Console
unfolding read_line clearbuf set_terminal
terminal_read wait buf nbytes c =
    let term = c.terminal_arr c.terminal_num_display in
    let ended =
      set_terminal c.terminal_num_display (record term { screen_buf = put 127 13 term.screen_buf })
        c in
    let woken = wait ended in
    let limit = if ltb 128 nbytes then 128 else nbytes in
    let line = (woken.terminal_arr woken.terminal_num_display).screen_buf in
    let (cnt, mem) = read_line limit 0 buf line woken.mem in
    if (buf == 0) || is_negative nbytes
    then (fail, ended)
    else (cnt, clearbuf (record woken { mem = mem; flags = record woken.flags { enter_flag = 0 } }))

unfoldable pub putc_addr : ℕ → Console → Console
unfolding scroll_up set_terminal put_cell screen_of
putc_addr ch c =
    let display = c.terminal_num_display in
    let term = c.terminal_arr display in
    let next = record term { cursor_x = 0; cursor_y = u8 (term.cursor_y + 1) } in
    let wrapped = if term.cursor_x == 80 then set_terminal display next c else c in
    let scrolled =
      if leb 25 (wrapped.terminal_arr display).cursor_y then scroll_up wrapped else wrapped in
    let last = scrolled.terminal_arr display in
    if (ch == 10) || (ch == 13) then c else record scrolled {
      mem =
          put_cell (screen_of scrolled.tables last) (80 * last.cursor_y + last.cursor_x) ch
            scrolled.mem;
    }
