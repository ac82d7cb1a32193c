-- ===== src/Keyboard.antt =====
-- keyboard.c: from a scan code to the line being typed, and the switch between the three screens.
pub mod Table
pub mod Line
pub mod Modifiers
pub mod Start
pub mod Swap
mod Tests
use judd_os.Prelude.{
  ℕ, zero, suc, ◌+◌, ◌-◌, ◌*◌, ◌/◌, ◌%◌, ◌^◌, if◌then◌else◌, ◌==◌, ltb, leb, not, ◌&&◌, ◌||◌, List,
  ◌++◌, get_or, Bool,
}
use judd_os.Prelude.Word.{u8, u32}
use judd_os.Prelude.Memory.{Memory, store}
use judd_os.Block.{memcpy}
use judd_os.Paging.{Tables, put, set_up_virtual_to_video}
use judd_os.Pic.{Pic, enable_irq}
use judd_os.Terminal.{
  Terminal, Flags, Console, video_mem, screen_of, set_terminal, scroll_screen, update_cursor, clear,
  putc, clearbuf, putc_addr,
}
use judd_os.Keyboard.Table.{shifted, capital, with_alt, with_ctrl, plain}

-- The codes that `translate` ignores at once.
pub ignored : ℕ → Flags → Bool
ignored scan f =
    (scan == 1)
    || ((scan == 15)
        || ((scan == 58)
            || ((leb 62 scan && leb scan 68)
                || ((scan == 87)
                    || ((scan == 88)
                        || ((leb 90 scan && leb scan 108)
                            || ((leb 69 scan && leb scan 83)
                                || ((scan == 55)
                                    || (((scan == 59) || ((scan == 60) || (scan == 61)))
                                        && (f.alt_flag == 0))))))))))

-- The modifier keys.
pub modifier : ℕ → Flags → Flags
modifier scan f =
    if scan == 29
    then record f { ctrl_flag = 1 }
    else if scan == 157
    then record f { ctrl_flag = 0 }
    else if scan == 56
    then record f { alt_flag = 1 }
    else if scan == 184
    then record f { alt_flag = 0 }
    else if (scan == 42) || (scan == 54)
    then record f { shift_flag = 1 }
    else if (scan == 170) || (scan == 182)
    then record f { shift_flag = 0 }
    else if scan == 186
    then (if f.caps_flag == 1
        then record f { caps_flag = 0 }
        else if f.caps_flag == 0
        then record f { caps_flag = 1 }
        else f)
    else f

pub is_modifier : ℕ → Bool
is_modifier scan =
    (scan == 29)
    || ((scan == 157)
        || ((scan == 56)
            || ((scan == 184)
                || ((scan == 42)
                    || ((scan == 54) || ((scan == 170) || ((scan == 182) || (scan == 186))))))))

-- The loop that prints the line, with so many bytes left.
print_line : ℕ → ℕ → (ℕ → ℕ) → Console → Console
unfolding putc
print_line zero i line c = c
print_line (suc n) i line c = print_line n (i + 1) line (putc (line i) c)

-- What the flags become for the character `ascii`, from the test of the backspace on.
pub note_key : ℕ → Flags → Flags
note_key ascii f =
    if ascii == 8
    then record f { back_flag = 1 }
    else if (f.alt_flag == 1) && (ascii == 0x4000)
    then record f { terminal_zero_flag = 1 }
    else if (f.alt_flag == 1) && (ascii == 0x4010)
    then record f { terminal_one_flag = 1 }
    else if (f.alt_flag == 1) && (ascii == 0x4020)
    then record f { terminal_two_flag = 1 }
    else if (ascii == 119) && (f.ctrl_flag == 1)
    then record f { ctrl_flag_L = 1 }
    else if (ascii == 118) && (f.alt_flag == 1)
    then f
    else if ascii == 10
    then record f { enter_flag = 1 }
    else record f { buf_flag = 3 }

-- `scantable_small[row][scan]`. The rows follow one another, and `beyond` is the memory behind the last.
module _ (beyond : ℕ → ℕ) where
  pub scantable_small : ℕ → ℕ → ℕ
  scantable_small row scan =
      let at = row * 69 + scan in
      if ltb at 345
      then get_or (shifted ++ (capital ++ (with_alt ++ (with_ctrl ++ plain)))) at 0
      else beyond (at - 345)

  -- The chain that picks the row; 0 when no test of it holds.
  pub lookup : ℕ → Flags → ℕ
  lookup scan f =
      if (f.shift_flag == 1) && (f.caps_flag == 0)
      then scantable_small 0 scan
      else if (f.caps_flag == 1)
          && ((f.shift_flag == 0) && ((f.ctrl_flag == 0) && (f.alt_flag == 0)))
      then scantable_small 1 scan
      else if f.alt_flag == 1
      then scantable_small 2 scan
      else if f.ctrl_flag == 1
      then scantable_small 3 scan
      else if ((f.shift_flag == 0)
            && ((f.caps_flag == 0) && ((f.alt_flag == 0) && (f.ctrl_flag == 0))))
          || ((f.caps_flag == 1) && (f.shift_flag == 1))
      then scantable_small 4 scan
      else 0

  -- The character, 0 when there is none, and the new state; the line is printed on alt and `v` or `2`.
  pub translate : ℕ → Console → ℕ × Console
  unfolding print_line putc ignored modifier is_modifier lookup note_key
  translate scan c =
      let f = c.flags in
      let ascii = u32 (lookup scan f) in
      let term = c.terminal_arr c.terminal_num_display in
      let printed = putc 0x7C (print_line term.screen_buf_top 0 term.screen_buf c) in
      let pasted = (ascii == 118) && (f.alt_flag == 1) in
      let noted = record (if pasted then printed else c) { flags = note_key ascii f } in
      if ignored scan f
      then (0, c)
      else if is_modifier scan
      then (0, record c { flags = modifier scan f })
      else if ltb scan 120
      then (u8 ascii, noted)
      else (0, c)

pub add2buf : ℕ → Console → Console
unfolding putc_addr update_cursor set_terminal
add2buf ascii c =
    let display = c.terminal_num_display in
    let top = (c.terminal_arr display).screen_buf_top in
    let drawn = putc_addr ascii c in
    let term = drawn.terminal_arr display in
    let added = record term {
      screen_buf = put term.screen_buf_top ascii term.screen_buf;
      screen_buf_top = u8 (term.screen_buf_top + 1);
    } in
    let right = record added { cursor_x = u8 (added.cursor_x + 1) } in
    let down = record added { cursor_x = 0; cursor_y = u8 (added.cursor_y + 1) } in
    let moved = if ltb added.cursor_x 79 then right else down in
    if ltb top 127
    then update_cursor moved.cursor_x moved.cursor_y (set_terminal display moved drawn)
    else c

-- The screen that scrolls here is the one at `video_mem`.
pub enter_press : ℕ → Console → Console
unfolding add2buf set_terminal scroll_screen
enter_press ascii c =
    let display = c.terminal_num_display in
    let line = c.terminal_arr display in
    let last = line.screen_buf (line.screen_buf_top - 1) in
    let added = add2buf ascii c in
    let term = added.terminal_arr display in
    let y = u8 (term.cursor_y + 1) in
    let mem = if leb 25 y then scroll_screen video_mem added.mem else added.mem in
    let next = record term { cursor_x = 0; cursor_y = if leb 25 y then 24 else y } in
    if (line.screen_buf_top == 0) || (not (last == 10) && not (last == 13))
    then set_terminal display next (record added { mem = mem })
    else c

pub delete_char_from_buf : Console → Console
unfolding update_cursor set_terminal
delete_char_from_buf c =
    let display = c.terminal_num_display in
    let term = c.terminal_arr display in
    let top = term.screen_buf_top - 1 in
    let shorter = record term { screen_buf_top = top; screen_buf = put top 0 term.screen_buf } in
    let left = record shorter { cursor_x = term.cursor_x - 1 } in
    let up = record shorter { cursor_x = 79; cursor_y = u8 (term.cursor_y + 255) } in
    let moved = if ltb 0 term.cursor_x then left else up in
    if ltb 0 term.screen_buf_top
    then update_cursor moved.cursor_x moved.cursor_y (set_terminal display moved c)
    else c

pub delete_char_from_screen : Console → Console
unfolding putc_addr
delete_char_from_screen c = putc_addr 0 c

init_cursor_at : ℕ → Console → Console
unfolding update_cursor set_terminal
init_cursor_at i c =
    update_cursor 0 0 (set_terminal i (record (c.terminal_arr i) { cursor_x = 0; cursor_y = 0 }) c)

pub init_cursor : Console → Console
unfolding init_cursor_at
init_cursor c = init_cursor_at 2 (init_cursor_at 1 (init_cursor_at 0 c))

pub keyboard_init : Pic → Console → Pic × Console
unfolding init_cursor enable_irq
keyboard_init pic c =
    let flags = record c.flags {
      ctrl_flag = 0;
      alt_flag = 0;
      shift_flag = 0;
      caps_flag = 0;
      buf_flag = 0;
      back_flag = 0;
      enter_flag = 0;
    } in
    (enable_irq 1 pic, init_cursor (record c { flags = flags }))

-- The address of the video table, and of the local array `temp`.
module _ (page_table_at video_table_at temp : ℕ) where
  pub swap_terminal : ℕ → Console → Console
  unfolding update_cursor screen_of
  swap_terminal index c =
      let old = c.terminal_num_display in
      let vidmem : ℕ → ℕ = (λ i. (c.terminal_arr i).vidmem_addr) in
      let saved = memcpy c.mem temp (screen_of c.tables (c.terminal_arr index)) 4000 in
      let tables = set_up_virtual_to_video page_table_at video_table_at vidmem index c.tables in
      let kept = memcpy saved (screen_of tables (c.terminal_arr old)) video_mem 4000 in
      let shown = memcpy kept (screen_of tables (c.terminal_arr index)) temp 4000 in
      let term = c.terminal_arr index in
      if index == old
      then c
      else update_cursor term.cursor_x term.cursor_y
          (record c { mem = shown; tables = tables; terminal_num_display = index })

  -- After the byte `scan` has come in from port 0x60.
  pub keyboard_handler_main : (ℕ → ℕ) → ℕ → Console → Console
  unfolding translate swap_terminal enter_press add2buf delete_char_from_buf delete_char_from_screen
      clearbuf clear init_cursor
  keyboard_handler_main beyond scan c =
      let (ascii, next) = translate beyond scan c in
      let f = next.flags in
      let done =
        if f.ctrl_flag_L == 1
        then init_cursor (clear (clearbuf next))
        else if not (f.terminal_zero_flag == 0)
        then swap_terminal 0 next
        else if not (f.terminal_one_flag == 0)
        then swap_terminal 1 next
        else if not (f.terminal_two_flag == 0)
        then swap_terminal 2 next
        else if f.enter_flag == 1
        then enter_press ascii next
        else if (f.buf_flag == 3) && not (ascii == 0)
        then add2buf ascii next
        else if f.back_flag == 1
        then delete_char_from_screen (delete_char_from_buf next)
        else next in
      record done {
        flags = record done.flags {
          buf_flag = 0;
          back_flag = 0;
          ctrl_flag_L = 0;
          terminal_zero_flag = 0;
          terminal_one_flag = 0;
          terminal_two_flag = 0;
        };
      }
