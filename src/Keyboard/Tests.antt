-- ===== src/Keyboard/Tests.antt =====
-- Runs of the keyboard's code.
use judd_os.Prelude.{ℕ, inl, inr, ◌≡◌, ◌*◌, refl, arith}
use judd_os.Paging.Video.{set_up-Framed}
use judd_os.Terminal.Sample.{three, quiet, zeroed}
use judd_os.Keyboard.{
  is_modifier, note_key, scantable_small, swap_terminal, add2buf, delete_char_from_buf, lookup,
  ignored, modifier, translate, keyboard_handler_main,
}
use judd_os.Keyboard.Swap.{Displays, swap_terminal_lem}
use judd_os.Keyboard.Line.{shown, add2buf_lem, delete_char_from_buf-add2buf}
use judd_os.Keyboard.Modifiers.{Idle}

three-Displays : Displays 0x411000 three
three-Displays = record {
  display = omega arith;
  framed = (set_up-Framed 0x410000 0x411000 0 zeroed (omega arith)).0;
  pages = λ i. refl;
  columns = λ i h. omega arith;
  rows = λ i h. omega arith;
}

swap_terminal_lem_example :
    (swap_terminal 0x410000 0x411000 0x7F0000 1 three).terminal_num_display ≡ 1
swap_terminal_lem_example =
    (swap_terminal_lem 0x410000 0x411000 0x7F0000 1 three three-Displays (omega arith)
      (inr (inl (omega arith, omega arith)))).0

add2buf_lem_example : (shown (add2buf 0x61 three)).screen_buf_top ≡ 4
add2buf_lem_example = ((add2buf_lem 0x61 three).0 (omega arith)).0

delete_char_from_buf-add2buf_example :
    (shown (delete_char_from_buf (add2buf 0x61 three))).screen_buf_top ≡ 3
delete_char_from_buf-add2buf_example = (delete_char_from_buf-add2buf 0x61 three (omega arith)).0

abbrev behind : ℕ → ℕ
behind i = i * 7

quiet-Idle : Idle quiet
quiet-Idle = record { ctrl = refl; alt = refl; shift = refl; caps = refl }

abbrev code : ℕ
code = 89

ordinary : (translate behind 30 three).0 ≡ 97
unfolding translate lookup is_modifier note_key ignored scantable_small modifier
ordinary = refl

-- The handlers, their names and all.
idle_again : (keyboard_handler_main 0x410000 0x411000 0x7F0000 behind 30 three).flags.buf_flag ≡ 0
unfolding keyboard_handler_main
idle_again = refl
