-- ===== src/Terminal/Sample.antt =====
-- Three terminals with the pages of `terminal_init`, the first displayed, "ok" typed on its line, and a newline.
use judd_os.Prelude.{ℕ, [], if◌then◌else◌, ◌==◌}
use judd_os.Paging.{Tables, pde_of_val, pte_of_val, set_up_virtual_to_video}
use judd_os.Paging.Video.{terminal_page}
use judd_os.Terminal.{Flags, Console}

abbrev pub typed : ℕ → ℕ
typed i = if i == 0 then 111 else if i == 1 then 107 else if i == 2 then 10 else 0

abbrev pub zeroed : Tables
zeroed = record {
  page_directory_entry = λ i. pde_of_val 0;
  page_table_entry = λ i. pte_of_val 0;
  page_table_entry_for_video = λ i. pte_of_val 0;
}

abbrev pub quiet : Flags
quiet = record {
  ctrl_flag = 0;
  alt_flag = 0;
  shift_flag = 0;
  caps_flag = 0;
  buf_flag = 0;
  back_flag = 0;
  ctrl_flag_L = 0;
  enter_flag = 0;
  terminal_zero_flag = 0;
  terminal_one_flag = 0;
  terminal_two_flag = 0;
}

abbrev pub three : Console
three = record {
  mem = λ x. 0;
  tables = set_up_virtual_to_video 0x410000 0x411000 terminal_page 0 zeroed;
  terminal_arr = λ i. record {
    cursor_x = 79;
    cursor_y = 24;
    screen_buf = typed;
    screen_buf_top = 3;
    vidmem_addr = terminal_page i;
  };
  terminal_num = 0;
  terminal_num_display = 0;
  flags = quiet;
  screen_x = 0;
  screen_y = 0;
  writes = [];
}
