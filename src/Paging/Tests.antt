-- ===== src/Paging/Tests.antt =====
-- Translations after the three ways of changing the tables.
use judd_os.Prelude.{◌≡◌, ◌+◌, arith, some, true, false}
use judd_os.Paging.{
  Tables, pde_of_val, pte_of_val, init_paging, set_process_memory, set_up_virtual_to_video,
}
use judd_os.Paging.Walk.{walk}
use judd_os.Paging.Boot.{init_paging_lem}
use judd_os.Paging.Process.{set_process_memory_lem}
use judd_os.Paging.Video.{Framed, terminal_page, set_up-Framed, walk-set_up}

abbrev zeroed : Tables
zeroed = record {
  page_directory_entry = λ i. pde_of_val 0;
  page_table_entry = λ i. pte_of_val 0;
  page_table_entry_for_video = λ i. pte_of_val 0;
}

init_paging_lem_example :
    walk 0x410000 0x411000 false (init_paging 0x410000 0x411000 zeroed) 0xB8010 ≡ some 0xB8010
init_paging_lem_example =
    (init_paging_lem 0x410000 0x411000 zeroed 0xB8010 (omega arith) (omega arith)
      (λ e. omega (arith, e)) (omega arith)).0

set_process_memory_lem_example :
    walk 0x410000 0x411000 true (set_process_memory 2 zeroed) (0x08000000 + 0x48000)
    ≡ some 0x1048000
set_process_memory_lem_example =
    (set_process_memory_lem 0x410000 0x411000 2 0x48000 zeroed (omega arith) (omega arith)).0

set_up-Framed_example :
    Framed 0x411000 1 (set_up_virtual_to_video 0x410000 0x411000 terminal_page 1 zeroed)
set_up-Framed_example = (set_up-Framed 0x410000 0x411000 1 zeroed (omega arith)).0

walk-set_up_example :
    walk 0x410000 0x411000 true
      (set_up_virtual_to_video 0x410000 0x411000 terminal_page 1 zeroed)
      (terminal_page 2 + 7)
    ≡ some 0x2002007
walk-set_up_example =
    (walk-set_up 0x410000 0x411000 1 zeroed (omega arith) (omega arith) (omega arith)).0 true 2 7
      (omega arith) (omega arith)
