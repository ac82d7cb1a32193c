-- ===== src/Paging.antt =====
-- paging.c and paging.h: the page directory, the table of the first 4 MB and the table of the video pages.
pub mod Walk
pub mod Boot
pub mod Up
pub mod Process
pub mod Video
mod Tests
use judd_os.Prelude.{ℕ, zero, suc, ◌+◌, ◌*◌, ◌/◌, ◌%◌, ◌^◌, if◌then◌else◌, ◌==◌, bit_or, bit_and}
use judd_os.Prelude.Word.{u8, u32, bit}

-- `PDE_t`, its bit fields from the lowest.
pub record Pde : Type 0 where
  pub present : ℕ
  pub read_write : ℕ
  pub user_supervisor : ℕ
  pub write_through : ℕ
  pub cache_disabled : ℕ
  pub accessed : ℕ
  pub reserved : ℕ
  pub page_size : ℕ
  pub ignored : ℕ
  pub avail : ℕ
  pub page_table_addr : ℕ

-- `PTE_t`
pub record Pte : Type 0 where
  pub present : ℕ
  pub read_write : ℕ
  pub user_supervisor : ℕ
  pub write_through : ℕ
  pub cache_disabled : ℕ
  pub accessed : ℕ
  pub dirty : ℕ
  pub reserved : ℕ
  pub global : ℕ
  pub avail : ℕ
  pub page_addr : ℕ

-- Assigning to the member `val` of the union sets all the fields.
pub pde_of_val : ℕ → Pde
pde_of_val v = record {
  present = bit 0 v;
  read_write = bit 1 v;
  user_supervisor = bit 2 v;
  write_through = bit 3 v;
  cache_disabled = bit 4 v;
  accessed = bit 5 v;
  reserved = bit 6 v;
  page_size = bit 7 v;
  ignored = bit 8 v;
  avail = v / 2 ^ 9 % 8;
  page_table_addr = v / 2 ^ 12 % 2 ^ 20;
}

pub pte_of_val : ℕ → Pte
pte_of_val v = record {
  present = bit 0 v;
  read_write = bit 1 v;
  user_supervisor = bit 2 v;
  write_through = bit 3 v;
  cache_disabled = bit 4 v;
  accessed = bit 5 v;
  dirty = bit 6 v;
  reserved = bit 7 v;
  global = bit 8 v;
  avail = v / 2 ^ 9 % 8;
  page_addr = v / 2 ^ 12 % 2 ^ 20;
}

-- The three arrays, each a function of the index. An index of 1024 stands for the memory behind the array.
pub record Tables : Type 0 where
  pub page_directory_entry : ℕ → Pde
  pub page_table_entry : ℕ → Pte
  pub page_table_entry_for_video : ℕ → Pte

unfoldable pub put {ℓ} : {A : Type ℓ} → ℕ → A → (ℕ → A) → ℕ → A
put i v f j = if j == i then v else f j

abbrev pub vid_buf_addr_base : ℕ
vid_buf_addr_base = 0x800000 + 0x400000 * 6

-- `(addr) | READ_WRITE_BIT | PRESENT_BIT`
pub present_val : ℕ → ℕ
present_val addr = bit_or (bit_or addr 2) 1

-- The loop of `init_paging`, from entry `i` on, with so many entries left.
init_entries : ℕ → ℕ → Tables → Tables
unfolding present_val
init_entries zero i t = t
init_entries (suc n) i t =
    let val = if i == 0xB8 then present_val (i * 0x1000) else bit_or (i * 0x1000) 2 in
    init_entries n (i + 1) (record t {
      page_directory_entry = put i (pde_of_val 2) t.page_directory_entry;
      page_table_entry = put i (pte_of_val val) t.page_table_entry;
    })

-- Where the linker puts `Page_Table_Entry` and `Page_Table_Entry_For_Video`.
module _ (page_table_at video_table_at : ℕ) where
  -- The line after the loop writes the entry of index 1024.
  pub init_paging : Tables → Tables
  unfolding init_entries
  init_paging t =
      let looped = init_entries 1024 0 t in
      let directory = looped.page_directory_entry in
      let first = record (directory 0) {
        present = 1;
        read_write = 1;
        page_table_addr = page_table_at / 2 ^ 12 % 2 ^ 20;
      } in
      let second = record (directory 1) {
        present = 1;
        read_write = 1;
        page_size = 1;
        page_table_addr = 0x400000 / 2 ^ 12;
      } in
      record looped {
        page_table_entry_for_video = put 1024 (pte_of_val 2) looped.page_table_entry_for_video;
        page_directory_entry = put 1 second (put 0 first directory);
      }

  -- The video page `v_addr` of terminal `tid`, shown or buffered, at the physical address `addr`.
  pub map_video : ℕ → ℕ → Tables → Tables
  unfolding present_val
  map_video v_addr addr t =
      let page_ent = v_addr / 2 ^ 12 % 2 ^ 10 in
      let pte = record (pte_of_val (present_val addr)) { user_supervisor = 1 } in
      record t { page_table_entry_for_video = put page_ent pte t.page_table_entry_for_video }

  -- `vidmem_addr` gives the member of that name in `terminal_arr`.
  pub set_up_virtual_to_video : (ℕ → ℕ) → ℕ → Tables → Tables
  set_up_virtual_to_video vidmem_addr tid t =
      let buf_1_tid = u8 ((tid + 1) % 3) in
      let buf_2_tid = u8 ((tid + 2) % 3) in
      let dir_ent = vidmem_addr tid / 2 ^ 22 % 2 ^ 10 in
      let entry = record (t.page_directory_entry dir_ent) {
        present = 1;
        read_write = 1;
        user_supervisor = 1;
        page_size = 0;
      } in
      let opened = record t { page_directory_entry = put dir_ent entry t.page_directory_entry } in
      let shown = map_video (vidmem_addr tid) (0xB8 * 0x1000) opened in
      let buffered_1 =
        map_video (vidmem_addr buf_1_tid) (vid_buf_addr_base + buf_1_tid * 0x1000) shown in
      let buffered_2 =
        map_video (vidmem_addr buf_2_tid) (vid_buf_addr_base + buf_2_tid * 0x1000) buffered_1 in
      let connected = record (buffered_2.page_directory_entry dir_ent) {
        page_table_addr = video_table_at / 2 ^ 12 % 2 ^ 20;
      } in
      record buffered_2 {
        page_directory_entry = put dir_ent connected buffered_2.page_directory_entry;
      }

-- The member `page_table_addr` keeps 20 bits.
process_base : ℕ → ℕ
process_base pid = u32 (0x800000 / 2 ^ 12 + pid * (0x400000 / 2 ^ 12)) % 2 ^ 20

pub set_process_memory : ℕ → Tables → Tables
unfolding process_base
set_process_memory pid t =
    let entry = record (t.page_directory_entry 32) {
      present = 1;
      read_write = 1;
      user_supervisor = 1;
      page_size = 1;
      page_table_addr = process_base pid;
    } in
    record t { page_directory_entry = put 32 entry t.page_directory_entry }

pub free_process_memory : ℕ → Tables → Tables
unfolding process_base
free_process_memory pid t =
    let entry = record (t.page_directory_entry 32) {
      present = 0;
      read_write = 0;
      user_supervisor = 0;
      page_size = 0;
      page_table_addr = process_base pid;
    } in
    record t { page_directory_entry = put 32 entry t.page_directory_entry }
