-- ===== src/Paging/Walk.antt =====
-- What the processor does with the tables of paging.c: the translation of a virtual address.
use judd_os.Prelude.{
  ℕ, ◌+◌, ◌*◌, ◌/◌, ◌%◌, ◌^◌, Option, none, some, Bool, if◌then◌else◌, ◌==◌, ◌&&◌, ◌||◌, not,
}
use judd_os.Paging.{Pte, Tables}

-- A page is open to the kernel when it is present, and to a program when its user bit is set as well.
abbrev pub open_to : Bool → ℕ → ℕ → Bool
open_to user present user_supervisor = (present == 1) && (not user || (user_supervisor == 1))

-- The physical address that a virtual one leads to for a program (`user`) or the kernel, `none` for a page fault. A
-- table that is neither of the two of paging.c gives no translation.
module _ (page_table_at video_table_at : ℕ) where
  abbrev pub leaf : Bool → ℕ → Pte → Option ℕ
  leaf user va e =
      if open_to user e.present e.user_supervisor
      then some (e.page_addr * 2 ^ 12 + va % 2 ^ 12)
      else none

  abbrev pub walk : Bool → Tables → ℕ → Option ℕ
  walk user t va =
      let e = t.page_directory_entry (va / 2 ^ 22) in
      let index = va / 2 ^ 12 % 2 ^ 10 in
      if not (open_to user e.present e.user_supervisor)
      then none
      else if e.page_size == 1
      then some (e.page_table_addr / 2 ^ 10 * 2 ^ 22 + va % 2 ^ 22)
      else if e.page_table_addr * 2 ^ 12 == video_table_at
      then leaf user va (t.page_table_entry_for_video index)
      else if e.page_table_addr * 2 ^ 12 == page_table_at
      then leaf user va (t.page_table_entry index)
      else none
