-- ===== src/Paging/Video.antt =====
-- `set_up_virtual_to_video`: the displayed terminal writes to the screen, the others to their buffers.
use judd_os.Prelude.{
  ◌≤◌, ◌⊎◌, ℕ, ◌^◌, zero, suc, ◌+◌, ◌*◌, ◌%◌, ◌/◌, ◌<◌, ◌≡◌, ◌≢◌, refl, arith, some, Bool,
  if◌then◌else◌, ◌==◌,
}
use judd_os.Paging.{
  Tables, put, pte_of_val, present_val, map_video, set_up_virtual_to_video, vid_buf_addr_base,
}
use judd_os.Paging.Walk.{walk}

-- `VIRTUAL_VIDEO_ADDRESS + i * SIZE_OF_ENTRY`, the value that `terminal_init` gives `vidmem_addr`.
abbrev pub terminal_page : ℕ → ℕ
terminal_page i = 0x08500000 + i * 0x1000

-- Where the page of terminal `i` leads while `display` is shown.
abbrev pub frame : ℕ → ℕ → ℕ
frame display i = if i == display then 0xB8000 else vid_buf_addr_base + i * 0x1000

-- The video table is in use for the region of the video pages, and the page of each terminal has the frame above.
pub record Framed (video_table_at display : ℕ) (t : Tables) : Type 0 where
  pub dir_present : (t.page_directory_entry 33).present ≡ 1
  pub dir_user : (t.page_directory_entry 33).user_supervisor ≡ 1
  pub dir_size : (t.page_directory_entry 33).page_size ≡ 0
  pub dir_table : (t.page_directory_entry 33).page_table_addr ≡ video_table_at / 2 ^ 12 % 2 ^ 20
  pub entry :
      (i : ℕ)
      → i < 3
      → let e = t.page_table_entry_for_video (256 + i) in
        (e.present ≡ 1) × (e.user_supervisor ≡ 1) × (e.page_addr * 0x1000 ≡ frame display i)

below_three : (P : ℕ → Type 0) → P 0 → P 1 → P 2 → (i : ℕ) → i < 3 → P i
below_three P p q r zero h = p
below_three P p q r (suc zero) h = q
below_three P p q r (suc (suc zero)) h = r
below_three P p q r (suc (suc (suc i))) h = absurd (omega arith)

module _ (page_table_at video_table_at : ℕ) where
  -- Showing a terminal with the addresses of `terminal_init` gives the three video pages their frames, and
  -- changes no entry of the page directory but that of their region.
  pub set_up-Framed :
      (display : ℕ) (t : Tables)
      → display < 3
      → Framed video_table_at display
          (set_up_virtual_to_video page_table_at video_table_at terminal_page display t)
        × ((j : ℕ)
            → j ≢ 33
            → (set_up_virtual_to_video page_table_at video_table_at terminal_page display
                  t).page_directory_entry
                j
              ≡ t.page_directory_entry j)
  unfolding set_up_virtual_to_video map_video put pte_of_val present_val
  set_up-Framed display t =
      below_three
        (λ d.
          Framed video_table_at d
            (set_up_virtual_to_video page_table_at video_table_at terminal_page d t)
          × ((j : ℕ)
              → j ≢ 33
              → (set_up_virtual_to_video page_table_at video_table_at terminal_page d
                    t).page_directory_entry
                  j
                ≡ t.page_directory_entry j))
        (
          record {
            dir_present = refl;
            dir_user = refl;
            dir_size = refl;
            dir_table = refl;
            entry = below_three (λ i. _) (refl, refl, refl) (refl, refl, refl) (refl, refl, refl);
          },
          λ j other. ground arith,
        )
        (
          record {
            dir_present = refl;
            dir_user = refl;
            dir_size = refl;
            dir_table = refl;
            entry = below_three (λ i. _) (refl, refl, refl) (refl, refl, refl) (refl, refl, refl);
          },
          λ j other. ground arith,
        )
        (
          record {
            dir_present = refl;
            dir_user = refl;
            dir_size = refl;
            dir_table = refl;
            entry = below_three (λ i. _) (refl, refl, refl) (refl, refl, refl) (refl, refl, refl);
          },
          λ j other. ground arith,
        )
        display

  -- Only the addresses of the three terminals matter.
  pub set_up_agree :
      (v w : ℕ → ℕ) (t : Tables)
      → v 0 ≡ w 0
      → v 1 ≡ w 1
      → v 2 ≡ w 2
      → set_up_virtual_to_video page_table_at video_table_at v 0 t
        ≡ set_up_virtual_to_video page_table_at video_table_at w 0 t
  unfolding set_up_virtual_to_video map_video
  set_up_agree v w t e0 e1 e2 = rw e0 (rw e1 (rw e2 refl))

  -- What the page of a terminal leads to, when the entries are as `Framed` says.
  walk-Framed :
      (display : ℕ) (t : Tables)
      → Framed video_table_at display t
      → video_table_at % 0x1000 ≡ 0
      → video_table_at < 0x100000000
      → (user : Bool) (i off : ℕ) → i < 3
      → off < 0x1000
      → walk page_table_at video_table_at user t (terminal_page i + off)
        ≡ some (frame display i + off)
  walk-Framed display t v aligned fits user i off hi ho =
      let (present, opened, framed) = v.entry i hi in
      ground (arith, v.dir_present, v.dir_user, v.dir_size, v.dir_table, present, opened, framed)

  frame_apart :
      (display i j : ℕ)
      → display < 3
      → i < 3
      → j < 3
      → i ≢ j
      → (frame display i + 0x1000 ≤ frame display j) ⊎ (frame display j + 0x1000 ≤ frame display i)
  frame_apart display i j hd hi hj other = ground (arith, hd, hi, hj, other)

  -- After `set_up_virtual_to_video` for the terminal `display`, with the video table on a page boundary of the 32-bit space, a program and the kernel alike
  -- reach the screen at 0xB8000 through the page of that terminal, and through the page of each other terminal its own buffer; no two of the three frames overlap, and a translation outside
  -- the 4 MB of these pages goes through the same entry of the directory as before.
  pub walk-set_up :
      (display : ℕ) (t : Tables)
      → display < 3
      → video_table_at % 0x1000 ≡ 0
      → video_table_at < 0x100000000
      → let up = set_up_virtual_to_video page_table_at video_table_at terminal_page display t in
        ((user : Bool) (i off : ℕ)
          → i < 3
          → off < 0x1000
          → walk page_table_at video_table_at user up (terminal_page i + off)
            ≡ some (frame display i + off))
        × ((i j : ℕ)
            → i < 3
            → j < 3
            → i ≢ j
            → (frame display i + 0x1000 ≤ frame display j)
              ⊎ (frame display j + 0x1000 ≤ frame display i))
        × ((va : ℕ)
            → va / 2 ^ 22 ≢ 33
            → up.page_directory_entry (va / 2 ^ 22) ≡ t.page_directory_entry (va / 2 ^ 22))
  walk-set_up display t shown aligned fits =
      let (framed, rest) = set_up-Framed display t shown in
      (
        λ user i off hi ho.
            walk-Framed display
              (set_up_virtual_to_video page_table_at video_table_at terminal_page display t) framed
              aligned fits user i off hi ho,
        λ i j hi hj other. frame_apart display i j shown hi hj other,
        λ va other. rest (va / 2 ^ 22) other,
      )
