-- ===== src/Timer/Start.antt =====
-- `terminal_init`: the pages of the terminals when the kernel comes up.
use judd_os.Prelude.{zero, suc, subst, sym, ℕ, ◌<◌, ◌≡◌, zero, suc, refl, arith}
use judd_os.Paging.{put, set_up_virtual_to_video}
use judd_os.Paging.Video.{Framed, terminal_page, set_up-Framed, set_up_agree}
use judd_os.Terminal.{Console}
use judd_os.Timer.{init_terminals, fill_terminal_attribute, terminal_init, pit_init}
use judd_os.Pic.{Pic, enable_irq}

module _ (page_table_at video_table_at : ℕ) where
  -- The tables are those of `set_up_virtual_to_video` for terminal 0.
  pub terminal_init-tables :
      (c : Console)
      → (terminal_init page_table_at video_table_at c).tables
        ≡ set_up_virtual_to_video page_table_at video_table_at terminal_page 0 c.tables
  unfolding terminal_init fill_terminal_attribute init_terminals put
  terminal_init-tables c =
      set_up_agree page_table_at video_table_at _ terminal_page c.tables refl refl refl

  -- From any state, `terminal_init` displays terminal 0, gives each of the three terminals its page, and installs the
  -- frames that go with it.
  pub terminal_init-Framed :
      (c : Console)
      → let started = terminal_init page_table_at video_table_at c in
        (started.terminal_num_display ≡ 0)
        × Framed video_table_at 0 started.tables
        × ((i : ℕ) → i < 3 → (started.terminal_arr i).vidmem_addr ≡ terminal_page i)
  unfolding terminal_init fill_terminal_attribute init_terminals put
  terminal_init-Framed c = (
    refl,
    subst (Framed video_table_at 0) (sym (terminal_init-tables c))
        (set_up-Framed page_table_at video_table_at 0 c.tables (omega arith)).0,
    pages,
  )
    where
      pages :
          (i : ℕ)
          → i < 3
          → ((terminal_init page_table_at video_table_at c).terminal_arr i).vidmem_addr
            ≡ terminal_page i
      pages zero h = refl
      pages (suc zero) h = refl
      pages (suc (suc zero)) h = refl
      pages (suc (suc (suc i))) h = absurd (omega (arith, h))

-- The current terminal is terminal 0, and the timer's line is unmasked.
pub pit_init_lem :
    (pic : Pic)
    → ((pit_init pic).0 ≡ 0)
      × ((pit_init pic).1.master_mask ≡ (enable_irq 0 pic).master_mask)
      × ((pit_init pic).1.slave_mask ≡ (enable_irq 0 pic).slave_mask)
unfolding pit_init
pit_init_lem pic = (refl, refl, refl)
