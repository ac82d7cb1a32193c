-- ===== src/Keyboard/Start.antt =====
-- `keyboard_init`: the keyboard's line and the cursors.
use judd_os.Prelude.{◌≡◌, refl}
use judd_os.Pic.{Pic, enable_irq}
use judd_os.Terminal.{Console, set_terminal, update_cursor}
use judd_os.Keyboard.{keyboard_init, init_cursor, init_cursor_at}

-- The keyboard's line is unmasked, and memory and page tables stay.
pub keyboard_init_lem :
    (pic : Pic) (c : Console)
    → ((keyboard_init pic c).0 ≡ enable_irq 1 pic)
      × ((keyboard_init pic c).1.mem ≡ c.mem)
      × ((keyboard_init pic c).1.tables ≡ c.tables)
unfolding keyboard_init init_cursor init_cursor_at set_terminal update_cursor
keyboard_init_lem pic c = (refl, refl, refl)
