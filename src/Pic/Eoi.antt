-- ===== src/Pic/Eoi.antt =====
-- The end-of-interrupt signal.
use judd_os.Prelude.{ℕ, ◌-◌, ◌≤◌, ◌<◌, ◌≡◌, arith, some, ◌∷◌, [], ◌++◌, bit_or}
use judd_os.Prelude.Word.{outb}
use judd_os.Pic.{Pic, send_eoi}

-- For a line of the master `send_eoi` writes one signal, to the master.
pub send_eoi_master :
    (irq : ℕ) (c : Pic)
    → irq < 8
    → send_eoi irq c ≡ some (record c { writes = c.writes ++ (outb (bit_or 0x60 irq) 0x20 ∷ []) })
unfolding send_eoi
send_eoi_master irq c h = ground arith

-- For a line of the slave it returns too.
pub send_eoi_slave :
    (irq : ℕ) (c : Pic)
    → 8 ≤ irq
    → send_eoi irq c
      ≡ some (record c {
        writes =
            ((c.writes ++ (outb (bit_or 0x60 (irq - 8)) 0xA0 ∷ [])) ++ (outb 0x62 0x20 ∷ []))
            ++ (outb (bit_or 0x60 irq) 0x20 ∷ []);
      })
unfolding send_eoi
send_eoi_slave irq c h = ground arith
