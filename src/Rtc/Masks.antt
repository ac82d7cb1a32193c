-- ===== src/Rtc/Masks.antt =====
-- The interrupt masks under the clock's functions.
use judd_os.Prelude.{◌≡◌, arith, List, ℕ, refl}
use judd_os.Prelude.Word.{PortWrite}
use judd_os.Pic.{Pic, enable_irq, disable_irq}
use judd_os.Pic.Masks.{masked, enable_irq_out_of_range, disable_irq_out_of_range}
use judd_os.Rtc.{Rtc, rtc_init, rtc_open, write_rate}

-- The functions pass the clock's port number, 112, where a line from 0 to 15 is meant.
pub enable_rtc_port : (c : Pic) → enable_irq 0x70 c ≡ c
enable_rtc_port c = enable_irq_out_of_range 0x70 c (omega arith)

pub disable_rtc_port : (c : Pic) → disable_irq 0x70 c ≡ c
disable_rtc_port c = disable_irq_out_of_range 0x70 c (omega arith)

module _ (inb : List PortWrite → ℕ → ℕ) where
  -- No line of the interrupt controllers is masked or unmasked by `rtc_init`, `rtc_open`, or a
  -- change of rate: the clock's own line 8 is not enabled by any of them.
  pub masked-rtc :
      (r : Rtc) (rate irq : ℕ)
      → (masked (rtc_init inb r).pic irq ≡ masked r.pic irq)
        × (masked (rtc_open inb r).1.pic irq ≡ masked r.pic irq)
        × (masked (write_rate inb rate r).pic irq ≡ masked r.pic irq)
  unfolding rtc_init rtc_open write_rate
  masked-rtc r rate irq = simp (enable_rtc_port, disable_rtc_port) (ground arith)

  -- Both mask variables stay.
  pub rtc_init-masks :
      (r : Rtc)
      → ((rtc_init inb r).pic.master_mask ≡ r.pic.master_mask)
        × ((rtc_init inb r).pic.slave_mask ≡ r.pic.slave_mask)
  unfolding rtc_init
  rtc_init-masks r = simp (enable_rtc_port, disable_rtc_port) (refl, refl)
