-- ===== src/Timer/Tests.antt =====
-- Runs of the timer's code.
use judd_os.Prelude.{◌≡◌, refl, []}
use judd_os.Pic.{enable_irq}
use judd_os.Timer.{pit_init}

pit_starts :
    (pit_init (record { master_mask = 0xFF; slave_mask = 0xFF; writes = [] })).1.master_mask ≡ 0xFE
unfolding pit_init enable_irq
pit_starts = refl
