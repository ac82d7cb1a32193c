-- ===== src/Pic/Tests.antt =====
-- Runs of the interrupt controllers' code.
use judd_os.Prelude.{◌≡◌, refl, [], arith}
use judd_os.Pic.{Pic, enable_irq, i8259_init}
use judd_os.Pic.Masks.{IsValid}

abbrev fresh : Pic
fresh = record { master_mask = 0xFF; slave_mask = 0xFF; writes = [] }

fresh-IsValid : IsValid fresh
fresh-IsValid = record { master = omega arith; slave = omega arith }

enable_keyboard : (enable_irq 1 fresh).master_mask ≡ 0xFD
unfolding enable_irq
enable_keyboard = refl

start : (i8259_init (λ port. 0xAA) fresh).master_mask ≡ 0xFB
unfolding i8259_init enable_irq
start = refl
