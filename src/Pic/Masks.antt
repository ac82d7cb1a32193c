-- ===== src/Pic/Masks.antt =====
-- What `enable_irq` and `disable_irq` do to the sixteen lines.
use judd_os.Prelude.{ℕ, ◌-◌, ◌<◌, ◌≡◌, refl, arith, Bool, true, if◌then◌else◌, ltb, ◌==◌, ◌≤◌}
use judd_os.Prelude.{==_iff, every_below, table_sound, bit_and, bit_or}
use judd_os.Prelude.Word.{bit}
use judd_os.Pic.{Pic, shift_in_one, shift_in_zero, enable_irq, disable_irq, i8259_init}

-- Both masks are bytes.
pub record IsValid (c : Pic) : Type 0 where
  pub master : c.master_mask < 256
  pub slave : c.slave_mask < 256

-- 1 if line `irq` is masked.
abbrev pub masked : Pic → ℕ → ℕ
masked c irq = if ltb irq 8 then bit irq c.master_mask else bit (irq - 8) c.slave_mask

abbrev enable_row : ℕ → ℕ → ℕ → Bool
enable_row k j m = bit j (bit_and m (shift_in_one k 0xFE)) == (if j == k then 0 else bit j m)

abbrev disable_row : ℕ → ℕ → ℕ → Bool
disable_row k j m = bit j (bit_or m (shift_in_zero k 0x01)) == (if j == k then 1 else bit j m)

enable_table : every_below 8 (λ k. every_below 8 (λ j. every_below 256 (enable_row k j))) ≡ true
unfolding every_below shift_in_one
enable_table = refl

disable_table : every_below 8 (λ k. every_below 8 (λ j. every_below 256 (disable_row k j))) ≡ true
unfolding every_below shift_in_zero
disable_table = refl

enable_bit :
    (k j m : ℕ)
    → k < 8
    → j < 8
    → m < 256
    → bit j (bit_and m (shift_in_one k 0xFE)) ≡ (if j == k then 0 else bit j m)
enable_bit k j m hk hj hm =
    (==_iff _ _).0 (table_sound 8 8 256 enable_row enable_table k j m hk hj hm)

disable_bit :
    (k j m : ℕ)
    → k < 8
    → j < 8
    → m < 256
    → bit j (bit_or m (shift_in_zero k 0x01)) ≡ (if j == k then 1 else bit j m)
disable_bit k j m hk hj hm =
    (==_iff _ _).0 (table_sound 8 8 256 disable_row disable_table k j m hk hj hm)

-- For each line `irq` from 0 to 15, `enable_irq` unmasks that line and leaves the fifteen others as they were.
pub masked-enable_irq :
    (irq j : ℕ) (c : Pic)
    → IsValid c
    → irq < 16
    → j < 16
    → masked (enable_irq irq c) j ≡ (if j == irq then 0 else masked c j)
unfolding enable_irq
masked-enable_irq irq j c v hi hj =
    ground (arith, enable_bit irq j c.master_mask, enable_bit (irq - 8) (j - 8) c.slave_mask)

-- For each line `irq` from 0 to 15, `disable_irq` masks that line and leaves the fifteen others as they were.
pub masked-disable_irq :
    (irq j : ℕ) (c : Pic)
    → IsValid c
    → irq < 16
    → j < 16
    → masked (disable_irq irq c) j ≡ (if j == irq then 1 else masked c j)
unfolding disable_irq
masked-disable_irq irq j c v hi hj =
    ground (arith, disable_bit irq j c.master_mask, disable_bit (irq - 8) (j - 8) c.slave_mask)

-- A number that is no line changes nothing.
pub enable_irq_out_of_range : (irq : ℕ) (c : Pic) → 16 ≤ irq → enable_irq irq c ≡ c
unfolding enable_irq
enable_irq_out_of_range irq c h = ground arith

pub disable_irq_out_of_range : (irq : ℕ) (c : Pic) → 16 ≤ irq → disable_irq irq c ≡ c
unfolding disable_irq
disable_irq_out_of_range irq c h = ground arith

-- `i8259_init` leaves the line of the slave unmasked, and the other lines as they were.
pub i8259_init-masks :
    (inb : ℕ → ℕ) (c : Pic)
    → ((i8259_init inb c).master_mask ≡ bit_and c.master_mask 0xFB)
      × ((i8259_init inb c).slave_mask ≡ c.slave_mask)
unfolding i8259_init enable_irq
i8259_init-masks inb c = (refl, refl)

-- The lines of the timer and of the keyboard in the mask of the master.
pub enable_irq-timer :
    (c : Pic)
    → ((enable_irq 0 c).master_mask ≡ bit_and c.master_mask 0xFE)
      × ((enable_irq 0 c).slave_mask ≡ c.slave_mask)
unfolding enable_irq shift_in_one
enable_irq-timer c = (refl, refl)

pub enable_irq-keyboard :
    (c : Pic)
    → ((enable_irq 1 c).master_mask ≡ bit_and c.master_mask 0xFD)
      × ((enable_irq 1 c).slave_mask ≡ c.slave_mask)
unfolding enable_irq shift_in_one
enable_irq-keyboard c = (refl, refl)
