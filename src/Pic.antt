-- ===== src/Pic.antt =====
-- i8259.c: the two cascaded interrupt controllers.
pub mod Masks
pub mod Eoi
mod Tests
use mathlib.Core.Option
use judd_os.Prelude.{Option, none, some}
use judd_os.Prelude.{ℕ, zero, suc, ◌+◌, ◌-◌, ◌*◌, if◌then◌else◌, ltb, leb}
use judd_os.Prelude.{◌&&◌, ◌||◌, List, [], ◌∷◌, ◌++◌, bit_and, bit_or}
use judd_os.Prelude.Word.{u8, PortWrite, outb}

abbrev pub master_8259_port : ℕ
master_8259_port = 0x20

abbrev pub slave_8259_port : ℕ
slave_8259_port = 0xA0

abbrev pub slave_boundary : ℕ
slave_boundary = 8

-- The two mask variables, and the bytes written to the ports, oldest first.
pub record Pic : Type 0 where
  pub master_mask : ℕ
  pub slave_mask : ℕ
  pub writes : List PortWrite

abbrev pub out : ℕ → ℕ → Pic → Pic
out v p c = record c { writes = c.writes ++ (outb v p ∷ []) }

-- The loop of `enable_irq`: `mask = (mask << 1) + 1`, with so many rounds left.
shift_in_one : ℕ → ℕ → ℕ
shift_in_one zero mask = mask
shift_in_one (suc n) mask = shift_in_one n (u8 (mask * 2 + 1))

-- The loop of `disable_irq`: `mask = mask << 1`.
shift_in_zero : ℕ → ℕ → ℕ
shift_in_zero zero mask = mask
shift_in_zero (suc n) mask = shift_in_zero n (u8 (mask * 2))

-- `irq_num < MASTER_IR0` is false of every unsigned number.
unfoldable pub enable_irq : ℕ → Pic → Pic
unfolding shift_in_one
enable_irq irq_num c =
    if ltb irq_num 0 || ltb 15 irq_num
    then c
    else if leb 0 irq_num && leb irq_num 7
    then (let mask = bit_and c.master_mask (shift_in_one irq_num 0xFE) in
        out mask (master_8259_port + 1) (record c { master_mask = mask }))
    else (let mask = bit_and c.slave_mask (shift_in_one (irq_num - slave_boundary) 0xFE) in
        out mask (slave_8259_port + 1) (record c { slave_mask = mask }))

unfoldable pub disable_irq : ℕ → Pic → Pic
unfolding shift_in_zero
disable_irq irq_num c =
    if ltb irq_num 0 || ltb 15 irq_num
    then c
    else if leb 0 irq_num && leb irq_num 7
    then (let mask = bit_or c.master_mask (shift_in_zero irq_num 0x01) in
        out mask (master_8259_port + 1) (record c { master_mask = mask }))
    else (let mask = bit_or c.slave_mask (shift_in_zero (irq_num - slave_boundary) 0x01) in
        out mask (slave_8259_port + 1) (record c { slave_mask = mask }))

-- `send_eoi` calls itself for a line of the slave. The first argument bounds the depth of the calls;
-- `none` says that it was too small.
send_eoi_call : ℕ → ℕ → Pic → Option Pic
send_eoi_call zero irq_num c = none
send_eoi_call (suc depth) irq_num c =
    let inner =
      send_eoi_call depth 2 (out (bit_or 0x60 (irq_num - slave_boundary)) slave_8259_port c) in
    let after = if leb slave_boundary irq_num then inner else some c in
    Option.map (out (bit_or 0x60 irq_num) master_8259_port) after

unfoldable pub send_eoi : ℕ → Pic → Option Pic
unfolding send_eoi_call
send_eoi = send_eoi_call 2

-- `inb` gives what the data ports hold when the routine starts.
pub i8259_init : (ℕ → ℕ) → Pic → Pic
i8259_init inb c =
    let master_backup = u8 (inb 0x21) in
    let slave_backup = u8 (inb 0xA1) in
    let masked = out 0xFF 0xA1 (out 0xFF 0x21 c) in
    let first = out 0x11 slave_8259_port (out 0x11 master_8259_port masked) in
    let second = out 0x28 0xA1 (out 0x20 0x21 first) in
    let third = out 0x02 0xA1 (out 0x04 0x21 second) in
    let fourth = out 0x01 0xA1 (out 0x01 0x21 third) in
    out slave_backup 0xA1 (out master_backup 0x21 (enable_irq 0x02 fourth))
