-- ===== src/Rtc.antt =====
-- rtc.c: the real-time clock as a character device.
mod Frequency
mod Wait
pub mod Masks
mod Tests
use mathlib.Core.Option
use judd_os.Prelude.{ℕ, zero, suc, ◌+◌, ◌-◌, ◌*◌, ◌/◌, ◌%◌, Bool, if◌then◌else◌, ltb, leb, not}
use judd_os.Prelude.{◌==◌, ◌||◌, List, [], ◌∷◌, bit_and, bit_or, Option, some, none}
use judd_os.Prelude.Word.{u8, fail, is_negative, PortWrite}
use judd_os.Prelude.Memory.{Memory, load32}
use judd_os.Pic.{Pic, out, enable_irq, disable_irq, send_eoi}

abbrev rtc_port : ℕ
rtc_port = 0x70

abbrev rtc_data_port : ℕ
rtc_data_port = 0x71

-- `rtc_signal`, and the state of i8259.c with the port writes.
pub record Rtc : Type 0 where
  pub rtc_signal : ℕ
  pub pic : Pic

abbrev on_pic : (Pic → Pic) → Rtc → Rtc
on_pic f r = record r { pic = f r.pic }

-- The loop of `rtc_write` on `freq`, `rate` and `rest`; `none` says that the fuel was too small.
pub log_loop : ℕ → ℕ → ℕ → ℕ → Option (ℕ × ℕ)
log_loop zero freq rate rest = none
log_loop (suc fuel) freq rate rest =
    let again = log_loop fuel (freq / 2) (rate + 1) (if not (freq % 2 == 0) then 1 else rest) in
    if ltb 1 freq then again else some (rate, rest)

-- `inb w p` is the byte that port `p` gives after the writes `w`.
module _ (inb : List PortWrite → ℕ → ℕ) where
  abbrev pub read_port : ℕ → Pic → ℕ
  read_port p c = u8 (inb c.writes p)

  -- Both functions have this body: register B, then the rate of register A.
  set_up : Rtc → Rtc
  set_up r =
      let c1 = out 0x8A rtc_port r.pic in
      let prev = read_port rtc_data_port c1 in
      let c2 = out (bit_or prev 0x40) rtc_data_port (out 0x8B rtc_port c1) in
      let c3 = out 0x8A rtc_port (disable_irq rtc_port (enable_irq rtc_port c2)) in
      let prev' = read_port rtc_data_port c3 in
      let c4 =
        out (bit_or (bit_and prev' 0xF0) (bit_and 15 0x0F)) rtc_data_port (out 0x8A rtc_port c3) in
      record { rtc_signal = 0; pic = enable_irq rtc_port c4 }

  pub rtc_init : Rtc → Rtc
  unfolding set_up
  rtc_init = set_up

  pub rtc_open : Rtc → ℕ × Rtc
  unfolding set_up
  rtc_open r = (0, set_up r)

  -- What `rtc_write` does with a rate that it accepts.
  pub write_rate : ℕ → Rtc → Rtc
  write_rate rate r =
      let c1 = out 0x8A rtc_port (disable_irq rtc_port r.pic) in
      let prev = read_port rtc_data_port c1 in
      let c2 = out (bit_or (bit_and prev 0xF0) rate) rtc_data_port (out 0x8A rtc_port c1) in
      record r { pic = enable_irq rtc_port c2 }

  -- `buf` is the address of the frequency, and `fuel` bounds the rounds of the loop.
  pub rtc_write : ℕ → Memory → ℕ → ℕ → Rtc → Option (ℕ × Rtc)
  unfolding write_rate
  rtc_write fuel m buf nbytes r =
      let freq = load32 m buf in
      let loop = log_loop fuel freq 0 0 in
      if not (nbytes == 4) || (is_negative freq || leb freq 1) then some (fail, r) else (elim loop [
        | none ↦ none
        | some (rate, rest) ↦
            if ltb rate 1 || (ltb 10 rate || not (rest == 0))
            then some (fail, r)
            else some (0, write_rate (bit_and (15 + 1 - rate) 0x0F) r)
      ])

pub rtc_close : ℕ → ℕ
rtc_close fd = 0

-- The byte read from the data port at the end is thrown away.
pub rtc_handler : Rtc → Option Rtc
rtc_handler r = elim (send_eoi 8 r.pic) [
  | none ↦ none
  | some c ↦ some (record { rtc_signal = 1; pic = out 0x0C rtc_port c })
]

-- `IRQ_RTC_handler` of interrupt_handler.c.
pub irq_rtc_handler : Rtc → Option Rtc
irq_rtc_handler r = elim (send_eoi 8 r.pic) [
  | none ↦ none
  | some c ↦ rtc_handler (record r { pic = c })
]

-- One poll of `while(!rtc_signal)`: whether the clock interrupts before the next one.
pub data Tick : Type 0 where
  quiet interrupt : Tick

-- `rtc_read` against the ticks that its polls meet; `none` says that it still waits after these.
pub rtc_read : List Tick → Rtc → Option (ℕ × Rtc)
rtc_read [] r = if not (r.rtc_signal == 0) then some (0, record r { rtc_signal = 0 }) else none
rtc_read (quiet ∷ ts) r =
    let rest = rtc_read ts r in
    if not (r.rtc_signal == 0) then some (0, record r { rtc_signal = 0 }) else rest
rtc_read (interrupt ∷ ts) r =
    let rest : Option (ℕ × Rtc) = elim (irq_rtc_handler r) [
      | none ↦ none
      | some r' ↦ rtc_read ts r'
    ] in
    if not (r.rtc_signal == 0) then some (0, record r { rtc_signal = 0 }) else rest
