-- ===== src/Rtc/Wait.antt =====
-- `rtc_read` waits for the next interrupt of the clock.
use judd_os.Prelude.{
  ◌≡◌, arith, List, [], ◌∷◌, Bool, true, false, ◌⊎◌, inl, inr, ◌≢◌, some, none, ◌==◌, Bool-cases,
}
use judd_os.Pic.{Pic, out, send_eoi}
use judd_os.Pic.Eoi.{send_eoi_slave}
use judd_os.Rtc.{Rtc, Tick, quiet, interrupt, rtc_handler, irq_rtc_handler, rtc_read}

abbrev pub interrupted : List Tick → Bool
interrupted [] = false
interrupted (quiet ∷ ts) = interrupted ts
interrupted (interrupt ∷ ts) = true

abbrev after_eoi : Pic → Pic
after_eoi c = out 0x68 0x20 (out 0x62 0x20 (out 0x60 0xA0 c))

send_eoi_clock : (c : Pic) → send_eoi 8 c ≡ some (after_eoi c)
send_eoi_clock c = send_eoi_slave 8 c (omega arith)

abbrev after_irq : Rtc → Rtc
after_irq r = record { rtc_signal = 1; pic = out 0x0C 0x70 (after_eoi (after_eoi r.pic)) }

-- The handler returns, and leaves the signal set.
irq_rtc_handler_lem : (r : Rtc) → irq_rtc_handler r ≡ some (after_irq r)
unfolding irq_rtc_handler rtc_handler
irq_rtc_handler_lem r = ground (arith, send_eoi_clock r.pic, send_eoi_clock (after_eoi r.pic))

rtc_read_signalled :
    (ts : List Tick) (r : Rtc)
    → r.rtc_signal ≢ 0
    → rtc_read ts r ≡ some (0, record r { rtc_signal = 0 })
unfolding rtc_read
rtc_read_signalled [] r h = ground arith
rtc_read_signalled (quiet ∷ ts) r h = ground arith
rtc_read_signalled (interrupt ∷ ts) r h = ground arith

rtc_read_interrupt :
    (ts : List Tick) (r : Rtc)
    → r.rtc_signal ≡ 0
    → rtc_read (interrupt ∷ ts) r ≡ some (0, record { rtc_signal = 0; pic = (after_irq r).pic })
unfolding rtc_read
rtc_read_interrupt ts r e =
    ground (arith, irq_rtc_handler_lem r, rtc_read_signalled ts (after_irq r))

-- `rtc_read` returns 0 and clears the signal if the clock has interrupted since the last call, or
-- does so while it polls.
pub rtc_read_returns :
    (ts : List Tick) (r : Rtc)
    → (r.rtc_signal ≢ 0) ⊎ (interrupted ts ≡ true)
    → (c : Pic) × (rtc_read ts r ≡ some (0, record { rtc_signal = 0; pic = c }))
unfolding rtc_read
rtc_read_returns ts r (inl h) = (r.pic, rtc_read_signalled ts r h)
rtc_read_returns [] r (inr h) = absurd (cc)
rtc_read_returns (quiet ∷ ts) r (inr h) = elim (Bool-cases (r.rtc_signal == 0)) [
  | inl e ↦ (let (c, q) = rtc_read_returns ts r (inr h) in (c, ground (arith, q)))
  | inr e ↦ (r.pic, ground arith)
]
rtc_read_returns (interrupt ∷ ts) r (inr h) = elim (Bool-cases (r.rtc_signal == 0)) [
  | inl e ↦ (_, rtc_read_interrupt ts r (ground arith))
  | inr e ↦ (r.pic, ground arith)
]

-- With no interrupt before or during the polls it does not return.
pub rtc_read_waits :
    (ts : List Tick) (r : Rtc) → r.rtc_signal ≡ 0 → interrupted ts ≡ false → rtc_read ts r ≡ none
unfolding rtc_read
rtc_read_waits [] r e h = ground arith
rtc_read_waits (quiet ∷ ts) r e h = ground (arith, rtc_read_waits ts r e h)
rtc_read_waits (interrupt ∷ ts) r e h = cc
