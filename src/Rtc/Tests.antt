-- ===== src/Rtc/Tests.antt =====
-- Runs of the clock's code.
use judd_os.Prelude.{ℕ, ◌≡◌, refl, inl, arith, some, [], List, if◌then◌else◌, ◌==◌}
use judd_os.Prelude.Word.{PortWrite, fail}
use judd_os.Prelude.Memory.{Memory, load32}
use judd_os.Pic.{Pic}
use judd_os.Rtc.{Rtc, rtc_write, rtc_read}
use judd_os.Rtc.Frequency.{rtc_write_accepts, rtc_write_rejects, IsProgrammed}
use judd_os.Rtc.Wait.{rtc_read_returns}

abbrev still : Rtc
still = record {
  rtc_signal = 1;
  pic = record { master_mask = 0xFF; slave_mask = 0xFF; writes = [] };
}

abbrev ports : List PortWrite → ℕ → ℕ
ports ws port = 0x26

-- 8 at address 100, and 3 at 200.
abbrev rates : Memory
rates x = if x == 100 then 8 else if x == 200 then 3 else 0

rtc_write_accepts_example :
    (r : Rtc) × (rtc_write ports 10 rates 100 4 still ≡ some (0, r)) × IsProgrammed ports 8 still r
unfolding load32
rtc_write_accepts_example =
    rtc_write_accepts ports 10 3 rates 100 4 still (omega arith) (omega arith) refl refl
      (omega arith)

rtc_write_rejects_example : rtc_write ports 10 rates 200 5 still ≡ some (fail, still)
unfolding load32
rtc_write_rejects_example =
    rtc_write_rejects ports 10 rates 200 5 still (omega arith)
      (λ k low high three four. omega (arith, four))

rtc_read_returns_example :
    (c : Pic) × (rtc_read [] still ≡ some (0, record { rtc_signal = 0; pic = c }))
rtc_read_returns_example = rtc_read_returns [] still (inl (omega arith))
