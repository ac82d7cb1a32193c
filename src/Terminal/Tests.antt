-- ===== src/Terminal/Tests.antt =====
-- Runs of the terminal's code.
use judd_os.Prelude.{zero, suc, inr, ◌≡◌, ◌+◌, ◌*◌, refl, arith, true}
use judd_os.Prelude.Memory.{Memory}
use judd_os.Paging.{put}
use judd_os.Terminal.{
  set_terminal, Console, terminal_read, scroll_screen, terminal_open, terminal_close,
}
use judd_os.Terminal.Scroll.{scroll_screen_lem}
use judd_os.Terminal.Read.{terminal_read_lem, waiting, Running, line_of, ends}
use judd_os.Terminal.Sample.{three}

open_returns : (terminal_open three).0 ≡ 0
unfolding terminal_open
open_returns = refl

close_returns : (terminal_close three).0 ≡ 0
unfolding terminal_close
close_returns = refl

abbrev ramp : Memory
ramp x = x

scroll_screen_lem_example :
    scroll_screen 1000 ramp (1000 + (80 * 3 + 5) * 2) ≡ ramp (1000 + (80 * 4 + 5) * 2)
scroll_screen_lem_example = (scroll_screen_lem 1000 ramp).0 3 5 (omega arith) (omega arith)

-- An interrupt sets the flag; nothing else changes.
abbrev enter : Console → Console
enter c = record c { flags = record c.flags { enter_flag = 1 } }

typed-Running : Running (line_of (enter (waiting three))) 2
unfolding set_terminal put
typed-Running zero h = refl
typed-Running (suc zero) h = refl
typed-Running (suc (suc j)) h = absurd (omega (arith, h))

typed-ends : ends (line_of (enter (waiting three)) 2) ≡ true
unfolding set_terminal put
typed-ends = refl

terminal_read_lem_example : (terminal_read enter 0x500000 64 three).0 ≡ 3
terminal_read_lem_example =
    (terminal_read_lem enter 0x500000 64 2 three (omega arith) (omega arith) typed-Running
      (inr (omega arith, typed-ends))).0
