-- ===== src/Boot/Tests.antt =====
-- The start of the kernel at a concrete machine.
use judd_os.Prelude.{◌≡◌, refl, arith, some, inl}
use judd_os.Terminal.{Console}
use judd_os.Process.Sample.{locals, cpu_of}
use judd_os.Boot.Multiboot.{check_boot}
use judd_os.Boot.Multiboot.Shown.{Below}
use judd_os.Boot.Multiboot.Ends.{check_boot_lem, check_of}
use judd_os.Boot.Entry.{halted, entry}
use judd_os.Boot.Entry.Shell.{entry_halts}
use judd_os.Boot.Sample.{pc, board, loader, loader-IsInfo, big, enough, high}

check_boot_lem_example :
    (c' : Console) × (check_boot 140 0x7FF000 board.lit 3 0x2BADB002 65536 0 pc.console
      ≡ some (check_of 3 12 140 0x7FF000 board.lit loader 65536 loader-IsInfo big enough high 0 c'))
    × Below pc.console.mem c'.mem
check_boot_lem_example =
    check_boot_lem 3 12 140 0x7FF000 board.lit loader 65536 loader-IsInfo big enough high 0x2BADB002
      0 pc.console refl (omega arith)

entry_halts_example :
    (c : Console) × (entry 3 64 140 locals (cpu_of 0) 0x406000 board 7 65536 pc ≡ some (halted c))
entry_halts_example =
    entry_halts 3 12 64 140 65536 board pc loader-IsInfo big enough high 7 0x406000 locals
      (cpu_of 0) (omega arith) (inl (λ e. omega (arith, e)))
