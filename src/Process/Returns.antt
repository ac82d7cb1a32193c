-- ===== src/Process/Returns.antt =====
-- `execute_setup` returns.
use judd_os.Prelude.{ℕ, suc, ◌≡◌, ◌∙◌, arith, refl, some, ◌==◌, ◌||◌, not, if_split, >>=-some}
use judd_os.FileSystem.Lookup.{IsQuery}
use judd_os.FileSystem.Total.{Some, file_open_total, read_data_total}
use judd_os.Process.{Kernel, Locals, open_program, execute_setup, parse_name, opened_inode}
use judd_os.Process.Setup.{SetupResult, execute_setup_lem}

open_program_total :
    (scan fuel : ℕ) (loc : Locals) (k : Kernel) (n : ℕ)
    → IsQuery scan k.fs loc.fname n k.fs.opened_file
    → Some (open_program scan (suc (suc fuel)) loc k)
unfolding open_program
open_program_total scan fuel loc k n q =
    let ((size, fs1), e1) = file_open_total scan k.fs loc.fname n q in
    let ((ret, fs2), e2) =
      read_data_total (suc fuel) fs1 (opened_inode fs1) 0 loc.exe_check 4 (omega arith) in
    (_, >>=-some _ e1 ∙ >>=-some _ e2)

-- When the memory that the parser leaves holds a file system with names that end within `scan` bytes, apart from the entry that is opened, and
-- the name of a program at `fname`, then two rounds are enough for `execute_setup` to return. Either it returns -1 and the
-- process numbers, the page tables, the control blocks, the terminals and the task state are as before; or it
-- returns 0, the smallest number not in use, which is below 6, is marked as used and has its memory mapped, and the rest is
-- as before.
pub execute_setup_returns :
    (scan fuel : ℕ) (loc : Locals) (command len n : ℕ) (k : Kernel)
    → IsQuery scan
        (record k.fs { mem = (parse_name len k.fs.mem command loc 0).mem })
        loc.fname
        n
        k.fs.opened_file
    → (r : ℕ × Kernel) × (execute_setup scan (suc (suc fuel)) loc command len k ≡ some r)
      × SetupResult k r
unfolding execute_setup
execute_setup_returns scan fuel loc command len n k q =
    let parsed = parse_name len k.fs.mem command loc 0 in
    let k' = record k {
      fs = record k.fs { mem = parsed.mem };
      size_of_args = parsed.size_of_args;
    } in
    let (r, e) : Some (execute_setup scan (suc (suc fuel)) loc command len k) =
      if_split Some ((command == 0) || ((k.fs.mem command == 0) || (k.fs.mem command == 32)))
        (λ bad. (_, refl))
        (λ good.
          if_split Some (not parsed.ok) (λ bad. (_, refl))
            (λ good. open_program_total scan fuel loc k' n q)) in
    (r, e, execute_setup_lem scan (suc (suc fuel)) loc command len k r e)
