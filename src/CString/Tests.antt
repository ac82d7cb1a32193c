-- ===== src/CString/Tests.antt =====
-- Runs on the string "hi" at 100.
use judd_os.Prelude.{refl, arith, if◌then◌else◌, ◌==◌}
use judd_os.Prelude.Memory.{Memory, IsBytes}
use judd_os.CString.Length.{IsString}

abbrev hello : Memory
hello x = if x == 100 then 104 else if x == 101 then 105 else 0

hello-IsBytes : IsBytes hello
hello-IsBytes x = ground arith

hello-IsString : IsString hello 100 2
hello-IsString = record { ends = refl; before = λ i h. ground arith }
