-- ===== src/Block/Tests.antt =====
-- Runs of `memset` and `memcpy`.
use judd_os.Prelude.{◌≡◌, ◌%◌, inl, arith}
use judd_os.Prelude.Memory.{Memory}
use judd_os.Block.{memset, memcpy, memmove}
use judd_os.Block.Move.{memmove_lem}
use judd_os.Block.Reference.{filled, copied}
use judd_os.Block.Fill.{memset_lem}
use judd_os.Block.Copy.{memcpy_lem}

-- Each cell holds the low byte of its address.
abbrev ramp : Memory
ramp x = x % 256

memset_lem_example : memset ramp 3 0x141 10 ≡ filled ramp 3 0x41 10
memset_lem_example = memset_lem ramp 3 0x141 10

memcpy_lem_example : memcpy ramp 3 101 10 ≡ copied ramp 3 101 10
memcpy_lem_example = memcpy_lem ramp 3 101 10 (inl (omega arith))

memmove_lem_example : memmove ramp 103 101 10 ≡ copied ramp 103 101 10
memmove_lem_example = memmove_lem ramp 103 101 10
