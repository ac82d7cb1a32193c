-- ===== src/Prelude/Word.antt =====
-- The fixed widths of types.h. An `int32_t` is its bit pattern, a number below 2 ^ 32: the -1 that
-- the functions return is `fail`. A byte written to an i/o port is a `PortWrite`.
use Prim.Native.Nat.{ℕ, ◌-◌, ◌/◌, ◌%◌, ◌^◌, ◌+◌}
use mathlib.Core.Bool.{Bool}
use judd_os.Prelude.Tests.{leb}

abbrev pub u8 : ℕ → ℕ
u8 n = n % 2 ^ 8

abbrev pub u32 : ℕ → ℕ
u32 n = n % 2 ^ 32

-- Unsigned subtraction wraps; 2 ^ 32 is added first since `-` stops at 0.
abbrev pub sub32 : ℕ → ℕ → ℕ
sub32 a b = (a + 2 ^ 32 - b) % 2 ^ 32

abbrev pub fail : ℕ
fail = 2 ^ 32 - 1

abbrev pub is_negative : ℕ → Bool
is_negative w = leb (2 ^ 31) w

-- Bit `i` of a word.
abbrev pub bit : ℕ → ℕ → ℕ
bit i w = w / 2 ^ i % 2

pub record PortWrite : Type 0 where
  pub port : ℕ
  pub value : ℕ

-- `outb(value, port)`
abbrev pub outb : ℕ → ℕ → PortWrite
outb v p = record { port = p; value = u8 v }
