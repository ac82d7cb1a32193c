-- ===== src/Process/Launch/Sample.antt =====
-- The command "a b" on the kernel at boot.
use judd_os.Prelude.{ℕ, ◌+◌, ◌<◌, ◌≡◌, ◌≢◌, ◌%◌, arith, inl, inr, refl, if◌then◌else◌, ◌==◌}
use judd_os.Prelude.Memory.{IsBytes, load32}
use judd_os.CString.Length.{IsString}
use judd_os.FileSystem.Lookup.{IsDirectory}
use judd_os.FileSystem.Data.{IsFile}
use judd_os.Process.{start_process}
use judd_os.Process.Buffers.{IsCall}
use judd_os.Process.Launch.{IsLaunch}
use judd_os.Process.Sample.{boot, image, locals, one}
use judd_os.Paging.{put}

image-IsBytes : IsBytes image
image-IsBytes x = ground arith

command-IsString : IsString image 100 3
command-IsString = record { ends = refl; before = λ i h. ground (arith, h) }

command-IsCall : IsCall image 100 3 1 1 locals
command-IsCall = record {
  string = command-IsString;
  parts = inr (
    1,
    refl,
    record {
      name_goes = λ j h. ground (arith, h);
      name_plain = λ j h. ground (arith, h);
      space = refl;
      arguments = record { fits = omega arith; goes = λ j h. ground (arith, h); ends = inl refl };
    },
  );
  some_name = omega arith;
  short = omega arith;
  apart_name = omega arith;
  apart_args = omega arith;
  apart = omega arith;
}

abbrev dir : IsDirectory 64 image 65600 1
dir = record {
  lens = λ i. if i == 0 then 1 else 0;
  strings = λ i h. record { ends = ground (arith, h); before = λ j l. ground (arith, h, l) };
  short = λ i h. ground arith;
  enough = omega arith;
}

boot-IsFile : IsFile boot.fs 0
unfolding load32
boot-IsFile = record { exists = omega arith; fits = omega arith; blocks = λ q h. ground (arith, h) }

-- With the first free number `p`.
pub sample-IsLaunch :
    (p : ℕ) (bits : ℕ → ℕ)
    → p < 6
    → bits p ≢ 1
    → ((i : ℕ) → i < p → bits i ≡ 1)
    → IsLaunch 64 100000 100 3 1 1 0 p locals boot.fs bits
unfolding load32
sample-IsLaunch p bits low free taken = record {
  call = command-IsCall;
  command_not_null = omega arith;
  enough = omega arith;
  args_fit = omega arith;
  bytes = image-IsBytes;
  image = record { inodes_fit = omega arith; blocks_fit = omega arith; ends = omega arith };
  dir = dir;
  few = omega arith;
  low = omega arith;
  named = record { size = refl; bytes = λ i h. ground (arith, h) };
  first_named = λ i h. absurd (omega (arith, h));
  program = record {
    file = boot-IsFile;
    long = omega arith;
    in_page = omega arith;
    magic0 = refl;
    magic1 = refl;
    magic2 = refl;
    magic3 = refl;
  };
  layout = record {
    name_image = omega arith;
    args_image = omega arith;
    opened_image = omega arith;
    check_image = omega arith;
    page_image = omega arith;
    pcb_image = omega (arith, low);
    opened_name = omega arith;
    opened_args = omega arith;
    check_args = omega arith;
    check_opened = omega arith;
    page_args = omega arith;
    page_opened = omega arith;
    pcb_args = omega (arith, low);
    pcb_opened = omega (arith, low);
    pcb_page = omega (arith, low);
    opened_not_null = omega arith;
    check_not_null = omega arith;
  };
  free_low = low;
  free = free;
  taken = taken;
}

pub boot-IsLaunch : IsLaunch 64 100000 100 3 1 1 0 0 locals boot.fs boot.pid_bits
boot-IsLaunch =
    sample-IsLaunch 0 boot.pid_bits (omega arith) (λ e. omega (arith, e))
      (λ i h. absurd (omega (arith, h)))

-- When the first process runs.
pub one-IsLaunch : IsLaunch 64 100000 100 3 1 1 0 1 locals one.fs one.pid_bits
unfolding start_process put
one-IsLaunch =
    sample-IsLaunch 1 one.pid_bits (omega arith) (λ e. omega (arith, e)) (λ i h. ground (arith, h))

pub one_next : (one.terminals ((one.terminal_num + 1) % 3)).active ≡ 0
unfolding start_process put
one_next = refl
